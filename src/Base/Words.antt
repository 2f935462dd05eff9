-- ===== src/Base/Words.antt =====
-- Go's strings.TrimSpace, Fields and Cut over lists of bytes; white space is that of ASCII.
pub mod Trimmed
use vapora.Base.{
  ℕ, ◌+◌, ◌≡◌, refl, Bool, true, false, not, ◌&&◌, ◌||◌, List, [], ◌∷◌, ◌++◌, leb, ◌==◌,
  if◌then◌else◌, Bytes, arith,
}

abbrev pub is_space : ℕ → Bool
is_space c = c == 0x20 || (leb 0x09 c && leb c 0x0D)

unfoldable pub trim_left : Bytes → Bytes
trim_left [] = []
trim_left (c ∷ cs) = if is_space c then trim_left cs else c ∷ cs

unfoldable pub trim_right : Bytes → Bytes
trim_right [] = []
trim_right (c ∷ cs) = elim (trim_right cs) [
  | [] ↦ if is_space c then [] else c ∷ []
  | ◌∷◌ d ds ↦ c ∷ d ∷ ds
]

unfoldable pub trim_space : Bytes → Bytes
trim_space s = trim_right (trim_left s)

unfoldable pub is_blank : Bytes → Bool
is_blank [] = true
is_blank (c ∷ cs) = false

-- `strings.Fields`, with the field read so far.
unfoldable pub fields_from : Bytes → Bytes → List Bytes
fields_from piece [] = if is_blank piece then [] else piece ∷ []
fields_from piece (c ∷ cs) =
    let next = fields_from [] cs in
    let longer = fields_from (piece ++ c ∷ []) cs in
    if is_space c then (if is_blank piece then next else piece ∷ next) else longer

abbrev pub fields : Bytes → List Bytes
fields s = fields_from [] s

-- `strings.Cut` at a byte: what stands before it, behind it, and whether it is there.
unfoldable pub cut : ℕ → Bytes → Bytes × Bytes × Bool
cut separator [] = ([], [], false)
cut separator (c ∷ cs) =
    let (before, after, found) = cut separator cs in
    if c == separator then ([], cs, true) else (c ∷ before, after, found)

unfoldable pub contains : ℕ → Bytes → Bool
contains x [] = false
contains x (c ∷ cs) = c == x || contains x cs

-- `strings.Join(_, "")`
unfoldable pub concat : List Bytes → Bytes
concat [] = []
concat (s ∷ ss) = s ++ concat ss

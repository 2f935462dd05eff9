-- ===== src/Base/Base32/Decode.antt =====
-- What Go's base32 reads back, and that it reads what was written.
use vapora.Base.{
  ℕ, ◌+◌, ◌*◌, ◌/◌, ◌%◌, ◌-◌, ◌<◌, ◌≡◌, refl, ◌&&◌, ◌||◌, Option, none, some, List, [], ◌∷◌, leb,
  ◌==◌, if◌then◌else◌, Bytes, All, arith, map, ap,
}
use vapora.Base.Base32.{base32, letter}
use vapora.Base.Wire.{IsByte}

unfoldable pub letter_value : ℕ → Option ℕ
letter_value c =
    if leb b'A' c && leb c b'Z'
    then some (c - b'A')
    else if leb b'2' c && leb c b'7'
    then some (c - b'2' + 26)
    else none

-- The values of the letters, or none if some character is no letter.
unfoldable pub letter_values : Bytes → Option (List ℕ)
letter_values [] = some []
letter_values (c ∷ cs) = elim (letter_value c) [
  | none ↦ none
  | some v ↦ elim (letter_values cs) [ none ↦ none | some vs ↦ some (v ∷ vs) ]
]

-- Eight letters are five bytes. A last group of 2, 4, 5 or 7 is 1, 2, 3 or 4 bytes, without the
-- bits that are left; one of 1, 3 or 6 letters, which nothing encodes to, adds no byte.
unfoldable pub pack : List ℕ → Bytes
pack (a ∷ b ∷ []) = (a * 8 + b / 4) ∷ []
pack (a ∷ b ∷ c ∷ d ∷ []) = (a * 8 + b / 4) ∷ (b % 4 * 64 + c * 2 + d / 16) ∷ []
pack (a ∷ b ∷ c ∷ d ∷ e ∷ []) =
    (a * 8 + b / 4) ∷ (b % 4 * 64 + c * 2 + d / 16) ∷ (d % 16 * 16 + e / 2) ∷ []
pack (a ∷ b ∷ c ∷ d ∷ e ∷ f ∷ g ∷ []) =
    (a * 8 + b / 4)
    ∷ (b % 4 * 64 + c * 2 + d / 16)
    ∷ (d % 16 * 16 + e / 2)
    ∷ (e % 2 * 128 + f * 4 + g / 8)
    ∷ []
pack (a ∷ b ∷ c ∷ d ∷ e ∷ f ∷ g ∷ h ∷ rest) =
    (a * 8 + b / 4)
    ∷ (b % 4 * 64 + c * 2 + d / 16)
    ∷ (d % 16 * 16 + e / 2)
    ∷ (e % 2 * 128 + f * 4 + g / 8)
    ∷ (g % 8 * 32 + h)
    ∷ pack rest
pack _ = []

-- Line ends are passed over.
unfoldable pub strip_newlines : Bytes → Bytes
strip_newlines [] = []
strip_newlines (c ∷ cs) =
    let rest = strip_newlines cs in if c == 10 || c == 13 then rest else c ∷ rest

unfoldable pub decode_base32 : Bytes → Option Bytes
decode_base32 s = elim (letter_values (strip_newlines s)) [ none ↦ none | some vs ↦ some (pack vs) ]

value_of_letter : (n : ℕ) → n < 32 → letter_value (letter n) ≡ some n
unfolding letter_value
value_of_letter n h = ground arith

-- The five bit groups that `base32` writes letters for.
unfoldable groups : Bytes → List ℕ
groups [] = []
groups (a ∷ []) = (a / 8) ∷ (a % 8 * 4) ∷ []
groups (a ∷ b ∷ []) = (a / 8) ∷ (a % 8 * 4 + b / 64) ∷ (b / 2 % 32) ∷ (b % 2 * 16) ∷ []
groups (a ∷ b ∷ c ∷ []) =
    (a / 8) ∷ (a % 8 * 4 + b / 64) ∷ (b / 2 % 32) ∷ (b % 2 * 16 + c / 16) ∷ (c % 16 * 2) ∷ []
groups (a ∷ b ∷ c ∷ d ∷ []) =
    (a / 8)
    ∷ (a % 8 * 4 + b / 64)
    ∷ (b / 2 % 32)
    ∷ (b % 2 * 16 + c / 16)
    ∷ (c % 16 * 2 + d / 128)
    ∷ (d / 4 % 32)
    ∷ (d % 4 * 8)
    ∷ []
groups (a ∷ b ∷ c ∷ d ∷ e ∷ rest) =
    (a / 8)
    ∷ (a % 8 * 4 + b / 64)
    ∷ (b / 2 % 32)
    ∷ (b % 2 * 16 + c / 16)
    ∷ (c % 16 * 2 + d / 128)
    ∷ (d / 4 % 32)
    ∷ (d % 4 * 8 + e / 32)
    ∷ (e % 32)
    ∷ groups rest

base32-groups : (bs : Bytes) → base32 bs ≡ map letter (groups bs)
unfolding base32 groups
base32-groups [] = refl
base32-groups (a ∷ []) = refl
base32-groups (a ∷ b ∷ []) = refl
base32-groups (a ∷ b ∷ c ∷ []) = refl
base32-groups (a ∷ b ∷ c ∷ d ∷ []) = refl
base32-groups (a ∷ b ∷ c ∷ d ∷ e ∷ rest) = rw (base32-groups rest) refl

groups-small : (bs : Bytes) → All IsByte bs → All (λ g. g < 32) (groups bs)
unfolding groups
groups-small [] h = tt
groups-small (a ∷ []) h = omega arith
groups-small (a ∷ b ∷ []) h = omega arith
groups-small (a ∷ b ∷ c ∷ []) h = omega arith
groups-small (a ∷ b ∷ c ∷ d ∷ []) h = omega arith
groups-small (a ∷ b ∷ c ∷ d ∷ e ∷ rest) (ha, (hb, (hc, (hd, (he, hr))))) = (
  omega arith,
  (
    omega arith,
    (
      omega arith,
      (
        omega arith,
        (omega arith, (omega arith, (omega arith, (omega arith, groups-small rest hr)))),
      ),
    ),
  ),
)

pack-groups : (bs : Bytes) → All IsByte bs → pack (groups bs) ≡ bs
unfolding pack groups
pack-groups [] h = refl
pack-groups (a ∷ []) h = ground arith
pack-groups (a ∷ b ∷ []) h = ground arith
pack-groups (a ∷ b ∷ c ∷ []) h = ground arith
pack-groups (a ∷ b ∷ c ∷ d ∷ []) h = ground arith
pack-groups (a ∷ b ∷ c ∷ d ∷ e ∷ rest) (ha, (hb, (hc, (hd, (he, hr))))) =
    ground (arith, pack-groups rest hr)

letter_values-map : (gs : List ℕ) → All (λ g. g < 32) gs → letter_values (map letter gs) ≡ some gs
unfolding letter_values
letter_values-map [] h = refl
letter_values-map (g ∷ gs) h =
    rw (value_of_letter g h.0, letter_values) (rw (letter_values-map gs h.1, letter_values) refl)

letters_stay : (gs : List ℕ) → All (λ g. g < 32) gs → strip_newlines (map letter gs) ≡ map letter gs
unfolding strip_newlines
letters_stay [] h = refl
letters_stay (g ∷ gs) h = ground (arith, letters_stay gs h.1)

pub decode_base32-base32 : (bs : Bytes) → All IsByte bs → decode_base32 (base32 bs) ≡ some bs
unfolding decode_base32
decode_base32-base32 bs h =
    let small = groups-small bs h in
    rw (base32-groups bs, decode_base32)
      (rw (letters_stay (groups bs) small, decode_base32)
        (rw (letter_values-map (groups bs) small, decode_base32) (ap some (pack-groups bs h))))

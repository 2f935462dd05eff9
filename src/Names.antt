-- ===== src/Names.antt =====
-- pkg/names/names.go: names of public keys. HKDF over a key, which may fail, is a parameter that
-- gives twelve bytes.
pub mod Words
pub mod Given
pub mod Apart
pub mod Order
mod Tests
use vapora.Base.{
  ℕ, ◌+◌, ◌%◌, ◌≡◌, Bool, true, false, ◌&&◌, ◌||◌, Option, none, some, List, [], ◌∷◌, ◌++◌, leb,
  ◌==◌, if◌then◌else◌, Bytes, bytes_eq, get_or,
}
use vapora.Base.Dict.{insert}
use vapora.Base.Wire.{u32_at}
use vapora.Names.Words.{adjectives, colours, animals}

abbrev pub word_of : List Bytes → ℕ → Bytes
word_of table i = get_or table i []

module _ (material : Bytes → Option Bytes) where
  -- `parts`, as the three places in the tables.
  unfoldable pub parts : Bytes → ℕ × ℕ × ℕ
  parts key = elim (material key) [
    | none ↦ (0, 0, 0)
    | some m ↦ (u32_at m 0 % 32, u32_at m 4 % 64, u32_at m 8 % 64)
  ]

  abbrev adjective : Bytes → Bytes
  adjective key = word_of adjectives (parts key).0

  abbrev colour : Bytes → Bytes
  colour key = word_of colours (parts key).1

  abbrev animal : Bytes → Bytes
  animal key = word_of animals (parts key).2

  unfoldable pub full : Bytes → Bytes
  full key = adjective key ++ (b' ' ∷ (colour key ++ (b' ' ∷ animal key)))

  -- `Of`
  unfoldable pub name_of : Bytes → ℕ → Bytes
  name_of key words =
      if leb words 1
      then animal key
      else if words == 2
      then colour key ++ (b' ' ∷ animal key)
      else full key

  -- `counts[name]`, over the keys that are left.
  unfoldable pub count : ℕ → Bytes → List Bytes → ℕ
  count words name [] = 0
  count words name (k ∷ ks) =
      (if bytes_eq (name_of k words) name then 1 else 0) + count words name ks

  abbrev pub chosen : ℕ → List Bytes → Bytes → Bool
  chosen words keys key = count words (name_of key words) keys == 1 || words == 3

  -- The inner loop of `Short`: the names given, and the keys that remain.
  unfoldable pub give_names :
      ℕ → List Bytes → List Bytes → List (Bytes × Bytes) → List (Bytes × Bytes) × List Bytes
  give_names words keys [] short = (short, [])
  give_names words keys (k ∷ ks) short =
      let c = chosen words keys k in
      let short' = if c then insert bytes_eq k (name_of k words) short else short in
      let (named, remaining) = give_names words keys ks short' in
      (named, if c then remaining else k ∷ remaining)

  -- The outer loop, for the numbers of words that are left.
  unfoldable pub short_from : List ℕ → List Bytes → List (Bytes × Bytes) → List (Bytes × Bytes)
  short_from [] keys short = short
  short_from (words ∷ more) keys short =
      let (named, remaining) = give_names words keys keys short in
      let rest = short_from more remaining named in elim remaining [ [] ↦ named | ◌∷◌ k ks ↦ rest ]

  unfoldable pub short_names : List Bytes → List (Bytes × Bytes)
  short_names keys = short_from (1 ∷ 2 ∷ 3 ∷ []) keys []

-- `IndexOfAnimal`
unfoldable pub index_from : Bytes → ℕ → List Bytes → ℕ
index_from name i [] = 0
index_from name i (a ∷ as') =
    let later = index_from name (i + 1) as' in if bytes_eq a name then i else later

unfoldable pub index_of_animal : Bytes → ℕ
index_of_animal name = index_from name 0 animals

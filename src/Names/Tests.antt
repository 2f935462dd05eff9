-- ===== src/Names/Tests.antt =====
-- Three keys for pkg/names/names.go, two of them with the same animal.
use vapora.Base.{ℕ, ◌≡◌, refl, Option, some, List, [], ◌∷◌, Bytes, bytes_eq, take, replicate}
use vapora.Base.Dict.{lookup}
use vapora.Names.{short_names, full, short_from, give_names, count, name_of, parts}
use vapora.Names.Given.{mem}
use vapora.Names.Apart.{short_names-Apart}

-- Material that is the key's own first bytes.
abbrev material : Bytes → Option Bytes
material key = some (take 12 key)

abbrev key_of : ℕ → ℕ → Bytes
key_of colour animal = 0 ∷ 0 ∷ 0 ∷ 0 ∷ 0 ∷ 0 ∷ 0 ∷ colour ∷ 0 ∷ 0 ∷ 0 ∷ animal ∷ replicate 20 0

abbrev present : List Bytes
present = key_of 1 5 ∷ key_of 2 5 ∷ key_of 3 9 ∷ []

short_names_run :
    lookup bytes_eq (key_of 2 5) (short_names material present)
    ≡ some (b'C' ∷ b'H' ∷ b'E' ∷ b'R' ∷ b'R' ∷ b'Y' ∷ b' ' ∷ b'L' ∷ b'Y' ∷ b'N' ∷ b'X' ∷ [])
unfolding short_names short_from give_names count name_of parts bytes_eq
short_names_run = refl

-- The same key twice.
short_names-Apart_example :
    (n : Bytes) × (lookup bytes_eq
        (key_of 1 5)
        (short_names material (key_of 1 5 ∷ key_of 1 5 ∷ []))
      ≡ some n)
    × (full material (key_of 1 5) ≡ full material (key_of 1 5))
short_names-Apart_example =
    short_names-Apart material (key_of 1 5 ∷ key_of 1 5 ∷ []) (key_of 1 5) (key_of 1 5)
      (unfold mem bytes_eq in refl) (unfold mem bytes_eq in refl) refl

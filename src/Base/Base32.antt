-- ===== src/Base/Base32.antt =====
-- Go's encoding/base32 over its standard alphabet and without padding, as the program sets it up.
pub mod Decode
use vapora.Base.{ℕ, ◌+◌, ◌*◌, ◌/◌, ◌%◌, ◌-◌, [], ◌∷◌, ltb, if◌then◌else◌, Bytes}

abbrev pub letter : ℕ → ℕ
letter n = if ltb n 26 then b'A' + n else b'2' + (n - 26)

-- Five bits at a time, the highest first; the last letter is filled up with zeros.
unfoldable pub base32 : Bytes → Bytes
base32 [] = []
base32 (a ∷ []) = letter (a / 8) ∷ letter (a % 8 * 4) ∷ []
base32 (a ∷ b ∷ []) =
    letter (a / 8) ∷ letter (a % 8 * 4 + b / 64) ∷ letter (b / 2 % 32) ∷ letter (b % 2 * 16) ∷ []
base32 (a ∷ b ∷ c ∷ []) =
    letter (a / 8)
    ∷ letter (a % 8 * 4 + b / 64)
    ∷ letter (b / 2 % 32)
    ∷ letter (b % 2 * 16 + c / 16)
    ∷ letter (c % 16 * 2)
    ∷ []
base32 (a ∷ b ∷ c ∷ d ∷ []) =
    letter (a / 8)
    ∷ letter (a % 8 * 4 + b / 64)
    ∷ letter (b / 2 % 32)
    ∷ letter (b % 2 * 16 + c / 16)
    ∷ letter (c % 16 * 2 + d / 128)
    ∷ letter (d / 4 % 32)
    ∷ letter (d % 4 * 8)
    ∷ []
base32 (a ∷ b ∷ c ∷ d ∷ e ∷ rest) =
    letter (a / 8)
    ∷ letter (a % 8 * 4 + b / 64)
    ∷ letter (b / 2 % 32)
    ∷ letter (b % 2 * 16 + c / 16)
    ∷ letter (c % 16 * 2 + d / 128)
    ∷ letter (d / 4 % 32)
    ∷ letter (d % 4 * 8 + e / 32)
    ∷ letter (e % 32)
    ∷ base32 rest

-- ===== src/Base/Wire.antt =====
-- Go's encoding/binary.BigEndian over lists of bytes.
use vapora.Base.{ℕ, ◌+◌, ◌*◌, ◌/◌, ◌%◌, ◌^◌, ◌<◌, [], ◌∷◌, ◌++◌, get_or, Bytes}

abbrev pub IsByte : ℕ → Type 0
IsByte b = b < 256

-- The byte at an index; the code tests the length before it reads, where Go would panic.
abbrev pub byte_at : Bytes → ℕ → ℕ
byte_at bs i = get_or bs i 0

abbrev pub put_u16 : ℕ → Bytes
put_u16 v = (v / 256 % 256) ∷ (v % 256) ∷ []

abbrev pub put_u32 : ℕ → Bytes
put_u32 v = (v / 2 ^ 24 % 256) ∷ (v / 2 ^ 16 % 256) ∷ (v / 256 % 256) ∷ (v % 256) ∷ []

abbrev pub put_u64 : ℕ → Bytes
put_u64 v = put_u32 (v / 2 ^ 32) ++ put_u32 (v % 2 ^ 32)

abbrev pub u16_at : Bytes → ℕ → ℕ
u16_at bs i = byte_at bs i * 256 + byte_at bs (i + 1)

abbrev pub u32_at : Bytes → ℕ → ℕ
u32_at bs i = u16_at bs i * 2 ^ 16 + u16_at bs (i + 2)

abbrev pub u64_at : Bytes → ℕ → ℕ
u64_at bs i = u32_at bs i * 2 ^ 32 + u32_at bs (i + 4)

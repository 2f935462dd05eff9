-- ===== src/Tui/Keys/Tests.antt =====
-- A letter of two bytes and an arrow, cut in the middle of both.
use vapora.Base.{ℕ, ◌≡◌, refl, List, [], ◌∷◌, Bytes}
use vapora.Base.Utf8.{decode_rune, full_rune, decode_2, full_2}
use vapora.Base.Words.{concat}
use vapora.Tui.Keys.{
  Key, key_rune, key_left, plain, decode_key, decode_escape, decode_text, drain, read_keys,
}
use vapora.Tui.Keys.Chunks.{drain_all, drain_all_ends, read_keys-drain_all}

abbrev chunks : List Bytes
chunks = (b'a' ∷ 0xC3 ∷ []) ∷ (0xA9 ∷ 0x1B ∷ []) ∷ (b'[' ∷ b'D' ∷ 0x1B ∷ []) ∷ []

abbrev letter : ℕ → Key
letter value = record { kind = key_rune; value = value }

chunks_read : read_keys [] chunks ≡ (letter b'a' ∷ letter 0xE9 ∷ plain key_left ∷ [], 0x1B ∷ [])
unfolding read_keys drain decode_key decode_escape decode_text decode_rune full_rune decode_2 full_2
chunks_read = refl

read_keys-drain_all_example : read_keys [] chunks ≡ drain_all (concat chunks)
read_keys-drain_all_example = read_keys-drain_all chunks

abbrev bytes : Bytes
bytes = b'a' ∷ 0xC3 ∷ 0xA9 ∷ 0x1B ∷ b'[' ∷ []

drain_all_ends_example : (decode_key (drain_all bytes).1).1 ≡ 0
drain_all_ends_example = drain_all_ends bytes

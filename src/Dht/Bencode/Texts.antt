-- ===== src/Dht/Bencode/Texts.antt =====
-- pkg/dht/bencode.go: strings and integers come back from their encodings.
use vapora.Base.{
  ℕ, ◌+◌, ◌^◌, ◌≤◌, ◌<◌, ◌≡◌, refl, true, false, some, [], ◌∷◌, ◌++◌, append_assoc, ◌==◌, length,
  take-append, drop-append, length-append, All, arith, Bytes,
}
use vapora.Base.Int.{ℤ, pos, negsuc}
use vapora.Base.Decimal.{
  decimal, signed, is_digit, Fits64, decimal-All, decimal-starts, read_decimal-decimal,
  read_signed-signed, length-decimal,
}
use vapora.Dht.Bencode.{encode_text, split_length, take_text, decode_text, until_e, decode_int}

split_length-append :
    (i : ℕ) (ds rest : Bytes)
    → All (λ c. is_digit c ≡ true) ds
    → i + length ds ≤ 11
    → split_length i (ds ++ b':' ∷ rest) ≡ some (ds, rest)
unfolding split_length
split_length-append i [] rest h l = refl
split_length-append i (d ∷ ds) rest (h, hs) l =
    ground (arith, split_length-append (i + 1) ds rest hs (omega arith))

pub decode_text-encode_text :
    (t rest : Bytes) → length t < 10 ^ 11 → decode_text (encode_text t ++ rest) ≡ some (t, rest)
unfolding decode_text encode_text take_text
decode_text-encode_text t rest h =
    let n = length t in
    ground (
      arith,
      append_assoc (decimal n) (b':' ∷ t) rest,
      split_length-append 0 (decimal n) (t ++ rest) (decimal-All n)
          (omega (arith, length-decimal 10 n h)),
      read_decimal-decimal n (omega arith),
      take-append t rest n refl,
      drop-append t rest n refl,
      length-append t rest,
    )

until_e-append :
    (ds rest : Bytes)
    → All (λ c. (c == b'e') ≡ false) ds
    → until_e (ds ++ b'e' ∷ rest) ≡ some (ds, rest)
unfolding until_e
until_e-append [] rest h = refl
until_e-append (d ∷ ds) rest (h, hs) = ground (arith, until_e-append ds rest hs)

digits_no_e : (ds : Bytes) → All (λ c. is_digit c ≡ true) ds → All (λ c. (c == b'e') ≡ false) ds
digits_no_e [] h = tt
digits_no_e (d ∷ ds) (h, hs) = (ground arith, digits_no_e ds hs)

signed_no_e : (z : ℤ) → All (λ c. (c == b'e') ≡ false) (signed z)
unfolding signed
signed_no_e (pos n) = digits_no_e (decimal n) (decimal-All n)
signed_no_e (negsuc n) = (refl, digits_no_e (decimal (n + 1)) (decimal-All (n + 1)))

pub decode_int-signed :
    (z : ℤ) (rest : Bytes) → Fits64 z → decode_int (signed z ++ b'e' ∷ rest) ≡ some (z, rest)
unfolding decode_int
decode_int-signed z rest h =
    ground (arith, until_e-append (signed z) rest (signed_no_e z), read_signed-signed z h)

pub encode_text-starts :
    (t rest : Bytes)
    → (c : ℕ) × (cs : Bytes) × (encode_text t ++ rest ≡ c ∷ cs) × (is_digit c ≡ true)
unfolding encode_text
encode_text-starts t rest =
    let (c, cs, e, d) = decimal-starts (length t) in (c, (cs ++ b':' ∷ t) ++ rest, rw e refl, d)

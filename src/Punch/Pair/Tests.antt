-- ===== src/Punch/Pair/Tests.antt =====
-- A concrete agreement that meets the law of pkg/punch/identity.go's X25519, and two members over it.
use vapora.Base.{ℕ, ◌+◌, ◌≡◌, refl, ap, some, [], ◌∷◌, length, drop, Bytes, bytes_eq, ok, arith}
use vapora.Punch.Codec.{SecretCodec}
use vapora.Punch.Codec.Channel.{seal_all, open_all, frames}
use vapora.Punch.Codec.Tests.{tagging, two_frames}
use vapora.Punch.Roster.{is_zero}
use vapora.Punch.Pair.{Curve, Identity, new_identity, pair_codec, shared, pair_keys}
use vapora.Punch.Pair.Agree.{pair_codec-open_all}

lengths_comm : (a b : Bytes) → some ((length a + length b) ∷ []) ≡ some ((length b + length a) ∷ [])
lengths_comm a b =
    let c : length a + length b ≡ length b + length a = omega arith in
    ap (λ (n : ℕ). some (n ∷ [])) c

-- A public key is the private one behind a 1, and two keys agree on the sum of their lengths.
abbrev sums : Curve
sums = record {
  public_of = λ a. 1 ∷ a;
  agree = λ a b. some ((length a + length (drop 1 b)) ∷ []);
  agree_comm = lengths_comm;
}

abbrev ann : Identity
ann = new_identity sums (5 ∷ [])

abbrev bob : Identity
bob = new_identity sums (7 ∷ 7 ∷ [])

abbrev room : Bytes
room = 4 ∷ []

abbrev ann_prefix : Bytes
ann_prefix = 1 ∷ 2 ∷ 3 ∷ 4 ∷ []

abbrev bob_prefix : Bytes
bob_prefix = 5 ∷ 6 ∷ 7 ∷ 8 ∷ []

abbrev ann_codec : SecretCodec
ann_codec = pair_keys tagging sums ann bob.public_key room (3 ∷ []) ann_prefix

abbrev bob_codec : SecretCodec
bob_codec = pair_keys tagging sums bob ann.public_key room (3 ∷ []) bob_prefix

ann_pairs : pair_codec tagging sums ann bob.public_key room ann_prefix ≡ ok ann_codec
unfolding pair_codec shared is_zero bytes_eq
ann_pairs = refl

bob_pairs : pair_codec tagging sums bob ann.public_key room bob_prefix ≡ ok bob_codec
unfolding pair_codec shared is_zero bytes_eq
bob_pairs = refl

pair_codec-open_all_example :
    open_all tagging bob_codec (seal_all tagging ann_codec two_frames)
    ≡ frames tagging ann_codec two_frames
pair_codec-open_all_example =
    pair_codec-open_all tagging sums (5 ∷ []) (7 ∷ 7 ∷ []) room ann_prefix bob_prefix ann_codec
      bob_codec two_frames ann_pairs bob_pairs refl (omega arith)

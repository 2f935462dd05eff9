-- ===== src/Punch/Pair.antt =====
-- pkg/punch/pairkey.go and identity.go: the channel between two members, keyed by both identities.
-- The direction strings are the codec's roles.
pub mod Agree
mod Tests
use vapora.Base.{
  ℕ, ◌+◌, ◌≡◌, Bool, true, false, Option, none, some, List, [], ◌∷◌, ◌++◌, ltb, ◌==◌, if◌then◌else◌,
  length, replicate, Bytes, bytes_eq, bytes_less, Result, ok, err,
}
use vapora.Base.Base32.{base32}
use vapora.Punch.Roster.{is_zero}
use vapora.Punch.Codec.{Crypto, SecretCodec, new_codec}

pub data KeyError : Type 0 where
  bad_public_key : KeyError

-- X25519 as the code calls it: the public half of a private key, and the agreement of a private
-- key with a public one, which fails on a public key that is not usable. Two sides agree.
pub record Curve : Type 0 where
  pub public_of : Bytes → Bytes
  pub agree : Bytes → Bytes → Option Bytes
  pub agree_comm : (a b : Bytes) → agree a (public_of b) ≡ agree b (public_of a)

pub record Identity : Type 0 where
  pub secret : Bytes
  pub public_key : Bytes

-- `NewIdentity`, with the private key that was drawn.
abbrev pub new_identity : Curve → Bytes → Identity
new_identity curve secret = record { secret = secret; public_key = curve.public_of secret }

abbrev direction_low : Bytes
direction_low = b'l' ∷ b'o' ∷ b'w' ∷ []

abbrev direction_high : Bytes
direction_high = b'h' ∷ b'i' ∷ b'g' ∷ b'h' ∷ []

-- `Direction.other`.
other_direction : Bytes → Bytes
other_direction d = if bytes_eq d direction_low then direction_high else direction_low

pub between : Bytes → Bytes → Bytes × Bytes
unfolding bytes_less
between a b = if bytes_less a b then (a, b) else (b, a)

direction : Bytes → Bytes → Bytes
direction mine peer = if bytes_less mine peer then direction_low else direction_high

-- `pairInfo`, "vapora pair v1".
abbrev pub pair_info : Bytes
pair_info =
    b'v' ∷ b'a' ∷ b'p' ∷ b'o' ∷ b'r' ∷ b'a' ∷ b' ' ∷ b'p' ∷ b'a' ∷ b'i' ∷ b'r' ∷ b' ' ∷ b'v' ∷ b'1'
    ∷ []

-- The format "%s %s %s " of `pairInfo` and the two keys, low first.
pub domain : Bytes → Bytes → Bytes
domain a b =
    let (low, high) = between a b in
    pair_info ++ b' ' ∷ base32 low ++ b' ' ∷ base32 high ++ b' ' ∷ []

module _ (crypto : Crypto) (curve : Curve) where
  open crypto use {derive_key}
  open curve use {agree}

  -- `shared`.
  shared : Identity → Bytes → Result KeyError Bytes
  shared i peer =
      if is_zero peer
      then err bad_public_key
      else elim (agree i.secret peer) [ none ↦ err bad_public_key | some key ↦ ok key ]

  pair_keys : Identity → Bytes → Bytes → Bytes → Bytes → SecretCodec
  pair_keys i peer room key prefix =
      let mine = direction i.public_key peer in
      let info = domain i.public_key peer in
      new_codec (derive_key key room (info ++ mine))
        (derive_key key room (info ++ other_direction mine)) prefix

  -- `PairCodec`, with the nonce prefix that was drawn.
  pub pair_codec : Identity → Bytes → Bytes → Bytes → Result KeyError SecretCodec
  unfolding shared pair_keys
  pair_codec i peer room prefix = elim (shared i peer) [
    | err e ↦ err e
    | ok key ↦
        if bytes_eq peer i.public_key
        then err bad_public_key
        else ok (pair_keys i peer room key prefix)
  ]

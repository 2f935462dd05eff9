-- ===== src/Punch/Pair/Agree.antt =====
-- pkg/punch/pairkey.go: both ends of a pair come to the same keys, each the other way round.
use vapora.Base.{
  ℕ, ◌≡◌, inl, inr, refl, sym, ◌∙◌, false, not, some, List, [], ◌∷◌, length, Bytes, bytes_eq,
  bytes_less, ok, arith, Option-cases, ◌<◌, ◌^◌,
}
use vapora.Punch.Codec.{Crypto, SecretCodec, new_codec, prefix_bytes, window_of}
use vapora.Punch.Codec.Channel.{Expects, seal_all, open_all, frames, open_all-seal_all}
use vapora.Punch.Pair.{
  Curve, Identity, new_identity, between, direction, other_direction, domain, shared, pair_keys,
  pair_codec,
}

bytes_less-cases : (a b : Bytes) → bytes_eq a b ≡ false → bytes_less b a ≡ not (bytes_less a b)
unfolding bytes_less bytes_eq
bytes_less-cases [] [] h = absurd cc
bytes_less-cases [] (b ∷ bs) h = refl
bytes_less-cases (a ∷ as') [] h = refl
bytes_less-cases (a ∷ as') (b ∷ bs) h = ground (arith, bytes_less-cases as' bs)

between_comm : (a b : Bytes) → bytes_eq a b ≡ false → between a b ≡ between b a
unfolding between
between_comm a b h = ground (arith, bytes_less-cases a b h)

-- What one side seals under, the other opens under.
other-direction :
    (a b : Bytes) → bytes_eq a b ≡ false → other_direction (direction a b) ≡ direction b a
unfolding direction other_direction bytes_eq
other-direction a b h = ground (arith, bytes_less-cases a b h)

domain_comm : (a b : Bytes) → bytes_eq a b ≡ false → domain a b ≡ domain b a
unfolding domain
domain_comm a b h = rw (between_comm a b h)

some_inj : {A : Type 0} {a b : A} → some a ≡ some b → a ≡ b
some_inj h = cc

module _ (crypto : Crypto) (curve : Curve) where
  pair_keys-mirror :
      (i j : Identity) (room key p q : Bytes)
      → bytes_eq i.public_key j.public_key ≡ false
      → bytes_eq j.public_key i.public_key ≡ false
      → (pair_keys crypto curve j i.public_key room key q).open_key
        ≡ (pair_keys crypto curve i j.public_key room key p).seal_key
  unfolding pair_keys new_codec
  pair_keys-mirror i j room key p q h g =
      rw (domain_comm i.public_key j.public_key h, other-direction j.public_key i.public_key g) refl

  -- What `PairCodec` returned, when it returned a codec.
  pair_codec-ok :
      (i : Identity) (peer room prefix : Bytes) (c : SecretCodec)
      → pair_codec crypto curve i peer room prefix ≡ ok c
      → (key : Bytes) × (curve.agree i.secret peer ≡ some key)
        × (bytes_eq peer i.public_key ≡ false)
        × (c ≡ pair_keys crypto curve i peer room key prefix)
  unfolding pair_codec shared
  pair_codec-ok i peer room prefix c h = elim (Option-cases (curve.agree i.secret peer)) [
    | inl e ↦ absurd (ground arith)
    | inr (key, e) ↦ (key, e, ground arith, ground arith)
  ]

  pair_codec-Expects :
      (x y room p q : Bytes) (c d : SecretCodec)
      → let i = new_identity curve x in
        let j = new_identity curve y in
        pair_codec crypto curve i j.public_key room p ≡ ok c
        → pair_codec crypto curve j i.public_key room q ≡ ok d
        → length p ≡ prefix_bytes
        → Expects crypto c d × (c.counter ≡ 0)
  unfolding new_codec window_of
  pair_codec-Expects x y room p q c d h g l =
      let i = new_identity curve x in
      let j = new_identity curve y in
      let (key, agreed, ne, is_c) = pair_codec-ok i j.public_key room p c h in
      let (key', agreed', ne', is_d) = pair_codec-ok j i.public_key room q d g in
      let same : key' ≡ key = some_inj (sym agreed' ∙ curve.agree_comm y x ∙ agreed) in
      rw (is_c, is_d, same)
        (unfold pair_keys in
          (
            record {
              key_is = pair_keys-mirror i j room key p q ne' ne;
              prefix_length = l;
              not_ahead = omega arith;
            },
            refl,
          ))

  -- Two members with different public keys, whose agreement succeeded at both ends, and who share
  -- the room's secret: whatever one seals in the pair's codec opens at the other, each frame once
  -- and in order, for up to 2^64 - 1 frames. Neither end was told which of the two it is.
  pub pair_codec-open_all :
      (x y room p q : Bytes) (c d : SecretCodec) (fs : List (ℕ × Bytes))
      → pair_codec crypto curve (new_identity curve x) (curve.public_of y) room p ≡ ok c
      → pair_codec crypto curve (new_identity curve y) (curve.public_of x) room q ≡ ok d
      → length p ≡ prefix_bytes
      → length fs < 2 ^ 64
      → open_all crypto d (seal_all crypto c fs) ≡ frames crypto c fs
  pair_codec-open_all x y room p q c d fs h g l n =
      let (expects, fresh) = pair_codec-Expects x y room p q c d h g l in
      open_all-seal_all crypto c d fs expects (omega (arith, fresh))

-- ===== src/Punch/Codec/Authentic.antt =====
-- pkg/punch/crypto.go: a frame opens once, whatever comes in between.
use vapora.Base.{
  ℕ, ◌+◌, ◌≡◌, inl, inr, refl, true, false, some, List, [], ◌∷◌, ltb, length, take, drop, Bytes, ok,
  err, arith, Option-cases, Bool-cases, bytes_eq, bytes_eq_iff,
}
use vapora.Base.Wire.{u64_at}
use vapora.Base.Dict.{lookup-insert}
use vapora.Punch.Replay.{accept}
use vapora.Punch.Replay.Once.{Refuses, Refuses-accept, Refuses-accept-false, accept-Refuses}
use vapora.Punch.Codec.{
  Crypto, SecretCodec, replayed, Opened, window_of, accept_nonce, seal, opened, open_wire,
}
use vapora.Punch.Codec.Channel.{window_of-accept_nonce}

-- The window of another sender is left as it is.
window_of-accept_nonce_other :
    (c : SecretCodec) (p q : Bytes) (n : ℕ)
    → bytes_eq p q ≡ false
    → window_of (accept_nonce c p n).0 q ≡ window_of c q
unfolding window_of accept_nonce
window_of-accept_nonce_other c p q n other =
    ground (arith, lookup-insert bytes_eq bytes_eq_iff p q (accept (window_of c p) n).0 c.seen)

-- What a codec does between two arrivals of a datagram.
pub data Traffic : Type 0 where
  arrives : Bytes → Traffic
  sends : ℕ → Bytes → Traffic

module _ (crypto : Crypto) where
  open crypto use {aead_open, overhead}

  -- On a wire long enough whose text opens, `Open` goes on to the nonce.
  open_wire_on :
      (b : SecretCodec) (wire plain : Bytes)
      → ltb (length wire) (12 + overhead) ≡ false
      → aead_open b.open_key (take 12 wire) (drop 12 wire) ≡ some plain
      → open_wire crypto b wire ≡ opened crypto b (take 12 wire) plain
  unfolding open_wire
  open_wire_on b wire plain long e = ground arith

  abbrev Enters : SecretCodec → Bytes → Opened → Type 0
  Enters b wire f =
      (plain : Bytes) × (ltb (length wire) (12 + overhead) ≡ false)
      × (aead_open b.open_key (take 12 wire) (drop 12 wire) ≡ some plain)
      × ((opened crypto b (take 12 wire) plain).1 ≡ ok f)

  open_wire-Enters :
      (b : SecretCodec) (wire : Bytes) (f : Opened)
      → (open_wire crypto b wire).1 ≡ ok f
      → Enters b wire f
  unfolding open_wire
  open_wire-Enters b wire f h =
      elim (Option-cases (aead_open b.open_key (take 12 wire) (drop 12 wire))) [
        | inl e ↦ absurd (ground arith)
        | inr (plain, e) ↦ (plain, ground arith, e, ground arith)
      ]

  opened_ok :
      (b : SecretCodec) (nonce plain : Bytes) {f : Opened}
      → (opened crypto b nonce plain).1 ≡ ok f
      → (accept (window_of b (take 4 nonce)) (u64_at nonce 4)).1 ≡ true
  unfolding opened accept_nonce
  opened_ok b nonce plain h = ground arith

  -- Whether it is a replay or not, a text that opened passes through the window of its sender.
  opened-accept_nonce :
      (b : SecretCodec) (nonce plain : Bytes)
      → (opened crypto b nonce plain).0 ≡ (accept_nonce b (take 4 nonce) (u64_at nonce 4)).0
  unfolding opened
  opened-accept_nonce b nonce plain = ground arith

  -- A nonce that its window refuses is a replay.
  opened_stale :
      (b : SecretCodec) (nonce plain : Bytes)
      → (accept (window_of b (take 4 nonce)) (u64_at nonce 4)).1 ≡ false
      → (opened crypto b nonce plain).1 ≡ err replayed
  unfolding opened accept_nonce
  opened_stale b nonce plain e = rw e

  -- The codec opens under this key, and has seen this nonce of this sender.
  record Seen (key prefix : Bytes) (n : ℕ) (b : SecretCodec) : Type 0 where
    pub key_is : b.open_key ≡ key
    pub refuses : Refuses (window_of b prefix) n

  Seen-accept_nonce :
      (key prefix : Bytes) (n : ℕ) (b : SecretCodec) (p : Bytes) (m : ℕ)
      → Seen key prefix n b
      → Seen key prefix n (accept_nonce b p m).0
  Seen-accept_nonce key prefix n b p m h = record {
    key_is = unfold accept_nonce in h.key_is;
    refuses = elim (Bool-cases (bytes_eq p prefix)) [
      | inl same ↦
          let one : p ≡ prefix = (bytes_eq_iff p prefix).0 same in
          rw (one, window_of-accept_nonce b prefix m)
            (Refuses-accept (window_of b prefix) n m h.refuses)
      | inr other ↦ rw (window_of-accept_nonce_other b p prefix m other) h.refuses
    ];
  }

  Seen-open_wire :
      (key prefix : Bytes) (n : ℕ) (b : SecretCodec) (wire : Bytes)
      → Seen key prefix n b
      → Seen key prefix n (open_wire crypto b wire).0
  unfolding open_wire
  Seen-open_wire key prefix n b wire h = elim (Bool-cases (ltb (length wire) (12 + overhead))) [
    | inl short ↦ rw short h
    | inr long ↦ rw long (elim (Option-cases (aead_open b.open_key (take 12 wire) (drop 12 wire))) [
      | inl e ↦ rw (e, open_wire) h
      | inr (plain, e) ↦
          rw (e, open_wire)
            (rw (opened-accept_nonce b (take 12 wire) plain) (
              Seen-accept_nonce key prefix n b (take 4 (take 12 wire)) (u64_at (take 12 wire) 4) h))
    ])
  ]

  unfoldable pub passes : SecretCodec → List Traffic → SecretCodec
  passes b [] = b
  passes b (arrives wire ∷ between) = passes (open_wire crypto b wire).0 between
  passes b (sends kind payload ∷ between) = passes (seal crypto b kind payload).0 between

  Seen-passes :
      (key prefix : Bytes) (n : ℕ) (b : SecretCodec) (between : List Traffic)
      → Seen key prefix n b
      → Seen key prefix n (passes b between)
  unfolding passes
  Seen-passes key prefix n b [] h = h
  Seen-passes key prefix n b (arrives wire ∷ between) h =
      Seen-passes key prefix n (open_wire crypto b wire).0 between
        (Seen-open_wire key prefix n b wire h)
  Seen-passes key prefix n b (sends kind payload ∷ between) h =
      Seen-passes key prefix n (seal crypto b kind payload).0 between
        (unfold seal window_of in record { key_is = h.key_is; refuses = h.refuses })

  -- The nonce of a wire that opened has been seen.
  open_wire-Seen :
      (b : SecretCodec) (wire : Bytes) (f : Opened)
      → (open_wire crypto b wire).1 ≡ ok f
      → Seen b.open_key
          (take 4 (take 12 wire))
          (u64_at (take 12 wire) 4)
          (open_wire crypto b wire).0
  open_wire-Seen b wire f h =
      let (plain, long, e, o) = open_wire-Enters b wire f h in
      let nonce = take 12 wire in
      rw (open_wire_on b wire plain long e, opened-accept_nonce b nonce plain)
        (record {
          key_is = unfold accept_nonce in refl;
          refuses = rw (window_of-accept_nonce b (take 4 nonce) (u64_at nonce 4)) (
              accept-Refuses (window_of b (take 4 nonce)) (u64_at nonce 4)
                (opened_ok b nonce plain o));
        })

  -- A wire that opened once is refused as a replay whenever it arrives again, whatever arrived and
  -- whatever was sent in between, be it from the same sender, from others or made up.
  pub open_wire_again :
      (b : SecretCodec) (wire : Bytes) (f : Opened) (between : List Traffic)
      → (open_wire crypto b wire).1 ≡ ok f
      → (open_wire crypto (passes (open_wire crypto b wire).0 between) wire).1 ≡ err replayed
  open_wire_again b wire f between h =
      let (plain, long, e, o) = open_wire-Enters b wire f h in
      let nonce = take 12 wire in
      let n = u64_at nonce 4 in
      let later = passes (open_wire crypto b wire).0 between in
      let seen =
        Seen-passes b.open_key (take 4 nonce) n (open_wire crypto b wire).0 between
          (open_wire-Seen b wire f h) in
      rw (open_wire_on later wire plain long (rw (seen.key_is) e)) (
        opened_stale later nonce plain
          (Refuses-accept-false (window_of later (take 4 nonce)) n seen.refuses))

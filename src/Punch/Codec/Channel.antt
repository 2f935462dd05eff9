-- ===== src/Punch/Codec/Channel.antt =====
-- pkg/punch/crypto.go: a frame that was sealed opens once, in order, and nothing else opens.
use vapora.Base.{
  ℕ, ◌+◌, ◌%◌, ◌^◌, ◌≤◌, ◌<◌, ◌≡◌, refl, ap, ◌∙◌, true, List, [], ◌∷◌, ◌++◌, length, take,
  take-append, drop-append, length-append, Bytes, bytes_eq, bytes_eq_iff, Result, ok, arith,
}
use vapora.Base.Wire.{put_u64, u64_at}
use vapora.Base.Dict.{lookup-insert}
use vapora.Punch.Frame.{encode, decode}
use vapora.Punch.Replay.{accept}
use vapora.Punch.Replay.Once.{accept_newer}
use vapora.Punch.Codec.{
  Crypto, SecretCodec, CodecError, Opened, nonce_for, window_of, accept_nonce, seal, opened,
  open_wire, prefix_bytes,
}

pub window_of-accept_nonce :
    (c : SecretCodec) (p : Bytes) (n : ℕ)
    → window_of (accept_nonce c p n).0 p ≡ (accept (window_of c p) n).0
unfolding window_of accept_nonce
window_of-accept_nonce c p n = ground (
  arith,
  lookup-insert bytes_eq bytes_eq_iff p p (accept (window_of c p) n).0 c.seen,
  bytes_eq_iff p p,
)

module _ (crypto : Crypto) where
  open crypto use {aead_seal, aead_open, overhead, open-seal, length-seal}

  -- Two codecs of one direction: the receiver opens under the key that the sender seals with, and
  -- has seen no nonce of the sender above the sender's counter.
  pub record Expects (a b : SecretCodec) : Type 0 where
    pub key_is : b.open_key ≡ a.seal_key
    pub prefix_length : length a.prefix ≡ prefix_bytes
    pub not_ahead : (window_of b a.prefix).highest ≤ a.counter

  length-nonce_for : (p : Bytes) (n : ℕ) → length p ≡ 4 → length (nonce_for p n) ≡ 12
  unfolding nonce_for
  length-nonce_for p n h = omega (arith, length-append p (put_u64 n))

  u64_at-nonce_for : (p : Bytes) (n : ℕ) → length p ≡ 4 → n < 2 ^ 64 → u64_at (nonce_for p n) 4 ≡ n
  unfolding nonce_for
  u64_at-nonce_for (a ∷ b ∷ c ∷ d ∷ []) n h g = omega arith
  u64_at-nonce_for (a ∷ b ∷ c ∷ d ∷ e ∷ p) n h g = absurd (omega arith)
  u64_at-nonce_for [] n h g = absurd (omega arith)
  u64_at-nonce_for (a ∷ []) n h g = absurd (omega arith)
  u64_at-nonce_for (a ∷ b ∷ []) n h g = absurd (omega arith)
  u64_at-nonce_for (a ∷ b ∷ c ∷ []) n h g = absurd (omega arith)

  abbrev pub frame : SecretCodec → ℕ → Bytes → Opened
  frame a kind payload = record { kind = kind; payload = payload; sender = a.prefix }

  opened-encode :
      (b : SecretCodec) (p : Bytes) (n kind : ℕ) (payload : Bytes)
      → length p ≡ 4
      → n < 2 ^ 64
      → (accept (window_of b p) n).1 ≡ true
      → opened crypto b (nonce_for p n) (encode kind payload)
        ≡ ((accept_nonce b p n).0, ok (record { kind = kind; payload = payload; sender = p }))
  unfolding opened encode decode nonce_for
  opened-encode b p n kind payload hp hn fresh =
      let cut : take 4 (nonce_for p n) ≡ p = take-append p (put_u64 n) 4 hp in
      rw (cut, u64_at-nonce_for p n hp hn) (unfold accept_nonce in rw fresh)

  -- A wire that is a nonce and a sealed text opens to what was sealed.
  open_wire-aead :
      (b : SecretCodec) (nonce key plain : Bytes)
      → length nonce ≡ 12
      → b.open_key ≡ key
      → open_wire crypto b (nonce ++ aead_seal key nonce plain) ≡ opened crypto b nonce plain
  unfolding open_wire
  open_wire-aead b nonce key plain hn hk = ground (
    arith,
    length-append nonce (aead_seal key nonce plain),
    length-seal key nonce plain,
    take-append nonce (aead_seal key nonce plain) 12 hn,
    drop-append nonce (aead_seal key nonce plain) 12 hn,
    open-seal key nonce plain,
  )

  open_wire-seal :
      (a b : SecretCodec) (kind : ℕ) (payload : Bytes)
      → Expects a b
      → a.counter + 1 < 2 ^ 64
      → open_wire crypto b (seal crypto a kind payload).1
        ≡ ((accept_nonce b a.prefix (a.counter + 1)).0, ok (frame a kind payload))
  unfolding seal
  open_wire-seal a b kind payload x h =
      let whole : (a.counter + 1) % 2 ^ 64 ≡ a.counter + 1 = omega arith in
      let n = a.counter + 1 in
      rw whole (
        open_wire-aead b (nonce_for a.prefix n) a.seal_key (encode kind payload)
          (length-nonce_for a.prefix n x.prefix_length) x.key_is
        ∙ opened-encode b a.prefix n kind payload x.prefix_length h
            (accept_newer (window_of b a.prefix) n (omega (arith, x.not_ahead))).0)

  Expects-seal :
      (a b : SecretCodec) (kind : ℕ) (payload : Bytes)
      → Expects a b
      → a.counter + 1 < 2 ^ 64
      → Expects (seal crypto a kind payload).0 (accept_nonce b a.prefix (a.counter + 1)).0
  unfolding seal
  Expects-seal a b kind payload x h = record {
    key_is = unfold accept_nonce in x.key_is;
    prefix_length = x.prefix_length;
    not_ahead = rw (window_of-accept_nonce b a.prefix (a.counter + 1)) (
        omega (
          arith,
          accept_newer (window_of b a.prefix) (a.counter + 1) (omega (arith, x.not_ahead)),
        ));
  }

  -- The wires of a sequence of frames, and what opens when they arrive.
  pub seal_all : SecretCodec → List (ℕ × Bytes) → List Bytes
  seal_all a [] = []
  seal_all a ((kind, payload) ∷ fs) =
      (seal crypto a kind payload).1 ∷ seal_all (seal crypto a kind payload).0 fs

  pub open_all : SecretCodec → List Bytes → List (Result CodecError Opened)
  open_all b [] = []
  open_all b (w ∷ ws) = (open_wire crypto b w).1 ∷ open_all (open_wire crypto b w).0 ws

  abbrev pub frames : SecretCodec → List (ℕ × Bytes) → List (Result CodecError Opened)
  frames a [] = []
  frames a ((kind, payload) ∷ fs) = ok (frame a kind payload) ∷ frames a fs

  frames-seal :
      (a : SecretCodec) (kind : ℕ) (payload : Bytes) (fs : List (ℕ × Bytes))
      → frames (seal crypto a kind payload).0 fs ≡ frames a fs
  unfolding seal
  frames-seal a kind payload [] = refl
  frames-seal a kind payload ((k, p) ∷ fs) =
      ap (◌∷◌ (ok (frame a k p))) (frames-seal a kind payload fs)

  counter-seal :
      (a : SecretCodec) (kind : ℕ) (payload : Bytes)
      → a.counter + 1 < 2 ^ 64
      → (seal crypto a kind payload).0.counter ≡ a.counter + 1
  unfolding seal
  counter-seal a kind payload h = omega arith

  -- Whatever is sealed in one direction opens at the other end, each frame once and in order, with
  -- its kind, its payload and its sender, as long as the 64-bit counter does not wrap. The AEAD's
  -- documented laws are the hypothesis on `crypto`.
  pub open_all-seal_all :
      (a b : SecretCodec) (fs : List (ℕ × Bytes))
      → Expects a b
      → a.counter + length fs < 2 ^ 64
      → open_all b (seal_all a fs) ≡ frames a fs
  unfolding open_all seal_all
  open_all-seal_all a b [] x h = refl
  open_all-seal_all a b ((kind, payload) ∷ fs) x h =
      rw (open_wire-seal a b kind payload x (omega arith)) (
        ap (◌∷◌ (ok (frame a kind payload))) (
          open_all-seal_all (seal crypto a kind payload).0
            (accept_nonce b a.prefix (a.counter + 1)).0 fs
            (Expects-seal a b kind payload x (omega arith))
            (omega (arith, counter-seal a kind payload (omega arith)))
          ∙ frames-seal a kind payload fs))

-- ===== src/Punch/Replay/Refines.antt =====
-- The window of pkg/punch/replay.go against a memory of every nonce ever accepted.
use vapora.Base.{
  ℕ, ◌+◌, ◌-◌, ◌*◌, ◌%◌, ◌^◌, ◌≤◌, ◌<◌, ◌≡◌, refl, ap, ◌∙◌, Bool, true, false, not, ◌&&◌, ◌||◌, inl,
  inr, List, [], ◌∷◌, arith, ltb, leb, ◌==◌, if◌then◌else◌, Bool-cases,
}
use vapora.Base.Bits.{
  bit, bit-le-one, bit-bit_or, bit_and-pow, bit-pow, bit-shift, bit-mod, bit-zero,
}
use vapora.Punch.Replay.{
  ReplayWindow, advance, accept, empty_window, accept_all, replay_window_size,
}
use Prim.Native.Nat.{max, bit_and, bit_or}
use native.Mathlib.Nat.{one-le-pow}
use mathlib.Core.Path.{subst}

abbrev pub elem : ℕ → List ℕ → Bool
elem c [] = false
elem c (x ∷ xs) = x == c || elem c xs

abbrev pub top : List ℕ → ℕ
top [] = 0
top (x ∷ xs) = max x (top xs)

-- What the window is meant to decide: positive, not older than the 64 newest, and never seen.
abbrev pub is_fresh : List ℕ → ℕ → Bool
is_fresh seen c = ltb 0 c && ltb (top seen) (c + replay_window_size) && not (elem c seen)

-- The same verdicts from the whole history of accepted nonces.
abbrev pub fresh_all : List ℕ → List ℕ → List Bool
fresh_all seen [] = []
fresh_all seen (c ∷ cs) =
    is_fresh seen c ∷ fresh_all (if is_fresh seen c then c ∷ seen else seen) cs

pub record Tracks (w : ReplayWindow) (seen : List ℕ) : Type 0 where
  pub highest_is : w.highest ≡ top seen
  pub bit_is :
      (c : ℕ)
      → 0 < c
      → c ≤ w.highest
      → w.highest < c + 64
      → bit w.bitmap (w.highest - c) ≡ (if elem c seen then 1 else 0)

elem-le-top : (c : ℕ) (seen : List ℕ) → elem c seen ≡ true → c ≤ top seen
elem-le-top c [] h = cc
elem-le-top c (x ∷ xs) h = ground (arith, elem-le-top c xs)

not_above : (c : ℕ) (seen : List ℕ) → top seen < c → elem c seen ≡ false
not_above c seen h = ground (arith, elem-le-top c seen)

pub sub-sub : (n c m : ℕ) → c ≤ m → m < n → n - c - (n - m) ≡ m - c
sub-sub n c m h g = omega arith

abbrev moved : ℕ → ℕ → ℕ
moved b s = if leb 64 s then 0 else b * 2 ^ s % 2 ^ 64

-- Bit k of the bitmap after the window moved up by s.
moved-bit : (b s k : ℕ) → k < 64 → bit (moved b s) k ≡ (if ltb k s then 0 else bit b (k - s))
moved-bit b s k h = ground (arith, bit-zero k, bit-mod (b * 2 ^ s) 64 k h, bit-shift b s k)

pub advance-bit :
    (b s k : ℕ)
    → k < 64
    → bit (bit_or (moved b s) 1) k ≡ (if k == 0 then 1 else if ltb k s then 0 else bit b (k - s))
advance-bit b s k h =
    bit-bit_or (moved b s) 1 k
    ∙ ground (arith, moved-bit b s k h, bit-pow 0 k, bit-le-one (moved b s) k)

advance-Tracks :
    (w : ReplayWindow) (seen : List ℕ) (n : ℕ)
    → Tracks w seen
    → w.highest < n
    → Tracks (advance w n) (n ∷ seen)
unfolding advance
advance-Tracks w seen n t h = record {
  highest_is = omega (arith, t.highest_is);
  bit_is = λ c p q r.
      advance-bit w.bitmap (n - w.highest) (n - c) (omega arith)
      ∙ elim (Bool-cases (ltb w.highest c)) [
        | inl newer ↦ ground (arith, not_above c seen)
        | inr older ↦ ground (
          arith,
          t.bit_is c p (ground arith) (omega arith),
          ap (λ (k : ℕ). bit w.bitmap k) (sub-sub n c w.highest (ground arith) h),
        )
      ];
}

-- The nonce sets its own bit and leaves the others alone.
mark-Tracks :
    (w : ReplayWindow) (seen : List ℕ) (n : ℕ)
    → Tracks w seen
    → n ≤ w.highest
    → w.highest < n + 64
    → Tracks (record w { bitmap = bit_or w.bitmap (2 ^ (w.highest - n)) }) (n ∷ seen)
mark-Tracks w seen n t h near = record {
  highest_is = omega (arith, t.highest_is);
  bit_is = λ c p q r.
      bit-bit_or w.bitmap (2 ^ (w.highest - n)) (w.highest - c)
      ∙ ground (arith, bit-pow (w.highest - n) (w.highest - c), t.bit_is c p q r);
}

-- The mask test reads the bit.
masked :
    (w : ReplayWindow) (seen : List ℕ) (n : ℕ)
    → Tracks w seen
    → 0 < n
    → n ≤ w.highest
    → w.highest < n + 64
    → not (bit_and w.bitmap (2 ^ (w.highest - n)) == 0) ≡ elem n seen
masked w seen n t p h near = ground (
  arith,
  bit_and-pow w.bitmap (w.highest - n),
  one-le-pow (w.highest - n) 2 (omega arith),
  t.bit_is n p h near,
)

-- What one call does, once its outcome is known.
abbrev Follows : List ℕ → ℕ → ReplayWindow × Bool → Type 0
Follows seen n r = (r.1 ≡ is_fresh seen n) × Tracks r.0 (if is_fresh seen n then n ∷ seen else seen)

refused :
    (w : ReplayWindow) (seen : List ℕ) (n : ℕ)
    → Tracks w seen
    → is_fresh seen n ≡ false
    → Follows seen n (w, false)
refused w seen n t e = rw e (refl, t)

taken :
    (w : ReplayWindow) (seen : List ℕ) (n : ℕ)
    → Tracks w (n ∷ seen)
    → is_fresh seen n ≡ true
    → Follows seen n (w, true)
taken w seen n t e = rw e (refl, t)

not_stale : (w : ReplayWindow) (n : ℕ) → leb 64 (w.highest - n) ≡ false → w.highest < n + 64
not_stale w n h = ground arith

-- A nonce inside the window.
inside :
    (w : ReplayWindow) (seen : List ℕ) (n : ℕ)
    → Tracks w seen
    → 0 < n
    → n ≤ w.highest
    → w.highest < n + 64
    → Follows seen n (
        if not (bit_and w.bitmap (2 ^ (w.highest - n)) == 0)
        then (w, false)
        else (record w { bitmap = bit_or w.bitmap (2 ^ (w.highest - n)) }, true))
inside w seen n t p q r = elim (Bool-cases (elem n seen)) [
  | inl old ↦
      subst (Follows seen n) (rw (masked w seen n t p q r, old)) (refused w seen n t (ground arith))
  | inr new ↦
      subst (Follows seen n) (rw (masked w seen n t p q r, new))
        (taken _ seen n (mark-Tracks w seen n t q r) (ground (arith, t.highest_is)))
]

-- One nonce: the verdict is the one from the whole history, and the window follows it.
pub accept_step :
    (w : ReplayWindow) (seen : List ℕ) (n : ℕ) → Tracks w seen → Follows seen n (accept w n)
unfolding accept
accept_step w seen n t = elim (Bool-cases (n == 0)) [
  | inl z ↦ rw z (refused w seen n t (ground arith))
  | inr nz ↦ rw nz (elim (Bool-cases (ltb w.highest n)) [
    | inl newer ↦ rw newer (
        taken _ seen n (advance-Tracks w seen n t (ground arith))
          (ground (arith, t.highest_is, not_above n seen)))
    | inr older ↦ rw older (elim (Bool-cases (leb 64 (w.highest - n))) [
      | inl stale ↦ rw stale (refused w seen n t (ground (arith, t.highest_is)))
      | inr near ↦ rw near (inside w seen n t (ground arith) (ground arith) (not_stale w n near))
    ])
  ])
]

accept_all_from :
    (w : ReplayWindow) (seen cs : List ℕ) → Tracks w seen → accept_all w cs ≡ fresh_all seen cs
unfolding accept_all
accept_all_from w seen [] t = refl
accept_all_from w seen (c ∷ cs) t =
    let (verdict, next) = accept_step w seen c t in
    rw (verdict, accept_all_from (accept w c).0 _ cs next)

empty_window-Tracks : Tracks empty_window []
empty_window-Tracks = record { highest_is = refl; bit_is = λ c p q r. absurd (omega arith) }

-- On every sequence of nonces, however reordered, the 128 bits of the window give the same
-- verdicts as a memory of every nonce ever accepted: accept what is positive, less than 64 below
-- the highest accepted, and not accepted before.
pub accept_all-fresh_all : (cs : List ℕ) → accept_all empty_window cs ≡ fresh_all [] cs
accept_all-fresh_all cs = accept_all_from empty_window [] cs empty_window-Tracks

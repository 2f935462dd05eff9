-- ===== src/Punch/Replay/Once.antt =====
-- pkg/punch/replay.go: a nonce is accepted once, and what is refused stays refused.
use vapora.Base.{
  ℕ, ◌+◌, ◌-◌, ◌*◌, ◌^◌, ◌≤◌, ◌<◌, ◌≡◌, ◌⊎◌, ap, ◌∙◌, true, false, inl, inr, arith, leb, Bool-cases,
}
use vapora.Base.Bits.{bit, bit-le-one, bit-bit_or, bit_and-pow, bit-pow}
use vapora.Punch.Replay.{ReplayWindow, advance, accept}
use vapora.Punch.Replay.Refines.{advance-bit, sub-sub}
use Prim.Native.Nat.{bit_or}
use native.Mathlib.Nat.{one-le-pow}

-- The bit of a nonce just accepted is set.
bit_set : (b k : ℕ) → bit (bit_or b (2 ^ k)) k ≡ 1
bit_set b k = bit-bit_or b (2 ^ k) k ∙ ground (arith, bit-pow k k, bit-le-one b k)

-- What an accepting call did.
accept_cases :
    (w : ReplayWindow) (n : ℕ)
    → (accept w n).1 ≡ true
    → ((accept w n).0 ≡ advance w n)
      ⊎ ((n ≤ w.highest)
          × ((accept w n).0 ≡ record w { bitmap = bit_or w.bitmap (2 ^ (w.highest - n)) }))
unfolding accept
accept_cases w n h = ground arith

-- Too old for the window, or marked in it.
abbrev pub Refuses : ReplayWindow → ℕ → Type 0
Refuses w n = (n + 64 ≤ w.highest) ⊎ ((n ≤ w.highest) × (bit w.bitmap (w.highest - n) ≡ 1))

pub Refuses-accept-false : (w : ReplayWindow) (n : ℕ) → Refuses w n → (accept w n).1 ≡ false
unfolding accept
Refuses-accept-false w n (inl old) = ground arith
Refuses-accept-false w n (inr (le, set)) = ground (
  arith,
  bit_and-pow w.bitmap (w.highest - n),
  ap (λ (t : ℕ). t * 2 ^ (w.highest - n)) set,
  one-le-pow (w.highest - n) 2 (omega arith),
)

Refuses-advance :
    (w : ReplayWindow) (n m : ℕ) → w.highest < m → Refuses w n → Refuses (advance w m) n
unfolding advance
Refuses-advance w n m newer (inl old) = inl (omega arith)
Refuses-advance w n m newer (inr (le, set)) = elim (Bool-cases (leb (n + 64) m)) [
  | inl far ↦ inl (ground (arith, far))
  | inr near ↦
      let inside : m - n < 64 = ground (arith, near) in
      inr (
        omega arith,
        advance-bit w.bitmap (m - w.highest) (m - n) inside
            ∙ ground (arith, ap (λ (k : ℕ). bit w.bitmap k) (sub-sub m n w.highest le newer)),
      )
]

Refuses-mark :
    (w : ReplayWindow) (n m : ℕ)
    → Refuses w n
    → Refuses (record w { bitmap = bit_or w.bitmap (2 ^ (w.highest - m)) }) n
Refuses-mark w n m (inl old) = inl old
Refuses-mark w n m (inr (le, set)) = inr (
  le,
  bit-bit_or w.bitmap (2 ^ (w.highest - m)) (w.highest - n)
      ∙ omega (arith, set, bit-le-one (2 ^ (w.highest - m)) (w.highest - n)),
)

-- What any call can do to the window.
accept_any :
    (w : ReplayWindow) (m : ℕ)
    → ((accept w m).0 ≡ w)
      ⊎ (((w.highest < m) × ((accept w m).0 ≡ advance w m))
          ⊎ ((accept w m).0 ≡ record w { bitmap = bit_or w.bitmap (2 ^ (w.highest - m)) }))
unfolding accept
accept_any w m = ground arith

-- Whatever nonce comes, one that is refused stays refused.
pub Refuses-accept : (w : ReplayWindow) (n m : ℕ) → Refuses w n → Refuses (accept w m).0 n
Refuses-accept w n m h = elim (accept_any w m) [
  | inl e ↦ rw e h
  | inr (inl (newer, e)) ↦ rw e (Refuses-advance w n m newer h)
  | inr (inr e) ↦ rw e (Refuses-mark w n m h)
]

advance-Refuses : (w : ReplayWindow) (n : ℕ) → Refuses (advance w n) n
unfolding advance
advance-Refuses w n =
    let none_between : n - n ≡ 0 = omega arith in
    inr (
      omega arith,
      rw none_between (advance-bit w.bitmap (n - w.highest) 0 (omega arith) ∙ ground arith),
    )

-- A nonce that was accepted is refused from then on.
pub accept-Refuses : (w : ReplayWindow) (n : ℕ) → (accept w n).1 ≡ true → Refuses (accept w n).0 n
accept-Refuses w n h = elim (accept_cases w n h) [
  | inl e ↦ rw e (advance-Refuses w n)
  | inr (le, e) ↦ rw e (inr (le, bit_set w.bitmap (w.highest - n)))
]

-- A nonce above all seen is accepted, and becomes the highest.
pub accept_newer :
    (w : ReplayWindow) (n : ℕ)
    → w.highest < n
    → ((accept w n).1 ≡ true) × ((accept w n).0.highest ≡ n)
unfolding accept
accept_newer w n h = ground arith

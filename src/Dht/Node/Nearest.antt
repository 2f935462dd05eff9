-- ===== src/Dht/Node/Nearest.antt =====
-- pkg/dht/node.go: `closer` compares distances under the XOR metric.
use vapora.Base.{
  ℕ, suc, ◌+◌, ◌*◌, ◌^◌, ◌<◌, ◌≡◌, inl, inr, refl, ap, Bool, not, [], ◌∷◌, ltb, ◌==◌, if◌then◌else◌,
  length, All, arith, Bytes, Bool-cases,
}
use vapora.Base.Wire.{IsByte}
use vapora.Base.Bits.{bit_xor-lt}
use vapora.Dht.Node.{closer}
use Prim.Native.Nat.{bit_xor}
use native.Mathlib.Nat.{pow-succ', one-le-pow}

-- The exclusive or of two ids as a number, the first byte the highest.
abbrev pub distance : Bytes → Bytes → ℕ
distance (a ∷ as') (t ∷ ts) = bit_xor a t * 256 ^ length as' + distance as' ts
distance _ _ = 0

lead : (x y r s m : ℕ) → x < y → r < m → x * m + r < y * m + s
lead x y r s m h g = grind arith

-- Numbers compare by their leading digits first.
leading :
    (x y r s m : ℕ)
    → r < m
    → s < m
    → ltb (x * m + r) (y * m + s) ≡ (if not (x == y) then ltb x y else ltb r s)
leading x y r s m h g = elim (Bool-cases (ltb x y)) [
  | inl less ↦ let apart = lead x y r s m (ground arith) h in ground (arith, apart)
  | inr more ↦ elim (Bool-cases (ltb y x)) [
    | inl greater ↦ let apart = lead y x s r m (ground arith) g in ground (arith, apart)
    | inr equal ↦ let e : x ≡ y = ground arith in rw e (ground arith)
  ]
]

distance-lt : (a t : Bytes) → All IsByte a → All IsByte t → distance a t < 256 ^ length a
distance-lt [] t ha ht = omega arith
distance-lt (a ∷ as') [] ha ht = one-le-pow (suc (length as')) 256 (omega arith)
distance-lt (a ∷ as') (t ∷ ts) (ha, has) (ht, hts) =
    let below = distance-lt as' ts has hts in
    let small : bit_xor a t < 256 = bit_xor-lt 8 a t ha ht in
    let width = pow-succ' 256 (length as') in grind (arith, small, below, width)

-- The node that `closer` prefers is the one at the smaller distance from the target.
pub closer-distance :
    (a b t : Bytes)
    → length a ≡ length t
    → length b ≡ length t
    → All IsByte a
    → All IsByte b
    → All IsByte t
    → closer a b t ≡ ltb (distance a t) (distance b t)
unfolding closer
closer-distance [] [] [] la lb ha hb ht = refl
closer-distance [] b (t ∷ ts) la lb ha hb ht = absurd (omega arith)
closer-distance [] (b ∷ bs) [] la lb ha hb ht = absurd (omega arith)
closer-distance (a ∷ as') [] (t ∷ ts) la lb ha hb ht = absurd (omega arith)
closer-distance (a ∷ as') b [] la lb ha hb ht = absurd (omega arith)
closer-distance (a ∷ as') (b ∷ bs) (t ∷ ts) la lb (ha, has) (hb, hbs) (ht, hts) =
    let same : length bs ≡ length as' = omega arith in
    let width : 256 ^ length bs ≡ 256 ^ length as' = ap (λ (n : ℕ). 256 ^ n) same in
    let below : distance bs ts < 256 ^ length as' = rw⁻¹ width (distance-lt bs ts hbs hts) in
    rw width (
      rw
        (leading (bit_xor a t) (bit_xor b t) (distance as' ts) (distance bs ts) (256 ^ length as')
          (distance-lt as' ts has hts) below)
        (ap
          (λ (v : Bool).
            if not (bit_xor a t == bit_xor b t) then ltb (bit_xor a t) (bit_xor b t) else v)
          (closer-distance as' bs ts (omega arith) (omega arith) has hbs hts)))

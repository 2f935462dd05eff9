-- ===== src/Base/Bits.antt =====
-- Bit k of a number, and what `|`, `&`, `<<` and the wrap of a 64-bit word do to it.
use vapora.Base.{
  ℕ, zero, suc, ◌+◌, ◌-◌, ◌*◌, ◌/◌, ◌%◌, ◌^◌, ◌≤◌, ◌<◌, ◌≡◌, refl, ap, ◌∙◌, arith, ltb, ◌==◌,
  if◌then◌else◌, min,
}
use Prim.Native.Nat.{
  max, bit_and, bit_or, bit_xor, digits, differ, bit_and-bitwise, bit_or-bitwise, bit_xor-bitwise,
}
use native.Mathlib.Nat.{
  pow-succ', one-le-pow, mul-add-mod_self_left, mod-eq_of_lt, mod-lt, div-add-mod,
}

unfoldable pub bit : ℕ → ℕ → ℕ
bit b zero = b % 2
bit b (suc k) = bit (b / 2) k

pub bit-le-one : (b k : ℕ) → bit b k ≤ 1
unfolding bit
bit-le-one b zero = omega arith
bit-le-one b (suc k) = bit-le-one (b / 2) k

-- Fuel past the first number changes nothing in the recursion on binary digits.
module _ (rest : ℕ → ℕ) (op : ℕ → ℕ → ℕ) where
  more_fuel :
      (few many x y : ℕ) → x ≤ few → few ≤ many → digits rest op few x y ≡ digits rest op many x y
  more_fuel zero zero zero y h g = refl
  more_fuel zero (suc many) zero y h g = refl
  more_fuel (suc few) (suc many) zero y h g = refl
  more_fuel (suc few) zero x y h g = absurd (omega arith)
  more_fuel zero many (suc x) y h g = absurd (omega arith)
  more_fuel (suc few) (suc many) (suc x) y h g =
      ap (λ (t : ℕ). t * 2 + op (suc x % 2) (y % 2))
        (more_fuel few many (suc x / 2) (y / 2) (omega arith) (omega arith))

pub bit_or_step : (a b : ℕ) → bit_or a b ≡ bit_or (a / 2) (b / 2) * 2 + max (a % 2) (b % 2)
bit_or_step zero b = omega (arith, bit_or-bitwise 0 b, bit_or-bitwise 0 (b / 2))
bit_or_step (suc a) b = omega (
  arith,
  bit_or-bitwise (suc a) b,
  bit_or-bitwise (suc a / 2) (b / 2),
  more_fuel (λ t. t) max (suc a / 2) a (suc a / 2) (b / 2) (omega arith) (omega arith),
)

pub bit_and_step : (a b : ℕ) → bit_and a b ≡ bit_and (a / 2) (b / 2) * 2 + min (a % 2) (b % 2)
bit_and_step zero b = omega (arith, bit_and-bitwise 0 b, bit_and-bitwise 0 (b / 2))
bit_and_step (suc a) b = omega (
  arith,
  bit_and-bitwise (suc a) b,
  bit_and-bitwise (suc a / 2) (b / 2),
  more_fuel (λ t. 0) min (suc a / 2) a (suc a / 2) (b / 2) (omega arith) (omega arith),
)

pub bit-bit_or : (a b k : ℕ) → bit (bit_or a b) k ≡ max (bit a k) (bit b k)
unfolding bit
bit-bit_or a b zero = omega (arith, bit_or_step a b)
bit-bit_or a b (suc k) = ap (λ (t : ℕ). bit t k) (halve a b) ∙ bit-bit_or (a / 2) (b / 2) k
  where
    halve : (x y : ℕ) → bit_or x y / 2 ≡ bit_or (x / 2) (y / 2)
    halve x y = omega (arith, bit_or_step x y)

bit_and-zero_below : (n a : ℕ) → a ≤ n → bit_and a 0 ≡ 0
bit_and-zero_below zero zero h = refl
bit_and-zero_below zero (suc a) h = absurd (omega arith)
bit_and-zero_below (suc n) a h =
    omega (arith, bit_and_step a 0, bit_and-zero_below n (a / 2) (omega arith))

halve_pow : (k : ℕ) → 2 ^ suc k / 2 ≡ 2 ^ k
halve_pow k = omega (arith, pow-succ' 2 k)

-- Testing bit k by a mask of that one bit.
pub bit_and-pow : (a k : ℕ) → bit_and a (2 ^ k) ≡ bit a k * 2 ^ k
unfolding bit
bit_and-pow a zero =
    omega (arith, bit_and_step a 1, bit_and-zero_below (a / 2) (a / 2) (omega arith))
bit_and-pow a (suc k) =
    bit_and_step a (2 ^ suc k)
    ∙ omega (
      arith,
      pow-succ' 2 k,
      ap (λ (t : ℕ). bit_and (a / 2) t) (halve_pow k),
      bit_and-pow (a / 2) k,
      ap (λ (t : ℕ). bit (a / 2) k * t) (pow-succ' 2 k),
    )

pub bit-zero : (k : ℕ) → bit 0 k ≡ 0
unfolding bit
bit-zero zero = refl
bit-zero (suc k) = bit-zero k

pub bit-pow : (k j : ℕ) → bit (2 ^ k) j ≡ (if j == k then 1 else 0)
unfolding bit
bit-pow zero zero = refl
bit-pow zero (suc j) = bit-zero j ∙ ground arith
bit-pow (suc k) zero = ground (arith, pow-succ' 2 k)
bit-pow (suc k) (suc j) = ap (λ (t : ℕ). bit t j) (halve_pow k) ∙ bit-pow k j ∙ ground arith

mul-pow-suc : (b s : ℕ) → b * 2 ^ suc s ≡ 2 * (b * 2 ^ s)
mul-pow-suc b s = omega (arith, ap (λ (t : ℕ). b * t) (pow-succ' 2 s))

suc-sub-suc : (k s : ℕ) → suc k - suc s ≡ k - s
suc-sub-suc k s = omega arith

mul-one : (b : ℕ) → b * 1 ≡ b
mul-one b = omega arith

sub-zero : (k : ℕ) → k - 0 ≡ k
sub-zero k = omega arith

-- `<<` moves bit k - s to bit k.
pub bit-shift : (b s k : ℕ) → bit (b * 2 ^ s) k ≡ (if ltb k s then 0 else bit b (k - s))
unfolding bit
bit-shift b zero k =
    ground (arith, ap (λ (t : ℕ). bit t k) (mul-one b), ap (λ (t : ℕ). bit b t) (sub-zero k))
bit-shift b (suc s) zero = ground (arith, pow-succ' 2 s, mul-pow-suc b s)
bit-shift b (suc s) (suc k) =
    ap (λ (t : ℕ). bit t k) (omega (arith, mul-pow-suc b s))
    ∙ bit-shift b s k
    ∙ ground (arith, ap (λ (t : ℕ). bit b t) (suc-sub-suc k s))

mod_double : (m x : ℕ) → 0 < m → x % (2 * m) ≡ x / 2 % m * 2 + x % 2
mod_double m x h =
    ap (λ (t : ℕ). t % (2 * m)) split
    ∙ mul-add-mod_self_left (2 * m) (x / 2 / m) _
    ∙ mod-eq_of_lt fits
  where
    split : x ≡ 2 * m * (x / 2 / m) + (x / 2 % m * 2 + x % 2)
    split = omega (arith, div-add-mod (x / 2) m)

    fits : x / 2 % m * 2 + x % 2 < 2 * m
    fits = omega (arith, mod-lt (x / 2) h)

-- The wrap of a word of w bits keeps its low bits.
pub bit-mod : (b w k : ℕ) → k < w → bit (b % 2 ^ w) k ≡ bit b k
unfolding bit
bit-mod b zero k h = elim h [ ]
bit-mod b (suc w) zero h = omega (
  arith,
  pow-succ' 2 w,
  ap (λ (t : ℕ). b % t) (pow-succ' 2 w),
  mod_double (2 ^ w) b (one-le-pow w 2 (omega arith)),
)
bit-mod b (suc w) (suc k) h =
    ap (λ (t : ℕ). bit t k)
      (omega (
        arith,
        ap (λ (t : ℕ). b % t) (pow-succ' 2 w),
        mod_double (2 ^ w) b (one-le-pow w 2 (omega arith)),
      ))
    ∙ bit-mod (b / 2) w k (omega arith)

pub bit_xor_step : (a b : ℕ) → bit_xor a b ≡ bit_xor (a / 2) (b / 2) * 2 + differ (a % 2) (b % 2)
bit_xor_step zero b = omega (arith, bit_xor-bitwise 0 b, bit_xor-bitwise 0 (b / 2))
bit_xor_step (suc a) b = omega (
  arith,
  bit_xor-bitwise (suc a) b,
  bit_xor-bitwise (suc a / 2) (b / 2),
  more_fuel (λ t. t) differ (suc a / 2) a (suc a / 2) (b / 2) (omega arith) (omega arith),
)

differ-lt : (x y : ℕ) → x < 2 → y < 2 → differ x y < 2
differ-lt zero y h g = g
differ-lt (suc zero) zero h g = omega arith
differ-lt (suc zero) (suc zero) h g = omega arith
differ-lt (suc zero) (suc (suc y)) h g = absurd (omega arith)
differ-lt (suc (suc x)) y h g = absurd (omega arith)

differ_twice : (x y : ℕ) → x < 2 → y < 2 → differ (differ x y) y ≡ x
differ_twice zero zero h g = refl
differ_twice zero (suc zero) h g = refl
differ_twice zero (suc (suc y)) h g = absurd (omega arith)
differ_twice (suc zero) zero h g = refl
differ_twice (suc zero) (suc zero) h g = refl
differ_twice (suc zero) (suc (suc y)) h g = absurd (omega arith)
differ_twice (suc (suc x)) y h g = absurd (omega arith)

bit_xor_halves :
    (a b : ℕ)
    → (bit_xor a b / 2 ≡ bit_xor (a / 2) (b / 2)) × (bit_xor a b % 2 ≡ differ (a % 2) (b % 2))
bit_xor_halves a b =
    let small = differ-lt (a % 2) (b % 2) (omega arith) (omega arith) in
    (omega (arith, bit_xor_step a b, small), omega (arith, bit_xor_step a b, small))

bit_xor_twice_below : (n a c : ℕ) → a ≤ n → c ≤ n → bit_xor (bit_xor a c) c ≡ a
bit_xor_twice_below zero zero zero h g =
    omega (arith, bit_xor-bitwise 0 0, bit_xor-bitwise (bit_xor 0 0) 0)
bit_xor_twice_below zero (suc a) c h g = absurd (omega arith)
bit_xor_twice_below zero zero (suc c) h g = absurd (omega arith)
bit_xor_twice_below (suc n) a c h g =
    let (half, low) = bit_xor_halves a c in
    let above : bit_xor (bit_xor a c / 2) (c / 2) ≡ a / 2 =
      ap (λ (t : ℕ). bit_xor t (c / 2)) half
      ∙ bit_xor_twice_below n (a / 2) (c / 2) (omega arith) (omega arith) in
    let below : differ (bit_xor a c % 2) (c % 2) ≡ a % 2 =
      ap (λ (t : ℕ). differ t (c % 2)) low
      ∙ differ_twice (a % 2) (c % 2) (omega arith) (omega arith) in
    omega (arith, bit_xor_step (bit_xor a c) c, above, below)

-- Exclusive or with the same number twice gives back what there was.
pub bit_xor_twice : (a c : ℕ) → bit_xor (bit_xor a c) c ≡ a
bit_xor_twice a c = bit_xor_twice_below (a + c) a c (omega arith) (omega arith)

pub bit_xor-lt : (k a c : ℕ) → a < 2 ^ k → c < 2 ^ k → bit_xor a c < 2 ^ k
bit_xor-lt zero a c h g =
    let z : a ≡ 0 = omega arith in
    let y : c ≡ 0 = omega arith in rw (z, y) (omega (arith, bit_xor-bitwise 0 0))
bit_xor-lt (suc k) a c h g =
    let (half, low) = bit_xor_halves a c in
    let two = pow-succ' 2 k in
    omega (arith, half, two, bit_xor-lt k (a / 2) (c / 2) (omega (arith, two)) (omega (arith, two)))

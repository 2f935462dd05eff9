-- ===== src/Base/Decimal.antt =====
-- Go's strconv on decimal digits: AppendInt, Atoi of digits and ParseInt, for numbers of 64 bits.
use vapora.Base.{
  ℕ, zero, suc, ◌+◌, ◌-◌, ◌*◌, ◌/◌, ◌%◌, ◌^◌, ◌≤◌, ◌<◌, ◌≡◌, refl, ◌∙◌, Bool, true, false, ◌&&◌,
  Option, none, some, [], ◌∷◌, ltb, leb, ◌==◌, if◌then◌else◌, length, All, arith, Bytes, inl, inr,
  Bool-cases,
}
use vapora.Base.Int.{ℤ, pos, negsuc}

abbrev pub is_digit : ℕ → Bool
is_digit c = leb b'0' c && leb c b'9'

-- The digits of a number in front of what follows them. Twenty digits are enough for 64 bits.
unfoldable pub digits : ℕ → ℕ → Bytes → Bytes
digits zero n after = after
digits (suc k) n after =
    let shorter = digits k (n / 10) ((b'0' + n % 10) ∷ after) in
    if ltb n 10 then (b'0' + n) ∷ after else shorter

abbrev pub most_digits : ℕ
most_digits = 20

unfoldable pub decimal : ℕ → Bytes
decimal n = digits most_digits n []

-- Digits read after `acc`, or `none` at anything else.
unfoldable pub read_digits : ℕ → Bytes → Option ℕ
read_digits acc [] = some acc
read_digits acc (c ∷ cs) =
    let rest = read_digits (acc * 10 + (c - b'0')) cs in if is_digit c then rest else none

-- Of a string with one digit at least.
unfoldable pub read_decimal : Bytes → Option ℕ
read_decimal [] = none
read_decimal (c ∷ cs) = read_digits 0 (c ∷ cs)

-- `AppendInt(out, n, 10)`, as what it appends.
unfoldable pub signed : ℤ → Bytes
signed (pos n) = decimal n
signed (negsuc n) = b'-' ∷ decimal (n + 1)

in_range : Bool → ℕ → Option ℤ
in_range false n = if ltb n (2 ^ 63) then some (pos n) else none
in_range true zero = some (pos 0)
in_range true (suc n) = if ltb n (2 ^ 63) then some (negsuc n) else none

with_sign : Bool → Option ℕ → Option ℤ
with_sign negative none = none
with_sign negative (some n) = in_range negative n

-- `ParseInt(s, 10, 64)`: a sign, digits, and no more than 64 bits hold.
unfoldable pub read_signed : Bytes → Option ℤ
unfolding with_sign in_range
read_signed [] = none
read_signed (c ∷ cs) =
    if c == b'-'
    then with_sign true (read_decimal cs)
    else if c == b'+'
    then with_sign false (read_decimal cs)
    else with_sign false (read_decimal (c ∷ cs))

abbrev pub Fits64 : ℤ → Type 0
Fits64 (pos n) = n < 2 ^ 63
Fits64 (negsuc n) = n < 2 ^ 63

tenth : (n m : ℕ) → n < m * 10 → n / 10 < m
tenth n m h = omega arith

last_digit : (n : ℕ) → n / 10 * 10 + (b'0' + n % 10 - b'0') ≡ n
last_digit n = omega arith

read_digits-digits :
    (k n : ℕ) (after : Bytes) → n < 10 ^ k → read_digits 0 (digits k n after) ≡ read_digits n after
unfolding digits read_digits
read_digits-digits zero n after h = let z : n ≡ 0 = omega arith in rw z refl
read_digits-digits (suc k) n after h =
    let rest =
      read_digits-digits k (n / 10) ((b'0' + n % 10) ∷ after) (tenth n (10 ^ k) (grind arith)) in
    ground (arith, rest, last_digit n)

-- Every byte of a number is a digit.
digits-All :
    (k n : ℕ) (after : Bytes)
    → All (λ c. is_digit c ≡ true) after
    → All (λ c. is_digit c ≡ true) (digits k n after)
unfolding digits
digits-All zero n after h = h
digits-All (suc k) n after h =
    let rest = digits-All k (n / 10) ((b'0' + n % 10) ∷ after) (ground arith, h) in
    ground (arith, rest)

digits-starts :
    (k n : ℕ) (after : Bytes)
    → (c : ℕ) × (cs : Bytes) × (digits (suc k) n after ≡ c ∷ cs) × (is_digit c ≡ true)
unfolding digits
digits-starts zero n after = elim (Bool-cases (ltb n 10)) [
  | inl h ↦ (b'0' + n, after, ground arith, ground arith)
  | inr h ↦ (b'0' + n % 10, after, ground arith, grind arith)
]
digits-starts (suc k) n after =
    let (c, cs, e, d) = digits-starts k (n / 10) ((b'0' + n % 10) ∷ after) in
    elim (Bool-cases (ltb n 10)) [
      | inl h ↦ (b'0' + n, after, ground arith, ground arith)
      | inr h ↦ (c, cs, rw h e, d)
    ]

pub decimal-starts : (n : ℕ) → (c : ℕ) × (cs : Bytes) × (decimal n ≡ c ∷ cs) × (is_digit c ≡ true)
unfolding decimal
decimal-starts n = digits-starts 19 n []

pub decimal-All : (n : ℕ) → All (λ c. is_digit c ≡ true) (decimal n)
unfolding decimal
decimal-All n = digits-All most_digits n [] tt

read_decimal-cons :
    (bs : Bytes) (c : ℕ) (cs : Bytes) → bs ≡ c ∷ cs → read_decimal bs ≡ read_digits 0 bs
unfolding read_decimal
read_decimal-cons bs c cs e = rw e refl

pub read_decimal-decimal : (n : ℕ) → n < 10 ^ most_digits → read_decimal (decimal n) ≡ some n
read_decimal-decimal n h =
    let (c, cs, e, d) = decimal-starts n in
    let reads : read_digits 0 (decimal n) ≡ some n =
      unfold decimal in read_digits-digits most_digits n [] h ∙ (unfold read_digits in refl) in
    read_decimal-cons (decimal n) c cs e ∙ reads

pub read_signed-signed : (z : ℤ) → Fits64 z → read_signed (signed z) ≡ some z
unfolding signed read_signed with_sign in_range
read_signed-signed (pos n) h =
    let (c, cs, e, d) = decimal-starts n in
    let reads : read_decimal (c ∷ cs) ≡ some n = rw⁻¹ e (read_decimal-decimal n (omega arith)) in
    rw e (ground (arith, reads))
read_signed-signed (negsuc n) h = rw (read_decimal-decimal (n + 1) (omega arith)) (ground arith)

pub length-digits :
    (f k n : ℕ) (after : Bytes) → n < 10 ^ suc k → length (digits f n after) ≤ suc k + length after
unfolding digits
length-digits zero k n after h = omega arith
length-digits (suc f) zero n after h = ground arith
length-digits (suc f) (suc k) n after h =
    let rest =
      length-digits f k (n / 10) ((b'0' + n % 10) ∷ after) (tenth n (10 ^ suc k) (grind arith)) in
    ground (arith, rest)

pub length-decimal : (k n : ℕ) → n < 10 ^ suc k → length (decimal n) ≤ suc k
unfolding decimal
length-decimal k n h = omega (arith, length-digits most_digits k n [] h)

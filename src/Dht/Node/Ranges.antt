-- ===== src/Dht/Node/Ranges.antt =====
-- pkg/dht/node.go: the addresses that `routable` turns down, as the ranges of the registry of
-- special-purpose addresses, written as numbers and prefix lengths.
use vapora.Base.{
  ℕ, ◌+◌, ◌-◌, ◌*◌, ◌/◌, ◌^◌, ◌<◌, ◌≡◌, Bool, true, false, not, ◌&&◌, List, [], ◌∷◌, ◌==◌, arith,
}
use vapora.Net.{Ip, v4, v6}
use vapora.Dht.Node.{routable_4}

-- An IPv4 address as the number of its 32 bits.
abbrev pub number_of : ℕ → ℕ → ℕ → ℕ → ℕ
number_of a b c d = a * 2 ^ 24 + b * 2 ^ 16 + c * 2 ^ 8 + d

-- A first address and the length of the prefix.
abbrev pub Range : Type 0
Range = ℕ × ℕ

abbrev pub is_within : ℕ → Range → Bool
is_within n (first, length) = n / 2 ^ (32 - length) == first / 2 ^ (32 - length)

abbrev pub is_outside : ℕ → List Range → Bool
is_outside n [] = true
is_outside n (r ∷ rs) = not (is_within n r) && is_outside n rs

-- 0.0.0.0/8, 10.0.0.0/8, 100.64.0.0/10, 127.0.0.0/8, 169.254.0.0/16, 172.16.0.0/12, 192.168.0.0/16
-- and 224.0.0.0/3.
abbrev pub closed_ranges : List Range
closed_ranges =
    (number_of 0 0 0 0, 8)
    ∷ (number_of 10 0 0 0, 8)
    ∷ (number_of 100 64 0 0, 10)
    ∷ (number_of 127 0 0 0, 8)
    ∷ (number_of 169 254 0 0, 16)
    ∷ (number_of 172 16 0 0, 12)
    ∷ (number_of 192 168 0 0, 16)
    ∷ (number_of 224 0 0 0, 3)
    ∷ []

-- An IPv4 address outside all of them.
abbrev pub IsOutside : Ip → Type 0
IsOutside (v4 a b c d) = is_outside (number_of a b c d) closed_ranges ≡ true
IsOutside (v6 bs) = false ≡ true

-- What is left of an address when its last 24, 22, 20, 16 or 29 bits are cut off.
cut_24 : (a b c d : ℕ) → b < 256 → c < 256 → d < 256 → number_of a b c d / 2 ^ 24 ≡ a
cut_24 a b c d hb hc hd = omega arith

cut_22 : (a b c d : ℕ) → b < 256 → c < 256 → d < 256 → number_of a b c d / 2 ^ 22 ≡ a * 4 + b / 64
cut_22 a b c d hb hc hd = omega arith

cut_20 : (a b c d : ℕ) → b < 256 → c < 256 → d < 256 → number_of a b c d / 2 ^ 20 ≡ a * 16 + b / 16
cut_20 a b c d hb hc hd = omega arith

cut_16 : (a b c d : ℕ) → c < 256 → d < 256 → number_of a b c d / 2 ^ 16 ≡ a * 256 + b
cut_16 a b c d hc hd = omega arith

cut_29 : (a b c d : ℕ) → b < 256 → c < 256 → d < 256 → number_of a b c d / 2 ^ 29 ≡ a / 32
cut_29 a b c d hb hc hd = omega arith

-- `routable` turns down these ranges and no others.
pub routable_4-is_outside :
    (a b c d : ℕ)
    → a < 256
    → b < 256
    → c < 256
    → d < 256
    → routable_4 a b ≡ is_outside (number_of a b c d) closed_ranges
unfolding routable_4
routable_4-is_outside a b c d ha hb hc hd =
    rw
      (
        cut_24 a b c d hb hc hd,
        cut_22 a b c d hb hc hd,
        cut_20 a b c d hb hc hd,
        cut_16 a b c d hc hd,
        cut_29 a b c d hb hc hd,
      )
      (ground arith)

-- ===== src/Net.antt =====
-- Go's net.IP and net.UDPAddr as the program uses them. An IPv4 address and its IPv4-in-IPv6 form
-- are one address to `To4`, `Equal` and `String`, so both are `v4` here.
use vapora.Base.{
  List, ◌++◌, if◌then◌else◌, refl, ℕ, ◌≡◌, ◌↔◌, Bool, true, false, ◌&&◌, Option, none, some, [],
  ◌∷◌, ◌==◌, arith, Bytes, bytes_eq, bytes_eq_iff, replicate,
}

pub data Ip : Type 0 where
  v4 : ℕ → ℕ → ℕ → ℕ → Ip
  v6 : Bytes → Ip

pub record UdpAddr : Type 0 where
  pub ip : Ip
  pub port : ℕ

-- `ip.To4()`, nil for an address that has no IPv4 form.
abbrev pub to_4 : Ip → Option Bytes
to_4 (v4 a b c d) = some (a ∷ b ∷ c ∷ d ∷ [])
to_4 (v6 bs) = none

-- `ip.IsUnspecified`.
abbrev pub is_unspecified : Ip → Bool
is_unspecified (v4 a b c d) = a == 0 && b == 0 && c == 0 && d == 0
is_unspecified (v6 bs) = bytes_eq bs (replicate 16 0)

-- `ip.Equal`.
unfoldable pub ip_eq : Ip → Ip → Bool
unfolding bytes_eq
ip_eq (v4 a b c d) (v4 a' b' c' d') = a == a' && b == b' && c == c' && d == d'
ip_eq (v6 bs) (v6 cs) = bytes_eq bs cs
ip_eq _ _ = false

pub ip_eq_iff : (a b : Ip) → (ip_eq a b ≡ true) ↔ (a ≡ b)
unfolding ip_eq
ip_eq_iff (v4 a b c d) (v4 a' b' c' d') = ground arith
ip_eq_iff (v6 bs) (v6 cs) = ground (arith, bytes_eq_iff bs cs)
ip_eq_iff _ _ = ground arith

-- Two addresses whose `String()` is the same, which is what the maps of the program are keyed by.
unfoldable pub addr_eq : UdpAddr → UdpAddr → Bool
addr_eq a b = ip_eq a.ip b.ip && a.port == b.port

pub addr_eq_iff : (a b : UdpAddr) → (addr_eq a b ≡ true) ↔ (a ≡ b)
unfolding addr_eq
addr_eq_iff a b = ground (arith, ip_eq_iff a.ip b.ip)

abbrev pub contains_addr : List UdpAddr → UdpAddr → Bool
contains_addr [] addr = false
contains_addr (known ∷ rest) addr = if addr_eq known addr then true else contains_addr rest addr

-- No address stands twice.
abbrev pub Distinct : List UdpAddr → Type 0
Distinct [] = Unit
Distinct (a ∷ as') = (contains_addr as' a ≡ false) × Distinct as'

contains_addr-append :
    (as' : List UdpAddr) (a b : UdpAddr)
    → contains_addr (as' ++ a ∷ []) b ≡ (if contains_addr as' b then true else addr_eq a b)
contains_addr-append [] a b = ground arith
contains_addr-append (x ∷ as') a b = ground (arith, contains_addr-append as' a b)

pub Distinct-append :
    (as' : List UdpAddr) (a : UdpAddr)
    → Distinct as'
    → contains_addr as' a ≡ false
    → Distinct (as' ++ a ∷ [])
Distinct-append [] a d h = (refl, tt)
Distinct-append (x ∷ as') a d h = (
  ground (arith, contains_addr-append as' a x, addr_eq_iff x a, addr_eq_iff a x),
  Distinct-append as' a d.1 (ground arith),
)

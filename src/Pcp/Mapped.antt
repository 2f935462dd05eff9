-- ===== src/Pcp/Mapped.antt =====
-- pkg/pcp/pcp.go: the body of a mapping is read back as it was written.
use vapora.Base.{
  ℕ, zero, suc, append_assoc, ◌+◌, ◌*◌, ◌/◌, ◌%◌, ◌^◌, ◌<◌, ◌≡◌, refl, sym, ap, ◌∙◌, false, Option,
  none, some, [], ◌∷◌, ◌++◌, length, take, drop, replicate, length-append, take-append, drop-append,
  append-nil, arith, Bytes, bytes_eq, ok,
}
use vapora.Base.Wire.{byte_at, put_u16}
use vapora.Net.{Ip, v4, v6}
use vapora.Pcp.{four_in_six, as_16, from_16, map_payload, parse_map_payload}

-- An address as netip has it: what is written inside IPv6 as IPv4 is IPv4.
abbrev pub IsAddress : Ip → Type 0
IsAddress (v4 a b c d) = Unit
IsAddress (v6 bs) = (length bs ≡ 16) × (bytes_eq (take 12 bs) four_in_six ≡ false)

length-as_16 : (ip : Ip) → IsAddress ip → length (as_16 ip) ≡ 16
unfolding as_16
length-as_16 (v4 a b c d) h = refl
length-as_16 (v6 bs) h = h.0

from_16-as_16 : (ip : Ip) → IsAddress ip → from_16 (as_16 ip) ≡ ip
unfolding from_16 as_16 bytes_eq
from_16-as_16 (v4 a b c d) h = refl
from_16-as_16 (v6 bs) (l, ne) = rw ne refl

-- What is suggested, and what a gateway that suggests nothing is taken to say.
abbrev pub suggested : Option Ip → Ip
suggested none = v6 (replicate 16 0)
suggested (some ip) = ip

abbrev pub IsSuggestion : Option Ip → Type 0
IsSuggestion none = Unit
IsSuggestion (some ip) = IsAddress ip

byte_at-append : (xs ys : Bytes) (i j : ℕ) → length xs + i ≡ j → byte_at (xs ++ ys) j ≡ byte_at ys i
byte_at-append [] ys i j e = let same : i ≡ j = omega arith in ap (byte_at ys) (sym same)
byte_at-append (x ∷ xs) ys i zero e = absurd (omega arith)
byte_at-append (x ∷ xs) ys i (suc j) e = byte_at-append xs ys i j (omega arith)

suggested_bytes : Option Ip → Bytes
suggested_bytes suggestion = elim suggestion [ none ↦ replicate 16 0 | some ip ↦ as_16 ip ]

length-suggested_bytes : (o : Option Ip) → IsSuggestion o → length (suggested_bytes o) ≡ 16
unfolding suggested_bytes
length-suggested_bytes none h = refl
length-suggested_bytes (some ip) h = length-as_16 ip h

from_16-suggested_bytes :
    (o : Option Ip) → IsSuggestion o → from_16 (suggested_bytes o) ≡ suggested o
unfolding suggested_bytes
from_16-suggested_bytes none h = unfold from_16 bytes_eq in refl
from_16-suggested_bytes (some ip) h = from_16-as_16 ip h

take_all : (n : ℕ) (bs : Bytes) → length bs ≡ n → take n bs ≡ bs
take_all n bs h = ap (take n) (sym (append-nil bs)) ∙ take-append bs [] n h

-- A mapping asked for and a mapping granted have one layout: what is written as a request's body
-- reads back as nonce, protocol, both ports and the address.
pub parse_map_payload-map_payload :
    (nonce : Bytes) (protocol internal external : ℕ) (ip : Option Ip)
    → length nonce ≡ 12
    → internal < 2 ^ 16
    → external < 2 ^ 16
    → IsSuggestion ip
    → parse_map_payload (map_payload nonce protocol internal external ip)
      ≡ ok (record {
        nonce = nonce;
        protocol = protocol;
        internal_port = internal;
        external_port = external;
        external_ip = suggested ip;
      })
unfolding parse_map_payload map_payload
parse_map_payload-map_payload nonce protocol internal external ip hn hi he hip =
    let addr = suggested_bytes ip in
    let eight : Bytes = protocol ∷ 0 ∷ 0 ∷ 0 ∷ put_u16 internal ++ put_u16 external in
    let tail : Bytes = eight ++ addr in
    let l = length-suggested_bytes ip hip in
    let long : length (nonce ++ tail) ≡ 36 = omega (arith, length-append nonce tail, hn, l) in
    let nonce_is : take 12 (nonce ++ tail) ≡ nonce = take-append nonce tail 12 hn in
    let addr_is : take 16 (drop 20 (nonce ++ tail)) ≡ addr =
      ap (λ (t : Bytes). take 16 (drop 20 t)) (sym (append_assoc nonce eight addr))
      ∙ ap (take 16)
          (drop-append (nonce ++ eight) addr 20 (omega (arith, length-append nonce eight, hn)))
      ∙ take_all 16 addr l in
    let internal_is : internal / 256 % 256 * 256 + internal % 256 ≡ internal = omega arith in
    let external_is : external / 256 % 256 * 256 + external % 256 ≡ external = omega arith in
    unfold suggested_bytes in
    rw
      (
        nonce_is,
        addr_is,
        byte_at-append nonce tail 0 12 (omega (arith, hn)),
        byte_at-append nonce tail 4 16 (omega (arith, hn)),
        byte_at-append nonce tail 5 17 (omega (arith, hn)),
        byte_at-append nonce tail 6 18 (omega (arith, hn)),
        byte_at-append nonce tail 7 19 (omega (arith, hn)),
        internal_is,
        external_is,
        from_16-suggested_bytes ip hip,
      )
      (ground (arith, long))

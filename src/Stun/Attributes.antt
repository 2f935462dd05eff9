-- ===== src/Stun/Attributes.antt =====
-- pkg/stun/stun.go: an answer laid out as RFC 5389 has it is read attribute by attribute.
use vapora.Base.{
  ℕ, zero, suc, ◌+◌, ◌*◌, ◌/◌, ◌%◌, ◌^◌, ◌≤◌, ◌<◌, ◌≡◌, refl, ap, ◌∙◌, Bool, true, false, some,
  List, [], ◌∷◌, ◌++◌, append_assoc, length, take, drop, replicate, length-append, length-replicate,
  take-append, drop-append, arith, All, Bytes, bytes_eq_iff,
}
use vapora.Base.Wire.{put_u16, put_u32}
use vapora.Base.Bits.{bit_xor_twice, bit_xor-lt}
use vapora.Net.{v4}
use vapora.Stun.{
  Seen, see, walk, conclude, nothing_seen, padding_of, parse_binding_response, decode_address,
  family_ipv4, binding_response, magic_cookie,
}
use Prim.Native.Nat.{bit_xor}

-- An attribute's type and value, and its bytes.
abbrev pub attribute : ℕ × Bytes → Bytes
attribute (kind, value) =
    put_u16 kind ++ (put_u16 (length value) ++ (value ++ replicate (padding_of (length value)) 0))

abbrev pub attributes : List (ℕ × Bytes) → Bytes
attributes [] = []
attributes (a ∷ as') = attribute a ++ attributes as'

abbrev pub HasWidth : ℕ × Bytes → Type 0
HasWidth (kind, value) = (kind < 2 ^ 16) × (length value < 2 ^ 16)

-- What the answer says, attribute after attribute.
abbrev pub see_all : Seen → List (ℕ × Bytes) → Seen
see_all s [] = s
see_all s ((kind, value) ∷ as') = see_all (see s kind value) as'

abbrev pub message : Bytes → List (ℕ × Bytes) → Bytes → Bytes
message transaction_id as' behind =
    put_u16 binding_response
    ++ (put_u16 (length (attributes as'))
        ++ (put_u32 magic_cookie ++ (transaction_id ++ (attributes as' ++ behind))))

length-attribute :
    (kind : ℕ) (value : Bytes)
    → length (attribute (kind, value)) ≡ 4 + length value + padding_of (length value)
length-attribute kind value = omega (
  arith,
  length-append value (replicate (padding_of (length value)) 0),
  length-replicate {A = ℕ} (padding_of (length value)) 0,
)

walk-attribute :
    (f kind : ℕ) (value rest : Bytes) (s : Seen)
    → kind < 2 ^ 16
    → length value < 2 ^ 16
    → walk (suc f) (attribute (kind, value) ++ rest) s ≡ walk f rest (see s kind value)
unfolding walk
walk-attribute f kind value rest s hk hv =
    let n = length value in
    let pad : Bytes = replicate (padding_of n) 0 in
    let kind_is : kind / 256 % 256 * 256 + kind % 256 ≡ kind = omega arith in
    let size_is : n / 256 % 256 * 256 + n % 256 ≡ n = omega arith in
    let cut : take n ((value ++ pad) ++ rest) ≡ value =
      ap (take n) (append_assoc value pad rest) ∙ take-append value (pad ++ rest) n refl in
    let whole : drop (4 + n + padding_of n) (attribute (kind, value) ++ rest) ≡ rest =
      drop-append (attribute (kind, value)) rest (4 + n + padding_of n)
        (length-attribute kind value) in
    let long = length-append (attribute (kind, value)) rest in
    let size = length-attribute kind value in
    rw (kind_is, size_is, cut, whole) (ground (arith, long, size))

walk-attributes :
    (f : ℕ) (as' : List (ℕ × Bytes)) (s : Seen)
    → All HasWidth as'
    → length (attributes as') ≤ f
    → walk f (attributes as') s ≡ see_all s as'
walk-attributes zero [] s h l = unfold walk in refl
walk-attributes (suc f) [] s h l = unfold walk in ground arith
walk-attributes zero ((kind, value) ∷ as') s h l = absurd (
    omega (
      arith,
      length-append (attribute (kind, value)) (attributes as'),
      length-attribute kind value,
    ))
walk-attributes (suc f) ((kind, value) ∷ as') s ((hk, hv), h) l =
    walk-attribute f kind value (attributes as') s hk hv
    ∙ walk-attributes f as' (see s kind value) h (
        omega (
          arith,
          length-append (attribute (kind, value)) (attributes as'),
          length-attribute kind value,
        ))

-- An answer to this transaction, with any attributes in any order and any bytes behind them: each is
-- read once, in order, with its padding skipped, and the loop ends within the body's length.
pub parse_binding_response-message :
    (transaction_id : Bytes) (as' : List (ℕ × Bytes)) (behind : Bytes)
    → length transaction_id ≡ 12
    → All HasWidth as'
    → length (attributes as') < 2 ^ 16
    → parse_binding_response (message transaction_id as' behind) transaction_id
      ≡ conclude (see_all nothing_seen as')
unfolding parse_binding_response
parse_binding_response-message transaction_id as' behind hid hw hl =
    let n = length (attributes as') in
    let size_is : n / 256 % 256 * 256 + n % 256 ≡ n = omega arith in
    let tail : Bytes = attributes as' ++ behind in
    let id_is : take 12 (transaction_id ++ tail) ≡ transaction_id =
      take-append transaction_id tail 12 hid in
    let body_is : drop 12 (transaction_id ++ tail) ≡ tail =
      drop-append transaction_id tail 12 hid in
    let cut : take n tail ≡ attributes as' = take-append (attributes as') behind n refl in
    rw (size_is, id_is, body_is, cut)
      (ground (
        arith,
        bytes_eq_iff transaction_id transaction_id,
        length-append transaction_id tail,
        length-append (attributes as') behind,
        walk-attributes n as' nothing_seen hw (omega arith),
      ))

-- An address as a server writes it, exclusive or with the cookie or plain.
abbrev pub cover : Bool → ℕ → ℕ → ℕ → ℕ → ℕ → Bytes
cover true a b c d port =
    0 ∷ family_ipv4 ∷ put_u16 (bit_xor port 0x2112)
    ++ bit_xor a 0x21 ∷ bit_xor b 0x12 ∷ bit_xor c 0xA4 ∷ bit_xor d 0x42 ∷ []
cover false a b c d port = 0 ∷ family_ipv4 ∷ put_u16 port ++ a ∷ b ∷ c ∷ d ∷ []

-- Either way the address comes back.
pub decode_address-cover :
    (xored : Bool) (a b c d port : ℕ)
    → port < 2 ^ 16
    → decode_address (cover xored a b c d port) xored
      ≡ some (record { ip = v4 a b c d; port = port })
unfolding decode_address
decode_address-cover false a b c d port h =
    let port_is : port / 256 % 256 * 256 + port % 256 ≡ port = omega arith in
    rw port_is (ground arith)
decode_address-cover true a b c d port h =
    let hidden = bit_xor port 0x2112 in
    let small : hidden < 2 ^ 16 = bit_xor-lt 16 port 0x2112 h (omega arith) in
    let port_is : hidden / 256 % 256 * 256 + hidden % 256 ≡ hidden = omega arith in
    rw
      (
        port_is,
        bit_xor_twice port 0x2112,
        bit_xor_twice a 0x21,
        bit_xor_twice b 0x12,
        bit_xor_twice c 0xA4,
        bit_xor_twice d 0x42,
      )
      (ground arith)

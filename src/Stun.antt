-- ===== src/Stun.antt =====
-- pkg/stun/stun.go: the binding request that asks a server for this socket's public address, and the
-- reading of its answer. Sending and waiting (`query`) are left out.
pub mod Attributes
pub mod Behavior
pub mod Filtering
pub mod Watcher
mod Tests
use vapora.Base.{
  ℕ, zero, suc, ◌+◌, ◌-◌, ◌*◌, ◌/◌, ◌%◌, ◌^◌, Bool, true, false, not, ◌&&◌, ◌||◌, Option, none,
  some, List, [], ◌∷◌, ◌++◌, ltb, leb, ◌==◌, if◌then◌else◌, length, take, drop, replicate, Bytes,
  bytes_eq, Result, ok, err,
}
use vapora.Base.Wire.{byte_at, put_u16, put_u32, u16_at}
use vapora.Net.{Ip, v4, UdpAddr}
use Prim.Native.Nat.{bit_xor, bit_or}

abbrev pub binding_request : ℕ
binding_request = 0x0001

abbrev pub binding_response : ℕ
binding_response = 0x0101

abbrev pub magic_cookie : ℕ
magic_cookie = 0x2112A442

abbrev pub header_size : ℕ
header_size = 20

abbrev pub attr_mapped_address : ℕ
attr_mapped_address = 0x0001

abbrev pub attr_change_request : ℕ
attr_change_request = 0x0003

abbrev pub attr_changed_address : ℕ
attr_changed_address = 0x0005

abbrev pub attr_xor_mapped_address : ℕ
attr_xor_mapped_address = 0x0020

abbrev pub attr_other_address : ℕ
attr_other_address = 0x802C

abbrev pub family_ipv4 : ℕ
family_ipv4 = 0x01

pub data StunError : Type 0 where
  short_response unexpected_type transaction_mismatch truncated_body no_mapped_address : StunError

-- `Response`, less the source that `query` fills in.
pub record Response : Type 0 where
  pub mapped : UdpAddr
  pub other : Option UdpAddr

-- What the loop has seen.
pub record Seen : Type 0 where
  pub seen_mapped : Option UdpAddr
  pub fallback : Option UdpAddr
  pub seen_other : Option UdpAddr

-- The flags of `changeIP` and `changePort`.
unfoldable pub change_flags : Bool → Bool → ℕ
change_flags change_ip change_port =
    bit_or (if change_ip then 0x04 else 0) (if change_port then 0x02 else 0)

unfoldable pub request_body : Bool → Bool → Bytes
request_body change_ip change_port =
    if change_ip || change_port
    then put_u16 attr_change_request
      ++ put_u16 4
      ++ 0 ∷ 0 ∷ 0 ∷ change_flags change_ip change_port ∷ []
    else []

-- `buildBindingRequest`, with the transaction that was drawn.
unfoldable pub build_binding_request : Bytes → Bool → Bool → Bytes
build_binding_request transaction_id change_ip change_port =
    let body = request_body change_ip change_port in
    put_u16 binding_request
    ++ put_u16 (length body % 2 ^ 16)
    ++ put_u32 magic_cookie
    ++ transaction_id
    ++ body

-- A byte under the byte of the cookie that stands over it.
abbrev pub uncover : Bool → ℕ → ℕ → ℕ
uncover xored cookie value = if xored then bit_xor value cookie else value

unfoldable pub decode_address : Bytes → Bool → Option UdpAddr
decode_address value xored =
    let ip =
      v4 (uncover xored 0x21 (byte_at value 4)) (uncover xored 0x12 (byte_at value 5))
        (uncover xored 0xA4 (byte_at value 6)) (uncover xored 0x42 (byte_at value 7)) in
    if ltb (length value) 8 || not (byte_at value 1 == family_ipv4)
    then none
    else some (record { ip = ip; port = uncover xored 0x2112 (u16_at value 2) })

-- A later address replaces an earlier one; one that does not decode changes nothing.
abbrev pub or_kept : Option UdpAddr → Option UdpAddr → Option UdpAddr
or_kept none old = old
or_kept (some new) old = some new

-- The switch over an attribute's type.
unfoldable pub see : Seen → ℕ → Bytes → Seen
see s kind value =
    if kind == attr_xor_mapped_address
    then record s { seen_mapped = or_kept (decode_address value true) s.seen_mapped }
    else if kind == attr_mapped_address
    then record s { fallback = or_kept (decode_address value false) s.fallback }
    else if kind == attr_other_address || kind == attr_changed_address
    then record s { seen_other = or_kept (decode_address value false) s.seen_other }
    else s

abbrev pub padding_of : ℕ → ℕ
padding_of attr_length = if attr_length % 4 == 0 then 0 else 4 - attr_length % 4

-- The loop over the body, on fuel.
unfoldable pub walk : ℕ → Bytes → Seen → Seen
walk zero body s = s
walk (suc f) body s =
    let attr_length = u16_at body 2 in
    let advance = 4 + attr_length + padding_of attr_length in
    let s' = see s (u16_at body 0) (take attr_length (drop 4 body)) in
    let rest = walk f (drop advance body) s' in
    if ltb (length body) 4
    then s
    else if ltb (length body) (4 + attr_length)
    then s
    else if ltb (length body) advance
    then s'
    else rest

abbrev pub nothing_seen : Seen
nothing_seen = record { seen_mapped = none; fallback = none; seen_other = none }

unfoldable pub conclude : Seen → Result StunError Response
conclude s = elim (or_kept s.seen_mapped s.fallback) [
  | none ↦ err no_mapped_address
  | some mapped ↦ ok (record { mapped = mapped; other = s.seen_other })
]

unfoldable pub parse_binding_response : Bytes → Bytes → Result StunError Response
parse_binding_response payload transaction_id =
    let body_length = u16_at payload 2 in
    let body = take body_length (drop header_size payload) in
    if ltb (length payload) header_size
    then err short_response
    else if not (u16_at payload 0 == binding_response)
    then err unexpected_type
    else if not (bytes_eq (take 12 (drop 8 payload)) transaction_id)
    then err transaction_mismatch
    else if ltb (length payload) (header_size + body_length)
    then err truncated_body
    else conclude (walk (length body) body nothing_seen)

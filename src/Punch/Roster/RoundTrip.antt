-- ===== src/Punch/Roster/RoundTrip.antt =====
-- A roster that is marshalled and parsed again, with whatever filler was drawn.
use vapora.Base.{
  ℕ, ◌+◌, ◌*◌, ◌/◌, ◌%◌, ◌^◌, ◌≤◌, ◌<◌, ◌≡◌, refl, ap, ◌∙◌, false, ◌||◌, ◌≢◌, Option, none, some,
  List, [], ◌∷◌, ◌++◌, append_assoc, arith, ◌==◌, if◌then◌else◌, length, take, drop, length-append,
  take-append, drop-append, map, Option-cases, All, Bytes, ok,
}
use vapora.Net.{Ip, v4, v6, UdpAddr, is_unspecified}
use vapora.Punch.Frame.{Rand}
use vapora.Punch.Frame.Padding.{padded-append}
use vapora.Punch.Roster.{
  entry_bytes, Entry, is_zero, candidate, read_candidate, marshal_entry, marshal_entries, marshal,
  parse_entry, parse_entries, parse_counted, parse_roster,
}

-- What an address is worth once it has crossed the wire: an IPv4 address other than 0.0.0.0 and a
-- port other than 0, or nothing.
abbrev pub carried_ip : Ip → ℕ → Option UdpAddr
carried_ip (v6 bs) port = none
carried_ip (v4 a b c d) port =
    if port == 0 || is_unspecified (v4 a b c d)
    then none
    else some (record { ip = v4 a b c d; port = port })

abbrev pub carried : Option UdpAddr → Option UdpAddr
carried none = none
carried (some addr) = carried_ip addr.ip addr.port

abbrev pub HasPort : Option UdpAddr → Type 0
HasPort none = Unit
HasPort (some addr) = addr.port < 2 ^ 16

pub read_candidate-candidate :
    (c : Option UdpAddr) → HasPort c → read_candidate (candidate c) ≡ carried c
unfolding read_candidate candidate
read_candidate-candidate none h = refl
read_candidate-candidate (some addr) h = on addr.ip addr.port h
  where
    on :
        (ip : Ip) (port : ℕ)
        → port < 2 ^ 16
        → read_candidate (candidate (some (record { ip = ip; port = port }))) ≡ carried_ip ip port
    on (v4 a b c d) port g =
        let whole : port % 2 ^ 16 / 256 % 256 * 256 + port % 2 ^ 16 % 256 ≡ port = omega arith in
        rw whole (ground arith)
    on (v6 bs) port g = ground arith

pub length-candidate : (c : Option UdpAddr) → length (candidate c) ≡ 6
unfolding candidate
length-candidate none = refl
length-candidate (some addr) = on addr.ip addr.port
  where
    on : (ip : Ip) (port : ℕ) → length (candidate (some (record { ip = ip; port = port }))) ≡ 6
    on (v4 a b c d) port = refl
    on (v6 bs) port = refl

-- What a member may announce about somebody: a key that is one, and an address that survives.
pub record IsSendable (e : Entry) : Type 0 where
  pub key_length : length e.key ≡ 32
  pub key_nonzero : is_zero e.key ≡ false
  pub addr_port : HasPort e.addr
  pub local_port : HasPort e.local
  pub addr_carried : carried e.addr ≡ e.addr
  pub addr_there : e.addr ≢ none

abbrev pub received : Entry → Entry
received e = record e { local = carried e.local }

-- Cutting an entry where its key and its first address end.
cut :
    (key addr local : Bytes)
    → length key ≡ 32
    → length addr ≡ 6
    → (take 32 (key ++ (addr ++ local)) ≡ key)
      × (take 6 (drop 32 (key ++ (addr ++ local))) ≡ addr)
      × (drop 38 (key ++ (addr ++ local)) ≡ local)
cut key addr local hk ha = (
  take-append key (addr ++ local) 32 hk,
  ap (take 6) (drop-append key (addr ++ local) 32 hk) ∙ take-append addr local 6 ha,
  rw (← append_assoc key addr local)
      (drop-append (key ++ addr) local 38 (omega (arith, length-append key addr))),
)

parse_entry-marshal_entry :
    (e : Entry) → IsSendable e → parse_entry (marshal_entry e) ≡ ok (received e)
unfolding parse_entry marshal_entry
parse_entry-marshal_entry e s = ground (
  arith,
  cut e.key (candidate e.addr) (candidate e.local) s.key_length (length-candidate e.addr),
  read_candidate-candidate e.addr s.addr_port,
  read_candidate-candidate e.local s.local_port,
  Option-cases e.addr,
)

length-marshal_entry : (e : Entry) → IsSendable e → length (marshal_entry e) ≡ entry_bytes
unfolding marshal_entry
length-marshal_entry e s = omega (
  arith,
  length-append e.key (candidate e.addr ++ candidate e.local),
  length-append (candidate e.addr) (candidate e.local),
  length-candidate e.addr,
  length-candidate e.local,
  s.key_length,
)

slice :
    (before x after rest : Bytes) (n k : ℕ)
    → length before ≡ n
    → length x ≡ k
    → take k (drop n (before ++ ((x ++ after) ++ rest))) ≡ x
slice before x after rest n k hb hx =
    ap (take k) (drop-append before ((x ++ after) ++ rest) n hb)
    ∙ ap (take k) (append_assoc x after rest)
    ∙ take-append x (after ++ rest) k hx

regroup :
    (before x after rest : Bytes)
    → before ++ ((x ++ after) ++ rest) ≡ (before ++ x) ++ (after ++ rest)
regroup before x after rest = simp append_assoc

parse_entries-marshal_entries :
    (es : List Entry) (i : ℕ) (before filler : Bytes)
    → All IsSendable es
    → length before ≡ i * entry_bytes
    → parse_entries (length es) i (before ++ (marshal_entries es ++ filler)) ≡ ok (map received es)
unfolding parse_entries marshal_entries
parse_entries-marshal_entries [] i before filler s h = refl
parse_entries-marshal_entries (e ∷ es) i before filler s h =
    let now =
      slice before (marshal_entry e) (marshal_entries es) filler (i * entry_bytes) entry_bytes h
        (length-marshal_entry e s.0) in
    let later =
      ap (parse_entries (length es) (i + 1))
        (regroup before (marshal_entry e) (marshal_entries es) filler)
      ∙ parse_entries-marshal_entries es (i + 1) (before ++ marshal_entry e) filler s.1
          (omega (arith, length-append before (marshal_entry e), length-marshal_entry e s.0)) in
    rw (now, parse_entry-marshal_entry e s.0, later)

length-marshal_entries :
    (es : List Entry) → All IsSendable es → length (marshal_entries es) ≡ length es * entry_bytes
unfolding marshal_entries
length-marshal_entries [] s = omega arith
length-marshal_entries (e ∷ es) s = omega (
  arith,
  length-append (marshal_entry e) (marshal_entries es),
  length-marshal_entry e s.0,
  length-marshal_entries es s.1,
)

parse_counted-marshal_entries :
    (es : List Entry) (max : ℕ) (filler : Bytes)
    → All IsSendable es
    → length es ≤ max
    → parse_counted (length es) max (marshal_entries es ++ filler) ≡ ok (map received es)
unfolding parse_counted
parse_counted-marshal_entries es max filler s h = ground (
  arith,
  length-append (marshal_entries es) filler,
  length-marshal_entries es s,
  parse_entries-marshal_entries es 0 [] filler s refl,
)

-- A roster of at most 255 members that the receiver's room can hold arrives whole, in order,
-- under any filler and any failure of the random source. Keys must be 32 bytes and not all
-- zero, addresses IPv4 with ports of 16 bits and neither zero; a second address that is not
-- such arrives as none.
pub parse_roster-marshal :
    (rand : Rand) (es : List Entry) (max : ℕ)
    → All IsSendable es
    → length es ≤ max
    → length es < 256
    → parse_roster (marshal rand es) max ≡ ok (map received es)
unfolding parse_roster marshal
parse_roster-marshal rand es max s h g =
    let (filler, e) = padded-append rand ((length es % 256) ∷ marshal_entries es) in
    let whole : length es % 256 ≡ length es = omega arith in
    ap (λ (b : Bytes). parse_roster b max) e
    ∙ ap (λ (n : ℕ). parse_counted n max (marshal_entries es ++ filler)) whole
    ∙ parse_counted-marshal_entries es max filler s h

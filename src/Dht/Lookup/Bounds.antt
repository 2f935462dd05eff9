-- ===== src/Dht/Lookup/Bounds.antt =====
-- pkg/dht/lookup.go: however the network lies, a search ends after a bounded number of questions.
use vapora.Base.{
  ℕ, zero, suc, ◌+◌, ◌*◌, ◌≤◌, ◌≡◌, inl, inr, refl, ap, ◌∙◌, true, false, Option, none, some, List,
  [], ◌∷◌, ◌++◌, append_assoc, append-nil, ◌==◌, if◌then◌else◌, length, length-append, take, map,
  arith, Bytes, bytes_eq_iff, Result, ok, err, Option-cases, Bool-cases,
}
use vapora.Net.{to_4, UdpAddr, contains_addr, Distinct, Distinct-append}
use vapora.Dht.Bencode.{Dict, get_list}
use vapora.Dht.Node.{Node, parse_peers}
use vapora.Dht.Lookup.{
  LookupError, Found, opt_eq, same_addr, contains_same, pick, next, add_peers, fold_reply, ask,
  ask_all, Network, search_rounds, search_from, start_from, alpha, sort_nodes, closest, rounds,
}

-- The questions put in a round are logged, once each and in order.
record Picks (left : ℕ) (asked : List UdpAddr) (r : List Node × List UdpAddr) : Type 0 where
  logged : r.1 ≡ asked ++ map (λ n. n.addr) r.0
  few : length r.0 ≤ left
  fresh : Distinct r.1

pick-Picks :
    (ns : List Node) (left : ℕ) (asked : List UdpAddr)
    → Distinct asked
    → Picks left asked (pick ns left asked)
unfolding pick
pick-Picks [] left asked d = record { logged = rw append-nil; few = omega arith; fresh = d }
pick-Picks (n ∷ ns) zero asked d = record { logged = rw append-nil; few = omega arith; fresh = d }
pick-Picks (n ∷ ns) (suc left) asked d = elim (Bool-cases (contains_addr asked n.addr)) [
  | inl seen ↦ rw seen (pick-Picks ns (suc left) asked d)
  | inr new ↦
      let more = pick-Picks ns left (asked ++ n.addr ∷ []) (Distinct-append asked n.addr d new) in
      rw new (record {
        logged =
            more.logged
            ∙ append_assoc asked (n.addr ∷ [])
                (map (λ m. m.addr) (pick ns left (asked ++ n.addr ∷ [])).0);
        few = omega (arith, more.few);
        fresh = more.fresh;
      })
]

-- No peer twice.
abbrev pub DistinctPeers : List UdpAddr → Type 0
DistinctPeers [] = Unit
DistinctPeers (a ∷ as') = (contains_same as' a ≡ false) × DistinctPeers as'

length-map : (ns : List Node) → length (map (λ n. n.addr) ns) ≡ length ns
length-map [] = refl
length-map (n ∷ ns) = omega (arith, length-map ns)

same_addr_comm : (a b : UdpAddr) → same_addr a b ≡ same_addr b a
unfolding same_addr
same_addr_comm a b = ground (arith, opt_eq_comm (to_4 a.ip) (to_4 b.ip))
  where
    opt_eq_comm : (o p : Option Bytes) → opt_eq o p ≡ opt_eq p o
    opt_eq_comm none none = refl
    opt_eq_comm none (some y) = refl
    opt_eq_comm (some x) none = refl
    opt_eq_comm (some x) (some y) = ground (arith, bytes_eq_iff x y, bytes_eq_iff y x)

contains_same-append :
    (as' : List UdpAddr) (a b : UdpAddr)
    → contains_same (as' ++ a ∷ []) b ≡ (if contains_same as' b then true else same_addr a b)
unfolding contains_same
contains_same-append [] a b = ground arith
contains_same-append (x ∷ as') a b = ground (arith, contains_same-append as' a b)

DistinctPeers-append :
    (as' : List UdpAddr) (a : UdpAddr)
    → DistinctPeers as'
    → contains_same as' a ≡ false
    → DistinctPeers (as' ++ a ∷ [])
unfolding contains_same
DistinctPeers-append [] a d h = (refl, tt)
DistinctPeers-append (x ∷ as') a (new, d) h = (
  contains_same-append as' a x ∙ ground (arith, same_addr_comm x a),
  DistinctPeers-append as' a d (ground arith),
)

DistinctPeers-add_peers :
    (known ps : List UdpAddr) → DistinctPeers known → DistinctPeers (add_peers known ps)
unfolding add_peers
DistinctPeers-add_peers known [] d = d
DistinctPeers-add_peers known (p ∷ ps) d = elim (Bool-cases (contains_same known p)) [
  | inl seen ↦ rw seen (DistinctPeers-add_peers known ps d)
  | inr new ↦
      rw new (DistinctPeers-add_peers (known ++ p ∷ []) ps (DistinctPeers-append known p d new))
]

record SearchInv (left : ℕ) (f : Found) : Type 0 where
  asked_once : Distinct f.asked
  asked_few : length f.asked + alpha * left ≤ 36
  answered_le : f.answered ≤ length f.asked
  peers_once : DistinctPeers f.peers

-- With some questions of this round not answered yet.
record Asking (open_questions left : ℕ) (f : Found) : Type 0 where
  asked_once : Distinct f.asked
  asked_few : length f.asked + alpha * left ≤ 36
  answered_le : f.answered + open_questions ≤ length f.asked
  peers_once : DistinctPeers f.peers

ask-Asking :
    (k left : ℕ) (f : Found) (n : Node) (reply : Option Dict)
    → Asking (suc k) left f
    → Asking k left (ask f n reply)
unfolding ask fold_reply
ask-Asking k left f n none v = record {
  asked_once = v.asked_once;
  asked_few = v.asked_few;
  answered_le = omega (arith, v.answered_le);
  peers_once = v.peers_once;
}
ask-Asking k left f n (some reply) v = record {
  asked_once = v.asked_once;
  asked_few = v.asked_few;
  answered_le = omega (arith, v.answered_le);
  peers_once = elim (Option-cases (get_list reply (b'v' ∷ b'a' ∷ b'l' ∷ b'u' ∷ b'e' ∷ b's' ∷ []))) [
    | inl e ↦ ground (arith, v.peers_once)
    | inr (values, e) ↦
        ground (arith, DistinctPeers-add_peers f.peers (parse_peers values) v.peers_once)
  ];
}

ask_all-SearchInv :
    (network : Network) (round left : ℕ) (f : Found) (ns : List Node)
    → Asking (length ns) left f
    → SearchInv left (ask_all network round f ns)
unfolding ask_all
ask_all-SearchInv network round left f [] v = record {
  asked_once = v.asked_once;
  asked_few = v.asked_few;
  answered_le = omega (arith, v.answered_le);
  peers_once = v.peers_once;
}
ask_all-SearchInv network round left f (n ∷ ns) v =
    ask_all-SearchInv network round left (ask f n (network round n)) ns
      (ask-Asking (length ns) left f n (network round n) v)

next-Asking :
    (key : Bytes) (left : ℕ) (f : Found)
    → SearchInv (suc left) f
    → Asking (length (next key f).0) left (next key f).1
unfolding next
next-Asking key left f v =
    let near = take (closest * 4) (sort_nodes key f.near) in
    let p = pick-Picks near alpha f.asked v.asked_once in
    let batch = (pick near alpha f.asked).0 in
    let long : length (pick near alpha f.asked).1 ≡ length f.asked + length batch =
      ap (λ (xs : List UdpAddr). length xs) p.logged
      ∙ omega (arith, length-append f.asked (map (λ n. n.addr) batch), length-map batch) in
    record {
      asked_once = p.fresh;
      asked_few = omega (arith, long, p.few, v.asked_few);
      answered_le = omega (arith, long, v.answered_le);
      peers_once = v.peers_once;
    }

settled : (k left : ℕ) (f : Found) → Asking k left f → SearchInv 0 f
settled k left f v = record {
  asked_once = v.asked_once;
  asked_few = omega (arith, v.asked_few);
  answered_le = omega (arith, v.answered_le);
  peers_once = v.peers_once;
}

search_rounds-SearchInv :
    (network : Network) (key : Bytes) (left : ℕ) (f : Found)
    → SearchInv left f
    → SearchInv 0 (search_rounds network key left f)
unfolding search_rounds
search_rounds-SearchInv network key zero f v = v
search_rounds-SearchInv network key (suc left) f v =
    let asking = next-Asking key left f v in
    let (batch, f') = next key f in
    let rest =
      search_rounds-SearchInv network key left (ask_all network left f' batch)
        (ask_all-SearchInv network left left f' batch asking) in
    ground (arith, settled (length batch) left f' asking, rest)

-- What a search may come to.
abbrev pub InBounds : Result LookupError Found → Type 0
InBounds (err e) = Unit
InBounds (ok f) =
    Distinct f.asked × (length f.asked ≤ 36) × (f.answered ≤ length f.asked) × DistinctPeers f.peers

-- Whatever the network answers, in whatever rounds: a search puts at most 36 questions, none to an
-- address asked before, counts no more answers than questions, and lists no peer twice.
pub search_from-InBounds :
    (network : Network) (key : Bytes) (seeds : List Node) → InBounds (search_from network key seeds)
unfolding search_from
search_from-InBounds network key seeds = elim (Bool-cases (length seeds == 0)) [
  | inl nobody ↦ rw nobody tt
  | inr some_seed ↦
      let start : SearchInv rounds (start_from seeds) = record {
        asked_once = tt;
        asked_few = omega arith;
        answered_le = omega arith;
        peers_once = tt;
      } in
      let v = search_rounds-SearchInv network key rounds (start_from seeds) start in
      rw some_seed (v.asked_once, omega (arith, v.asked_few), v.answered_le, v.peers_once)
]

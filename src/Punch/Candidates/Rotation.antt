-- ===== src/Punch/Candidates/Rotation.antt =====
-- pkg/punch/candidates.go: the set stays small and without doubles, and rotating visits all of it.
use vapora.Base.{
  ℕ, zero, suc, ◌+◌, ◌-◌, ◌%◌, ◌≤◌, ◌<◌, ◌≡◌, ◌⊎◌, inl, inr, refl, ap, ◌∙◌, Option, none, some,
  List, [], ◌∷◌, leb, length, length-append, get_elem?, arith, Bool-cases, append-nil, append_assoc,
  ◌++◌, if◌then◌else◌,
}
use Prim.Native.Nat.{max}
use vapora.Net.{contains_addr, Distinct, Distinct-append, UdpAddr}
use vapora.Punch.Candidates.{
  Candidates, consider_addr, consider, new_candidates, next, at, max_candidates,
}
use native.Mathlib.Nat.{mod-lt, mod-eq_of_lt, mod-add-mod, add-zero, mod-eq-sub-mod}

pub record IsValid (c : Candidates) : Type 0 where
  pub distinct : Distinct c.addrs
  pub small : length c.addrs ≤ max_candidates
  pub in_range : (c.current < length c.addrs) ⊎ ((length c.addrs ≡ 0) × (c.current ≡ 0))

consider_addr-IsValid : (c : Candidates) (a : UdpAddr) → IsValid c → IsValid (consider_addr c a).0
unfolding consider_addr
consider_addr-IsValid c a v =
    ground (arith, v, Distinct-append c.addrs a v.distinct, length-append c.addrs (a ∷ []))

-- What is offered is added at the end of the set, if it is, and nothing else moves: `added` is what
-- is behind the addresses that were there, at most as many as the set has room for.
pub record Extends (c : Candidates) (added : List UdpAddr) (c' : Candidates) : Type 0 where
  pub addrs_are : c'.addrs ≡ c.addrs ++ added
  pub current_is : c'.current ≡ c.current
  pub room : length c'.addrs ≤ max (length c.addrs) max_candidates

pub Extends-refl : (c : Candidates) → Extends c [] c
Extends-refl c = record { addrs_are = rw append-nil refl; current_is = refl; room = omega arith }

pub Extends-trans :
    (c c' c'' : Candidates) (xs ys : List UdpAddr)
    → Extends c xs c'
    → Extends c' ys c''
    → Extends c (xs ++ ys) c''
Extends-trans c c' c'' xs ys h g = record {
  addrs_are =
      g.addrs_are ∙ ap (λ (t : List UdpAddr). t ++ ys) h.addrs_are ∙ append_assoc c.addrs xs ys;
  current_is = g.current_is ∙ h.current_is;
  room = omega (arith, g.room, h.room);
}

-- What of an offer goes in.
abbrev pub taken_in : Candidates → Option UdpAddr → List UdpAddr
taken_in c none = []
taken_in c (some addr) = if (consider c (some addr)).1 then addr ∷ [] else []

pub consider-Extends :
    (c : Candidates) (addr : Option UdpAddr) → Extends c (taken_in c addr) (consider c addr).0
unfolding consider consider_addr
consider-Extends c none = Extends-refl c
consider-Extends c (some a) = elim (Bool-cases (contains_addr c.addrs a)) [
  | inl known ↦ rw known (Extends-refl c)
  | inr new ↦ rw new (elim (Bool-cases (leb max_candidates (length c.addrs))) [
    | inl full ↦ rw full (Extends-refl c)
    | inr free ↦ rw free (record {
      addrs_are = refl;
      current_is = refl;
      room = ground (arith, length-append c.addrs (a ∷ []));
    })
  ])
]

pub consider-IsValid : (c : Candidates) (a : Option UdpAddr) → IsValid c → IsValid (consider c a).0
unfolding consider
consider-IsValid c none v = v
consider-IsValid c (some a) v = consider_addr-IsValid c a v

pub next-IsValid : (c : Candidates) → IsValid c → IsValid (next c).0
unfolding next
next-IsValid c v = record {
  distinct = ground (arith, v.distinct);
  small = ground (arith, v.small);
  in_range = ground (arith, v.in_range, mod-lt (c.current + 1) {m = length c.addrs});
}

-- The first address, then any number of addresses offered, in any order with rotations.
pub data Move : Type 0 where
  considers : Option UdpAddr → Move
  rotates : Move

pub apply : Candidates → Move → Candidates
apply c (considers a) = (consider c a).0
apply c rotates = (next c).0

pub apply_all : Candidates → List Move → Candidates
apply_all c [] = c
apply_all c (m ∷ ms) = apply_all (apply c m) ms

apply_all-IsValid : (c : Candidates) (ms : List Move) → IsValid c → IsValid (apply_all c ms)
unfolding apply_all apply
apply_all-IsValid c [] v = v
apply_all-IsValid c (considers a ∷ ms) v =
    apply_all-IsValid (consider c a).0 ms (consider-IsValid c a v)
apply_all-IsValid c (rotates ∷ ms) v = apply_all-IsValid (next c).0 ms (next-IsValid c v)

pub new_candidates-IsValid : (first : Option UdpAddr) → IsValid (new_candidates first)
unfolding new_candidates
new_candidates-IsValid first =
    consider-IsValid (record { addrs = []; current = 0 }) first
      (record { distinct = tt; small = omega arith; in_range = inr (refl, refl) })

-- Whatever a roster names and however often it is rotated, the set holds at most four addresses,
-- none of them twice, and its index stays inside it.
pub apply_all-new_candidates-IsValid :
    (first : Option UdpAddr) (ms : List Move) → IsValid (apply_all (new_candidates first) ms)
apply_all-new_candidates-IsValid first ms = apply_all-IsValid _ ms (new_candidates-IsValid first)

pub rotate_times : ℕ → Candidates → Candidates
rotate_times zero c = c
rotate_times (suc k) c = rotate_times k (next c).0

one_more : (i k : ℕ) → i + 1 + k ≡ i + suc k
one_more i k = omega arith

rotate_times-lem :
    (k : ℕ) (c : Candidates)
    → 2 ≤ length c.addrs
    → c.current < length c.addrs
    → rotate_times k c ≡ record c { current = (c.current + k) % length c.addrs }
unfolding rotate_times next
rotate_times-lem zero c h r =
    let still : (c.current + 0) % length c.addrs ≡ c.current =
      ap (λ (t : ℕ). t % length c.addrs) (add-zero c.current) ∙ mod-eq_of_lt r in
    rw still
rotate_times-lem (suc k) c h r =
    let on : (next c).0 ≡ record c { current = (c.current + 1) % length c.addrs } = ground arith in
    rw on (
      rotate_times-lem k (record c { current = (c.current + 1) % length c.addrs }) h
        (mod-lt (c.current + 1) (omega arith))
      ∙ ap (λ (t : ℕ). record { addrs = c.addrs; current = t })
          (mod-add-mod (c.current + 1) (length c.addrs) k
            ∙ ap (λ (t : ℕ). t % length c.addrs) (one_more c.current k)))

wrap : (j n : ℕ) → j < n → (j + n) % n ≡ j
wrap j n h = grind arith

mod_back : (i j n : ℕ) → i < n → j < n → (i + (j + n - i) % n) % n ≡ j
mod_back i j n h g = elim (Bool-cases (leb i j)) [
  | inl le ↦
      let cut : (j + n - i) % n ≡ j - i =
        mod-eq-sub-mod (ground arith)
        ∙ ap (λ (t : ℕ). t % n) (ground arith)
        ∙ mod-eq_of_lt (ground arith) in
      rw cut (ap (λ (t : ℕ). t % n) (ground arith) ∙ mod-eq_of_lt g)
  | inr gt ↦
      let small : (j + n - i) % n ≡ j + n - i = mod-eq_of_lt (ground arith) in
      rw small (ap (λ (t : ℕ). t % n) (ground arith) ∙ wrap j n g)
]

-- With two addresses or more, less than a full round of rotations brings up any address of the set,
-- and the set itself stays as it is.
pub rotate_times_reaches :
    (c : Candidates) (j : ℕ)
    → IsValid c
    → 2 ≤ length c.addrs
    → j < length c.addrs
    → (k : ℕ) × (k < length c.addrs)
      × (at (rotate_times k c) ≡ get_elem? c.addrs j)
      × ((rotate_times k c).addrs ≡ c.addrs)
unfolding at
rotate_times_reaches c j v h g =
    let n = length c.addrs in
    let inside : c.current < n = omega (arith, v.in_range) in
    let k = (j + n - c.current) % n in
    let there =
      rotate_times-lem k c h inside
      ∙ ap (λ (t : ℕ). record { addrs = c.addrs; current = t }) (mod_back c.current j n inside g) in
    (k, mod-lt (j + n - c.current) (omega arith), rw there, rw there)

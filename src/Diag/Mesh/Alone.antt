-- ===== src/Diag/Mesh/Alone.antt =====
-- pkg/diag/mesh.go: who is named as reaching nobody.
use vapora.Base.{
  ℕ, ◌+◌, ◌≡◌, ◌↔◌, refl, Bool, true, false, ◌||◌, List, [], ◌∷◌, ◌++◌, if◌then◌else◌, length,
  arith, inl, inr, Bool-cases, All, ◌∙◌, Bytes, bytes_eq, bytes_eq_iff, ◌==◌, ◌≤◌, ap,
}
use vapora.Base.Dict.{lookup-insert}
use vapora.Diag.Mesh.{
  Member, Tally, Counts, count_of, bump, tally_pair, tally_row, tally_all, nothing_tallied, mesh_of,
  mesh_of-many, with_count, sort_in, sort_names,
}
use vapora.Diag.Mesh.Closes.{can_talk, can_talk_comm}

abbrev is : Bytes → Bytes → ℕ
is k name = if bytes_eq name k then 1 else 0

count_of-bump :
    (k name : Bytes) (counts : Counts)
    → count_of k (bump name counts) ≡ is k name + count_of k counts
count_of-bump k name counts =
    rw (lookup-insert bytes_eq bytes_eq_iff name k (count_of name counts + 1) counts)
      (elim (Bool-cases (bytes_eq name k)) [
        | inl h ↦ rw h (rw ((bytes_eq_iff name k).0 h) (omega arith))
        | inr h ↦ rw h (omega arith)
      ])

-- How often the loops count `k` at the two members of a pair, a row, a room.
abbrev of_pair : Bytes → Member → Member → ℕ
of_pair k a b = if can_talk a b then is k b.name + is k a.name else 0

unfoldable of_row : Bytes → Member → List Member → ℕ
of_row k a [] = 0
of_row k a (b ∷ bs) = of_pair k a b + of_row k a bs

unfoldable of_room : Bytes → List Member → ℕ
of_room k [] = 0
of_room k (m ∷ ms) = of_row k m ms + of_room k ms

reached-tally_pair :
    (k : Bytes) (t : Tally) (a b : Member)
    → count_of k (tally_pair t a b).reached ≡ of_pair k a b + count_of k t.reached
unfolding tally_pair
reached-tally_pair k t a b = elim (Bool-cases (can_talk a b)) [
  | inl h ↦ rw h (
      omega
        (arith, count_of-bump k b.name (bump a.name t.reached), count_of-bump k a.name t.reached))
  | inr h ↦ rw h (omega arith)
]

reached-tally_row :
    (k : Bytes) (a : Member) (bs : List Member) (t : Tally)
    → count_of k (tally_row a bs t).reached ≡ of_row k a bs + count_of k t.reached
unfolding tally_row of_row
reached-tally_row k a [] t = omega arith
reached-tally_row k a (b ∷ bs) t =
    omega (arith, reached-tally_row k a bs (tally_pair t a b), reached-tally_pair k t a b)

reached-tally_all :
    (k : Bytes) (ms : List Member) (t : Tally)
    → count_of k (tally_all ms t).reached ≡ of_room k ms + count_of k t.reached
unfolding tally_all of_room
reached-tally_all k [] t = omega arith
reached-tally_all k (m ∷ ms) t =
    omega (arith, reached-tally_all k ms (tally_row m ms t), reached-tally_row k m ms t)

-- No other member has the name.
abbrev pub Unnamed : Bytes → List Member → Type 0
Unnamed k = All (λ m. bytes_eq m.name k ≡ false)

of_row-other :
    (k : Bytes) (a : Member) (bs : List Member)
    → bytes_eq a.name k ≡ false
    → Unnamed k bs
    → of_row k a bs ≡ 0
unfolding of_row
of_row-other k a [] h hs = refl
of_row-other k a (b ∷ bs) h hs = ground (arith, of_row-other k a bs h hs.1)

of_room-other : (k : Bytes) (ms : List Member) → Unnamed k ms → of_room k ms ≡ 0
unfolding of_room
of_room-other k [] hs = refl
of_room-other k (m ∷ ms) hs = omega (arith, of_row-other k m ms hs.0 hs.1, of_room-other k ms hs.1)

abbrev pub Silent : Member → List Member → Type 0
Silent m = All (λ n. can_talk m n ≡ false)

of_row_self :
    (m : Member) (bs : List Member) → Unnamed m.name bs → (of_row m.name m bs ≡ 0) ↔ Silent m bs
unfolding of_row
of_row_self m [] hs = (λ h. tt, λ h. refl)
of_row_self m (b ∷ bs) hs = ground (arith, of_row_self m bs hs.1, bytes_eq_iff m.name m.name)

of_row-through :
    (a m : Member) (xs ys : List Member)
    → bytes_eq a.name m.name ≡ false
    → Unnamed m.name xs
    → Unnamed m.name ys
    → (of_row m.name a (xs ++ m ∷ ys) ≡ 0) ↔ (can_talk a m ≡ false)
unfolding of_row
of_row-through a m [] ys h hx hy =
    ground (arith, of_row-other m.name a ys h hy, bytes_eq_iff m.name m.name)
of_row-through a m (x ∷ xs) ys h hx hy = ground (arith, of_row-through a m xs ys h hx.1 hy)

of_room-Silent :
    (m : Member) (xs ys : List Member)
    → Unnamed m.name xs
    → Unnamed m.name ys
    → (of_room m.name (xs ++ m ∷ ys) ≡ 0) ↔ (Silent m xs × Silent m ys)
unfolding of_room
of_room-Silent m [] ys hx hy = ground (arith, of_row_self m ys hy, of_room-other m.name ys hy)
of_room-Silent m (x ∷ xs) ys hx hy = ground (
  arith,
  of_row-through x m xs ys hx.0 hx.1 hy,
  of_room-Silent m xs ys hx.1 hy,
  can_talk_comm x m,
)

-- Whether a name is on a list.
unfoldable pub has_name : Bytes → List Bytes → Bool
has_name k [] = false
has_name k (n ∷ ns) = bytes_eq n k || has_name k ns

has_name-sort_in :
    (k n : Bytes) (ns : List Bytes) → has_name k (sort_in n ns) ≡ (bytes_eq n k || has_name k ns)
unfolding has_name sort_in
has_name-sort_in k n [] = refl
has_name-sort_in k n (x ∷ ns) = ground (arith, has_name-sort_in k n ns)

has_name-sort_names : (k : Bytes) (ns : List Bytes) → has_name k (sort_names ns) ≡ has_name k ns
unfolding has_name sort_names
has_name-sort_names k [] = refl
has_name-sort_names k (n ∷ ns) =
    has_name-sort_in k n (sort_names ns) ∙ ap (λ r. bytes_eq n k || r) (has_name-sort_names k ns)

has_name-with_count_other :
    (k : Bytes) (n : ℕ) (counts : Counts) (ms : List Member)
    → Unnamed k ms
    → has_name k (with_count n counts ms) ≡ false
unfolding has_name with_count
has_name-with_count_other k n counts [] h = refl
has_name-with_count_other k n counts (m ∷ ms) h =
    ground (arith, has_name-with_count_other k n counts ms h.1)

has_name-with_count :
    (m : Member) (n : ℕ) (counts : Counts) (xs ys : List Member)
    → Unnamed m.name xs
    → Unnamed m.name ys
    → has_name m.name (with_count n counts (xs ++ m ∷ ys)) ≡ (count_of m.name counts == n)
unfolding has_name with_count
has_name-with_count m n counts [] ys hx hy =
    ground (arith, has_name-with_count_other m.name n counts ys hy, bytes_eq_iff m.name m.name)
has_name-with_count m n counts (x ∷ xs) ys hx hy =
    ground (arith, has_name-with_count m n counts xs ys hx.1 hy)

isolated-has_name :
    (m : Member) (ms : List Member)
    → 2 ≤ length ms
    → has_name m.name (mesh_of ms).isolated
      ≡ has_name m.name (with_count 0 (tally_all ms nothing_tallied).reached ms)
isolated-has_name m [] h = absurd (omega arith)
isolated-has_name m (a ∷ []) h = absurd (omega arith)
isolated-has_name m (a ∷ b ∷ ms) h = rw (mesh_of-many a b ms) (has_name-sort_names m.name _)

-- In a room of two or more, a member whose name nobody else has is named as isolated exactly if
-- it can connect to none of the others, whoever stands before it or after it.
pub isolated-Silent :
    (m : Member) (xs ys : List Member)
    → Unnamed m.name xs
    → Unnamed m.name ys
    → 2 ≤ length (xs ++ m ∷ ys)
    → (has_name m.name (mesh_of (xs ++ m ∷ ys)).isolated ≡ true) ↔ (Silent m xs × Silent m ys)
isolated-Silent m xs ys hx hy two =
    let ms = xs ++ m ∷ ys in
    let counts = (tally_all ms nothing_tallied).reached in
    rw (isolated-has_name m ms two) (
      rw (has_name-with_count m 0 counts xs ys hx hy)
        (ground (arith, reached-tally_all m.name ms nothing_tallied, of_room-Silent m xs ys hx hy)))

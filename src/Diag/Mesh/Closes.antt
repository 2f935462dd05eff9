-- ===== src/Diag/Mesh/Closes.antt =====
-- pkg/diag/mesh.go: the pairs that `MeshOf` names, against all pairs listed.
use vapora.Base.{
  ◌≡◌, ◌↔◌, refl, Bool, true, List, [], ◌∷◌, ◌++◌, if◌then◌else◌, arith, append_assoc, append-nil,
  inl, inr, Bool-cases, All, ◌∙◌, ap,
}
use vapora.Diag.Profile.{pair}
use vapora.Diag.Profile.Reach.{pair-mirrored}
use vapora.Diag.Mesh.{
  Member, Unreachable, Tally, tally_pair, tally_row, tally_all, nothing_tallied, mesh_of,
  mesh_of-many, is_empty,
}

abbrev pub can_talk : Member → Member → Bool
can_talk a b = (pair a.profile b.profile).works

abbrev names_of : Member → Member → Unreachable
names_of a b = record { a = a.name; b = b.name }

-- The pairs of the room that cannot connect, each once.
unfoldable pub broken_row : Member → List Member → List Unreachable
broken_row a [] = []
broken_row a (b ∷ bs) = if can_talk a b then broken_row a bs else names_of a b ∷ broken_row a bs

unfoldable pub broken_pairs : List Member → List Unreachable
broken_pairs [] = []
broken_pairs (m ∷ ms) = broken_row m ms ++ broken_pairs ms

-- Two members can connect, whichever of them the advice is asked for first.
abbrev pub BothTalk : Member → Member → Type 0
BothTalk m n = (can_talk m n ≡ true) × (can_talk n m ≡ true)

abbrev pub EveryPair : List Member → Type 0
EveryPair [] = Unit
EveryPair (m ∷ ms) = All (BothTalk m) ms × EveryPair ms

pub can_talk_comm : (a b : Member) → can_talk a b ≡ can_talk b a
can_talk_comm a b = ap (λ (x : _). x.works) (pair-mirrored b.profile a.profile)

broken-tally_pair :
    (t : Tally) (a b : Member)
    → (tally_pair t a b).broken ≡ (if can_talk a b then t.broken else t.broken ++ names_of a b ∷ [])
unfolding tally_pair
broken-tally_pair t a b = elim (Bool-cases (can_talk a b)) [ inl h ↦ rw h refl | inr h ↦ rw h refl ]

broken-tally_row :
    (a : Member) (bs : List Member) (t : Tally)
    → (tally_row a bs t).broken ≡ t.broken ++ broken_row a bs
unfolding tally_row broken_row
broken-tally_row a [] t = rw append-nil refl
broken-tally_row a (b ∷ bs) t =
    broken-tally_row a bs (tally_pair t a b)
    ∙ (rw (broken-tally_pair t a b) (elim (Bool-cases (can_talk a b)) [
      | inl h ↦ rw h refl
      | inr h ↦ rw h (append_assoc t.broken (names_of a b ∷ []) (broken_row a bs))
    ]))

broken-tally_all :
    (ms : List Member) (t : Tally) → (tally_all ms t).broken ≡ t.broken ++ broken_pairs ms
unfolding tally_all broken_pairs
broken-tally_all [] t = rw append-nil refl
broken-tally_all (m ∷ ms) t =
    broken-tally_all ms (tally_row m ms t)
    ∙ (rw (broken-tally_row m ms t) (append_assoc t.broken (broken_row m ms) (broken_pairs ms)))

row_empty :
    (a : Member) (bs : List Member) (rest : List Unreachable)
    → (is_empty (broken_row a bs ++ rest) ≡ true) ↔ (All (BothTalk a) bs × (is_empty rest ≡ true))
unfolding broken_row
row_empty a [] rest = (λ h. (tt, h), λ h. h.1)
row_empty a (b ∷ bs) rest = ground (arith, row_empty a bs rest, can_talk_comm a b)

pairs_empty : (ms : List Member) → (is_empty (broken_pairs ms) ≡ true) ↔ EveryPair ms
unfolding broken_pairs
pairs_empty [] = (λ h. tt, λ h. refl)
pairs_empty (m ∷ ms) = ground (arith, row_empty m ms (broken_pairs ms), pairs_empty ms)

-- A room closes exactly if every two of its members can connect, the advice for the pair saying so
-- whichever of the two is taken first; and what is listed as broken are the pairs that cannot, each
-- once, in the order of the members.
pub mesh_of-EveryPair :
    (ms : List Member)
    → (((mesh_of ms).closes ≡ true) ↔ EveryPair ms) × ((mesh_of ms).broken ≡ broken_pairs ms)
unfolding mesh_of
mesh_of-EveryPair [] = ((λ h. tt, λ h. refl), unfold broken_pairs in refl)
mesh_of-EveryPair (m ∷ []) = ((λ h. (tt, tt), λ h. refl), unfold broken_pairs broken_row in refl)
mesh_of-EveryPair (m ∷ n ∷ ms) =
    let b = broken-tally_all (m ∷ n ∷ ms) nothing_tallied in
    rw (mesh_of-many m n ms) (rw b (pairs_empty (m ∷ n ∷ ms)), b)

-- ===== src/Names/Apart.antt =====
-- pkg/names/names.go: short names tell people apart.
use vapora.Base.{
  ℕ, ◌≡◌, refl, sym, ap, ◌∙◌, true, false, Option, some, List, [], ◌∷◌, ◌==◌, if◌then◌else◌, Bytes,
  bytes_eq, bytes_eq_iff, arith, inl, inr, Bool-cases,
}
use vapora.Base.Dict.{lookup}
use vapora.Names.{full, name_of, chosen, give_names, short_from, short_names}
use vapora.Names.Given.{
  blanks, blanks_1, blanks_2, blanks_full, mem, lookup-give_names, mem-give_names, count_two,
}

module _ (material : Bytes → Option Bytes) where
  abbrev pub left : ℕ → List Bytes → List (Bytes × Bytes) → List Bytes
  left words keys short = (give_names material words keys keys short).1

  abbrev given : ℕ → List Bytes → List (Bytes × Bytes) → List (Bytes × Bytes)
  given words keys short = (give_names material words keys keys short).0

  short_from-nil :
      (ws : List ℕ) (short : List (Bytes × Bytes)) → short_from material ws [] short ≡ short
  unfolding short_from give_names
  short_from-nil [] short = refl
  short_from-nil (w ∷ ws) short = refl

  -- Stopping early, once nobody is left, changes nothing.
  short_from-step :
      (w : ℕ) (ws : List ℕ) (keys : List Bytes) (short : List (Bytes × Bytes))
      → short_from material (w ∷ ws) keys short
        ≡ short_from material ws (left w keys short) (given w keys short)
  unfolding short_from
  short_from-step w ws keys short = of_left (left w keys short) (given w keys short) ws
    where
      of_left :
          (remaining : List Bytes) (named : List (Bytes × Bytes)) (ws : List ℕ)
          → (let rest = short_from material ws remaining named in
              elim remaining [ [] ↦ named | ◌∷◌ k ks ↦ rest ])
            ≡ short_from material ws remaining named
      of_left [] named ws = sym (short_from-nil ws named)
      of_left (k ∷ ks) named ws = refl

  -- The number of words that a key is named by.
  abbrev pub words_for : List Bytes → Bytes → ℕ
  words_for keys key =
      if chosen material 1 keys key
      then 1
      else if chosen material 2 (left 1 keys []) key
      then 2
      else 3

  pub lookup-short_names :
      (keys : List Bytes) (key : Bytes)
      → mem key keys ≡ true
      → lookup bytes_eq key (short_names material keys)
        ≡ some (name_of material key (words_for keys key))
  unfolding short_names
  lookup-short_names keys key m =
      let s1 = given 1 keys [] in
      let r1 = left 1 keys [] in
      let s2 = given 2 r1 s1 in
      let r2 = left 2 r1 s1 in
      let all : short_from material (1 ∷ 2 ∷ 3 ∷ []) keys [] ≡ given 3 r2 s2 =
        short_from-step 1 (2 ∷ 3 ∷ []) keys []
        ∙ (short_from-step 2 (3 ∷ []) r1 s1
            ∙ (short_from-step 3 [] r2 s2 ∙ (unfold short_from in refl))) in
      rw all (
        ground (
          arith,
          lookup-give_names material 3 r2 r2 s2 key,
          lookup-give_names material 2 r1 r1 s1 key,
          lookup-give_names material 1 keys keys [] key,
          mem-give_names material 2 r1 r1 s1 key,
          mem-give_names material 1 keys keys [] key,
        ))

  unique :
      (words : ℕ) (keys : List Bytes) (key other : Bytes)
      → (words == 3) ≡ false
      → chosen material words keys key ≡ true
      → mem key keys ≡ true
      → mem other keys ≡ true
      → name_of material other words ≡ name_of material key words
      → key ≡ other
  unique words keys key other w c m n e = elim (Bool-cases (bytes_eq key other)) [
    | inl same ↦ (bytes_eq_iff key other).0 same
    | inr differ ↦ absurd (ground (arith, count_two material words key other keys m n e differ))
  ]

  -- Names of different numbers of words differ in their blanks.
  blanks_of : ℕ → ℕ
  blanks_of words = if words == 1 then 0 else if words == 2 then 1 else 2

  blanks_for :
      (keys : List Bytes) (key : Bytes)
      → blanks (name_of material key (words_for keys key)) ≡ blanks_of (words_for keys key)
  unfolding blanks_of
  blanks_for keys key =
      ground (arith, blanks_1 material key, blanks_2 material key, blanks_full material key)

  same_name :
      (keys : List Bytes) (key other : Bytes)
      → mem key keys ≡ true
      → mem other keys ≡ true
      → name_of material key (words_for keys key) ≡ name_of material other (words_for keys other)
      → name_of material key 3 ≡ name_of material other 3
  unfolding blanks_of
  same_name keys key other m n e =
      let r1 = left 1 keys [] in
      let blank = sym (blanks_for keys key) ∙ (ap blanks e ∙ blanks_for keys other) in
      elim (Bool-cases (chosen material 1 keys key)) [
        | inl p ↦ elim (Bool-cases (chosen material 1 keys other)) [
          | inl q ↦
              ap (λ k. name_of material k 3)
                (unique 1 keys key other refl p m n (sym (rw (p, q) at e)))
          | inr q ↦ absurd (ground (arith, blank))
        ]
        | inr p ↦ elim (Bool-cases (chosen material 1 keys other)) [
          | inl q ↦ absurd (ground (arith, blank))
          | inr q ↦ elim (Bool-cases (chosen material 2 r1 key)) [
            | inl p2 ↦ elim (Bool-cases (chosen material 2 r1 other)) [
              | inl q2 ↦
                  ap (λ k. name_of material k 3)
                    (unique 2 r1 key other refl p2
                      (ground (arith, mem-give_names material 1 keys keys [] key))
                      (ground (arith, mem-give_names material 1 keys keys [] other))
                      (sym (rw (p, q, p2, q2) at e)))
              | inr q2 ↦ absurd (ground (arith, blank))
            ]
            | inr p2 ↦ elim (Bool-cases (chosen material 2 r1 other)) [
              | inl q2 ↦ absurd (ground (arith, blank))
              | inr q2 ↦ rw (p, q, p2, q2) at e
            ]
          ]
        ]
      ]

  -- Of two who are present: each has a short name, and if it is the same one, they have the same
  -- full name too. So nobody is confused with another as long as three words can tell them apart.
  pub short_names-Apart :
      (keys : List Bytes) (key other : Bytes)
      → mem key keys ≡ true
      → mem other keys ≡ true
      → lookup bytes_eq key (short_names material keys)
        ≡ lookup bytes_eq other (short_names material keys)
      → (n : Bytes) × (lookup bytes_eq key (short_names material keys) ≡ some n)
        × (full material key ≡ full material other)
  short_names-Apart keys key other m n same =
      let k = lookup-short_names keys key m in
      let o = lookup-short_names keys other n in
      (
        name_of material key (words_for keys key),
        k,
        unfold name_of in same_name keys key other m n (some_eq _ _ (sym k ∙ (same ∙ o))),
      )
    where
      some_eq : (a b : Bytes) → some a ≡ some b → a ≡ b
      some_eq a b h = cc

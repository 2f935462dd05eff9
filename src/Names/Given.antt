-- ===== src/Names/Given.antt =====
-- pkg/names/names.go: which name a key is given at each number of words, and how many blanks it has.
use vapora.Base.{
  ℕ, zero, suc, ◌+◌, ◌≡◌, ◌≤◌, refl, ap, ◌∙◌, Bool, true, false, ◌&&◌, ◌||◌, not, Option, some,
  List, [], ◌∷◌, ◌++◌, ◌==◌, if◌then◌else◌, Bytes, bytes_eq, bytes_eq_iff, arith, inl, inr,
  Bool-cases,
}
use vapora.Base.Dict.{lookup, insert, lookup-insert}
use vapora.Names.Words.{adjectives, colours, animals}
use vapora.Names.{word_of, parts, full, name_of, count, chosen, give_names}

-- How many blanks a text has.
unfoldable pub blanks : Bytes → ℕ
blanks [] = 0
blanks (c ∷ cs) = (if c == b' ' then 1 else 0) + blanks cs

blanks-append : (xs ys : Bytes) → blanks (xs ++ ys) ≡ blanks xs + blanks ys
unfolding blanks
blanks-append [] ys = omega arith
blanks-append (x ∷ xs) ys = omega (arith, blanks-append xs ys)

unfoldable total_blanks : List Bytes → ℕ
total_blanks [] = 0
total_blanks (w ∷ ws) = blanks w + total_blanks ws

word-blanks : (table : List Bytes) (i : ℕ) → total_blanks table ≡ 0 → blanks (word_of table i) ≡ 0
unfolding total_blanks blanks
word-blanks [] i h = refl
word-blanks (w ∷ ws) zero h = omega arith
word-blanks (w ∷ ws) (suc i) h = word-blanks ws i (omega arith)

no_adjective_blanks : total_blanks adjectives ≡ 0
unfolding total_blanks blanks
no_adjective_blanks = refl

no_colour_blanks : total_blanks colours ≡ 0
unfolding total_blanks blanks
no_colour_blanks = refl

no_animal_blanks : total_blanks animals ≡ 0
unfolding total_blanks blanks
no_animal_blanks = refl

unfoldable pub mem : Bytes → List Bytes → Bool
mem key [] = false
mem key (k ∷ ks) = bytes_eq k key || mem key ks

module _ (material : Bytes → Option Bytes) where
  pub blanks_1 : (key : Bytes) → blanks (name_of material key 1) ≡ 0
  unfolding name_of
  blanks_1 key = word-blanks animals (parts material key).2 no_animal_blanks

  pub blanks_2 : (key : Bytes) → blanks (name_of material key 2) ≡ 1
  unfolding name_of
  blanks_2 key =
      let p = parts material key in
      blanks-append (word_of colours p.1) (b' ' ∷ word_of animals p.2)
      ∙ (omega (
        arith,
        word-blanks colours p.1 no_colour_blanks,
        word-blanks animals p.2 no_animal_blanks,
        blanks_cons (word_of animals p.2),
      ))
    where
      blanks_cons : (s : Bytes) → blanks (b' ' ∷ s) ≡ 1 + blanks s
      blanks_cons s = unfold blanks in refl

  pub blanks_full : (key : Bytes) → blanks (name_of material key 3) ≡ 2
  unfolding name_of full blanks
  blanks_full key =
      let p = parts material key in
      let a = word_of adjectives p.0 in
      let c = word_of colours p.1 in
      let n = word_of animals p.2 in
      omega (
        arith,
        blanks-append a (b' ' ∷ (c ++ (b' ' ∷ n))),
        blanks-append c (b' ' ∷ n),
        word-blanks adjectives p.0 no_adjective_blanks,
        word-blanks colours p.1 no_colour_blanks,
        word-blanks animals p.2 no_animal_blanks,
      )

  pub lookup-give_names :
      (words : ℕ) (keys ks : List Bytes) (short : List (Bytes × Bytes)) (key : Bytes)
      → lookup bytes_eq key (give_names material words keys ks short).0 ≡ (
          if mem key ks && chosen material words keys key
          then some (name_of material key words)
          else lookup bytes_eq key short)
  unfolding give_names mem
  lookup-give_names words keys [] short key = refl
  lookup-give_names words keys (x ∷ ks) short key =
      let name = name_of material x words in
      let added = lookup-insert bytes_eq bytes_eq_iff x key name short in
      elim (Bool-cases (chosen material words keys x)) [
        | inl c ↦ rw c (
            lookup-give_names words keys ks (insert bytes_eq x name short) key
            ∙ (elim (Bool-cases (bytes_eq x key)) [
              | inl e ↦ rw added (
                  rw e (
                    rw⁻¹ ((bytes_eq_iff x key).0 e) (
                      rw c
                        (elim (Bool-cases (mem x ks)) [ inl m ↦ rw m refl | inr m ↦ rw m refl ]))))
              | inr e ↦ rw added (rw e refl)
            ]))
        | inr c ↦ rw c (
            lookup-give_names words keys ks short key ∙ (elim (Bool-cases (bytes_eq x key)) [
              | inl e ↦ rw e (
                  rw⁻¹ ((bytes_eq_iff x key).0 e)
                    (rw c (elim (Bool-cases (mem x ks)) [ inl m ↦ rw m refl | inr m ↦ rw m refl ])))
              | inr e ↦ rw e refl
            ]))
      ]

  pub mem-give_names :
      (words : ℕ) (keys ks : List Bytes) (short : List (Bytes × Bytes)) (key : Bytes)
      → mem key (give_names material words keys ks short).1
        ≡ (mem key ks && not (chosen material words keys key))
  unfolding give_names mem
  mem-give_names words keys [] short key = refl
  mem-give_names words keys (x ∷ ks) short key =
      let name = name_of material x words in
      elim (Bool-cases (chosen material words keys x)) [
        | inl c ↦ rw c (
            mem-give_names words keys ks (insert bytes_eq x name short) key
            ∙ (elim (Bool-cases (bytes_eq x key)) [
              | inl e ↦ rw e (
                  rw⁻¹ ((bytes_eq_iff x key).0 e)
                    (rw c (elim (Bool-cases (mem x ks)) [ inl m ↦ rw m refl | inr m ↦ rw m refl ])))
              | inr e ↦ rw e refl
            ]))
        | inr c ↦ rw c (
            ap (λ r. bytes_eq x key || r) (mem-give_names words keys ks short key)
            ∙ (elim (Bool-cases (bytes_eq x key)) [
              | inl e ↦ rw e (rw⁻¹ ((bytes_eq_iff x key).0 e) (rw c refl))
              | inr e ↦ rw e refl
            ]))
      ]

  pub count_one :
      (words : ℕ) (key : Bytes) (ks : List Bytes)
      → mem key ks ≡ true
      → 1 ≤ count material words (name_of material key words) ks
  unfolding count mem
  count_one words key [] m = absurd (cc)
  count_one words key (x ∷ ks) m = elim (Bool-cases (bytes_eq x key)) [
    | inl e ↦
        rw ((bytes_eq_iff x key).0 e)
          (ground (arith, bytes_eq_iff (name_of material key words) (name_of material key words)))
    | inr e ↦ ground (arith, count_one words key ks)
  ]

  -- Two that are left and share a name are counted twice, unless they are one.
  pub count_two :
      (words : ℕ) (key other : Bytes) (ks : List Bytes)
      → mem key ks ≡ true
      → mem other ks ≡ true
      → name_of material other words ≡ name_of material key words
      → bytes_eq key other ≡ false
      → 2 ≤ count material words (name_of material key words) ks
  unfolding count mem
  count_two words key other [] m n e d = absurd (cc)
  count_two words key other (x ∷ ks) m n e d =
      let same = bytes_eq_iff (name_of material x words) (name_of material key words) in
      elim (Bool-cases (bytes_eq x key)) [
        | inl a ↦
            let x_key = (bytes_eq_iff x key).0 a in
            let elsewhere : bytes_eq x other ≡ false = rw x_key d in
            let first : bytes_eq (name_of material x words) (name_of material key words) ≡ true =
              same.1 (ap (λ k. name_of material k words) x_key) in
            let later : 1 ≤ count material words (name_of material key words) ks =
              rw⁻¹ e (count_one words other ks (rw elsewhere at n)) in
            rw first (omega (arith, later))
        | inr a ↦ elim (Bool-cases (bytes_eq x other)) [
          | inl b ↦
              let first : bytes_eq (name_of material x words) (name_of material key words) ≡ true =
                same.1 (ap (λ k. name_of material k words) ((bytes_eq_iff x other).0 b) ∙ e) in
              rw first (omega (arith, count_one words key ks (rw a at m)))
          | inr b ↦ omega (arith, count_two words key other ks (rw a at m) (rw b at n) e d)
        ]
      ]

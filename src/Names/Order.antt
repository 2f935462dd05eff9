-- ===== src/Names/Order.antt =====
-- pkg/names/names.go: everyone who is present works out the same names, whoever comes first in their
-- own list.
use vapora.Base.{
  ℕ, ◌≡◌, refl, sym, ap, ◌∙◌, true, ◌||◌, Option, some, List, [], ◌∷◌, ◌==◌, if◌then◌else◌, Bytes,
  bytes_eq, arith, inl, inr, Bool-cases,
}
use vapora.Base.Dict.{lookup}
use mathlib.Core.List.{Permᴰ}
use mathlib.Core.List.Permᴰ
use vapora.Names.{name_of, count, chosen, give_names, short_names}
use vapora.Names.Given.{mem}
use vapora.Names.Apart.{left, words_for, lookup-short_names}

module _ (material : Bytes → Option Bytes) where
  count-Perm :
      (words : ℕ) (name : Bytes) {ks other : List Bytes}
      → Permᴰ ks other
      → count material words name ks ≡ count material words name other
  unfolding count
  count-Perm words name Permᴰ.nil = refl
  count-Perm words name (Permᴰ.cons e d) =
      let one = ap {B = ℕ} (λ k. if bytes_eq (name_of material k words) name then 1 else 0) e in
      omega (arith, one, count-Perm words name d)
  count-Perm words name (Permᴰ.swap e f) =
      let one = ap {B = ℕ} (λ k. if bytes_eq (name_of material k words) name then 1 else 0) e in
      let two = ap {B = ℕ} (λ k. if bytes_eq (name_of material k words) name then 1 else 0) f in
      omega (arith, one, two)
  count-Perm words name (Permᴰ.trans d e) = count-Perm words name d ∙ count-Perm words name e

  mem-Perm : (key : Bytes) {ks other : List Bytes} → Permᴰ ks other → mem key ks ≡ mem key other
  unfolding mem
  mem-Perm key Permᴰ.nil = refl
  mem-Perm key (Permᴰ.cons e d) =
      let one = ap (λ k. bytes_eq k key) e in let rest = mem-Perm key d in rw (one, rest) refl
  mem-Perm key (Permᴰ.swap e f) =
      let one = ap (λ k. bytes_eq k key) e in
      let two = ap (λ k. bytes_eq k key) f in ground (arith, one, two)
  mem-Perm key (Permᴰ.trans d e) = mem-Perm key d ∙ mem-Perm key e

  -- The keys that get no name at this number of words.
  unfoldable unnamed : ℕ → List Bytes → List Bytes → List Bytes
  unnamed words keys [] = []
  unnamed words keys (k ∷ ks) =
      let rest = unnamed words keys ks in if chosen material words keys k then rest else k ∷ rest

  give_names-unnamed :
      (words : ℕ) (keys ks : List Bytes) (short : List (Bytes × Bytes))
      → (give_names material words keys ks short).1 ≡ unnamed words keys ks
  unfolding give_names unnamed
  give_names-unnamed words keys [] short = refl
  give_names-unnamed words keys (k ∷ ks) short = rw (give_names-unnamed words keys ks _) refl

  unnamed-same :
      (words : ℕ) (keys others : List Bytes)
      → ((k : Bytes) → chosen material words keys k ≡ chosen material words others k)
      → (ks : List Bytes) → unnamed words keys ks ≡ unnamed words others ks
  unfolding unnamed
  unnamed-same words keys others same [] = refl
  unnamed-same words keys others same (k ∷ ks) =
      let rest = unnamed-same words keys others same ks in rw (same k, rest) refl

  unnamed-Perm :
      (words : ℕ) (keys : List Bytes) {ks other : List Bytes}
      → Permᴰ ks other
      → Permᴰ (unnamed words keys ks) (unnamed words keys other)
  unfolding unnamed
  unnamed-Perm words keys Permᴰ.nil = Permᴰ.nil
  unnamed-Perm words keys (Permᴰ.cons {a = a} e d) =
      let rest = unnamed-Perm words keys d in
      let same = ap (chosen material words keys) (sym e) in
      elim (Bool-cases (chosen material words keys a)) [
        | inl c ↦ rw (c, same ∙ c) rest
        | inr c ↦ rw (c, same ∙ c) (Permᴰ.cons e rest)
      ]
  unnamed-Perm words keys (Permᴰ.swap {a = a} {b = b} e f) =
      let a_same = ap (chosen material words keys) (sym e) in
      let b_same = ap (chosen material words keys) (sym f) in
      elim (Bool-cases (chosen material words keys a)) [
        | inl c ↦ elim (Bool-cases (chosen material words keys b)) [
          | inl d ↦ rw (c, d, a_same ∙ c, b_same ∙ d) (Permᴰ.refl _)
          | inr d ↦ rw (c, d, a_same ∙ c, b_same ∙ d) (Permᴰ.cons f (Permᴰ.refl _))
        ]
        | inr c ↦ elim (Bool-cases (chosen material words keys b)) [
          | inl d ↦ rw (c, d, a_same ∙ c, b_same ∙ d) (Permᴰ.cons e (Permᴰ.refl _))
          | inr d ↦ rw (c, d, a_same ∙ c, b_same ∙ d) (Permᴰ.swap e f)
        ]
      ]
  unnamed-Perm words keys (Permᴰ.trans d e) =
      Permᴰ.trans (unnamed-Perm words keys d) (unnamed-Perm words keys e)

  chosen-Perm :
      (words : ℕ) {keys others : List Bytes}
      → Permᴰ keys others
      → (k : Bytes) → chosen material words keys k ≡ chosen material words others k
  chosen-Perm words d k =
      ap (λ (n : ℕ). n == 1 || words == 3) (count-Perm words (name_of material k words) d)

  left-Perm :
      (words : ℕ) {keys others : List Bytes}
      → Permᴰ keys others
      → Permᴰ (left material words keys []) (left material words others [])
  left-Perm words {keys} {others} d =
      rw
        (
          give_names-unnamed words keys keys [],
          give_names-unnamed words others others [],
          sym (unnamed-same words keys others (chosen-Perm words d) others),
        )
        (unnamed-Perm words keys d)

  words_for-Perm :
      (key : Bytes) {keys others : List Bytes}
      → Permᴰ keys others
      → words_for material keys key ≡ words_for material others key
  words_for-Perm key d = rw (chosen-Perm 1 d key, chosen-Perm 2 (left-Perm 1 d) key) refl

  -- Whoever is present gets the same short name from everyone who knows the same people, in
  -- whichever order each of them knows them.
  pub short_names-Perm :
      (keys others : List Bytes) (key : Bytes)
      → Permᴰ keys others
      → mem key keys ≡ true
      → lookup bytes_eq key (short_names material keys)
        ≡ lookup bytes_eq key (short_names material others)
  short_names-Perm keys others key d m =
      lookup-short_names material keys key m
      ∙ (ap (λ (w : ℕ). some (name_of material key w)) (words_for-Perm key d)
          ∙ sym (lookup-short_names material others key (sym (mem-Perm key d) ∙ m)))

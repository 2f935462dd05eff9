-- ===== src/Diag/Profile/Codes.antt =====
-- pkg/diag/profile.go: a code that was pasted reads back as the profile it stands for.
use vapora.Base.{
  ℕ, ◌≡◌, refl, Bool, true, false, ◌&&◌, ◌||◌, some, [], ◌∷◌, ◌++◌, ◌==◌, leb, arith, All,
  All-append, append_assoc, append-nil, Bytes, bytes_eq, bytes_eq_iff, map, ap, ◌∙◌, sym,
}
use vapora.Base.Words.{is_space}
use vapora.Base.Words.Trimmed.{AllSpace, Dense, trim_space_lem}
use vapora.Stun.Behavior.{Mapping, mapping_unknown, endpoint_independent, address_dependent}
use vapora.Stun.Filtering.{
  Filtering, filtering_unknown, filters_nothing, filters_address, filters_address_and_port,
}
use vapora.Diag.Profile.{
  Profile, mapping_code, filtering_code, read_mapping, read_filtering, split_dash, to_upper, code,
  of_parts, parse_profile,
}

-- A character of the code that is no separator, and one that is in the code at all.
abbrev pub is_word : ℕ → Bool
is_word c = (leb b'A' c && leb c b'Z') || (leb b'0' c && leb c b'9')

abbrev pub AllWord : Bytes → Type 0
AllWord = All (λ c. is_word c ≡ true)

-- A letter in either case is no space.
of_upper : (c : ℕ) → is_space (to_upper c) ≡ is_space c
of_upper c = ground arith

Dense-upper : (t s : Bytes) → map to_upper t ≡ s → Dense s → Dense t
Dense-upper [] s e d = tt
Dense-upper (c ∷ cs) [] e d = absurd (cc)
Dense-upper (c ∷ cs) (x ∷ xs) e d =
    let (h, r) = heads c cs x xs e in
    (sym (of_upper c) ∙ (ap is_space h ∙ d.0), Dense-upper cs xs r d.1)
  where
    heads :
        (c : ℕ) (cs : Bytes) (x : ℕ) (xs : Bytes)
        → map to_upper (c ∷ cs) ≡ x ∷ xs
        → (to_upper c ≡ x) × (map to_upper cs ≡ xs)
    heads c cs x xs e = (cc, cc)

Dense-word : (s : Bytes) → AllWord s → Dense s
Dense-word [] h = tt
Dense-word (c ∷ cs) h = (ground (arith, h.0), Dense-word cs h.1)

split_dash_word :
    (piece word rest : Bytes)
    → AllWord word
    → split_dash piece (word ++ b'-' ∷ rest) ≡ (piece ++ word) ∷ split_dash [] rest
unfolding split_dash
split_dash_word piece [] rest h = rw append-nil refl
split_dash_word piece (c ∷ cs) rest h =
    let no : (c == b'-') ≡ false = ground (arith, h.0) in
    rw no (split_dash_word (piece ++ c ∷ []) cs rest h.1 ∙ rw append_assoc refl)

split_dash_end : (piece word : Bytes) → AllWord word → split_dash piece word ≡ (piece ++ word) ∷ []
unfolding split_dash
split_dash_end piece [] h = rw append-nil refl
split_dash_end piece (c ∷ cs) h =
    let no : (c == b'-') ≡ false = ground (arith, h.0) in
    rw no (split_dash_end (piece ++ c ∷ []) cs h.1 ∙ rw append_assoc refl)

mapping_code-AllWord : (m : Mapping) → AllWord (mapping_code m)
unfolding mapping_code
mapping_code-AllWord mapping_unknown = ground arith
mapping_code-AllWord endpoint_independent = ground arith
mapping_code-AllWord address_dependent = ground arith

filtering_code-AllWord : (f : Filtering) → AllWord (filtering_code f)
unfolding filtering_code
filtering_code-AllWord filtering_unknown = ground arith
filtering_code-AllWord filters_nothing = ground arith
filtering_code-AllWord filters_address = ground arith
filtering_code-AllWord filters_address_and_port = ground arith

read_mapping-code : (m : Mapping) → read_mapping (mapping_code m) ≡ m
unfolding read_mapping mapping_code bytes_eq
read_mapping-code mapping_unknown = refl
read_mapping-code endpoint_independent = refl
read_mapping-code address_dependent = refl

read_filtering-code : (f : Filtering) → read_filtering (filtering_code f) ≡ f
unfolding read_filtering filtering_code bytes_eq
read_filtering-code filtering_unknown = refl
read_filtering-code filters_nothing = refl
read_filtering-code filters_address = refl
read_filtering-code filters_address_and_port = refl

module _ (check : Bytes → Bytes) (hex : (b : Bytes) → AllWord (check b)) where
  Dense-code : (p : Profile) → Dense (code check p)
  unfolding code
  Dense-code p =
      let m = Dense-word (mapping_code p.mapping) (mapping_code-AllWord p.mapping) in
      let f = Dense-word (filtering_code p.filtering) (filtering_code-AllWord p.filtering) in
      let b = mapping_code p.mapping ++ b'-' ∷ filtering_code p.filtering in
      All-append _ b (b'-' ∷ check b)
        (All-append _ (mapping_code p.mapping) (b'-' ∷ filtering_code p.filtering) m (refl, f))
        (refl, Dense-word (check b) (hex b))

  of_parts-code : (p : Profile) → of_parts check (split_dash [] (code check p)) ≡ some p
  unfolding code of_parts
  of_parts-code p =
      let m = mapping_code p.mapping in
      let f = filtering_code p.filtering in
      let sum = check (m ++ b'-' ∷ f) in
      rw (append_assoc m (b'-' ∷ f) (b'-' ∷ sum)) (
        rw (split_dash_word [] m (f ++ b'-' ∷ sum) (mapping_code-AllWord p.mapping)) (
          rw (split_dash_word [] f sum (filtering_code-AllWord p.filtering)) (
            rw (split_dash_end [] sum (hex (m ++ b'-' ∷ f))) (
              rw ((bytes_eq_iff sum sum).1 refl)
                (rw (read_mapping-code p.mapping) (rw (read_filtering-code p.filtering) refl))))))

  -- A code reads back as the profile it was made of, in capitals or not and with white space
  -- around it, as long as a check is made of capitals and digits, as two hex digits are.
  pub parse_profile-code :
      (p : Profile) (before text after : Bytes)
      → AllSpace before
      → map to_upper text ≡ code check p
      → AllSpace after
      → parse_profile check (before ++ (text ++ after)) ≡ some p
  unfolding parse_profile
  parse_profile-code p before text after hb e ha =
      rw (trim_space_lem before text after hb (Dense-upper text (code check p) e (Dense-code p)) ha)
        (rw e (of_parts-code p))

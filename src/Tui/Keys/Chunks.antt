-- ===== src/Tui/Keys/Chunks.antt =====
-- `readKeys` of internal/tui/app.go: the loop ends, and how the bytes were cut into reads is of no
-- matter.
use vapora.Base.{
  ℕ, zero, suc, ◌≤◌, ◌≡◌, refl, sym, ap, ◌∙◌, true, false, List, [], ◌∷◌, ◌++◌, ◌==◌, length, drop,
  length-drop, append_assoc, append-nil, Bytes, arith, inl, inr, Bool-cases,
}
use vapora.Base.Words.{concat}
use vapora.Tui.Keys.{Key, emit, decode_key, drain, read_keys}
use vapora.Tui.Keys.Stable.{decode_key-append, decode_key-le}

-- The key at the front, and what is left once it is taken.
abbrev taken : Bytes → ℕ
taken bs = (decode_key bs).1

abbrev after : Bytes → Bytes
after bs = drop (taken bs) bs

length-after :
    (a : ℕ) (rest : Bytes)
    → (taken (a ∷ rest) == 0) ≡ false
    → length (after (a ∷ rest)) ≤ length rest
length-after a rest h = ground (arith, length-drop (taken (a ∷ rest)) (a ∷ rest))

drain-stop :
    (f a : ℕ) (rest : Bytes)
    → (taken (a ∷ rest) == 0) ≡ true
    → drain (suc f) (a ∷ rest) ≡ ([], a ∷ rest)
unfolding drain
drain-stop f a rest h = rw h refl

drain-step :
    (f a : ℕ) (rest : Bytes)
    → (taken (a ∷ rest) == 0) ≡ false
    → drain (suc f) (a ∷ rest) ≡ (
      emit (decode_key (a ∷ rest)).0 ++ (drain f (after (a ∷ rest))).0,
      (drain f (after (a ∷ rest))).1,
    )
unfolding drain
drain-step f a rest h = rw h refl

-- Any fuel that is enough gives the same.
drain_fuel : (f g : ℕ) (bs : Bytes) → length bs ≤ f → length bs ≤ g → drain f bs ≡ drain g bs
drain_fuel zero zero bs hf hg = refl
drain_fuel zero (suc g) [] hf hg = unfold drain in refl
drain_fuel zero (suc g) (a ∷ rest) hf hg = absurd (omega arith)
drain_fuel (suc f) zero [] hf hg = unfold drain in refl
drain_fuel (suc f) zero (a ∷ rest) hf hg = absurd (omega arith)
drain_fuel (suc f) (suc g) [] hf hg = unfold drain in refl
drain_fuel (suc f) (suc g) (a ∷ rest) hf hg = elim (Bool-cases (taken (a ∷ rest) == 0)) [
  | inl h ↦ drain-stop f a rest h ∙ sym (drain-stop g a rest h)
  | inr h ↦
      let shorter = length-after a rest h in
      let same =
        drain_fuel f g (after (a ∷ rest)) (omega (arith, shorter)) (omega (arith, shorter)) in
      drain-step f a rest h
      ∙ (ap (λ (r : List Key × Bytes). (emit (decode_key (a ∷ rest)).0 ++ r.0, r.1)) same
          ∙ sym (drain-step g a rest h))
]

abbrev pub drain_all : Bytes → List Key × Bytes
drain_all bs = drain (length bs) bs

drain_all-step :
    (a : ℕ) (rest : Bytes)
    → (taken (a ∷ rest) == 0) ≡ false
    → drain_all (a ∷ rest) ≡ (
      emit (decode_key (a ∷ rest)).0 ++ (drain_all (after (a ∷ rest))).0,
      (drain_all (after (a ∷ rest))).1,
    )
drain_all-step a rest h =
    let shorter = length-after a rest h in
    let same =
      drain_fuel (length rest) (length (after (a ∷ rest))) (after (a ∷ rest)) shorter
        (omega arith) in
    drain-step (length rest) a rest h
    ∙ ap (λ (r : List Key × Bytes). (emit (decode_key (a ∷ rest)).0 ++ r.0, r.1)) same

ends : (f : ℕ) (bs : Bytes) → length bs ≤ f → taken (drain_all bs).1 ≡ 0
ends f [] l = unfold drain decode_key in refl
ends zero (a ∷ rest) l = absurd (omega arith)
ends (suc f) (a ∷ rest) l = elim (Bool-cases (taken (a ∷ rest) == 0)) [
  | inl h ↦ rw (drain-stop (length rest) a rest h) (ground (arith, h))
  | inr h ↦
      rw (drain_all-step a rest h)
        (ends f (after (a ∷ rest)) (omega (arith, length-after a rest h)))
]

-- The loop over the bytes that were read comes to an end within as many rounds as there are bytes,
-- and it ends because what is left begins with no whole key.
pub drain_all_ends : (bs : Bytes) → taken (drain_all bs).1 ≡ 0
drain_all_ends bs = ends (length bs) bs (omega arith)

drop-append_le : (n : ℕ) (a b : Bytes) → n ≤ length a → drop n (a ++ b) ≡ drop n a ++ b
drop-append_le zero a b l = refl
drop-append_le (suc n) [] b l = absurd (omega arith)
drop-append_le (suc n) (x ∷ a) b l = drop-append_le n a b (omega (arith, l))

-- What `drain_all` makes of more bytes, once it has been through the first.
abbrev then_drain : List Key × Bytes → Bytes → List Key × Bytes
then_drain r more = (r.0 ++ (drain_all (r.1 ++ more)).0, (drain_all (r.1 ++ more)).1)

append-drain :
    (f : ℕ) (bs more : Bytes)
    → length bs ≤ f
    → drain_all (bs ++ more) ≡ then_drain (drain_all bs) more
append-drain f [] more l = unfold drain in refl
append-drain zero (a ∷ rest) more l = absurd (omega arith)
append-drain (suc f) (a ∷ rest) more l = elim (Bool-cases (taken (a ∷ rest) == 0)) [
  | inl h ↦ rw (drain-stop (length rest) a rest h) refl
  | inr h ↦
      let same = decode_key-append (a ∷ rest) more h in
      let h' : (taken (a ∷ (rest ++ more)) == 0) ≡ false =
        ap (λ (r : Key × ℕ). r.1 == 0) same ∙ h in
      let cut : after (a ∷ (rest ++ more)) ≡ after (a ∷ rest) ++ more =
        ap (λ (r : Key × ℕ). drop r.1 (a ∷ (rest ++ more))) same
        ∙ drop-append_le (taken (a ∷ rest)) (a ∷ rest) more (decode_key-le (a ∷ rest)) in
      let shorter = length-after a rest h in
      let ih = append-drain f (after (a ∷ rest)) more (omega (arith, shorter)) in
      let key = (decode_key (a ∷ rest)).0 in
      let r = drain_all (after (a ∷ rest)) in
      drain_all-step a (rest ++ more) h'
      ∙ (ap
            (λ (k : Key × ℕ). (
              emit k.0 ++ (drain_all (after (a ∷ (rest ++ more)))).0,
              (drain_all (after (a ∷ (rest ++ more)))).1,
            ))
            same
          ∙ (ap (λ (bs : Bytes). (emit key ++ (drain_all bs).0, (drain_all bs).1)) cut
              ∙ (ap (λ (s : List Key × Bytes). (emit key ++ s.0, s.1)) ih
                  ∙ (ap (λ (keys : List Key). (keys, (drain_all (r.1 ++ more)).1))
                        (sym (append_assoc (emit key) r.0 (drain_all (r.1 ++ more)).0))
                      ∙ ap (λ (s : List Key × Bytes). then_drain s more)
                          (sym (drain_all-step a rest h))))))
]

-- Bytes that begin with no whole key stay as they are.
stuck : (bs : Bytes) → taken bs ≡ 0 → drain_all bs ≡ ([], bs)
stuck [] h = unfold drain in refl
stuck (a ∷ rest) h = drain-stop (length rest) a rest (ground (arith, h))

read_keys-left :
    (left : Bytes) (chunks : List Bytes)
    → taken left ≡ 0
    → read_keys left chunks ≡ drain_all (left ++ concat chunks)
unfolding read_keys concat
read_keys-left left [] h = rw (append-nil left) (sym (stuck left h))
read_keys-left left (chunk ∷ chunks) h =
    let r = drain_all (left ++ chunk) in
    let later = read_keys-left r.1 chunks (drain_all_ends (left ++ chunk)) in
    ap (λ (s : List Key × Bytes). (r.0 ++ s.0, s.1)) later
    ∙ (sym (append-drain (length (left ++ chunk)) (left ++ chunk) (concat chunks) (omega arith))
        ∙ ap drain_all (append_assoc left chunk (concat chunks)))

-- However the bytes are cut into reads, the keys passed on are those of all bytes at once, and so
-- is what is left to wait for more.
pub read_keys-drain_all : (chunks : List Bytes) → read_keys [] chunks ≡ drain_all (concat chunks)
read_keys-drain_all chunks = read_keys-left [] chunks (unfold decode_key in refl)

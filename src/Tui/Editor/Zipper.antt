-- ===== src/Tui/Editor/Zipper.antt =====
-- internal/tui/keys.go: the editor as the text before the cursor and the text behind it, without
-- an index.
use vapora.Base.{
  ℕ, suc, ◌+◌, ◌-◌, ◌≡◌, refl, sym, ap, ◌∙◌, List, [], ◌∷◌, ◌++◌, ltb, length, take, drop,
  take-append, drop-append, arith, true, false,
}
use vapora.Tui.Keys.{
  Key, KeyKind, key_rune, key_backspace, key_left, key_right, key_home, key_end, key_enter,
  key_page_up, key_page_down, key_interrupt, key_unknown,
}
use vapora.Tui.Editor.{Editor, new_editor, apply, apply_all}

-- The text before the cursor, the nearest character first, and the text behind it.
pub record Zipper : Type 0 where
  pub before : List ℕ
  pub behind : List ℕ

-- `backward xs ys` is `xs` turned round, in front of `ys`.
unfoldable pub backward : List ℕ → List ℕ → List ℕ
backward [] ys = ys
backward (x ∷ xs) ys = backward xs (x ∷ ys)

-- The editor that a zipper stands for.
abbrev pub shown : Zipper → Editor
shown z = record { runes = backward z.before z.behind; cursor = length z.before }

abbrev leftward : Zipper → Zipper
leftward z = elim z.before [ [] ↦ z | ◌∷◌ x xs ↦ record { before = xs; behind = x ∷ z.behind } ]

abbrev rightward : Zipper → Zipper
rightward z = elim z.behind [ [] ↦ z | ◌∷◌ x xs ↦ record { before = x ∷ z.before; behind = xs } ]

abbrev erased : Zipper → Zipper
erased z = elim z.before [ [] ↦ z | ◌∷◌ x xs ↦ record { before = xs; behind = z.behind } ]

-- What a key means.
unfoldable pub type_key : Key → Zipper → Zipper
type_key key z = elim key.kind [
  | key_rune ↦ record { before = key.value ∷ z.before; behind = z.behind }
  | key_backspace ↦ erased z
  | key_left ↦ leftward z
  | key_right ↦ rightward z
  | key_home ↦ record { before = []; behind = backward z.before z.behind }
  | key_end ↦ record { before = backward z.behind z.before; behind = [] }
  | _ ↦ z
]

unfoldable pub type_all : List Key → Zipper → Zipper
type_all [] z = z
type_all (key ∷ keys) z = type_all keys (type_key key z)

backward-append : (xs ys zs : List ℕ) → backward xs (ys ++ zs) ≡ backward xs ys ++ zs
unfolding backward
backward-append [] ys zs = refl
backward-append (x ∷ xs) ys zs = backward-append xs (x ∷ ys) zs

length-backward : (xs ys : List ℕ) → length (backward xs ys) ≡ length xs + length ys
unfolding backward
length-backward [] ys = omega arith
length-backward (x ∷ xs) ys = omega (arith, length-backward xs (x ∷ ys))

backward-backward : (xs ys : List ℕ) → backward (backward xs ys) [] ≡ backward ys xs
unfolding backward
backward-backward [] ys = refl
backward-backward (x ∷ xs) ys = backward-backward xs (x ∷ ys)

take-backward : (xs ys : List ℕ) → take (length xs) (backward xs ys) ≡ backward xs []
take-backward xs ys =
    ap (take (length xs)) (backward-append xs [] ys)
    ∙ take-append (backward xs []) ys (length xs) (omega (arith, length-backward xs []))

drop-backward : (xs ys : List ℕ) → drop (length xs) (backward xs ys) ≡ ys
drop-backward xs ys =
    ap (drop (length xs)) (backward-append xs [] ys)
    ∙ drop-append (backward xs []) ys (length xs) (omega (arith, length-backward xs []))

record_eq :
    {runes other : List ℕ}
    → {n m : ℕ} → runes ≡ other
    → n ≡ m
    → ◌≡◌ {A = Editor} (record { runes = runes; cursor = n }) (record { runes = other; cursor = m })
record_eq r c i = record { runes = r i; cursor = c i }

apply-rune :
    (v : ℕ) (bs cs : List ℕ)
    → take (length bs) (backward bs cs) ++ v ∷ drop (length bs) (backward bs cs)
      ≡ backward (v ∷ bs) cs
unfolding backward
apply-rune v bs cs =
    rw (take-backward bs cs, drop-backward bs cs) (sym (backward-append bs [] (v ∷ cs)))

apply-erase :
    (x : ℕ) (bs cs : List ℕ)
    → take (suc (length bs) - 1) (backward bs (x ∷ cs))
        ++ drop (suc (length bs)) (backward (x ∷ bs) cs)
      ≡ backward bs cs
apply-erase x bs cs =
    let less : suc (length bs) - 1 ≡ length bs = omega arith in
    rw (less, take-backward bs (x ∷ cs), drop-backward (x ∷ bs) cs) (sym (backward-append bs [] cs))

some_before : (n : ℕ) → ltb 0 (suc n) ≡ true
some_before n = ground arith

at_end : (bs : List ℕ) → ltb (length bs) (length (backward bs [])) ≡ false
at_end bs = ground (arith, length-backward bs [])

not_at_end : (x : ℕ) (bs cs : List ℕ) → ltb (length bs) (length (backward bs (x ∷ cs))) ≡ true
not_at_end x bs cs = ground (arith, length-backward bs (x ∷ cs))

-- One key does to the runes and the index what it means.
apply-type_key :
    (kind : KeyKind) (v : ℕ) (bs cs : List ℕ)
    → apply (record { kind = kind; value = v }) (shown (record { before = bs; behind = cs }))
      ≡ shown (type_key (record { kind = kind; value = v }) (record { before = bs; behind = cs }))
unfolding apply type_key
apply-type_key key_rune v bs cs = record_eq (apply-rune v bs cs) (omega arith)
apply-type_key key_backspace v [] cs = refl
apply-type_key key_backspace v (x ∷ bs) cs =
    rw (some_before (length bs)) (unfold backward in record_eq (apply-erase x bs cs) (omega arith))
apply-type_key key_left v [] cs = refl
apply-type_key key_left v (x ∷ bs) cs =
    rw (some_before (length bs)) (unfold backward in record_eq refl (omega arith))
apply-type_key key_right v bs [] = rw (at_end bs) refl
apply-type_key key_right v bs (x ∷ cs) =
    rw (not_at_end x bs cs) (unfold backward in record_eq refl (omega arith))
apply-type_key key_home v bs cs = unfold backward in refl
apply-type_key key_end v bs cs =
    record_eq (sym (backward-backward cs bs))
      (omega (arith, length-backward bs cs, length-backward cs bs))
apply-type_key key_enter v bs cs = refl
apply-type_key key_page_up v bs cs = refl
apply-type_key key_page_down v bs cs = refl
apply-type_key key_interrupt v bs cs = refl
apply-type_key key_unknown v bs cs = refl

apply_all-type_all :
    (keys : List Key) (z : Zipper) → apply_all keys (shown z) ≡ shown (type_all keys z)
unfolding apply_all type_all
apply_all-type_all [] z = refl
apply_all-type_all (key ∷ keys) z =
    ap (apply_all keys) (apply-type_key key.kind key.value z.before z.behind)
    ∙ apply_all-type_all keys (type_key key z)

-- Whatever is typed into an empty line, the runes and the index are those of the text before the
-- cursor and the text behind it, as each key moves, inserts or erases at the cursor.
pub apply_all-new_editor :
    (keys : List Key)
    → apply_all keys new_editor ≡ shown (type_all keys (record { before = []; behind = [] }))
unfolding backward
apply_all-new_editor keys = apply_all-type_all keys (record { before = []; behind = [] })

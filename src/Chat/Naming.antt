-- ===== src/Chat/Naming.antt =====
-- pkg/chat/pair.go: the two names of a conversation. What HKDF derives from the secret for a slot,
-- four bytes or nothing, is a parameter.
use vapora.Base.{
  ℕ, zero, suc, ◌+◌, ◌%◌, ◌<◌, ◌≡◌, ◌≢◌, refl, Bool, true, false, not, ◌&&◌, Option, none, some,
  if◌then◌else◌, Bytes, bytes_eq, bytes_eq_iff, arith, inl, inr, Bool-cases, Option-cases, sym,
}
use vapora.Base.Wire.{u32_at}
use vapora.Names.{word_of, index_from, index_of_animal}
use vapora.Names.Words.{animals}

pub record Pair : Type 0 where
  pub inviter : Bytes
  pub joiner : Bytes

-- `For` and `Other`, of a role that is the joiner's or not.
unfoldable pub name_for : Pair → Bool → Bytes
name_for p is_joiner = if is_joiner then p.joiner else p.inviter

unfoldable pub other_for : Pair → Bool → Bytes
other_for p is_joiner = if is_joiner then p.inviter else p.joiner

-- `pick`, as a place among the animals.
unfoldable pub pick : (ℕ → Option Bytes) → ℕ → ℕ
pick derive slot = elim (derive slot) [ none ↦ slot % 64 | some key ↦ u32_at key 0 % 64 ]

unfoldable pub name_pair : (ℕ → Option Bytes) → Pair
name_pair derive =
    let first = word_of animals (pick derive 0) in
    let second = word_of animals (pick derive 1) in
    let next = word_of animals ((index_of_animal first + 1) % 64) in
    record { inviter = first; joiner = if bytes_eq second first then next else second }

-- Every animal of the table and the one after it, all round, differ.
all_below : ℕ → (ℕ → Bool) → Bool
all_below zero p = true
all_below (suc n) p = p n && all_below n p

all_below-lt : (n : ℕ) (p : ℕ → Bool) (x : ℕ) → all_below n p ≡ true → x < n → p x ≡ true
unfolding all_below
all_below-lt zero p x h l = absurd (omega arith)
all_below-lt (suc n) p x h l = ground (arith, all_below-lt n p x)

abbrev moves_on : ℕ → Bool
moves_on i =
    let a = word_of animals i in not (bytes_eq (word_of animals ((index_of_animal a + 1) % 64)) a)

moves_on_table : all_below 64 moves_on ≡ true
unfolding all_below index_of_animal index_from bytes_eq
moves_on_table = refl

pick-lt : (derive : ℕ → Option Bytes) (slot : ℕ) → pick derive slot < 64
unfolding pick
pick-lt derive slot = elim (Option-cases (derive slot)) [
  | inl e ↦ rw (e, pick) (omega arith)
  | inr (k, e) ↦ rw (e, pick) (omega arith)
]

not-true : (b : Bool) → not b ≡ true → b ≡ false
not-true b h = ground arith

second_differs :
    (first second next : Bytes)
    → bytes_eq next first ≡ false
    → (if bytes_eq second first then next else second) ≢ first
second_differs first second next h e = elim (Bool-cases (bytes_eq second first)) [
  | inl same ↦ ground (arith, bytes_eq_iff next first, rw same at e)
  | inr differ ↦ ground (arith, bytes_eq_iff second first, rw differ at e)
]

joiner-ne-inviter :
    (derive : ℕ → Option Bytes) → (name_pair derive).joiner ≢ (name_pair derive).inviter
unfolding name_pair
joiner-ne-inviter derive =
    let first = word_of animals (pick derive 0) in
    second_differs first (word_of animals (pick derive 1))
      (word_of animals ((index_of_animal first + 1) % 64))
      (not-true _ (all_below-lt 64 moves_on (pick derive 0) moves_on_table (pick-lt derive 0)))

-- Whatever is derived from a secret, or even if nothing can be: the two sides of a conversation
-- have different names, and each calls the other what the other calls itself.
pub name_pair-differ :
    (derive : ℕ → Option Bytes) (is_joiner : Bool)
    → (name_for (name_pair derive) is_joiner ≢ other_for (name_pair derive) is_joiner)
      × (other_for (name_pair derive) is_joiner ≡ name_for (name_pair derive) (not is_joiner))
unfolding name_for other_for
name_pair-differ derive true = (joiner-ne-inviter derive, refl)
name_pair-differ derive false = (λ e. joiner-ne-inviter derive (sym e), refl)

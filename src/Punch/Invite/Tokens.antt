-- ===== src/Punch/Invite/Tokens.antt =====
-- pkg/punch/invite.go: what `joinToken` and `strings.Cut` find of a token in the fields of a line.
use vapora.Base.{
  ℕ, ◌≡◌, refl, true, false, List, [], ◌∷◌, ◌++◌, ◌==◌, Bytes, All, All-append, arith, ap, ◌∙◌,
}
use vapora.Base.Words.{cut, contains, concat}
use vapora.Base.Decimal.{decimal, decimal-All, is_digit}
use vapora.Punch.Invite.{Endpoint, endpoint_text, begins_token, join_from, join_token}

abbrev Lacks : ℕ → Bytes → Type 0
Lacks x = All (λ c. (c == x) ≡ false)

pub cut-append :
    (x : ℕ) (before after : Bytes)
    → Lacks x before
    → cut x (before ++ x ∷ after) ≡ (before, after, true)
unfolding cut
cut-append x [] after h = ground arith
cut-append x (c ∷ cs) after h = rw h.0 (rw (cut-append x cs after h.1) refl)

-- A piece of a text that reaches past the separator is cut where the text is.
cut-prefix :
    (x : ℕ) (piece rest before after : Bytes)
    → Lacks x before
    → contains x piece ≡ true
    → piece ++ rest ≡ before ++ x ∷ after
    → ((cut x piece).0 ≡ before) × ((cut x piece).2 ≡ true)
unfolding cut contains
cut-prefix x [] rest before after h c e = absurd (cc)
cut-prefix x (p ∷ ps) rest [] after h c e = let first : p ≡ x = cc in (ground arith, ground arith)
cut-prefix x (p ∷ ps) rest (b ∷ bs) after h c e =
    let first : p ≡ b = cc in
    let others : ps ++ rest ≡ bs ++ x ∷ after = cc in
    let no : (p == x) ≡ false = ap (λ n. n == x) first ∙ h.0 in
    let r = cut-prefix x ps rest bs after h.1 (ground arith) others in
    (rw no (rw (r.0) (ap (λ n. n ∷ bs) first)), rw no r.1)

contains-append : (x : ℕ) (xs ys : Bytes) → contains x (xs ++ x ∷ ys) ≡ true
unfolding contains
contains-append x [] ys = ground arith
contains-append x (c ∷ cs) ys = ground (arith, contains-append x cs ys)

contains-after : (x : ℕ) (xs ys : Bytes) → contains x ys ≡ true → contains x (xs ++ ys) ≡ true
unfolding contains
contains-after x [] ys h = h
contains-after x (c ∷ cs) ys h = ground (arith, contains-after x cs ys h)

digits_lack : (s : Bytes) → All (λ c. is_digit c ≡ true) s → Lacks b'/' s
digits_lack [] h = tt
digits_lack (c ∷ cs) h = (ground (arith, h.0), digits_lack cs h.1)

pub endpoint_text-Lacks : (e : Endpoint) → Lacks b'/' (endpoint_text e)
unfolding endpoint_text
endpoint_text-Lacks e =
    let number = λ (n : ℕ). digits_lack (decimal n) (decimal-All n) in
    let then_port =
      All-append _ (decimal e.d) (b':' ∷ decimal e.port) (number e.d) (refl, number e.port) in
    let from_c =
      All-append _ (decimal e.c) (b'.' ∷ (decimal e.d ++ b':' ∷ decimal e.port)) (number e.c)
        (refl, then_port) in
    let from_b = All-append _ (decimal e.b) _ (number e.b) (refl, from_c) in
    All-append _ (decimal e.a) _ (number e.a) (refl, from_b)

pub endpoint_text-contains : (e : Endpoint) → contains b':' (endpoint_text e) ≡ true
unfolding endpoint_text contains
endpoint_text-contains e = contains-after b':' (decimal e.a) _ (
    contains-after b':' (decimal e.b) _
      (contains-after b':' (decimal e.c) _ (contains-append b':' (decimal e.d) (decimal e.port))))

abbrev pub IsPlain : Bytes → Type 0
IsPlain word = begins_token word ≡ false

join_from_words :
    (words ps : List Bytes) (p last : Bytes)
    → All IsPlain words
    → begins_token p ≡ true
    → join_from last (words ++ p ∷ ps) ≡ concat (p ∷ ps)
unfolding join_from
join_from_words [] ps p last h b = rw b refl
join_from_words (w ∷ ws) ps p last h b = rw h.0 (join_from_words ws ps p w h.1 b)

-- However a token was broken up behind its separator, it is put together again, whatever plain
-- words stand before it.
pub join_token_words :
    (words ps : List Bytes) (p after : Bytes) (e : Endpoint)
    → All IsPlain words
    → contains b'/' p ≡ true
    → concat (p ∷ ps) ≡ endpoint_text e ++ b'/' ∷ after
    → join_token (words ++ p ∷ ps) ≡ endpoint_text e ++ b'/' ∷ after
unfolding join_token
join_token_words words ps p after e h c joined =
    let found =
      cut-prefix b'/' p (concat ps) (endpoint_text e) after (endpoint_text-Lacks e) c
        (unfold concat in joined) in
    let begins : begins_token p ≡ true =
      unfold begins_token in rw (found.0) (rw (found.1) (endpoint_text-contains e)) in
    join_from_words words ps p [] h begins ∙ joined

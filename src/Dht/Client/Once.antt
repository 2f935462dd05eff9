-- ===== src/Dht/Client/Once.antt =====
-- pkg/dht/client.go: a channel holds one reply, so a second one would block the reader of the socket.
use vapora.Base.{
  ℕ, ◌+◌, ◌≤◌, ◌≡◌, some, List, [], ◌∷◌, ◌++◌, ltb, ◌==◌, if◌then◌else◌, Bytes, bytes_eq, arith,
  inl, inr, Option-cases,
}
use vapora.Base.Dict.{lookup, insert, delete}
use vapora.Dht.Bencode.{Dict}
use vapora.Dht.Client.{
  name_of_tag, tag_after, Client, new_client, begin_query, end_query, read_reply, deliver, Event,
  asks, ends, arrives, step, run,
}

-- How many entries of a map, and how many replies that were handed on, are a ticket's.
unfoldable held : ℕ → List (Bytes × ℕ) → ℕ
held t [] = 0
held t ((name, ticket) ∷ m) = (if ticket == t then 1 else 0) + held t m

unfoldable pub handed : ℕ → List (ℕ × Dict) → ℕ
handed t [] = 0
handed t ((ticket, reply) ∷ rs) = (if ticket == t then 1 else 0) + handed t rs

handed-append : (t : ℕ) (xs ys : List (ℕ × Dict)) → handed t (xs ++ ys) ≡ handed t xs + handed t ys
unfolding handed
handed-append t [] ys = omega arith
handed-append t ((ticket, reply) ∷ xs) ys = omega (arith, handed-append t xs ys)

held-insert :
    (t ticket : ℕ) (name : Bytes) (m : List (Bytes × ℕ))
    → held t (insert bytes_eq name ticket m) ≤ (if ticket == t then 1 else 0) + held t m
unfolding held
held-insert t ticket name [] = omega arith
held-insert t ticket name ((n, k) ∷ m) = ground (arith, held-insert t ticket name m)

held-delete :
    (t : ℕ) (name : Bytes) (m : List (Bytes × ℕ)) → held t (delete bytes_eq name m) ≤ held t m
unfolding held
held-delete t name [] = omega arith
held-delete t name ((n, k) ∷ m) = ground (arith, held-delete t name m)

-- What was looked up is gone once it is deleted.
held-taken :
    (t ticket : ℕ) (name : Bytes) (m : List (Bytes × ℕ))
    → lookup bytes_eq name m ≡ some ticket
    → (if ticket == t then 1 else 0) + held t (delete bytes_eq name m) ≤ held t m
unfolding held
held-taken t ticket name [] e = absurd (cc)
held-taken t ticket name ((n, k) ∷ m) e =
    ground (arith, held-delete t name m, held-taken t ticket name m)

-- The replies that a ticket may still get.
abbrev Kept : ℕ → Client → ℕ → Client → Type 0
Kept t c n c' =
    n + held t c'.pending + (if ltb t c.asked then 1 else 0)
    ≤ held t c.pending + (if ltb t c'.asked then 1 else 0)

step-Kept : (t : ℕ) (c : Client) (e : Event) → Kept t c (handed t (step c e).1) (step c e).0
unfolding step begin_query end_query deliver handed held
step-Kept t c (asks method args) =
    ground (arith, held-insert t c.asked (name_of_tag (tag_after c)) c.pending)
step-Kept t c (ends name) = omega (arith, held-delete t name c.pending)
step-Kept t c (arrives payload) = elim (Option-cases (read_reply payload)) [
  | inl e ↦ rw (e, deliver) (omega arith)
  | inr ((tag, reply), e) ↦ elim (Option-cases (lookup bytes_eq tag c.pending)) [
    | inl f ↦ rw (e, deliver) (rw (f, deliver) (omega arith))
    | inr (ticket, f) ↦
        rw (e, deliver) (rw (f, deliver) (omega (arith, held-taken t ticket tag c.pending f)))
  ]
]

run-Kept : (t : ℕ) (c : Client) (es : List Event) → Kept t c (handed t (run c es).1) (run c es).0
unfolding run
run-Kept t c [] = unfold handed in omega arith
run-Kept t c (e ∷ es) =
    let c' = (step c e).0 in
    omega (arith, handed-append t (step c e).1 (run c' es).1, step-Kept t c e, run-Kept t c' es)

-- Over any history of a client, whatever arrives and however often, tags that come round again
-- included: a question's channel is handed one reply at most, so that handing it over never blocks,
-- and a question that was not put is handed none.
pub run-new_client :
    (t : ℕ) (id : Bytes) (es : List Event)
    → handed t (run (new_client id) es).1
      ≤ (if ltb t (run (new_client id) es).0.asked then 1 else 0)
unfolding new_client held
run-new_client t id es = ground (arith, run-Kept t (new_client id) es)

-- ===== src/Dht/Client.antt =====
-- pkg/dht/client.go: questions under a tag, and the replies that find their way back. The channel
-- that a question waits on is its ticket, a number of its own; waiting and its time limit are the
-- order of the events.
pub mod Once
pub mod Replies
mod Tests
use vapora.Base.{
  ℕ, ◌+◌, ◌%◌, ◌^◌, Bool, true, false, not, Option, none, some, List, [], ◌∷◌, ◌++◌, ◌==◌,
  if◌then◌else◌, Bytes, bytes_eq,
}
use vapora.Base.Dict.{lookup, insert, delete}
use vapora.Base.Wire.{put_u32}
use vapora.Dht.Bencode.{
  Value, text, number, list_of, dict_of, Dict, no_entries, entry, encode, decode, put_entry,
  get_text, get_dict,
}

pub record Client : Type 0 where
  pub id : Bytes
  pub pending : List (Bytes × ℕ)
  pub next_tag : ℕ
  -- how many questions were put, which numbers their channels
  pub asked : ℕ

-- `NewClient`, with the identifier that was drawn.
unfoldable pub new_client : Bytes → Client
new_client id = record { id = id; pending = []; next_tag = 0; asked = 0 }

abbrev pub key_a : Bytes
key_a = b'a' ∷ []

abbrev pub key_q : Bytes
key_q = b'q' ∷ []

abbrev pub key_r : Bytes
key_r = b'r' ∷ []

abbrev pub key_t : Bytes
key_t = b't' ∷ []

abbrev pub key_y : Bytes
key_y = b'y' ∷ []

abbrev pub key_id : Bytes
key_id = b'i' ∷ b'd' ∷ []

abbrev pub tag_after : Client → ℕ
tag_after c = (c.next_tag + 1) % 2 ^ 32

abbrev pub name_of_tag : ℕ → Bytes
name_of_tag tag = put_u32 tag

-- The message of a question.
unfoldable pub question : Bytes → Bytes → Bytes → Dict → Dict
question id name method args =
    entry key_a (dict_of (put_entry key_id (text id) args))
      (entry key_q (text method) (entry key_t (text name) (entry key_y (text key_q) no_entries)))

-- `query` up to where it waits: the name of the tag, and what is sent.
unfoldable pub begin_query : Client → Bytes → Dict → Client × Bytes × Bytes
begin_query c method args =
    let tag = tag_after c in
    let name = name_of_tag tag in
    (
      record c {
        next_tag = tag;
        pending = insert bytes_eq name c.asked c.pending;
        asked = c.asked + 1;
      },
      name,
      encode (dict_of (question c.id name method args)),
    )

-- The deferred end of `query`, whichever way it went.
unfoldable pub end_query : Client → Bytes → Client
end_query c name = record c { pending = delete bytes_eq name c.pending }

-- A message that `Deliver` reads as a reply: its tag and what it says.
unfoldable pub reply_of : Dict → Option (Bytes × Dict)
reply_of message = elim (get_text message key_y) [
  | none ↦ none
  | some kind ↦ if not (bytes_eq kind key_r) then none else elim (get_text message key_t) [
    | none ↦ none
    | some tag ↦ elim (get_dict message key_r) [ none ↦ none | some reply ↦ some (tag, reply) ]
  ]
]

abbrev pub message_of : Option Value → Option Dict
message_of none = none
message_of (some (text t)) = none
message_of (some (number n)) = none
message_of (some (list_of vs)) = none
message_of (some (dict_of d)) = some d

unfoldable pub read_reply : Bytes → Option (Bytes × Dict)
read_reply payload = elim (message_of (decode payload)) [
  | none ↦ none
  | some message ↦ reply_of message
]

-- `Deliver`: what is handed to which channel, and whether the datagram was one of ours.
unfoldable pub deliver : Client → Bytes → Client × Option (ℕ × Dict) × Bool
deliver c payload = elim (read_reply payload) [
  | none ↦ (c, none, false)
  | some (tag, reply) ↦ elim (lookup bytes_eq tag c.pending) [
    | none ↦ (c, none, false)
    | some ticket ↦
        (record c { pending = delete bytes_eq tag c.pending }, some (ticket, reply), true)
  ]
]

-- What happens to a client: a question is put, one is given up or answered, a datagram comes.
pub data Event : Type 0 where
  asks : Bytes → Dict → Event
  ends : Bytes → Event
  arrives : Bytes → Event

abbrev pub to_list {ℓ} : {A : Type ℓ} → Option A → List A
to_list none = []
to_list (some a) = a ∷ []

unfoldable pub step : Client → Event → Client × List (ℕ × Dict)
step c (asks method args) = ((begin_query c method args).0, [])
step c (ends name) = (end_query c name, [])
step c (arrives payload) = let (c', handed, ours) = deliver c payload in (c', to_list handed)

-- All that is handed to channels over a history.
unfoldable pub run : Client → List Event → Client × List (ℕ × Dict)
run c [] = (c, [])
run c (e ∷ es) =
    let (c', handed) = step c e in let (c'', later) = run c' es in (c'', handed ++ later)

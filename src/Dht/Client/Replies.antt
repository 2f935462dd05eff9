-- ===== src/Dht/Client/Replies.antt =====
-- pkg/dht/client.go: a reply finds the question it answers, and nothing else does.
use vapora.Base.{
  ℕ, ◌^◌, ◌<◌, ◌≡◌, refl, ◌∙◌, true, false, none, some, length, Bytes, bytes_eq, bytes_less,
  bytes_eq_iff, arith,
}
use vapora.Base.Dict.{lookup, insert, delete, lookup-insert, lookup-delete}
use vapora.Dht.Bencode.{
  Value, text, dict_of, Dict, no_entries, entry, encode, get, get_text, get_dict,
}
use vapora.Dht.Bencode.Ordered.{IsCanonical, IsOrdered}
use vapora.Dht.Bencode.RoundTrip.{decode-encode}
use vapora.Dht.Client.{
  Client, key_r, key_t, key_y, reply_of, read_reply, deliver, begin_query, tag_after, name_of_tag,
}

-- What a node that answers puts on the wire.
abbrev pub answer : Bytes → Dict → Value
answer tag reply =
    dict_of
      (entry key_r (dict_of reply) (entry key_t (text tag) (entry key_y (text key_r) no_entries)))

answer-IsCanonical :
    (tag : Bytes) (reply : Dict)
    → length tag < 10 ^ 11
    → IsOrdered reply
    → IsCanonical (answer tag reply)
unfolding IsCanonical bytes_less
answer-IsCanonical tag reply l o = (
  omega arith,
  o,
  (refl, (refl, tt)),
  (omega arith, l, (refl, tt), (omega arith, omega arith, tt, tt)),
)

reply_of-answer :
    (tag : Bytes) (reply : Dict)
    → reply_of
        (entry key_r (dict_of reply) (entry key_t (text tag) (entry key_y (text key_r) no_entries)))
      ≡ some (tag, reply)
unfolding reply_of get_text get_dict get bytes_eq
reply_of-answer tag reply = refl

read_reply-answer :
    (tag : Bytes) (reply : Dict)
    → length tag < 10 ^ 11
    → IsOrdered reply
    → read_reply (encode (answer tag reply)) ≡ some (tag, reply)
unfolding read_reply
read_reply-answer tag reply l o =
    rw (decode-encode (answer tag reply) (answer-IsCanonical tag reply l o), read_reply)
      (reply_of-answer tag reply)

deliver-known :
    (c : Client) (payload tag : Bytes) (reply : Dict) (ticket : ℕ)
    → read_reply payload ≡ some (tag, reply)
    → lookup bytes_eq tag c.pending ≡ some ticket
    → deliver c payload
      ≡ (record c { pending = delete bytes_eq tag c.pending }, some (ticket, reply), true)
unfolding deliver
deliver-known c payload tag reply ticket r l = rw (r, deliver) (rw (l, deliver) refl)

deliver-unknown :
    (c : Client) (payload tag : Bytes) (reply : Dict)
    → read_reply payload ≡ some (tag, reply)
    → lookup bytes_eq tag c.pending ≡ none
    → deliver c payload ≡ (c, none, false)
unfolding deliver
deliver-unknown c payload tag reply r l = rw (r, deliver) (rw (l, deliver) refl)

-- Whatever was asked before: the answer to a question that was just put, encoded by whoever
-- answers it, is read off the wire and handed to that question's channel as it was written, and the
-- question then waits no more; sent again, it is left for somebody else.
pub deliver-begin_query :
    (c : Client) (method : Bytes) (args reply : Dict)
    → IsOrdered reply
    → let (c', name, wire) = begin_query c method args in
      let payload = encode (answer name reply) in
      ((deliver c' payload).1 ≡ some (c.asked, reply))
      × ((deliver (deliver c' payload).0 payload).2 ≡ false)
unfolding begin_query
deliver-begin_query c method args reply o =
    let name = name_of_tag (tag_after c) in
    let r = read_reply-answer name reply (omega arith) o in
    let pending = insert bytes_eq name c.asked c.pending in
    let there : lookup bytes_eq name pending ≡ some c.asked =
      lookup-insert bytes_eq bytes_eq_iff name name c.asked c.pending
      ∙ rw ((bytes_eq_iff name name).1 refl) refl in
    let gone : lookup bytes_eq name (delete bytes_eq name pending) ≡ none =
      lookup-delete bytes_eq bytes_eq_iff name name pending
      ∙ rw ((bytes_eq_iff name name).1 refl) refl in
    let c' : Client = (begin_query c method args).0 in
    let payload = encode (answer name reply) in
    let c'' : Client = record c' { pending = delete bytes_eq name pending } in
    let first = deliver-known c' payload name reply c.asked r there in
    let second = deliver-unknown c'' payload name reply r gone in
    (rw first refl, rw first (rw second refl))

-- ===== src/Dht/Client/Tests.antt =====
-- A question and its answer, for pkg/dht/client.go.
use vapora.Base.{
  ◌^◌, ◌-◌, ◌≤◌, ◌≡◌, false, some, List, [], ◌∷◌, ltb, if◌then◌else◌, Bytes, arith, replicate,
}
use vapora.Dht.Bencode.{Dict, text, no_entries, entry, encode}
use vapora.Dht.Bencode.Ordered.{IsOrdered}
use vapora.Dht.Client.{Client, new_client, begin_query, deliver, Event, asks, arrives, run, key_id}
use vapora.Dht.Client.Once.{handed, run-new_client}
use vapora.Dht.Client.Replies.{answer, deliver-begin_query}

abbrev client : Client
client = record { id = replicate 20 1; pending = []; next_tag = 2 ^ 32 - 1; asked = 7 }

abbrev method : Bytes
method = b'p' ∷ b'i' ∷ b'n' ∷ b'g' ∷ []

abbrev reply : Dict
reply = entry key_id (text (replicate 20 9)) no_entries

reply-IsOrdered : IsOrdered reply
unfolding IsOrdered
reply-IsOrdered = (omega arith, omega arith, tt, tt)

deliver-begin_query_example :
    let (c', name, wire) = begin_query client method no_entries in
    let payload = encode (answer name reply) in
    ((deliver c' payload).1 ≡ some (7, reply))
    × ((deliver (deliver c' payload).0 payload).2 ≡ false)
deliver-begin_query_example = deliver-begin_query client method no_entries reply reply-IsOrdered

abbrev history : List Event
history =
    asks method no_entries
    ∷ arrives (encode (answer (0 ∷ 0 ∷ 0 ∷ 1 ∷ []) reply))
    ∷ arrives (encode (answer (0 ∷ 0 ∷ 0 ∷ 1 ∷ []) reply))
    ∷ []

run-new_client_example :
    handed 0 (run (new_client []) history).1
    ≤ (if ltb 0 (run (new_client []) history).0.asked then 1 else 0)
run-new_client_example = run-new_client 0 [] history

-- ===== src/Chat/Group.antt =====
-- pkg/chat/room.go: a chat among everyone in a room, as far as it names who speaks. A member is its
-- key; the room gives its members in the order of a map, which is any.
use vapora.Base.{◌≡◌, ap, true, Option, none, some, List, [], ◌∷◌, Bytes, bytes_eq}
use vapora.Base.Dict.{lookup}
use vapora.Names.{name_of, short_names}
use vapora.Names.Given.{mem}
use vapora.Names.Order.{short_names-Perm}
use vapora.Chat.{Payload, Heard, unheard, on_line, on_typing, receive}
use mathlib.Core.List.{Permᴰ}

unfoldable pub attributed : Bytes → Heard → Option (Bytes × Heard)
attributed name unheard = none
attributed name (on_line line) = some (name, on_line line)
attributed name (on_typing active) = some (name, on_typing active)

module _ (material : Bytes → Option Bytes) where
  -- One's own key, and those of the members.
  abbrev present : Bytes → List Bytes → List Bytes
  present me members = me ∷ members

  unfoldable pub name_or : Bytes → Option Bytes → Bytes
  name_or key none = name_of material key 1
  name_or key (some name) = name

  -- `nameOf`
  unfoldable pub speaker_name : Bytes → List Bytes → Bytes → Bytes
  speaker_name me members key =
      name_or key (lookup bytes_eq key (short_names material (present me members)))

  -- What `Speakers` makes of the names: a key that has none is nameless.
  unfoldable pub named : List (Bytes × Bytes) → List Bytes → List (Bytes × Bytes)
  named short [] = []
  named short (key ∷ keys) = elim (lookup bytes_eq key short) [
    | none ↦ (key, []) ∷ named short keys
    | some name ↦ (key, name) ∷ named short keys
  ]

  unfoldable pub speakers : Bytes → List Bytes → List (Bytes × Bytes)
  speakers me members = named (short_names material (present me members)) members

  -- `receive`, of a group that has both handlers: who speaks, and what is called.
  unfoldable pub receive_from : Bytes → List Bytes → Bytes → Payload → Option (Bytes × Heard)
  receive_from me members from payload = attributed (speaker_name me members from) (receive payload)

  same_name :
      (me other : Bytes) (mine theirs : List Bytes) (key : Bytes)
      → Permᴰ (me ∷ mine) (other ∷ theirs)
      → mem key (me ∷ mine) ≡ true
      → speaker_name me mine key ≡ speaker_name other theirs key
  unfolding speaker_name
  same_name me other mine theirs key d m =
      ap (name_or key) (short_names-Perm material (me ∷ mine) (other ∷ theirs) key d m)

  -- Two who see the same people present, each in an order of their own, hear the same from any of
  -- them, under the same name.
  pub receive_from-Perm :
      (me other : Bytes) (mine theirs : List Bytes) (from : Bytes) (payload : Payload)
      → Permᴰ (me ∷ mine) (other ∷ theirs)
      → mem from (me ∷ mine) ≡ true
      → receive_from me mine from payload ≡ receive_from other theirs from payload
  unfolding receive_from
  receive_from-Perm me other mine theirs from payload d m =
      ap (λ (name : Bytes). attributed name (receive payload))
        (same_name me other mine theirs from d m)

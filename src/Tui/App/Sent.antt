-- ===== src/Tui/App/Sent.antt =====
-- internal/tui/app.go: which lines go out to the others, and which are shown as one's own.
use vapora.Base.{
  ℕ, ◌-◌, ◌≡◌, refl, sym, ap, ◌∙◌, Bool, true, false, not, ◌&&◌, ◌||◌, List, [], ◌∷◌, ◌++◌,
  if◌then◌else◌, ltb, map, Bool-cases, inl, inr, append-nil, append_assoc, bytes_eq,
}
use vapora.Base.Dict.{delete}
use vapora.Text.{Piece, rune}
use vapora.Tui.Keys.{Key, key_enter, key_page_up, key_page_down, key_interrupt}
use vapora.Tui.Editor.{apply, is_empty, take_line}
use vapora.Tui.Window.{Line}
use vapora.Tui.App.{
  Chat, Message, new_chat, scroll_by, keep_position, append_mine, append_message, say_from,
  typing_from, system_line, system_message, connected, closed, apply_typing, phase_chat,
  channel_open,
}
use vapora.Tui.App.Loop.{
  Effect, send_line, set_typing, command, stop_typing, enter_line, enter, edit, press, go_quiet,
  tick, Event, pressed, ticked, resized, came, typing_came, noted, members_are, is_connected,
  is_closed, quit, turn, run, typing_idle,
}

-- The lines that went out.
unfoldable pub sent : List Effect → List (List Piece)
sent [] = []
sent (send_line line ∷ later) = map rune line ∷ sent later
sent (set_typing b ∷ later) = sent later
sent (command line ∷ later) = sent later

-- The lines shown as one's own.
unfoldable pub own : List Message → List (List Piece)
own [] = []
own (m ∷ ms) = let rest = own ms in if m.mine then m.body ∷ rest else rest

sent-append : (a b : List Effect) → sent (a ++ b) ≡ sent a ++ sent b
unfolding sent
sent-append [] b = refl
sent-append (send_line line ∷ a) b =
    ap (λ (l : List (List Piece)). map rune line ∷ l) (sent-append a b)
sent-append (set_typing x ∷ a) b = sent-append a b
sent-append (command line ∷ a) b = sent-append a b

own-append : (a b : List Message) → own (a ++ b) ≡ own a ++ own b
unfolding own
own-append [] b = refl
own-append (m ∷ a) b = elim (Bool-cases m.mine) [
  | inl e ↦ rw e (ap (λ (l : List (List Piece)). m.body ∷ l) (own-append a b))
  | inr e ↦ rw e (own-append a b)
]

-- What a turn keeps.
abbrev Shows : Chat → Chat × List Effect → Type 0
Shows c r = own r.0.messages ≡ own c.messages ++ sent r.1

same-Shows : (c c' : Chat) → c'.messages ≡ c.messages → Shows c (c', [])
unfolding sent
same-Shows c c' e = ap own e ∙ sym (append-nil (own c.messages))

stop_typing-messages : (c : Chat) → (stop_typing c).0.messages ≡ c.messages
unfolding stop_typing
stop_typing-messages c = elim (Bool-cases c.typing_sent) [ inl e ↦ rw e refl | inr e ↦ rw e refl ]

stop_typing-sent : (c : Chat) → sent (stop_typing c).1 ≡ []
unfolding stop_typing sent
stop_typing-sent c = elim (Bool-cases c.typing_sent) [ inl e ↦ rw e refl | inr e ↦ rw e refl ]

silent-Shows :
    (c : Chat) (r : Chat × List Effect) → r.0.messages ≡ c.messages → sent r.1 ≡ [] → Shows c r
silent-Shows c r e s = rw (s, e) (sym (append-nil (own c.messages)))

append_message-own :
    (m : Message) (c : Chat) → m.mine ≡ false → own (append_message m c).messages ≡ own c.messages
unfolding append_message
append_message-own m c e =
    own-append c.messages (m ∷ []) ∙ (unfold own in rw e (append-nil (own c.messages)))

enter_line-Shows :
    (takes : Line → Bool) (line : Line) (c : Chat) → Shows c (enter_line takes line c)
unfolding enter_line
enter_line-Shows takes [] c =
    silent-Shows c (stop_typing c) (stop_typing-messages c) (stop_typing-sent c)
enter_line-Shows takes (r ∷ rs) c = elim (Bool-cases (takes (r ∷ rs))) [
  | inl e ↦ rw e (silent-Shows c (c, command (r ∷ rs) ∷ []) refl (unfold sent in refl))
  | inr e ↦
      let c' = append_mine (r ∷ rs) c in
      rw e (
        unfold sent in
        rw (stop_typing-messages c', stop_typing-sent c')
          (unfold append_mine append_message in own-append c.messages _ ∙ (unfold own in refl)))
]

edit-Shows : (key : Key) (now : ℕ) (c : Chat) → Shows c (edit key now c)
unfolding edit sent
edit-Shows key now c =
    elim (Bool-cases (not c.typing_sent && not (is_empty (apply key c.editor)))) [
      | inl e ↦ rw e (sym (append-nil (own c.messages)))
      | inr e ↦ rw e (sym (append-nil (own c.messages)))
    ]

press-Shows :
    (takes : Line → Bool) (key : Key) (now : ℕ) (c : Chat) → Shows c (press takes key now c).0
unfolding press enter scroll_by enter_line take_line
press-Shows takes key now c =
    elim key.kind
      as (λ kind. Shows c (press takes (record { kind = kind; value = key.value }) now c).0) [
        | key_interrupt ↦ same-Shows c c refl
        | key_enter ↦ enter_line-Shows takes c.editor.runes _
        | key_page_up ↦ same-Shows c (scroll_by true c) refl
        | key_page_down ↦ same-Shows c (scroll_by false c) refl
        | kind ↦ edit-Shows (record { kind = kind; value = key.value }) now c
      ]

keep_position-messages : (c : Chat) → (keep_position c).messages ≡ c.messages
unfolding keep_position
keep_position-messages c = elim (Bool-cases (ltb 0 c.scroll)) [
  | inl e ↦ rw e refl
  | inr e ↦ rw e refl
]

go_quiet-messages : (now : ℕ) (c : Chat) → (go_quiet now c).0.messages ≡ c.messages
unfolding go_quiet
go_quiet-messages now c =
    elim (Bool-cases
      (c.typing_sent && (is_empty c.editor || ltb typing_idle (now - c.last_keystroke)))) [
        | inl e ↦ rw e refl
        | inr e ↦ rw e refl
      ]

go_quiet-sent : (now : ℕ) (c : Chat) → sent (go_quiet now c).1 ≡ []
unfolding go_quiet sent
go_quiet-sent now c =
    elim (Bool-cases
      (c.typing_sent && (is_empty c.editor || ltb typing_idle (now - c.last_keystroke)))) [
        | inl e ↦ rw e refl
        | inr e ↦ rw e refl
      ]

-- A message of somebody else.
other-Shows :
    (c c' : Chat) (m : Message)
    → m.mine ≡ false
    → c'.messages ≡ c.messages
    → Shows c (keep_position (append_message m c'), [])
other-Shows c c' m e same =
    ap own (keep_position-messages (append_message m c'))
    ∙ (append_message-own m c' e ∙ same-Shows c c' same)

turn-Shows : (takes : Line → Bool) (event : Event) (c : Chat) → Shows c (turn takes event c).0
unfolding turn
turn-Shows takes (pressed key now) c = press-Shows takes key now c
turn-Shows takes (ticked now) c =
    unfold tick apply_typing in
    silent-Shows c (tick now c) (go_quiet-messages now c) (go_quiet-sent now c)
turn-Shows takes (resized width height) c =
    same-Shows c (turn takes (resized width height) c).0.0 refl
turn-Shows takes (came from payload) c =
    unfold say_from in
    other-Shows c (record c { typing = delete bytes_eq from c.typing })
      (record { speaker = from; body = payload; mine = false; system = false }) refl refl
turn-Shows takes (typing_came from true now) c =
    unfold typing_from in same-Shows c (typing_from from true now c) refl
turn-Shows takes (typing_came from false now) c =
    unfold typing_from in same-Shows c (typing_from from false now c) refl
turn-Shows takes (noted body) c =
    unfold system_line in other-Shows c c (system_message body) refl refl
turn-Shows takes (members_are members) c =
    same-Shows c (turn takes (members_are members) c).0.0 refl
turn-Shows takes (is_connected me) c =
    unfold connected sent in
    append_message-own (system_message channel_open) (record c { phase = phase_chat; me = me }) refl
    ∙ sym (append-nil (own c.messages))
turn-Shows takes (is_closed reason) c = unfold closed in same-Shows c (closed reason c) refl
turn-Shows takes quit c = same-Shows c c refl

run-Shows : (takes : Line → Bool) (events : List Event) (c : Chat) → Shows c (run takes events c)
unfolding run
run-Shows takes [] c = same-Shows c c refl
run-Shows takes (event ∷ events) c =
    let r = turn takes event c in
    let now = turn-Shows takes event c in
    let later = run-Shows takes events r.0.0 in
    let rest = (run takes events r.0.0).1 in
    elim (Bool-cases r.1) [
      | inl e ↦ rw e (
          later
          ∙ (ap (λ (l : List (List Piece)). l ++ sent rest) now
              ∙ (append_assoc (own c.messages) (sent r.0.1) (sent rest)
                  ∙ ap (λ (l : List (List Piece)). own c.messages ++ l)
                      (sym (sent-append r.0.1 rest)))))
      | inr e ↦ rw e now
    ]

-- The lines shown as one's own are the lines that went out to the others, in their order: none is
-- shown that was not sent, a line that the command handler took among them, and none is sent that
-- is not shown.
pub run-own :
    (takes : Line → Bool) (events : List Event) (width height : ℕ) (me : Line)
    → own (run takes events (new_chat width height me)).0.messages
      ≡ sent (run takes events (new_chat width height me)).1
unfolding new_chat own
run-own takes events width height me = run-Shows takes events (new_chat width height me)

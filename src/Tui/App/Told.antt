-- ===== src/Tui/App/Told.antt =====
-- internal/tui/app.go: what the others are told about this side's typing.
use vapora.Base.{
  ℕ, ◌-◌, ◌≡◌, refl, sym, ap, ◌∙◌, Bool, true, false, ◌||◌, Option, none, some, List, [], ◌∷◌, ◌++◌,
  ltb, Bool-cases, inl, inr, arith,
}
use vapora.Tui.Keys.{Key, key_enter, key_page_up, key_page_down, key_interrupt}
use vapora.Tui.Editor.{apply, is_empty, take_line}
use vapora.Tui.Window.{Line}
use vapora.Tui.App.{
  Chat, new_chat, scroll_by, keep_position, append_message, say_from, typing_from, system_line,
  connected, closed, append_mine, apply_typing,
}
use vapora.Tui.App.Loop.{
  Effect, send_line, set_typing, command, stop_typing, enter_line, enter, edit, press, go_quiet,
  tick, typing_idle, Event, pressed, ticked, resized, came, typing_came, noted, members_are,
  is_connected, is_closed, quit, turn, run,
}

-- What the others hold after these calls when they held `known` before, unless a call tells them
-- what they hold already.
unfoldable pub told : Bool → List Effect → Option Bool
told known [] = some known
told known (send_line line ∷ later) = told known later
told known (command line ∷ later) = told known later
told true (set_typing true ∷ later) = none
told false (set_typing true ∷ later) = told true later
told true (set_typing false ∷ later) = told false later
told false (set_typing false ∷ later) = none

told-append :
    (known held : Bool) (effects later : List Effect)
    → told known effects ≡ some held
    → told known (effects ++ later) ≡ told held later
unfolding told
told-append known held [] later h = ground (arith, h)
told-append known held (send_line line ∷ rest) later h = told-append known held rest later h
told-append known held (command line ∷ rest) later h = told-append known held rest later h
told-append true held (set_typing true ∷ rest) later h = absurd (cc)
told-append false held (set_typing true ∷ rest) later h = told-append true held rest later h
told-append true held (set_typing false ∷ rest) later h = told-append false held rest later h
told-append false held (set_typing false ∷ rest) later h = absurd (cc)

-- What a turn keeps.
abbrev Told : Chat → Chat × List Effect → Type 0
Told c r = told c.typing_sent r.1 ≡ some r.0.typing_sent

stop_typing-Told : (c : Chat) → Told c (stop_typing c)
unfolding stop_typing told
stop_typing-Told c = elim (Bool-cases c.typing_sent) [ inl e ↦ rw e refl | inr e ↦ rw e refl ]

enter_line-Told : (takes : Line → Bool) (line : Line) (c : Chat) → Told c (enter_line takes line c)
unfolding enter_line told append_mine append_message
enter_line-Told takes [] c = stop_typing-Told c
enter_line-Told takes (r ∷ rs) c = elim (Bool-cases (takes (r ∷ rs))) [
  | inl e ↦ rw e refl
  | inr e ↦ rw e (stop_typing-Told (append_mine (r ∷ rs) c))
]

edit-Told : (key : Key) (now : ℕ) (c : Chat) → Told c (edit key now c)
unfolding edit told
edit-Told key now c = elim (Bool-cases c.typing_sent) [
  | inl e ↦ rw e refl
  | inr e ↦ elim (Bool-cases (is_empty (apply key c.editor))) [
    | inl f ↦ rw (e, f) refl
    | inr f ↦ rw (e, f) refl
  ]
]

go_quiet-Told : (now : ℕ) (c : Chat) → Told c (go_quiet now c)
unfolding go_quiet told
go_quiet-Told now c = elim (Bool-cases c.typing_sent) [
  | inl e ↦ elim (Bool-cases (is_empty c.editor || ltb typing_idle (now - c.last_keystroke))) [
    | inl f ↦ rw (e, f) refl
    | inr f ↦ rw (e, f) refl
  ]
  | inr e ↦ rw e refl
]

press-Told :
    (takes : Line → Bool) (key : Key) (now : ℕ) (c : Chat) → Told c (press takes key now c).0
unfolding press enter scroll_by told enter_line take_line
press-Told takes key now c =
    elim key.kind
      as (λ kind. Told c (press takes (record { kind = kind; value = key.value }) now c).0) [
        | key_interrupt ↦ refl
        | key_enter ↦ enter_line-Told takes c.editor.runes _
        | key_page_up ↦ refl
        | key_page_down ↦ refl
        | kind ↦ edit-Told (record { kind = kind; value = key.value }) now c
      ]

keep_position-typing_sent : (c : Chat) → (keep_position c).typing_sent ≡ c.typing_sent
unfolding keep_position
keep_position-typing_sent c = elim (Bool-cases (ltb 0 c.scroll)) [
  | inl e ↦ rw e refl
  | inr e ↦ rw e refl
]

turn-Told : (takes : Line → Bool) (event : Event) (c : Chat) → Told c (turn takes event c).0
unfolding turn told
turn-Told takes (pressed key now) c = press-Told takes key now c
turn-Told takes (ticked now) c = unfold tick apply_typing in go_quiet-Told now c
turn-Told takes (resized width height) c = refl
turn-Told takes (came from payload) c =
    unfold say_from append_message in ap some (sym (keep_position-typing_sent _))
turn-Told takes (typing_came from true now) c = unfold typing_from in refl
turn-Told takes (typing_came from false now) c = unfold typing_from in refl
turn-Told takes (noted body) c =
    unfold system_line append_message in ap some (sym (keep_position-typing_sent _))
turn-Told takes (members_are members) c = refl
turn-Told takes (is_connected me) c = unfold connected append_message in refl
turn-Told takes (is_closed reason) c = unfold closed in refl
turn-Told takes quit c = refl

run-Told : (takes : Line → Bool) (events : List Event) (c : Chat) → Told c (run takes events c)
unfolding run
run-Told takes [] c = unfold told in refl
run-Told takes (event ∷ events) c =
    let r = turn takes event c in
    let now = turn-Told takes event c in
    let later = run-Told takes events r.0.0 in
    elim (Bool-cases r.1) [
      | inl e ↦
          rw e (
            told-append c.typing_sent r.0.0.typing_sent r.0.1 (run takes events r.0.0).1 now
            ∙ later)
      | inr e ↦ rw e now
    ]

-- Whatever is typed and whatever comes in, the others are never told about this side's typing what
-- they hold already, and what they hold in the end is what the loop believes that they hold.
pub run-told :
    (takes : Line → Bool) (events : List Event) (width height : ℕ) (me : Line)
    → told false (run takes events (new_chat width height me)).1
      ≡ some (run takes events (new_chat width height me)).0.typing_sent
unfolding new_chat
run-told takes events width height me = run-Told takes events (new_chat width height me)

-- ===== src/Tui/App/Loop.antt =====
-- internal/tui/app.go: `Run`, one turn of its loop at a time, and the updates that other goroutines
-- queue for it.
use vapora.Base.{
  ℕ, ◌+◌, ◌-◌, ◌*◌, Bool, true, false, not, ◌&&◌, ◌||◌, List, [], ◌∷◌, ◌++◌, ltb, if◌then◌else◌,
}
use vapora.Text.{Piece}
use vapora.Tui.Keys.{Key, key_interrupt, key_enter, key_page_up, key_page_down}
use vapora.Tui.Editor.{apply, is_empty, take_line}
use vapora.Tui.Window.{Line}
use vapora.Tui.App.{
  Chat, Participant, scroll_by, say_from, typing_from, system_line, connected, closed, append_mine,
  apply_typing,
}

pub data Effect : Type 0 where
  send_line : Line → Effect
  set_typing : Bool → Effect
  command : Line → Effect

abbrev pub typing_idle : ℕ
typing_idle = 2 * 1000000000

-- Telling the others that the line being typed is no more.
unfoldable pub stop_typing : Chat → Chat × List Effect
stop_typing c =
    if c.typing_sent then (record c { typing_sent = false }, set_typing false ∷ []) else (c, [])

-- The line that was taken, over whether the command handler takes it: an empty one is not offered
-- to it, and one that it takes ends the turn.
unfoldable pub enter_line : (Line → Bool) → Line → Chat → Chat × List Effect
enter_line takes [] c = stop_typing c
enter_line takes (r ∷ rs) c =
    let (said, told) = stop_typing (append_mine (r ∷ rs) c) in
    if takes (r ∷ rs)
    then (c, command (r ∷ rs) ∷ [])
    else (said, command (r ∷ rs) ∷ send_line (r ∷ rs) ∷ told)

unfoldable pub enter : (Line → Bool) → Chat → Chat × List Effect
enter takes c =
    let (line, emptied) = take_line c.editor in
    enter_line takes line (record c { editor = emptied })

-- Any other key but those that scroll.
unfoldable pub edit : Key → ℕ → Chat → Chat × List Effect
edit key now c =
    let editor = apply key c.editor in
    let c' = record c { editor = editor; last_keystroke = now } in
    if not c.typing_sent && not (is_empty editor)
    then (record c' { typing_sent = true }, set_typing true ∷ [])
    else (c', [])

-- A key, and whether the loop goes on.
unfoldable pub press : (Line → Bool) → Key → ℕ → Chat → (Chat × List Effect) × Bool
press takes key now c = elim key.kind [
  | key_interrupt ↦ ((c, []), false)
  | key_enter ↦ (enter takes c, true)
  | key_page_up ↦ ((scroll_by true c, []), true)
  | key_page_down ↦ ((scroll_by false c, []), true)
  | _ ↦ (edit key now c, true)
]

-- The others are told when the line is empty again, or nothing was typed for a while.
unfoldable pub go_quiet : ℕ → Chat → Chat × List Effect
go_quiet now c =
    if c.typing_sent && (is_empty c.editor || ltb typing_idle (now - c.last_keystroke))
    then (record c { typing_sent = false }, set_typing false ∷ [])
    else (c, [])

-- The clock of the animation.
unfoldable pub tick : ℕ → Chat → Chat × List Effect
tick now c =
    let (quiet, told) = go_quiet now c in
    (apply_typing now (record quiet { frame = quiet.frame + 1 }), told)

pub data Event : Type 0 where
  pressed : Key → ℕ → Event
  ticked : ℕ → Event
  resized : ℕ → ℕ → Event
  came : Line → List Piece → Event
  typing_came : Line → Bool → ℕ → Event
  noted : List Piece → Event
  members_are : List Participant → Event
  is_connected : Line → Event
  is_closed : List Piece → Event
  quit : Event

-- One turn of the `select`. A screen is at least one cell wide and high.
unfoldable pub turn : (Line → Bool) → Event → Chat → (Chat × List Effect) × Bool
turn takes (pressed key now) c = press takes key now c
turn takes (ticked now) c = (tick now c, true)
turn takes (resized width height) c = (
  (
    record c {
      width = if ltb width 1 then 1 else width;
      height = if ltb height 1 then 1 else height;
    },
    [],
  ),
  true,
)
turn takes (came from payload) c = ((say_from from payload c, []), true)
turn takes (typing_came from active now) c = ((typing_from from active now c, []), true)
turn takes (noted body) c = ((system_line body c, []), true)
turn takes (members_are members) c = ((record c { members = members }, []), true)
turn takes (is_connected me) c = ((connected me c, []), true)
turn takes (is_closed reason) c = ((closed reason c, []), true)
turn takes quit c = ((c, []), false)

-- `Run` over what comes, until it is told to end.
unfoldable pub run : (Line → Bool) → List Event → Chat → Chat × List Effect
run takes [] c = (c, [])
run takes (event ∷ events) c =
    let ((c', effects), goes_on) = turn takes event c in
    let (last, later) = run takes events c' in
    if goes_on then (last, effects ++ later) else (c', effects)

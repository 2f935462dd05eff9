-- ===== src/Tui/App/Tests.antt =====
-- A line is typed and sent while another comes in, then a command.
use vapora.Base.{ℕ, ◌≡◌, refl, Bool, true, false, some, List, [], ◌∷◌, ◌==◌}
use vapora.Text.{rune}
use vapora.Tui.Keys.{Key, key_rune, key_enter, plain}
use vapora.Tui.Editor.{apply, is_empty, take_line}
use vapora.Tui.Window.{Line}
use vapora.Tui.App.{
  new_chat, append_mine, append_message, say_from, keep_position, apply_typing, still_typing,
}
use vapora.Tui.App.Loop.{
  send_line, set_typing, command, Event, pressed, ticked, came, turn, run, press, enter, enter_line,
  edit, stop_typing, tick, go_quiet,
}
use vapora.Tui.App.Told.{told, run-told}
use vapora.Tui.App.Sent.{sent, own, run-own}

abbrev letter : ℕ → Key
letter value = record { kind = key_rune; value = value }

abbrev takes : Line → Bool
takes [] = false
takes (r ∷ rs) = r == b'!'

abbrev events : List Event
events =
    pressed (letter b'h') 10
    ∷ ticked 20
    ∷ came (b'b' ∷ []) (rune b'y' ∷ [])
    ∷ pressed (letter b'i') 30
    ∷ pressed (plain key_enter) 40
    ∷ pressed (letter b'!') 50
    ∷ pressed (plain key_enter) 60
    ∷ ticked 70
    ∷ []

abbrev me : Line
me = b'a' ∷ []

told_run :
    (run takes events (new_chat 80 24 me)).1
    ≡ set_typing true
      ∷ command (b'h' ∷ b'i' ∷ [])
      ∷ send_line (b'h' ∷ b'i' ∷ [])
      ∷ set_typing false
      ∷ set_typing true
      ∷ command (b'!' ∷ [])
      ∷ set_typing false
      ∷ []
unfolding run turn press enter enter_line edit stop_typing tick go_quiet new_chat append_mine
    append_message say_from keep_position apply_typing still_typing apply is_empty take_line
told_run = refl

run-told_example :
    told false (run takes events (new_chat 80 24 me)).1
    ≡ some (run takes events (new_chat 80 24 me)).0.typing_sent
run-told_example = run-told takes events 80 24 me

run-own_example :
    own (run takes events (new_chat 80 24 me)).0.messages
    ≡ sent (run takes events (new_chat 80 24 me)).1
run-own_example = run-own takes events 80 24 me

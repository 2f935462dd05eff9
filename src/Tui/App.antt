-- ===== src/Tui/App.antt =====
-- internal/tui/app.go: the loop of the chat screen as a step on its state. Times are nanoseconds; a
-- call of a handler that was injected is an effect, in the order of the calls. A command handler
-- that was never set is one that takes no line.
pub mod Loop
pub mod Told
pub mod Sent
mod Tests
use vapora.Base.{
  ℕ, ◌+◌, ◌-◌, ◌*◌, ◌/◌, Bool, true, false, List, [], ◌∷◌, ◌++◌, ltb, ◌==◌, if◌then◌else◌, length,
  map, bytes_eq, is_some,
}
use vapora.Base.Dict.{lookup, insert, delete}
use vapora.Text.{Piece, rune, safe}
use vapora.Tui.Editor.{Editor, new_editor}
use vapora.Tui.Window.{Line, wrap, header_rows, footer_height, gutter_for}

pub data Phase : Type 0 where
  phase_loading phase_chat phase_closed : Phase

pub record Message : Type 0 where
  pub speaker : Line
  pub body : List Piece
  pub mine : Bool
  pub system : Bool

pub data LinkState : Type 0 where
  link_alive link_stale link_lost : LinkState

pub record Participant : Type 0 where
  pub name : Line
  pub link : LinkState
  pub rtt : ℕ
  pub silence : ℕ
  pub is_typing : Bool

-- `Chat` and `State` without the pictures: the screen's size, the deadlines of those who type, and
-- the two variables of `Run`.
pub record Chat : Type 0 where
  pub width : ℕ
  pub height : ℕ
  pub phase : Phase
  pub me : Line
  pub members : List Participant
  pub messages : List Message
  pub scroll : ℕ
  pub frame : ℕ
  pub closed_error : List Piece
  pub editor : Editor
  pub typing : List (Line × ℕ)
  pub last_keystroke : ℕ
  pub typing_sent : Bool

abbrev pub typing_expiry : ℕ
typing_expiry = 6 * 1000000000

unfoldable pub new_chat : ℕ → ℕ → Line → Chat
new_chat width height me = record {
  width = width;
  height = height;
  phase = phase_loading;
  me = me;
  members = [];
  messages = [];
  scroll = 0;
  frame = 0;
  closed_error = [];
  editor = new_editor;
  typing = [];
  last_keystroke = 0;
  typing_sent = false;
}

-- How many lines `wrapMessages` makes.
unfoldable pub count_lines : ℕ → List Message → ℕ
count_lines body [] = 0
count_lines body (m ∷ ms) = length (wrap (safe m.body) body) + count_lines body ms

unfoldable pub max_scroll : Chat → ℕ
max_scroll c =
    let area = c.height - footer_height - header_rows (length c.members) c.height in
    let gutter = gutter_for c.me (map (λ m. m.name) c.members) c.width in
    let room = c.width - 4 - gutter in
    let body = if ltb room 8 then 8 else room in
    if ltb area 1 then 0 else count_lines body c.messages - area

-- `scroll`
unfoldable pub scroll_by : Bool → Chat → Chat
scroll_by up c =
    let half = (c.height - header_rows (length c.members) c.height - footer_height) / 2 in
    let step = if ltb half 1 then 1 else half in
    let moved = if up then c.scroll + step else c.scroll - step in
    let most = max_scroll c in record c { scroll = if ltb most moved then most else moved }

unfoldable pub keep_position : Chat → Chat
keep_position c = if ltb 0 c.scroll then record c { scroll = c.scroll + 1 } else c

unfoldable pub append_message : Message → Chat → Chat
append_message m c = record c { messages = c.messages ++ m ∷ [] }

abbrev pub system_name : Line
system_name = b'-' ∷ b'-' ∷ []

abbrev pub system_message : List Piece → Message
system_message body = record { speaker = system_name; body = body; mine = false; system = true }

-- `Message`
unfoldable pub say_from : Line → List Piece → Chat → Chat
say_from from payload c = keep_position (
    append_message (record { speaker = from; body = payload; mine = false; system = false })
      (record c { typing = delete bytes_eq from c.typing }))

unfoldable pub typing_from : Line → Bool → ℕ → Chat → Chat
typing_from from active now c =
    if active
    then record c { typing = insert bytes_eq from (now + typing_expiry) c.typing }
    else record c { typing = delete bytes_eq from c.typing }

unfoldable pub system_line : List Piece → Chat → Chat
system_line body c = keep_position (append_message (system_message body) c)

-- channel open
abbrev pub channel_open : List Piece
channel_open =
    map rune
      (b'c' ∷ b'h' ∷ b'a' ∷ b'n' ∷ b'n' ∷ b'e' ∷ b'l' ∷ b' ' ∷ b'o' ∷ b'p' ∷ b'e' ∷ b'n' ∷ [])

unfoldable pub connected : Line → Chat → Chat
connected me c =
    append_message (system_message channel_open) (record c { phase = phase_chat; me = me })

unfoldable pub closed : List Piece → Chat → Chat
closed reason c = record c { phase = phase_closed; closed_error = reason }

unfoldable pub append_mine : Line → Chat → Chat
append_mine line c =
    record (append_message
      (record { speaker = c.me; body = map rune line; mine = true; system = false }) c) {
        scroll = 0;
      }

-- The first loop of `applyTyping`.
unfoldable pub still_typing : ℕ → List (Line × ℕ) → List (Line × ℕ)
still_typing now [] = []
still_typing now ((name, until) ∷ rest) =
    let kept = still_typing now rest in if ltb until now then kept else (name, until) ∷ kept

unfoldable pub apply_typing : ℕ → Chat → Chat
apply_typing now c =
    let typing = still_typing now c.typing in
    record c {
      typing = typing;
      members =
          map {A = Participant}
            (λ m. record m { is_typing = is_some (lookup bytes_eq m.name typing) }) c.members;
    }

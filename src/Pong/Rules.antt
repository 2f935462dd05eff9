-- ===== src/Pong/Rules.antt =====
-- examples/pong/game.go, the rules, and the host's loop of play.go. The paddles are two fields in
-- place of an array.
use vapora.Base.{
  ℕ, ◌+◌, ◌-◌, ◌*◌, ◌/◌, ◌%◌, Bool, true, false, ◌&&◌, ◌||◌, Option, none, some, List, [], ◌∷◌,
  ◌++◌, leb, if◌then◌else◌, Bytes,
}
use vapora.Base.Int.{ℤ, pos, negsuc, pos_part, neg_part, sub_ℕ, ◌+ℤ◌, ◌-ℤ◌, neg_ℤ, leb_ℤ}
use vapora.Pong.{State, field_width, field_height, encode_state, decode_paddle, is_reset}

pub record Game : Type 0 where
  pub state : State
  pub ball_dx : ℤ
  pub ball_dy : ℤ
  pub paddle_left : ℕ
  pub paddle_right : ℕ

abbrev pub paddle_height : ℕ
paddle_height = 160

abbrev pub paddle_speed : ℕ
paddle_speed = 26

abbrev pub ball_speed : ℕ
ball_speed = 12

abbrev pub winning_score : ℕ
winning_score = 11

abbrev pub paddle_inset : ℕ
paddle_inset = 30

-- A conversion of an int to a uint16.
abbrev pub to_u16 : ℤ → ℕ
to_u16 (pos n) = n % 65536
to_u16 (negsuc n) = 65535 - n % 65536

-- Go's division by a positive number, which rounds towards zero.
abbrev pub quotient : ℤ → ℕ → ℤ
quotient a d = sub_ℕ (pos_part a / d) (neg_part a / d)

-- `serve`, for a direction of one or minus one.
unfoldable pub serve : ℤ → Game → Game
serve direction g = record g {
  state = record g.state { ball_x = field_width / 2; ball_y = field_height / 2; serving = true };
  ball_dx = sub_ℕ (ball_speed * pos_part direction) (ball_speed * neg_part direction);
  ball_dy = pos (ball_speed / 2);
}

unfoldable pub new_game : Game
new_game = serve (pos 1) (record {
  state = record {
    ball_x = 0;
    ball_y = 0;
    left_y = 0;
    right_y = 0;
    left_score = 0;
    right_score = 0;
    serving = false;
  };
  ball_dx = pos 0;
  ball_dy = pos 0;
  paddle_left = field_height / 2;
  paddle_right = field_height / 2;
})

unfoldable pub finished : State → Bool
finished s = leb winning_score s.left_score || leb winning_score s.right_score

unfoldable pub hits : ℤ → ℕ → Bool
hits ball_y paddle_y =
    let top = pos paddle_y -ℤ pos (paddle_height / 2) in
    leb_ℤ top ball_y && leb_ℤ ball_y (top +ℤ pos paddle_height)

unfoldable pub lean : ℤ → ℕ → ℤ
lean ball_y paddle_y = quotient (ball_y -ℤ pos paddle_y) 12

-- The top and bottom walls: where the ball is, and how it moves on.
unfoldable pub bounce : ℤ → ℤ → ℤ × ℤ
bounce y dy =
    let (y', dy') = if leb_ℤ y (pos 0) then (pos 0, neg_ℤ dy) else (y, dy) in
    if leb_ℤ (pos field_height) y' then (pos field_height, neg_ℤ dy') else (y', dy')

unfoldable pub place : Game → ℤ → ℤ → Game
place g x y = record g { state = record g.state { ball_x = to_u16 x; ball_y = to_u16 y } }

-- A ball that comes off a paddle.
unfoldable pub return_ball : Game → ℕ → ℤ → ℕ → Game
return_ball g x y paddle_y =
    place (record g { ball_dx = neg_ℤ g.ball_dx; ball_dy = g.ball_dy +ℤ lean y paddle_y }) (pos x) y

-- The two ends of the court, and what lies between them.
unfoldable pub land : Game → ℤ → ℤ → Game
land g x y =
    if leb_ℤ x (pos paddle_inset)
    then if hits y g.paddle_left
      then return_ball g paddle_inset y g.paddle_left
      else serve (pos 1)
          (record g { state = record g.state { right_score = (g.state.right_score + 1) % 256 } })
    else if leb_ℤ (pos (field_width - paddle_inset)) x
    then if hits y g.paddle_right
      then return_ball g (field_width - paddle_inset) y g.paddle_right
      else serve (negsuc 0)
          (record g { state = record g.state { left_score = (g.state.left_score + 1) % 256 } })
    else place g x y

unfoldable pub tick : Game → Game
tick g =
    let seen = record g {
      state = record g.state { left_y = g.paddle_left; right_y = g.paddle_right };
    } in
    let (y, dy) = bounce (pos g.state.ball_y +ℤ g.ball_dy) g.ball_dy in
    let moving = record seen { state = record seen.state { serving = false }; ball_dy = dy } in
    if finished g.state then seen else land moving (pos g.state.ball_x +ℤ g.ball_dx) y

-- Where a paddle that would be here is held.
unfoldable pub held : ℤ → ℕ
held position =
    if leb_ℤ (pos 0) position
    then if leb_ℤ position (pos field_height) then to_u16 position else field_height
    else 0

-- `move`, of one paddle.
unfoldable pub moved : ℕ → ℤ → ℕ
moved paddle delta = held (pos paddle +ℤ delta)

unfoldable pub reset : Game → Game
reset g = serve (pos 1) (record g { state = record g.state { left_score = 0; right_score = 0 } })

pub data Event : Type 0 where
  key_up key_down key_reset ticked : Event
  received : Bytes → Event

abbrev take_paddle : Option ℕ → Game → Game
take_paddle none g = g
take_paddle (some y) g = record g { paddle_right = y }

-- What the host does, and sends.
unfoldable pub step : Event → Game → Game × List Bytes
step key_up g = (record g { paddle_left = moved g.paddle_left (neg_ℤ (pos paddle_speed)) }, [])
step key_down g = (record g { paddle_left = moved g.paddle_left (pos paddle_speed) }, [])
step key_reset g = (reset g, [])
step (received payload) g =
    let told = take_paddle (decode_paddle payload) g in
    (if is_reset payload then reset told else told, [])
step ticked g = (tick g, encode_state (tick g).state ∷ [])

unfoldable pub host : List Event → Game → Game × List Bytes
host [] g = (g, [])
host (event ∷ events) g =
    let (g', sent) = step event g in let (last, later) = host events g' in (last, sent ++ later)

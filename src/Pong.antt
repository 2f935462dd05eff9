-- ===== src/Pong.antt =====
-- examples/pong/wire.go: the game as it is sent, whole on every tick.
pub mod Rules
pub mod Court
mod Tests
use vapora.Base.{
  ℕ, ◌+◌, Bool, true, false, ◌&&◌, Option, none, some, List, [], ◌∷◌, ◌++◌, ltb, ◌==◌,
  if◌then◌else◌, length, Bytes,
}
use vapora.Base.Wire.{byte_at, put_u16, u16_at}

abbrev pub tag_paddle : ℕ
tag_paddle = 1

abbrev pub tag_state : ℕ
tag_state = 2

abbrev pub tag_reset : ℕ
tag_reset = 3

abbrev pub field_width : ℕ
field_width = 1000

abbrev pub field_height : ℕ
field_height = 1000

pub record State : Type 0 where
  pub ball_x : ℕ
  pub ball_y : ℕ
  pub left_y : ℕ
  pub right_y : ℕ
  pub left_score : ℕ
  pub right_score : ℕ
  pub serving : Bool

abbrev pub state_bytes : ℕ
state_bytes = 11

unfoldable pub encode_state : State → Bytes
encode_state s =
    tag_state
    ∷ (put_u16 s.ball_x
        ++ (put_u16 s.ball_y
            ++ (put_u16 s.left_y
                ++ (put_u16 s.right_y
                    ++ (s.left_score ∷ s.right_score ∷ (if s.serving then 1 else 0) ∷ [])))))

unfoldable pub clamp_16 : ℕ → ℕ → ℕ
clamp_16 value most = if ltb most value then most else value

unfoldable pub decode_state : Bytes → Option State
decode_state payload =
    if length payload == 1 + state_bytes && byte_at payload 0 == tag_state
    then some (record {
      ball_x = clamp_16 (u16_at payload 1) field_width;
      ball_y = clamp_16 (u16_at payload 3) field_height;
      left_y = clamp_16 (u16_at payload 5) field_height;
      right_y = clamp_16 (u16_at payload 7) field_height;
      left_score = byte_at payload 9;
      right_score = byte_at payload 10;
      serving = byte_at payload 11 == 1;
    })
    else none

unfoldable pub encode_paddle : ℕ → Bytes
encode_paddle y = tag_paddle ∷ put_u16 y

unfoldable pub decode_paddle : Bytes → Option ℕ
decode_paddle payload =
    if length payload == 3 && byte_at payload 0 == tag_paddle
    then some (clamp_16 (u16_at payload 1) field_height)
    else none

unfoldable pub is_reset : Bytes → Bool
is_reset payload = length payload == 1 && byte_at payload 0 == tag_reset

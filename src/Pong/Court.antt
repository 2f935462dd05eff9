-- ===== src/Pong/Court.antt =====
-- examples/pong: the ball, the paddles and the scores stay where they belong, so the other side reads
-- each state as it was sent.
use vapora.Base.{
  ℕ, ◌+◌, ◌-◌, ◌*◌, ◌/◌, ◌%◌, ◌≤◌, ◌≡◌, refl, Bool, true, false, some, List, [], ◌∷◌, leb, ◌==◌,
  if◌then◌else◌, Bytes, arith, Bool-cases, Option-cases, inl, inr, All, map, ap,
}
use vapora.Base.Int.{ℤ, pos, negsuc, ◌+ℤ◌, leb_ℤ}
use vapora.Pong.{
  State, field_width, field_height, encode_state, decode_state, clamp_16, decode_paddle, is_reset,
}
use vapora.Pong.Rules.{
  Game, winning_score, paddle_inset, to_u16, serve, new_game, finished, hits, bounce, place,
  return_ball, land, tick, held, moved, reset, Event, key_up, key_down, key_reset, ticked, received,
  step, host,
}

-- A state that the court has room for.
abbrev pub OnCourt : State → Type 0
OnCourt s =
    (s.ball_x ≤ field_width)
    × (s.ball_y ≤ field_height)
    × (s.left_y ≤ field_height)
    × (s.right_y ≤ field_height)
    × (s.left_score ≤ winning_score)
    × (s.right_score ≤ winning_score)

abbrev pub InPlay : Game → Type 0
InPlay g = OnCourt g.state × (g.paddle_left ≤ field_height) × (g.paddle_right ≤ field_height)

-- Whatever the ball's speed, the walls hold it.
bounce_in : (y dy : ℤ) → (n : ℕ) × ((bounce y dy).0 ≡ pos n) × (n ≤ field_height)
unfolding bounce
bounce_in (pos n) dy = elim (Bool-cases (leb n 0)) [
  | inl e ↦ (0, ground (arith, e), omega arith)
  | inr e ↦ elim (Bool-cases (leb 1000 n)) [
    | inl f ↦ (1000, ground (arith, e, f), omega arith)
    | inr f ↦ (n, ground (arith, e, f), ground (arith, f))
  ]
]
bounce_in (negsuc n) dy = (0, ground arith, omega arith)

held-le : (position : ℤ) → held position ≤ field_height
unfolding held
held-le (pos n) = ground arith
held-le (negsuc n) = ground arith

moved-le : (paddle : ℕ) (delta : ℤ) → moved paddle delta ≤ field_height
unfolding moved
moved-le paddle delta = held-le (pos paddle +ℤ delta)

serve-InPlay : (direction : ℤ) (g : Game) → InPlay g → InPlay (serve direction g)
unfolding serve
serve-InPlay direction g ((x, y, l, r, ls, rs), pl, pr) =
    ((omega arith, omega arith, l, r, ls, rs), pl, pr)

reset-InPlay : (g : Game) → InPlay g → InPlay (reset g)
unfolding reset serve
reset-InPlay g ((x, y, l, r, ls, rs), pl, pr) =
    ((omega arith, omega arith, l, r, omega arith, omega arith), pl, pr)

-- A ball between the ends.
to_u16-le : (x : ℤ) → leb_ℤ x (pos 30) ≡ false → leb_ℤ (pos 970) x ≡ false → to_u16 x ≤ field_width
to_u16-le (pos n) low high = ground (arith, low, high)
to_u16-le (negsuc n) low high = absurd (ground (arith, low))

-- A game that is not won has room for a point more.
point :
    (s : State)
    → finished s ≡ false
    → ((s.left_score + 1) % 256 ≤ winning_score) × ((s.right_score + 1) % 256 ≤ winning_score)
unfolding finished
point s f = (ground (arith, f), ground (arith, f))

place-InPlay :
    (g : Game) (x y : ℤ)
    → InPlay g
    → to_u16 x ≤ field_width
    → to_u16 y ≤ field_height
    → InPlay (place g x y)
unfolding place
place-InPlay g x y ((_, _, l, r, ls, rs), pl, pr) hx hy = ((hx, hy, l, r, ls, rs), pl, pr)

small : (n : ℕ) → n ≤ field_height → to_u16 (pos n) ≤ field_height
small n l = omega (arith, l)

land-InPlay :
    (g : Game) (x : ℤ) (n : ℕ)
    → InPlay g
    → finished g.state ≡ false
    → n ≤ field_height
    → InPlay (land g x (pos n))
unfolding land return_ball
land-InPlay g x n p f l =
    let ((bx, by, ly, ry, ls, rs), pl, pr) = p in
    let (left_point, right_point) = point g.state f in
    let fits = small n l in
    elim (Bool-cases (leb_ℤ x (pos paddle_inset))) [
      | inl e ↦ elim (Bool-cases (hits (pos n) g.paddle_left)) [
        | inl h ↦ rw (e, h) (place-InPlay _ (pos paddle_inset) (pos n) p (omega arith) fits)
        | inr h ↦ rw (e, h) (serve-InPlay (pos 1) _ ((bx, by, ly, ry, ls, right_point), pl, pr))
      ]
      | inr e ↦ elim (Bool-cases (leb_ℤ (pos (field_width - paddle_inset)) x)) [
        | inl d ↦ elim (Bool-cases (hits (pos n) g.paddle_right)) [
          | inl h ↦
              rw (e, d, h)
                (place-InPlay _ (pos (field_width - paddle_inset)) (pos n) p (omega arith) fits)
          | inr h ↦
              rw (e, d, h) (serve-InPlay (negsuc 0) _ ((bx, by, ly, ry, left_point, rs), pl, pr))
        ]
        | inr d ↦ rw (e, d) (place-InPlay g x (pos n) p (to_u16-le x e d) fits)
      ]
    ]

tick-InPlay : (g : Game) → InPlay g → InPlay (tick g)
unfolding tick finished
tick-InPlay g ((bx, by, ly, ry, ls, rs), pl, pr) =
    let (n, e, l) = bounce_in (pos g.state.ball_y +ℤ g.ball_dy) g.ball_dy in
    elim (Bool-cases (finished g.state)) [
      | inl f ↦ rw f ((bx, by, pl, pr, ls, rs), pl, pr)
      | inr f ↦ rw (f, e) (land-InPlay _ _ n ((bx, by, pl, pr, ls, rs), pl, pr) f l)
    ]

kept_16 : (v : ℕ) → v ≤ 1000 → clamp_16 (v / 256 % 256 * 256 + v % 256) 1000 ≡ v
unfolding clamp_16
kept_16 v l = ground (arith, l)

flag : (b : Bool) → ((if b then 1 else 0) == 1) ≡ b
flag true = ground arith
flag false = ground arith

-- The other side reads a state that the court has room for as it was sent.
pub decode_state-encode_state : (s : State) → OnCourt s → decode_state (encode_state s) ≡ some s
unfolding decode_state encode_state
decode_state-encode_state s (x, y, l, r, ls, rs) i = some (record {
  ball_x = kept_16 s.ball_x x i;
  ball_y = kept_16 s.ball_y y i;
  left_y = kept_16 s.left_y l i;
  right_y = kept_16 s.right_y r i;
  left_score = s.left_score;
  right_score = s.right_score;
  serving = flag s.serving i;
})

decode_paddle-le : (payload : Bytes) (y : ℕ) → decode_paddle payload ≡ some y → y ≤ field_height
unfolding decode_paddle clamp_16
decode_paddle-le payload y e = ground (arith, e)

-- What the other side should see: the state of the game after each tick, in order.
unfoldable pub states_at_ticks : List Event → Game → List State
states_at_ticks [] g = []
states_at_ticks (ticked ∷ events) g = (tick g).state ∷ states_at_ticks events (tick g)
states_at_ticks (key_up ∷ events) g = states_at_ticks events (step key_up g).0
states_at_ticks (key_down ∷ events) g = states_at_ticks events (step key_down g).0
states_at_ticks (key_reset ∷ events) g = states_at_ticks events (step key_reset g).0
states_at_ticks (received payload ∷ events) g = states_at_ticks events (step (received payload) g).0

step-InPlay : (event : Event) (g : Game) → InPlay g → InPlay (step event g).0
unfolding step
step-InPlay key_up g (court, pl, pr) = (court, moved-le g.paddle_left _, pr)
step-InPlay key_down g (court, pl, pr) = (court, moved-le g.paddle_left _, pr)
step-InPlay key_reset g p = reset-InPlay g p
step-InPlay ticked g p = tick-InPlay g p
step-InPlay (received payload) g (court, pl, pr) = elim (Option-cases (decode_paddle payload)) [
  | inl n ↦ elim (Bool-cases (is_reset payload)) [
    | inl e ↦ rw (n, e) (reset-InPlay g (court, pl, pr))
    | inr e ↦ rw (n, e) (court, pl, pr)
  ]
  | inr (y, s) ↦
      let bound = decode_paddle-le payload y s in
      elim (Bool-cases (is_reset payload)) [
        | inl e ↦ rw (s, e) (reset-InPlay (record g { paddle_right = y }) (court, pl, bound))
        | inr e ↦ rw (s, e) (court, pl, bound)
      ]
]

-- The payloads are read as these states, all of them on the court.
abbrev Shows : List Bytes → List State → Type 0
Shows sent states = (map decode_state sent ≡ map some states) × All OnCourt states

host-Shows :
    (events : List Event) (g : Game) → InPlay g → Shows (host events g).1 (states_at_ticks events g)
unfolding host step states_at_ticks
host-Shows [] g p = (refl, tt)
host-Shows (key_up ∷ events) g p = host-Shows events (step key_up g).0 (step-InPlay key_up g p)
host-Shows (key_down ∷ events) g p =
    host-Shows events (step key_down g).0 (step-InPlay key_down g p)
host-Shows (key_reset ∷ events) g p =
    host-Shows events (step key_reset g).0 (step-InPlay key_reset g p)
host-Shows (received payload ∷ events) g p =
    host-Shows events (step (received payload) g).0 (step-InPlay (received payload) g p)
host-Shows (ticked ∷ events) g p =
    let now = tick-InPlay g p in
    let (later, courts) = host-Shows events (tick g) now in
    (
      rw (decode_state-encode_state (tick g).state now.0) (ap (◌∷◌ (some (tick g).state)) later),
      (now.0, courts),
    )

-- Whatever keys are pressed and whatever comes in from the network: the other side, reading what
-- the host of a new game sends, gets the state of the game after each tick and nothing else, in
-- order and field by field; and in each of them the ball and the paddles are inside the court and
-- neither score is above eleven.
pub host-new_game :
    (events : List Event)
    → (map decode_state (host events new_game).1 ≡ map some (states_at_ticks events new_game))
      × All OnCourt (states_at_ticks events new_game)
unfolding new_game serve
host-new_game events = host-Shows events new_game (
  (omega arith, omega arith, omega arith, omega arith, omega arith, omega arith),
  omega arith,
  omega arith,
)

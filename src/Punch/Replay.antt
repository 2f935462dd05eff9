-- ===== src/Punch/Replay.antt =====
-- pkg/punch/replay.go: the sliding window of nonces already seen.
pub mod Refines
pub mod Once
mod Tests
use vapora.Base.{
  ℕ, ◌+◌, ◌-◌, ◌*◌, ◌%◌, ◌^◌, Bool, true, false, not, List, [], ◌∷◌, ltb, leb, ◌==◌, if◌then◌else◌,
}
use Prim.Native.Nat.{bit_and, bit_or}

abbrev pub replay_window_size : ℕ
replay_window_size = 64

-- Two uint64 fields; bit k of the bitmap stands for the nonce `highest - k`.
pub record ReplayWindow : Type 0 where
  pub highest : ℕ
  pub bitmap : ℕ

-- `case counter > w.highest`.
advance : ReplayWindow → ℕ → ReplayWindow
advance w counter =
    let shift = counter - w.highest in
    let moved = if leb replay_window_size shift then 0 else w.bitmap * 2 ^ shift % 2 ^ 64 in
    record { highest = counter; bitmap = bit_or moved 1 }

-- The window is mutated in place; here the new one is returned with the verdict.
unfoldable pub accept : ReplayWindow → ℕ → ReplayWindow × Bool
unfolding advance
accept w counter =
    let mask = 2 ^ (w.highest - counter) in
    if counter == 0
    then (w, false)
    else if ltb w.highest counter
    then (advance w counter, true)
    else if leb replay_window_size (w.highest - counter)
    then (w, false)
    else if not (bit_and w.bitmap mask == 0)
    then (w, false)
    else (record w { bitmap = bit_or w.bitmap mask }, true)

-- `&replayWindow{}`.
abbrev pub empty_window : ReplayWindow
empty_window = record { highest = 0; bitmap = 0 }

-- The verdicts on a sequence of nonces, in order of arrival.
unfoldable pub accept_all : ReplayWindow → List ℕ → List Bool
unfolding accept
accept_all w [] = []
accept_all w (c ∷ cs) = (accept w c).1 ∷ accept_all (accept w c).0 cs

-- ===== src/Chat/Tests.antt =====
-- Lines for pkg/chat.
use vapora.Base.{
  ℕ, zero, suc, ◌+◌, ◌*◌, ◌≡◌, refl, ap, false, List, [], ◌∷◌, ◌++◌, replicate, map, arith, ◌∙◌,
  All, length-replicate,
}
use vapora.Text.{Piece, rune, safe, safe_limit, safe_from, sanitise}
use vapora.Text.Sanitised.{is_control, safe_limit_keeps}
use vapora.Chat.{say, receive, on_line, unheard, size, width}
use vapora.Chat.Group.{receive_from, receive_from-Perm}
use vapora.Names.Given.{mem}
use mathlib.Core.List.{Permᴰ}
use vapora.Base.{bytes_eq, Bytes, Option, none}
use vapora.Chat.Lines.{receive-say, receive-say_cut}

abbrev hello : List Piece
hello = rune b'h' ∷ rune 27 ∷ rune b'i' ∷ []

receive-say_example : receive (say hello) ≡ on_line (map rune (safe hello))
receive-say_example =
    receive-say hello (unfold safe_limit safe_from sanitise size width in omega arith)

-- 700 of one Chinese character, of three bytes each.
abbrev world : ℕ
world = 0x4E16

clean : (n : ℕ) → All (λ c. is_control c ≡ false) (replicate n world)
clean zero = tt
clean (suc n) = (refl, clean n)

split : (n m : ℕ) → replicate (n + suc m) world ≡ replicate n world ++ world ∷ replicate m world
split zero m = let e : 0 + suc m ≡ suc m = omega arith in rw e refl
split (suc n) m =
    let e : suc n + suc m ≡ suc (n + suc m) = omega arith in rw e (ap (◌∷◌ world) (split n m))

sizes : (n : ℕ) → size (map rune (replicate n world)) ≡ 3 * n
unfolding size width
sizes zero = refl
sizes (suc n) = omega (arith, sizes n)

said : safe (map rune (replicate 700 world)) ≡ replicate 682 world ++ world ∷ replicate 17 world
said =
    safe_limit_keeps (replicate 700 world) 1024 (clean 700)
      (omega (arith, length-replicate 700 world))
    ∙ split 682 17

receive-say_cut_example : receive (say (map rune (replicate 700 world))) ≡ unheard
receive-say_cut_example =
    receive-say_cut (map rune (replicate 700 world)) (replicate 682 world) (replicate 17 world)
      world said (omega (arith, sizes 682)) (unfold width in omega (arith, sizes 682))

abbrev a_key : Bytes
a_key = replicate 32 1

abbrev b_key : Bytes
b_key = replicate 32 2

abbrev no_material : Bytes → Option Bytes
no_material key = none

-- What one says, as the other and it itself would hear it.
receive_from-Perm_example :
    receive_from no_material a_key (b_key ∷ []) b_key (say hello)
    ≡ receive_from no_material b_key (a_key ∷ []) b_key (say hello)
receive_from-Perm_example =
    receive_from-Perm no_material a_key b_key (b_key ∷ []) (a_key ∷ []) b_key (say hello)
      (Permᴰ.swap refl refl) (unfold mem bytes_eq in refl)

-- ===== src/Punch/Frame/Padding.antt =====
-- pkg/punch/padding.go: filler follows what it hides, and its length is bounded.
use vapora.Base.{◌%◌, ◌≡◌, sym, inl, inr, [], ◌++◌, append-nil, Bytes, Option-cases}
use vapora.Base.Wire.{u16_at}
use vapora.Punch.Frame.{Rand, padded}

-- `padded` keeps what it is given and adds some filler behind it.
pub padded-append :
    (rand : Rand) (prefix : Bytes) → (f : Bytes) × (padded rand prefix ≡ prefix ++ f)
unfolding padded
padded-append rand prefix = elim (Option-cases rand.two) [
  | inl e ↦ ([], rw (e, padded) (sym (append-nil prefix)))
  | inr (drawn, e) ↦ elim (Option-cases (rand.fill (u16_at drawn 0 % 256))) [
    | inl f ↦ ([], rw (e, padded) (rw f (sym (append-nil prefix))))
    | inr (filler, f) ↦ (filler, rw (e, padded) (rw f))
  ]
]

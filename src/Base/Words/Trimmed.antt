-- ===== src/Base/Words/Trimmed.antt =====
-- White space around a text without any is taken off.
use vapora.Base.{◌≡◌, refl, true, false, [], ◌∷◌, ◌++◌, append-nil, All, Bytes}
use vapora.Base.Words.{is_space, trim_left, trim_right, trim_space}

abbrev pub AllSpace : Bytes → Type 0
AllSpace = All (λ c. is_space c ≡ true)

abbrev pub Dense : Bytes → Type 0
Dense = All (λ c. is_space c ≡ false)

trim_left_lem : (before s : Bytes) → AllSpace before → trim_left (before ++ s) ≡ trim_left s
unfolding trim_left
trim_left_lem [] s h = refl
trim_left_lem (c ∷ cs) s h = rw h.0 (trim_left_lem cs s h.1)

trim_right-spaces : (after : Bytes) → AllSpace after → trim_right after ≡ []
unfolding trim_right
trim_right-spaces [] h = refl
trim_right-spaces (c ∷ cs) h = rw (trim_right-spaces cs h.1, trim_right) (rw h.0 refl)

trim_right_lem : (t after : Bytes) → Dense t → AllSpace after → trim_right (t ++ after) ≡ t
unfolding trim_right
trim_right_lem [] after d h = trim_right-spaces after h
trim_right_lem (c ∷ []) after d h = rw (trim_right-spaces after h, trim_right) (rw d.0 refl)
trim_right_lem (c ∷ c' ∷ cs) after d h = rw (trim_right_lem (c' ∷ cs) after d.1 h, trim_right) refl

trim_left-Dense :
    (t after : Bytes) → Dense t → AllSpace after → trim_right (trim_left (t ++ after)) ≡ t
unfolding trim_left
trim_left-Dense [] after d h =
    rw⁻¹ (append-nil after) (rw (trim_left_lem after [] h) (unfold trim_right in refl))
trim_left-Dense (c ∷ cs) after d h = rw d.0 (trim_right_lem (c ∷ cs) after d h)

pub trim_space_lem :
    (before t after : Bytes)
    → AllSpace before
    → Dense t
    → AllSpace after
    → trim_space (before ++ (t ++ after)) ≡ t
unfolding trim_space
trim_space_lem before t after hb d ha =
    rw (trim_left_lem before (t ++ after) hb) (trim_left-Dense t after d ha)

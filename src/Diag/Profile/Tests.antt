-- ===== src/Diag/Profile/Tests.antt =====
-- Concrete profiles for pkg/diag/profile.go. The check is one that depends on the body.
use vapora.Base.{
  ◌≡◌, refl, some, [], ◌∷◌, ◌++◌, length, ltb, if◌then◌else◌, Bytes, Bool-cases, inl, inr,
}
use vapora.Stun.Behavior.{endpoint_independent, address_dependent}
use vapora.Stun.Filtering.{filters_address, filters_address_and_port}
use vapora.Diag.Profile.{Profile, pair, parse_profile, code, mapping_code, filtering_code}
use vapora.Diag.Profile.Reach.{Agrees, pair-Agrees}
use vapora.Diag.Profile.Codes.{AllWord, parse_profile-code}

abbrev check : Bytes → Bytes
check body = if ltb (length body) 9 then b'3' ∷ b'F' ∷ [] else b'A' ∷ b'0' ∷ []

check-AllWord : (b : Bytes) → AllWord (check b)
check-AllWord b = elim (Bool-cases (ltb (length b) 9)) [
  | inl h ↦ rw h (refl, (refl, tt))
  | inr h ↦ rw h (refl, (refl, tt))
]

abbrev symmetric : Profile
symmetric = record { mapping = address_dependent; filtering = filters_address_and_port }

abbrev restricted : Profile
restricted = record { mapping = endpoint_independent; filtering = filters_address }

-- "sym-PORT" with spaces around it.
parse_profile-code_example :
    parse_profile check (
      b' ' ∷ []
      ++ ((b's' ∷ b'y' ∷ b'm' ∷ b'-' ∷ b'P' ∷ b'O' ∷ b'R' ∷ b'T' ∷ b'-' ∷ b'3' ∷ b'f' ∷ [])
          ++ 10 ∷ []))
    ≡ some symmetric
parse_profile-code_example =
    parse_profile-code check check-AllWord symmetric (b' ' ∷ [])
      (b's' ∷ b'y' ∷ b'm' ∷ b'-' ∷ b'P' ∷ b'O' ∷ b'R' ∷ b'T' ∷ b'-' ∷ b'3' ∷ b'f' ∷ []) (10 ∷ [])
      (refl, tt) (unfold code mapping_code filtering_code in refl) (refl, tt)

pair-Agrees_example : Agrees symmetric restricted (pair symmetric restricted)
pair-Agrees_example = pair-Agrees symmetric restricted (cc, cc) (cc, cc)

-- ===== src/Auth/Tests.antt =====
-- The rotation at a concrete input.
use sievetube.Prelude.{
  nat_eq, ℕ, ◌≡◌, ◌↔◌, refl, Text, ℕ_discrete, [], ◌∷◌, Result, ok, err, if◌then◌else◌,
}
use sievetube.Config.{text}
use sievetube.Bytes.{Bytes}
use sievetube.Auth.{
  same_bytes, placeholders, one_byte, validate_jwt_secret, verify_jwt, verify_from, verify_jwt_any,
  keep_first,
}
use sievetube.Auth.Rotation.{Accepts, verify_jwt_any-ok_iff}

abbrev new_secret : Bytes
new_secret = text "0123456789abcdef0123456789abcdef"

abbrev old_secret : Bytes
old_secret = text "fedcba9876543210fedcba9876543210"

-- A token is the secret that it is signed with.
abbrev decode : Text → Bytes → Result ℕ ℕ
decode token secret = if same_bytes token secret then ok 7 else err 1

retained : verify_jwt_any decode old_secret (new_secret ∷ old_secret ∷ []) ≡ ok 7
unfolding same_bytes placeholders one_byte validate_jwt_secret verify_jwt verify_from verify_jwt_any
    keep_first ℕ_discrete
retained = refl

verify_jwt_any-ok_iff_example :
    (verify_jwt_any decode old_secret (new_secret ∷ old_secret ∷ []) ≡ ok 7)
    ↔ Accepts decode old_secret (new_secret ∷ old_secret ∷ []) 7
verify_jwt_any-ok_iff_example =
    verify_jwt_any-ok_iff decode old_secret (new_secret ∷ old_secret ∷ []) 7

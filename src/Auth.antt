-- ===== src/Auth.antt =====
-- sievetube-common/src/auth.rs: the secrets of tokens and the rotation among them. `decode` stands for
-- `jsonwebtoken::decode` with the validation that `verify_jwt` sets up, `Claims` for what it gives, and
-- `E` for its errors.
pub mod Rotation
mod Tests
use sievetube.Prelude.{
  nat_eq, ℕ, Text, ◌==◌, ltb, ◌||◌, Bool, true, false, Option, none, some, List, [], ◌∷◌, Result,
  ok, err, if◌then◌else◌, length, any, all, Eq, ℕ_discrete,
}
use sievetube.Config.{text}
use sievetube.Bytes.{Bytes}

abbrev pub min_jwt_secret_len : ℕ
min_jwt_secret_len = 32

pub data AuthError (E : Type 0) : Type 0 where
  short_secret placeholder_secret no_secrets : AuthError E
  bad_token : E → AuthError E

unfoldable pub same_bytes : Bytes → Bytes → Bool
same_bytes [] [] = true
same_bytes [] (c ∷ t) = false
same_bytes (b ∷ s) [] = false
same_bytes (b ∷ s) (c ∷ t) = let rest = same_bytes s t in if b == c then rest else false

-- Texts of ASCII characters, as their bytes.
unfoldable pub placeholders : List Bytes
placeholders =
    text "change-me-to-a-long-random-secret"
    ∷ text "replace-with-at-least-32-random-bytes"
    ∷ text "this-is-not-a-secure-production-secret"
    ∷ []

-- `secret.iter().all(|byte| *byte == secret[0])`
unfoldable pub one_byte : Bytes → Bool
one_byte [] = true
one_byte (b ∷ s) = all (λ c. c == b) (b ∷ s)

module _ {E : Type 0} where
  unfoldable pub validate_jwt_secret : Bytes → Result (AuthError E) (Unit {0})
  validate_jwt_secret secret =
      if ltb (length secret) min_jwt_secret_len
      then err short_secret
      else if any (λ p. same_bytes p secret) placeholders || one_byte secret
      then err placeholder_secret
      else ok tt

-- The error that is kept: the first one.
unfoldable pub keep_first : {E : Type 0} → Option (AuthError E) → AuthError E → Option (AuthError E)
keep_first none e = some e
keep_first (some first) e = some first

module _ {Claims E : Type 0} (decode : Text → Bytes → Result E Claims) where
  unfoldable pub verify_jwt : Text → Bytes → Result (AuthError E) Claims
  verify_jwt token secret = elim (validate_jwt_secret {E = E} secret) [
    | err e ↦ err e
    | ok done ↦ elim (decode token secret) [ ok claims ↦ ok claims | err e ↦ err (bad_token e) ]
  ]

  -- The loop of `verify_jwt_any` and what follows it.
  unfoldable pub verify_from :
      Option (AuthError E) → Text → List Bytes → Result (AuthError E) Claims
  verify_from first_error token [] = elim first_error [ none ↦ err no_secrets | some e ↦ err e ]
  verify_from first_error token (secret ∷ secrets) = elim (verify_jwt token secret) [
    | ok claims ↦ ok claims
    | err e ↦ verify_from (keep_first first_error e) token secrets
  ]

  unfoldable pub verify_jwt_any : Text → List Bytes → Result (AuthError E) Claims
  verify_jwt_any token secrets = verify_from none token secrets

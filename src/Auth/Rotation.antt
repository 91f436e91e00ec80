-- ===== src/Auth/Rotation.antt =====
-- Which secrets a token is accepted under.
use sievetube.Prelude.{
  nat_eq, ◌≤◌, ◌≡◌, ◌↔◌, refl, Text, false, Option, none, some, List, [], ◌∷◌, ◌++◌, Result, ok,
  length, any, arith, Result-cases, inl, inr, is_ok,
}
use sievetube.Bytes.{Bytes}
use sievetube.Auth.{
  AuthError, same_bytes, placeholders, one_byte, validate_jwt_secret, verify_jwt, verify_from,
  verify_jwt_any, keep_first,
}

-- A secret that may be used: long enough, no known placeholder, and not one byte repeated.
pub record IsUsable (secret : Bytes) : Type 0 where
  pub long : 32 ≤ length secret
  pub unknown : any (λ p. same_bytes p secret) placeholders ≡ false
  pub varied : one_byte secret ≡ false

usable_of :
    (E : Type 0) (secret : Bytes) → validate_jwt_secret {E = E} secret ≡ ok tt → IsUsable secret
unfolding validate_jwt_secret
usable_of E secret h = record { long = ground arith; unknown = ground arith; varied = ground arith }

usable-ok :
    (E : Type 0) (secret : Bytes) → IsUsable secret → validate_jwt_secret {E = E} secret ≡ ok tt
unfolding validate_jwt_secret
usable-ok E secret u = ground (arith, u.long, u.unknown, u.varied)

module _ {Claims E : Type 0} (decode : Text → Bytes → Result E Claims) where
  -- The first secret under which the token is accepted.
  pub record Accepts (token : Text) (secrets : List Bytes) (claims : Claims) : Type 0 where
    pub newer : List Bytes
    pub secret : Bytes
    pub older : List Bytes
    pub split : secrets ≡ newer ++ secret ∷ older
    pub refused : any (λ s. is_ok (verify_jwt decode token s)) newer ≡ false
    pub usable : IsUsable secret
    pub decoded : decode token secret ≡ ok claims

  verified :
      (token : Text) (secret : Bytes) (claims : Claims)
      → verify_jwt decode token secret ≡ ok claims
      → IsUsable secret × (decode token secret ≡ ok claims)
  unfolding verify_jwt
  verified token secret claims h = elim (Result-cases (validate_jwt_secret {E = E} secret)) [
    | inr (e, weak) ↦ ground arith
    | inl (done, good) ↦ (usable_of E secret good, ground arith)
  ]

  accepted :
      (first_error : Option (AuthError E)) (token : Text) (secrets : List Bytes) (claims : Claims)
      → verify_from decode first_error token secrets ≡ ok claims
      → Accepts token secrets claims
  unfolding verify_from
  accepted none token [] claims h = ground arith
  accepted (some e) token [] claims h = ground arith
  accepted first_error token (s ∷ ss) claims h = elim (Result-cases (verify_jwt decode token s)) [
    | inl (c, good) ↦
        let same : verify_jwt decode token s ≡ ok claims = ground arith in
        let (usable, decoded) = verified token s claims same in
        record {
          newer = [];
          secret = s;
          older = ss;
          split = refl;
          refused = refl;
          usable = usable;
          decoded = decoded;
        }
    | inr (e, bad) ↦
        let a = accepted (keep_first first_error e) token ss claims (ground arith) in
        record {
          newer = s ∷ a.newer;
          secret = a.secret;
          older = a.older;
          split = ground (arith, a.split);
          refused = ground (arith, a.refused);
          usable = a.usable;
          decoded = a.decoded;
        }
  ]

  accepting :
      (first_error : Option (AuthError E)) (token : Text) (newer : List Bytes) (secret : Bytes)
      (older : List Bytes) (claims : Claims)
      → any (λ s. is_ok (verify_jwt decode token s)) newer ≡ false
      → verify_jwt decode token secret ≡ ok claims
      → verify_from decode first_error token (newer ++ secret ∷ older) ≡ ok claims
  unfolding verify_from
  accepting first_error token [] secret older claims refused good = ground arith
  accepting first_error token (s ∷ newer) secret older claims refused good =
      elim (Result-cases (verify_jwt decode token s)) [
        | inl (c, fine) ↦ ground arith
        | inr (e, bad) ↦
            ground (arith, accepting (keep_first first_error e) token newer secret older claims)
      ]

  verify-ok :
      (token : Text) (secret : Bytes) (claims : Claims)
      → IsUsable secret
      → decode token secret ≡ ok claims
      → verify_jwt decode token secret ≡ ok claims
  unfolding verify_jwt
  verify-ok token secret claims u d = ground (arith, usable-ok E secret u)

  -- A token is accepted with its claims exactly if one of the secrets decodes it to these, which
  -- has 32 bytes at least, is no known placeholder and not one byte repeated, and none before it
  -- verifies it.
  pub verify_jwt_any-ok_iff :
      (token : Text) (secrets : List Bytes) (claims : Claims)
      → (verify_jwt_any decode token secrets ≡ ok claims) ↔ Accepts token secrets claims
  unfolding verify_jwt_any
  verify_jwt_any-ok_iff token secrets claims = (
    accepted none token secrets claims,
    λ a. rw a.split (
        accepting none token a.newer a.secret a.older claims a.refused
          (verify-ok token a.secret claims a.usable a.decoded)),
  )

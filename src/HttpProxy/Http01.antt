-- ===== src/HttpProxy/Http01.antt =====
-- sievetube-edge/src/acme.rs and sievetube-edge/src/http_proxy.rs: the HTTP-01 responses that the Edge
-- serves. `in_flight` is the number of permits that are left; the permit of a response is held until its
-- body is sent.
use sievetube.Config.{text}
use sievetube.Prelude.{
  text_eq, nat_eq, ℕ, ◌-◌, Text, ◌==◌, ◌&&◌, ◌||◌, leb, not, any, all, Bool, Option, none, some,
  List, [], ◌∷◌, if◌then◌else◌, is_empty, contains,
}
use sievetube.Strings.{strip_prefix, len, is_ascii_alphanumeric}

pub record Http01Challenges : Type 0 where
  pub domains : List Text
  pub responses : List ((Text × Text) × Text)
  pub in_flight : ℕ

abbrev pub challenge_path_prefix : Text
challenge_path_prefix = text "/.well-known/acme-challenge/"

abbrev pub max_token_len : ℕ
max_token_len = 256

unfoldable pub is_managed : Http01Challenges → Text → Bool
is_managed c hostname = contains c.domains hostname

unfoldable pub serves : Http01Challenges → Text → Bool
serves c hostname = is_managed c hostname || any (λ r. r.0.0 == hostname) c.responses

unfoldable pub token_byte : ℕ → Bool
token_byte b = is_ascii_alphanumeric b || b == b'-' || b == b'_'

unfoldable pub token_from_path : Text → Option Text
token_from_path path = elim (strip_prefix challenge_path_prefix path) [
  | none ↦ none
  | some token ↦
      if not (is_empty token) && leb (len token) max_token_len && all token_byte token
      then some token
      else none
]

unfoldable pub find_response : Text → Text → List ((Text × Text) × Text) → Option Text
find_response hostname token [] = none
find_response hostname token (((h, t), answer) ∷ rs) =
    if h == hostname && t == token then some answer else find_response hostname token rs

unfoldable pub without_response :
    Text → Text → List ((Text × Text) × Text) → List ((Text × Text) × Text)
without_response hostname token [] = []
without_response hostname token (((h, t), answer) ∷ rs) =
    let rest = without_response hostname token rs in
    if h == hostname && t == token then rest else ((h, t), answer) ∷ rest

unfoldable pub insert_response : Text → Text → Text → Http01Challenges → Http01Challenges
insert_response hostname token answer c = record c {
  responses = ((hostname, token), answer) ∷ without_response hostname token c.responses;
}

unfoldable pub remove_response : Text → Text → Http01Challenges → Http01Challenges
remove_response hostname token c = record c {
  responses = without_response hostname token c.responses;
}

unfoldable pub lookup_response : Http01Challenges → Text → Text → Option Text
lookup_response c hostname token = find_response hostname token c.responses

-- The answers of `challenge_response`.
pub data ChallengeAnswer : Type 0 where
  busy wrong_method unknown_token : ChallengeAnswer
  key_authorization : Text → ChallengeAnswer

-- `reads` is that the method is GET or HEAD. The permit is given back unless the answer has a body that
-- holds it.
unfoldable pub challenge_response :
    Http01Challenges → Text → Bool → Text → Http01Challenges × ChallengeAnswer
challenge_response c hostname reads path =
    if c.in_flight == 0
    then (c, busy)
    else if not reads
    then (c, wrong_method)
    else elim (token_from_path path) [
      | none ↦ (c, unknown_token)
      | some token ↦ elim (lookup_response c hostname token) [
        | none ↦ (c, unknown_token)
        | some answer ↦ (record c { in_flight = c.in_flight - 1 }, key_authorization answer)
      ]
    ]

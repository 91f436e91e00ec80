-- ===== src/Wire/Tests.antt =====
-- Frames and datagrams over a small codec: a text is its own bytes, and only responses have a JSON.
use sievetube.Prelude.{
  ℕ, zero, suc, ◌≡◌, refl, true, false, Option, none, some, [], ◌∷◌, ◌++◌, arith, ok, ℕ_discrete,
}
use sievetube.Bytes.{Bytes, be_bytes, be_value, read_exact}
use sievetube.Config.{text}
use sievetube.Wire.{
  AuthResponse, Message, auth_response, Codec, tag_and_payload, write_message, parse_payload,
  read_message, DatagramHeader, encode, decode,
}
use sievetube.Wire.Frames.{read_message-write_message}
use sievetube.Wire.Datagram.{decode-encode}

json : AuthResponse → Bytes
json r = elim r.accepted [
  | true ↦ elim r.reason [ none ↦ 1 ∷ 0 ∷ [] | some t ↦ 1 ∷ 1 ∷ t ]
  | false ↦ elim r.reason [ none ↦ 0 ∷ 0 ∷ [] | some t ↦ 0 ∷ 1 ∷ t ]
]

from_json : Bytes → Option AuthResponse
from_json (suc zero ∷ zero ∷ _) = some (record { accepted = true; reason = none })
from_json (suc zero ∷ suc zero ∷ t) = some (record { accepted = true; reason = some t })
from_json (zero ∷ zero ∷ _) = some (record { accepted = false; reason = none })
from_json (zero ∷ suc zero ∷ t) = some (record { accepted = false; reason = some t })
from_json _ = none

abbrev codec : Codec
codec = record {
  SocketAddr = ℕ;
  utf8 = λ s. s;
  from_utf8 = λ b. some b;
  from_utf8-utf8 = λ s. refl;
  json_auth_request = λ m. [];
  json_auth_response = json;
  json_connect_request = λ m. [];
  read_auth_request = λ b. none;
  read_auth_response = from_json;
  read_connect_request = λ b. none;
}

program : Unit {0}
unfolding json from_json be_bytes be_value read_exact tag_and_payload write_message parse_payload
    read_message encode decode ℕ_discrete
program = tt

abbrev response : Message ℕ
response = auth_response (record { accepted = false; reason = some (text "no") })

abbrev frame : Bytes
frame = 0 ∷ 0 ∷ 0 ∷ 5 ∷ 2 ∷ 0 ∷ 1 ∷ b'n' ∷ b'o' ∷ []

written : write_message codec response ≡ ok frame
unfolding program
written = refl

read_message-write_message_example : read_message codec (frame ++ 9 ∷ []) ≡ ok (response, 9 ∷ [])
unfolding program
read_message-write_message_example =
    read_message-write_message codec response frame (9 ∷ []) refl written

read_back : read_message codec (frame ++ 9 ∷ []) ≡ ok (response, 9 ∷ [])
unfolding program
read_back = read_message-write_message codec response frame (9 ∷ []) refl written

abbrev header : DatagramHeader codec
header = record { request_id = 258; hostname = text "a.test" }

encoded :
    encode codec header (7 ∷ []) ≡ 0 ∷ 0 ∷ 0 ∷ 0 ∷ 0 ∷ 0 ∷ 1 ∷ 2 ∷ 0 ∷ 6 ∷ (text "a.test" ++ 7 ∷ [])
unfolding program
encoded = refl

decode-encode_example : decode codec (encode codec header (7 ∷ [])) ≡ some (header, 7 ∷ [])
decode-encode_example = decode-encode codec header (7 ∷ []) (omega arith) (omega arith)

-- ===== src/MeshWire/Tests.antt =====
-- A request and a datagram of the mesh, over a codec in which a text is its own bytes.
use sievetube.Prelude.{ℕ, ◌≡◌, ◌↔◌, refl, none, some, [], ◌∷◌, arith, ok}
use sievetube.Bytes.{Bytes, be_bytes}
use sievetube.Config.{Protocol, text}
use sievetube.Wire.{Codec}
use sievetube.MeshWire.{
  ForwardRequest, validate, MeshDatagramHeader, reply, kind_byte, check_fields, put_fields, encode,
  decode,
}
use sievetube.MeshWire.Request.{IsValid, validate-IsValid}
use sievetube.MeshWire.Datagram.{decode-encode_peer}

abbrev codec : Codec
codec = record {
  SocketAddr = ℕ;
  utf8 = λ s. s;
  from_utf8 = λ b. some b;
  from_utf8-utf8 = λ s. refl;
  json_auth_request = λ m. [];
  json_auth_response = λ m. [];
  json_connect_request = λ m. [];
  read_auth_request = λ b. none;
  read_auth_response = λ b. none;
  read_connect_request = λ b. none;
}

abbrev forward : ForwardRequest ℕ
forward = record {
  version = 1;
  ingress_edge_id = text "edge-a";
  tenant_id = text "t1";
  hostname = text "a.test";
  protocol = Protocol.http;
  client_addr = 1;
  request_id = 7;
  hops_remaining = 1;
  connection_generation = 3;
  response_budget_ms = none;
}

validate-IsValid_example : (validate forward ≡ ok tt) ↔ IsValid ℕ forward
validate-IsValid_example = validate-IsValid forward

abbrev header : MeshDatagramHeader
header = record {
  kind = reply;
  request_id = 258;
  connection_generation = 3;
  ingress_edge_id = text "ea";
  tenant_id = text "t";
  hostname = text "a.b";
}

abbrev packet : Bytes
packet =
    1 ∷ 2 ∷ 0 ∷ 0 ∷ 0 ∷ 0 ∷ 0 ∷ 0 ∷ 1 ∷ 2 ∷ 0 ∷ 0 ∷ 0 ∷ 0 ∷ 0 ∷ 0 ∷ 0 ∷ 3 ∷ 0 ∷ 2 ∷ b'e' ∷ b'a' ∷ 0
    ∷ 1 ∷ b't' ∷ 0 ∷ 3 ∷ b'a' ∷ b'.' ∷ b'b' ∷ 9 ∷ []

encoded : encode codec header (9 ∷ []) ≡ ok packet
unfolding encode be_bytes put_fields check_fields kind_byte
encoded = refl

decode-encode_peer_example : decode codec packet ≡ ok (header, 9 ∷ [])
decode-encode_peer_example =
    decode-encode_peer codec header (9 ∷ []) packet encoded (omega arith) (omega arith)

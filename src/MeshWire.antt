-- ===== src/MeshWire.antt =====
-- sievetube-common/src/mesh_protocol.rs: forwarding requests between Edges, their frames, and the header
-- of forwarded datagrams.
pub mod Request
pub mod Datagram
mod Tests
use sievetube.Prelude.{
  nat_eq, text_eq, ℕ, suc, ◌+◌, ◌-◌, ◌*◌, ◌%◌, ◌^◌, ◌≡◌, Text, ◌==◌, ltb, leb, ◌&&◌, ◌||◌, not,
  Bool, true, false, Option, none, some, List, [], ◌∷◌, ◌++◌, length, take, drop, is_empty, all,
  if◌then◌else◌, Result, ok, err, ◌>>=◌, ◌>>◌, fail_if, ok_or,
}
use sievetube.Bytes.{Bytes, be_bytes, be_value, read_exact}
use sievetube.Strings.{len}
use sievetube.Config.{Protocol}
use sievetube.Hostname.{normalize_hostname}
use sievetube.Wire.{Codec}

abbrev pub mesh_version : ℕ
mesh_version = 1

abbrev pub max_mesh_frame : ℕ
max_mesh_frame = 8 * 1024

abbrev pub max_id_len : ℕ
max_id_len = 256

pub record ForwardRequest (A : Type 0) : Type 0 where
  pub version : ℕ
  pub ingress_edge_id : Text
  pub tenant_id : Text
  pub hostname : Text
  pub protocol : Protocol
  pub client_addr : A
  pub request_id : ℕ
  pub hops_remaining : ℕ
  pub connection_generation : ℕ
  pub response_budget_ms : Option ℕ

pub data RejectReason : Type 0 where
  unsupported_version hop_limit not_authorized no_route overloaded invalid : RejectReason

unfoldable pub retryable : RejectReason → Bool
retryable no_route = true
retryable overloaded = true
retryable _ = false

pub record ForwardResponse : Type 0 where
  pub accepted : Bool
  pub reject : Option RejectReason

unfoldable pub accept : ForwardResponse
accept = record { accepted = true; reject = none }

unfoldable pub reject_with : RejectReason → ForwardResponse
reject_with reason = record { accepted = false; reject = some reason }

-- `is_ok_and(|h| h == hostname)`
unfoldable pub hostname_ok : Text → Bool
hostname_ok hostname = elim (normalize_hostname hostname) [ ok h ↦ h == hostname | err e ↦ false ]

unfoldable pub id_ok : Text → Bool
id_ok id = not (is_empty id) && leb (len id) max_id_len

unfoldable pub validate : {A : Type 0} → ForwardRequest A → Result RejectReason (Unit {0})
validate r = do
  fail_if (not (r.version == mesh_version)) unsupported_version
  fail_if (r.hops_remaining == 0) hop_limit
  fail_if
      (not (all id_ok (r.ingress_edge_id ∷ r.tenant_id ∷ r.hostname ∷ []))
        || not (hostname_ok r.hostname))
      invalid

pub data MeshError : Type 0 where
  not_serializable frame_too_large invalid_length unexpected_tag bad_json end_of_stream : MeshError
  field_too_long truncated_header bad_version unknown_kind truncated_field : MeshError
  field_length field_encoding : MeshError

-- A frame with the JSON of a value; `json` is `serde_json::to_vec`.
unfoldable pub write_frame {ℓ} : {T : Type ℓ} → (T → Option Bytes) → ℕ → T → Result MeshError Bytes
write_frame json tag message = do
  payload ← ok_or (json message) not_serializable
  fail_if (ltb max_mesh_frame (length payload + 1)) frame_too_large
  ok (be_bytes 4 (length payload + 1) ++ (tag ∷ payload))

unfoldable pub read_frame {ℓ} :
    {T : Type ℓ} → (Bytes → Option T) → ℕ → Bytes → Result MeshError (T × Bytes)
read_frame from_json expected_tag stream = do
  (length_bytes, after_length) ← ok_or (read_exact 4 stream) end_of_stream
  let n = be_value 0 length_bytes
  fail_if (n == 0 || ltb max_mesh_frame n) invalid_length
  (tag_bytes, after_tag) ← ok_or (read_exact 1 after_length) end_of_stream
  fail_if (not (be_value 0 tag_bytes == expected_tag)) unexpected_tag
  (payload, rest) ← ok_or (read_exact (n - 1) after_tag) end_of_stream
  message ← ok_or (from_json payload) bad_json
  ok (message, rest)

pub data MeshDatagramKind : Type 0 where
  request reply : MeshDatagramKind

unfoldable pub kind_byte : MeshDatagramKind → ℕ
kind_byte request = 1
kind_byte reply = 2

unfoldable pub kind_of_byte : ℕ → Option MeshDatagramKind
kind_of_byte b = if b == 1 then some request else if b == 2 then some reply else none

pub record MeshDatagramHeader : Type 0 where
  pub kind : MeshDatagramKind
  pub request_id : ℕ
  pub connection_generation : ℕ
  pub ingress_edge_id : Text
  pub tenant_id : Text
  pub hostname : Text

module _ (c : Codec) where
  -- The loop that refuses long fields.
  unfoldable pub check_fields : List Text → Result MeshError (Unit {0})
  check_fields [] = ok tt
  check_fields (f ∷ fs) =
      if ltb max_id_len (length (c.utf8 f)) then err field_too_long else check_fields fs

  -- The loop that writes them, before what follows.
  unfoldable pub put_fields : List Text → Bytes → Bytes
  put_fields [] rest = rest
  put_fields (f ∷ fs) rest =
      be_bytes 2 (length (c.utf8 f) % 2 ^ 16) ++ (c.utf8 f ++ put_fields fs rest)

  unfoldable pub encode : MeshDatagramHeader → Bytes → Result MeshError Bytes
  encode h payload = do
    let fields = h.ingress_edge_id ∷ h.tenant_id ∷ h.hostname ∷ []
    check_fields fields
    ok (
        1
        ∷ kind_byte h.kind
        ∷ (be_bytes 8 h.request_id
            ++ (be_bytes 8 h.connection_generation ++ put_fields fields payload)))

  -- One round of the loop over the fields.
  unfoldable pub get_field : Bytes → Result MeshError (Text × Bytes)
  get_field rest =
      let n = be_value 0 (take 2 rest) in
      if ltb (length rest) 2
      then err truncated_field
      else if ltb max_id_len n || ltb (length rest) (2 + n)
      then err field_length
      else elim (c.from_utf8 (take n (drop 2 rest))) [
        | none ↦ err field_encoding
        | some value ↦ ok (value, drop n (drop 2 rest))
      ]

  unfoldable pub get_fields :
      ℕ → ℕ → MeshDatagramKind → Bytes → Result MeshError (MeshDatagramHeader × Bytes)
  get_fields request_id connection_generation kind body = do
    (ingress_edge_id, after_edge) ← get_field body
    (tenant_id, after_tenant) ← get_field after_edge
    (hostname, rest) ← get_field after_tenant
    ok (
      record {
        kind = kind;
        request_id = request_id;
        connection_generation = connection_generation;
        ingress_edge_id = ingress_edge_id;
        tenant_id = tenant_id;
        hostname = hostname;
      },
      rest,
    )

  unfoldable pub decode : Bytes → Result MeshError (MeshDatagramHeader × Bytes)
  decode packet = do
    fail_if (ltb (length packet) 18) truncated_header
    fail_if (not (be_value 0 (take 1 packet) == 1)) bad_version
    kind ← ok_or (kind_of_byte (be_value 0 (take 1 (drop 1 packet)))) unknown_kind
    let request_id = be_value 0 (take 8 (drop 2 packet))
    let connection_generation = be_value 0 (take 8 (drop 10 packet))
    get_fields request_id connection_generation kind (drop 18 packet)

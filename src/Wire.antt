-- ===== src/Wire.antt =====
-- sievetube-common/src/protocol.rs: the frames between Edge and Connector, and the header of UDP
-- datagrams. `serde_json`, UTF-8 and socket addresses are fields of `Codec`; a stream is the list of
-- the bytes that are on it.
pub mod Frames
pub mod Datagram
mod Tests
use sievetube.Prelude.{
  nat_eq, ℕ, suc, ◌+◌, ◌-◌, ◌*◌, ◌%◌, ◌^◌, ◌≡◌, Text, ◌==◌, ltb, Bool, true, false, Option, none,
  some, List, [], ◌∷◌, ◌++◌, length, take, drop, if◌then◌else◌, Result, ok, err, ◌>>=◌, ◌>>◌,
  fail_if, ok_or,
}
use sievetube.Bytes.{Bytes, be_bytes, be_value, read_exact}
use sievetube.Config.{Protocol}

abbrev pub max_frame_size : ℕ
max_frame_size = 64 * 1024

abbrev pub tag_auth_request : ℕ
tag_auth_request = 0x01

abbrev pub tag_auth_response : ℕ
tag_auth_response = 0x02

abbrev pub tag_connect_request : ℕ
tag_connect_request = 0x03

abbrev pub tag_going_away : ℕ
tag_going_away = 0x04

pub record ServiceAdvertisement : Type 0 where
  pub hostname : Text
  pub protocols : List Protocol

pub record AuthRequest : Type 0 where
  pub jwt : Text
  pub services : Option (List ServiceAdvertisement)

pub record AuthResponse : Type 0 where
  pub accepted : Bool
  pub reason : Option Text

pub record ConnectRequest (A : Type 0) : Type 0 where
  pub request_id : ℕ
  pub hostname : Text
  pub protocol : Protocol
  pub client_addr : A

pub data Message (A : Type 0) : Type 0 where
  auth_request : AuthRequest → Message A
  auth_response : AuthResponse → Message A
  connect_request : ConnectRequest A → Message A
  going_away : Message A

-- The serialisation that the source takes from its libraries. UTF-8 is read back as it was written.
pub record Codec : Type 1 where
  pub SocketAddr : Type 0
  pub utf8 : Text → Bytes
  pub from_utf8 : Bytes → Option Text
  pub from_utf8-utf8 : (s : Text) → from_utf8 (utf8 s) ≡ some s
  pub json_auth_request : AuthRequest → Bytes
  pub json_auth_response : AuthResponse → Bytes
  pub json_connect_request : ConnectRequest SocketAddr → Bytes
  pub read_auth_request : Bytes → Option AuthRequest
  pub read_auth_response : Bytes → Option AuthResponse
  pub read_connect_request : Bytes → Option (ConnectRequest SocketAddr)

pub data WireError : Type 0 where
  frame_too_large empty_frame end_of_stream bad_json : WireError
  unknown_tag : ℕ → WireError

module _ (c : Codec) where
  unfoldable pub tag_and_payload : Message c.SocketAddr → ℕ × Bytes
  tag_and_payload (auth_request m) = (tag_auth_request, c.json_auth_request m)
  tag_and_payload (auth_response m) = (tag_auth_response, c.json_auth_response m)
  tag_and_payload (connect_request m) = (tag_connect_request, c.json_connect_request m)
  tag_and_payload going_away = (tag_going_away, b'{' ∷ b'}' ∷ [])

  -- The JSON of a message is read back as it was written.
  abbrev pub IsReadable : Message c.SocketAddr → Type 0
  IsReadable (auth_request m) = c.read_auth_request (c.json_auth_request m) ≡ some m
  IsReadable (auth_response m) = c.read_auth_response (c.json_auth_response m) ≡ some m
  IsReadable (connect_request m) = c.read_connect_request (c.json_connect_request m) ≡ some m
  IsReadable going_away = Unit

  -- The bytes that are written, or the error.
  unfoldable pub write_message : Message c.SocketAddr → Result WireError Bytes
  write_message msg =
      let (tag, payload) = tag_and_payload msg in
      let total_len = 1 + length payload in
      if ltb max_frame_size total_len
      then err frame_too_large
      else ok (be_bytes 4 total_len ++ (tag ∷ payload))

  -- The match on the tag.
  unfoldable pub parse_payload : ℕ → Bytes → Result WireError (Message c.SocketAddr)
  parse_payload tag payload =
      if tag == tag_auth_request
      then (do m ← ok_or (c.read_auth_request payload) bad_json; ok (auth_request m))
      else if tag == tag_auth_response
      then (do m ← ok_or (c.read_auth_response payload) bad_json; ok (auth_response m))
      else if tag == tag_connect_request
      then (do m ← ok_or (c.read_connect_request payload) bad_json; ok (connect_request m))
      else if tag == tag_going_away
      then ok going_away
      else err (unknown_tag tag)

  -- The message, and what is left on the stream.
  unfoldable pub read_message : Bytes → Result WireError (Message c.SocketAddr × Bytes)
  read_message stream = do
    (length_bytes, after_length) ← ok_or (read_exact 4 stream) end_of_stream
    let len = be_value 0 length_bytes
    fail_if (ltb max_frame_size len) frame_too_large
    fail_if (ltb len 1) empty_frame
    (tag_bytes, after_tag) ← ok_or (read_exact 1 after_length) end_of_stream
    (payload, rest) ← ok_or (read_exact (len - 1) after_tag) end_of_stream
    m ← parse_payload (be_value 0 tag_bytes) payload
    ok (m, rest)

  pub record DatagramHeader : Type 0 where
    pub request_id : ℕ
    pub hostname : Text

  -- `encode`; the length of the hostname is cast to 16 bits.
  unfoldable pub encode : DatagramHeader → Bytes → Bytes
  encode h payload =
      let hostname_bytes = c.utf8 h.hostname in
      be_bytes 8 h.request_id
      ++ (be_bytes 2 (length hostname_bytes % 2 ^ 16) ++ (hostname_bytes ++ payload))

  unfoldable pub decode : Bytes → Option (DatagramHeader × Bytes)
  decode packet =
      let request_id = be_value 0 (take 8 packet) in
      let hostname_len = be_value 0 (take 2 (drop 8 packet)) in
      let body = drop 10 packet in
      if ltb (length packet) 10
      then none
      else if ltb (length packet) (10 + hostname_len)
      then none
      else elim (c.from_utf8 (take hostname_len body)) [
        | none ↦ none
        | some hostname ↦
            some (record { request_id = request_id; hostname = hostname }, drop hostname_len body)
      ]

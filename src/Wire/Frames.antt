-- ===== src/Wire/Frames.antt =====
-- A frame that is written is read back.
use mathlib.Core.List.{append_assoc}
use sievetube.Prelude.{
  nat_eq, ℕ, ◌+◌, ◌-◌, ◌≤◌, ◌≡◌, refl, ap, sym, ◌∙◌, [], ◌∷◌, ◌++◌, length, ok, arith, Option-cases,
  inl, inr, length-append,
}
use sievetube.Bytes.{
  Bytes, be_bytes, be_value, read_exact, be_value-be_bytes, length-be_bytes, read_exact-append,
  read_exact-some,
}
use sievetube.Wire.{
  max_frame_size, Message, auth_request, auth_response, connect_request, going_away, Codec,
  IsReadable, tag_and_payload, write_message, parse_payload, read_message,
}

regroup : (a b d e : Bytes) → a ++ (b ++ (d ++ e)) ≡ (a ++ (b ++ d)) ++ e
regroup a b d e =
    ap (λ (r : Bytes). a ++ r) (sym (append_assoc b d e)) ∙ sym (append_assoc a (b ++ d) e)

module _ (c : Codec) where
  parse_payload-tag_and_payload :
      (m : Message c.SocketAddr)
      → IsReadable c m
      → parse_payload c (tag_and_payload c m).0 (tag_and_payload c m).1 ≡ ok m
  unfolding parse_payload tag_and_payload
  parse_payload-tag_and_payload (auth_request m) r = ground arith
  parse_payload-tag_and_payload (auth_response m) r = ground arith
  parse_payload-tag_and_payload (connect_request m) r = ground arith
  parse_payload-tag_and_payload going_away r = ground arith

  frame_of :
      (m : Message c.SocketAddr) (frame : Bytes)
      → write_message c m ≡ ok frame
      → (frame
          ≡ be_bytes 4 (1 + length (tag_and_payload c m).1)
            ++ (tag_and_payload c m).0 ∷ (tag_and_payload c m).1)
        × (1 + length (tag_and_payload c m).1 ≤ max_frame_size)
  unfolding write_message
  frame_of m frame h = ground arith

  read_frame :
      (tag : ℕ) (payload rest : Bytes) (m : Message c.SocketAddr)
      → 1 + length payload ≤ max_frame_size
      → parse_payload c tag payload ≡ ok m
      → read_message c (be_bytes 4 (1 + length payload) ++ ((tag ∷ payload) ++ rest)) ≡ ok (m, rest)
  unfolding read_message
  read_frame tag payload rest m fits parsed =
      let n = 1 + length payload in
      let bytes = length-be_bytes 4 n in
      let value = be_value-be_bytes 4 n (omega arith) in
      let whole = read_exact-append 4 (be_bytes 4 n) ((tag ∷ payload) ++ rest) bytes in
      let one = read_exact-append 1 (tag ∷ []) (payload ++ rest) refl in
      let body = read_exact-append (n - 1) payload rest (omega arith) in
      let tag_value : be_value 0 (tag ∷ []) ≡ tag = unfold be_value in omega arith in
      ground (arith, whole, value, one, body, tag_value)

  -- A message whose JSON is read back as it was written, and that is written as a frame, is read
  -- back from the frame as the same message, and reading leaves what follows the frame on the
  -- stream.
  pub read_message-write_message :
      (m : Message c.SocketAddr) (frame rest : Bytes)
      → IsReadable c m
      → write_message c m ≡ ok frame
      → read_message c (frame ++ rest) ≡ ok (m, rest)
  read_message-write_message m frame rest r h =
      let tag = (tag_and_payload c m).0 in
      let payload = (tag_and_payload c m).1 in
      let (shape, fits) = frame_of m frame h in
      ap (λ (f : Bytes). read_message c (f ++ rest)) shape
      ∙ ap (read_message c) (append_assoc (be_bytes 4 (1 + length payload)) (tag ∷ payload) rest)
      ∙ read_frame tag payload rest m fits (parse_payload-tag_and_payload m r)

  -- A message that is read was one frame at the front of the stream, of 5 bytes at least and of 4
  -- bytes more than the frame limit at most, and what follows it is left.
  pub read_message-frame :
      (m : Message c.SocketAddr) (stream rest : Bytes)
      → read_message c stream ≡ ok (m, rest)
      → (frame : Bytes) × (stream ≡ frame ++ rest)
        × (5 ≤ length frame)
        × (length frame ≤ 4 + max_frame_size)
  unfolding read_message
  read_message-frame m stream rest h = elim (Option-cases (read_exact 4 stream)) [
    | inl ends ↦ absurd (ground arith)
    | inr ((length_bytes, after_length), got_length) ↦
        elim (Option-cases (read_exact 1 after_length)) [
          | inl ends ↦ absurd (ground arith)
          | inr ((tag_bytes, after_tag), got_tag) ↦
              let n = be_value 0 length_bytes in
              elim (Option-cases (read_exact (n - 1) after_tag)) [
                | inl ends ↦ absurd (ground arith)
                | inr ((payload, left), got_payload) ↦
                    let (split₁, len₁) =
                      read_exact-some 4 stream length_bytes after_length got_length in
                    let (split₂, len₂) =
                      read_exact-some 1 after_length tag_bytes after_tag got_tag in
                    let (split₃, len₃) =
                      read_exact-some (n - 1) after_tag payload left got_payload in
                    let sizes : length (length_bytes ++ (tag_bytes ++ payload))
                        ≡ length length_bytes + (length tag_bytes + length payload) =
                      length-append length_bytes (tag_bytes ++ payload)
                      ∙ ap (λ (k : ℕ). length length_bytes + k) (length-append tag_bytes payload) in
                    let bounds : (1 ≤ n) × (n ≤ max_frame_size) × (left ≡ rest) = ground arith in
                    (
                      length_bytes ++ (tag_bytes ++ payload),
                      split₁
                          ∙ ap (λ (r : Bytes). length_bytes ++ r)
                              (split₂
                                ∙ ap (λ (r : Bytes). tag_bytes ++ r)
                                    (split₃ ∙ ap (λ (r : Bytes). payload ++ r) bounds.2))
                          ∙ regroup length_bytes tag_bytes payload rest,
                      omega (arith, sizes),
                      omega (arith, sizes),
                    )
              ]
        ]
  ]

-- ===== src/Wire/Datagram.antt =====
-- The header of a UDP datagram is read back as it was written.
use mathlib.Core.List.{append_assoc}
use native.Mathlib.Nat.{mod-eq_of_lt}
use sievetube.Prelude.{
  ℕ, ◌+◌, ◌%◌, ◌^◌, ◌<◌, ◌≡◌, refl, ap, sym, ◌∙◌, some, ◌++◌, length, drop, arith, length-append,
}
use sievetube.Bytes.{
  Bytes, be_bytes, be_value-be_bytes, length-be_bytes, take_of_append, drop_of_append,
}
use sievetube.Wire.{Codec, DatagramHeader, encode, decode}

module _ (c : Codec) where
  -- The header and the payload come back, if the id fits 64 bits and the hostname's length 16 bits.
  pub decode-encode :
      (h : DatagramHeader c) (payload : Bytes)
      → h.request_id < 256 ^ 8
      → length (c.utf8 h.hostname) < 2 ^ 16
      → decode c (encode c h payload) ≡ some (h, payload)
  unfolding decode encode
  decode-encode h payload id_fits host_fits =
      let host = c.utf8 h.hostname in
      let n = length host in
      let id = be_bytes 8 h.request_id in
      let len = be_bytes 2 (n % 2 ^ 16) in
      let small : n % 2 ^ 16 ≡ n = mod-eq_of_lt host_fits in
      let id_len = length-be_bytes 8 h.request_id in
      let len_len = length-be_bytes 2 (n % 2 ^ 16) in
      let take_id = take_of_append 8 id (len ++ (host ++ payload)) id_len in
      let drop_id = drop_of_append 8 id (len ++ (host ++ payload)) id_len in
      let take_len = take_of_append 2 len (host ++ payload) len_len in
      let ten : length (id ++ len) ≡ 10 = omega (arith, length-append {0} id len) in
      let drop_ten =
        ap (drop 10) (sym (append_assoc id len (host ++ payload)))
        ∙ drop_of_append 10 (id ++ len) (host ++ payload) ten in
      let id_value = be_value-be_bytes 8 h.request_id id_fits in
      let len_value = be_value-be_bytes 2 (n % 2 ^ 16) (omega arith) in
      let take_host = take_of_append n host payload refl in
      let drop_host = drop_of_append n host payload refl in
      let size =
        length-append id (len ++ (host ++ payload))
        ∙ ap (λ (k : ℕ). length id + k)
            (length-append len (host ++ payload)
              ∙ ap (λ (k : ℕ). length len + k) (length-append host payload)) in
      let text_back = c.from_utf8-utf8 h.hostname in ground arith

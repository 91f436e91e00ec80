-- ===== src/MeshWire/Datagram.antt =====
-- The header of a forwarded datagram is read back as it was written, and no field is cut.
use mathlib.Core.List.{append_assoc}
use native.Mathlib.Nat.{mod-eq_of_lt}
use sievetube.Prelude.{
  nat_eq, ℕ, ◌+◌, ◌%◌, ◌^◌, ◌<◌, ◌≤◌, ◌≡◌, refl, ap, sym, ◌∙◌, Text, some, [], ◌∷◌, ◌++◌, length,
  drop, ok, arith, length-append, Result-cases, inl, inr,
}
use sievetube.Bytes.{
  Bytes, be_bytes, be_value, be_value-be_bytes, length-be_bytes, take_of_append, drop_of_append,
}
use sievetube.Wire.{Codec}
use sievetube.MeshWire.{
  MeshDatagramKind, kind_byte, kind_of_byte, MeshDatagramHeader, max_id_len, check_fields,
  put_fields, encode, get_field, get_fields, decode,
}

module _ (c : Codec) where
  get_field-put :
      (f : Text) (rest : Bytes)
      → length (c.utf8 f) ≤ max_id_len
      → get_field c (be_bytes 2 (length (c.utf8 f) % 2 ^ 16) ++ (c.utf8 f ++ rest)) ≡ ok (f, rest)
  unfolding get_field
  get_field-put f rest short =
      let host = c.utf8 f in
      let n = length host in
      let len = be_bytes 2 (n % 2 ^ 16) in
      let small : n % 2 ^ 16 ≡ n = mod-eq_of_lt (omega arith) in
      let len_len = length-be_bytes 2 (n % 2 ^ 16) in
      let take_len = take_of_append 2 len (host ++ rest) len_len in
      let drop_len = drop_of_append 2 len (host ++ rest) len_len in
      let len_value = be_value-be_bytes 2 (n % 2 ^ 16) (omega arith) in
      let take_host = take_of_append n host rest refl in
      let drop_host = drop_of_append n host rest refl in
      let size =
        length-append len (host ++ rest)
        ∙ ap (λ (k : ℕ). length len + k) (length-append host rest) in
      let text_back = c.from_utf8-utf8 f in ground arith

  abbrev header_of : ℕ → ℕ → MeshDatagramKind → Text → Text → Text → MeshDatagramHeader
  header_of id gen kind edge tenant host = record {
    kind = kind;
    request_id = id;
    connection_generation = gen;
    ingress_edge_id = edge;
    tenant_id = tenant;
    hostname = host;
  }

  short_fields :
      (a b d : Text)
      → check_fields c (a ∷ b ∷ d ∷ []) ≡ ok tt
      → (length (c.utf8 a) ≤ max_id_len)
        × (length (c.utf8 b) ≤ max_id_len)
        × (length (c.utf8 d) ≤ max_id_len)
  unfolding check_fields
  short_fields a b d h = ground arith

  get_fields-put :
      (id gen : ℕ) (kind : MeshDatagramKind) (edge tenant host : Text) (payload : Bytes)
      → check_fields c (edge ∷ tenant ∷ host ∷ []) ≡ ok tt
      → get_fields c id gen kind (put_fields c (edge ∷ tenant ∷ host ∷ []) payload)
        ≡ ok (header_of id gen kind edge tenant host, payload)
  unfolding get_fields put_fields
  get_fields-put id gen kind edge tenant host payload h =
      let (a, b, d) = short_fields edge tenant host h in
      let third = get_field-put host payload d in
      let third_bytes = be_bytes 2 (length (c.utf8 host) % 2 ^ 16) ++ (c.utf8 host ++ payload) in
      let second = get_field-put tenant third_bytes b in
      let second_bytes =
        be_bytes 2 (length (c.utf8 tenant) % 2 ^ 16) ++ (c.utf8 tenant ++ third_bytes) in
      let first = get_field-put edge second_bytes a in ground arith

  kind_back : (k : MeshDatagramKind) → kind_of_byte (kind_byte k) ≡ some k
  unfolding kind_of_byte kind_byte
  kind_back k = ground arith

  byte_value : (b : ℕ) → be_value 0 (b ∷ []) ≡ b
  unfolding be_value
  byte_value b = omega arith

  decode_parts :
      (kind : MeshDatagramKind) (id gen : ℕ) (body : Bytes)
      → id < 256 ^ 8
      → gen < 256 ^ 8
      → decode c (1 ∷ kind_byte kind ∷ (be_bytes 8 id ++ (be_bytes 8 gen ++ body)))
        ≡ get_fields c id gen kind body
  unfolding decode
  decode_parts kind id gen body id_fits gen_fits =
      let ids = be_bytes 8 id in
      let gens = be_bytes 8 gen in
      let id_len = length-be_bytes 8 id in
      let gen_len = length-be_bytes 8 gen in
      let take_id = take_of_append 8 ids (gens ++ body) id_len in
      let drop_id = drop_of_append 8 ids (gens ++ body) id_len in
      let take_gen = take_of_append 8 gens body gen_len in
      let both : length (ids ++ gens) ≡ 16 = omega (arith, length-append {0} ids gens) in
      let drop_both =
        ap (drop 16) (sym (append_assoc ids gens body))
        ∙ drop_of_append 16 (ids ++ gens) body both in
      let id_value = be_value-be_bytes 8 id id_fits in
      let gen_value = be_value-be_bytes 8 gen gen_fits in
      let size =
        length-append ids (gens ++ body)
        ∙ ap (λ (k : ℕ). length ids + k) (length-append gens body) in
      ground (arith, kind_back kind, byte_value 1, byte_value (kind_byte kind))

  -- A datagram whose encoding succeeds, with an id and a generation of 64 bits, is decoded to the
  -- same header and payload.
  pub decode-encode_peer :
      (h : MeshDatagramHeader) (payload packet : Bytes)
      → encode c h payload ≡ ok packet
      → h.request_id < 256 ^ 8
      → h.connection_generation < 256 ^ 8
      → decode c packet ≡ ok (h, payload)
  unfolding encode
  decode-encode_peer h payload packet e id_fits gen_fits =
      let fields = h.ingress_edge_id ∷ h.tenant_id ∷ h.hostname ∷ [] in
      elim (Result-cases (check_fields c fields)) [
        | inl (u, fine) ↦
            ap (decode c) (sym (written h payload packet e))
            ∙ decode_parts h.kind h.request_id h.connection_generation (put_fields c fields payload)
                id_fits gen_fits
            ∙ get_fields-put h.request_id h.connection_generation h.kind h.ingress_edge_id
                h.tenant_id h.hostname payload fine
        | inr (bad, long) ↦ absurd (ground arith)
      ]
    where
      written :
          (h : MeshDatagramHeader) (payload packet : Bytes)
          → encode c h payload ≡ ok packet
          → 1
              ∷ kind_byte h.kind
              ∷ (be_bytes 8 h.request_id
                  ++ (be_bytes 8 h.connection_generation
                      ++ put_fields c (h.ingress_edge_id ∷ h.tenant_id ∷ h.hostname ∷ []) payload))
            ≡ packet
      written h payload packet e = ground arith

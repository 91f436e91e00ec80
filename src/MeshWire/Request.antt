-- ===== src/MeshWire/Request.antt =====
-- What a receiver may rely on once `validate` has passed.
use sievetube.Prelude.{
  nat_eq, text_eq, ◌≡◌, ◌≢◌, ◌≤◌, Text, true, false, is_empty, ok, arith, Result-cases, inl, inr,
  ◌↔◌,
}
use sievetube.Strings.{len}
use sievetube.Hostname.{normalize_hostname}
use sievetube.MeshWire.{ForwardRequest, hostname_ok, id_ok, validate}

-- A request in good form.
pub record IsValid (A : Type 0) (r : ForwardRequest A) : Type 0 where
  pub version : r.version ≡ 1
  pub hops : r.hops_remaining ≢ 0
  pub edge : (is_empty r.ingress_edge_id ≡ false) × (len r.ingress_edge_id ≤ 256)
  pub tenant : (is_empty r.tenant_id ≡ false) × (len r.tenant_id ≤ 256)
  pub host : (is_empty r.hostname ≡ false) × (len r.hostname ≤ 256)
  pub normal : normalize_hostname r.hostname ≡ ok r.hostname

normal_hostname : (h : Text) → hostname_ok h ≡ true → normalize_hostname h ≡ ok h
unfolding hostname_ok
normal_hostname h e = elim (Result-cases (normalize_hostname h)) [
  | inl (n, done) ↦ ground arith
  | inr (bad, failed) ↦ absurd (ground arith)
]

hostname_ok-normal : (h : Text) → normalize_hostname h ≡ ok h → hostname_ok h ≡ true
unfolding hostname_ok
hostname_ok-normal h e = ground arith

-- The structural checks of a receiver pass exactly on requests of version 1 with a hop left, whose
-- three ids have 1 to 256 bytes and whose hostname is in normal form.
pub validate-IsValid : {A : Type 0} (r : ForwardRequest A) → (validate r ≡ ok tt) ↔ IsValid A r
unfolding validate id_ok
validate-IsValid {A} r = (
  λ h. record {
    version = ground arith;
    hops = λ none_left. ground arith;
    edge = (ground arith, ground arith);
    tenant = (ground arith, ground arith);
    host = (ground arith, ground arith);
    normal = normal_hostname r.hostname (ground arith);
  },
  λ v. ground (arith, hostname_ok-normal r.hostname v.normal),
)

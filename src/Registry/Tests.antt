-- ===== src/Registry/Tests.antt =====
-- The registry's tests, after those of connector_registry.rs, and its theorems at these inputs.
use sievetube.Prelude.{
  ℕ, ◌+◌, ◌<◌, ◌^◌, ◌≡◌, ◌↔◌, refl, Text-discrete, text_eq, ◌==◌, true, false, none, some, [], ◌∷◌,
  contains, arith, if◌then◌else◌, ok, err, ℕ_discrete,
}
use sievetube.Prelude.Maps.{get, insert, erase, remove_if, keep_unless}
use sievetube.Config.{Protocol, Protocol-discrete, text}
use sievetube.Registry.{
  ConnectorHandle, ConnectorRegistry, Registration, Registered, served_by_another_tenant, pos, inc,
  dec, supports, new, foreign, drop_hostnames, add_hostnames, handle_of, install, register, remove,
  get_by_hostname, len, snapshot,
}
use sievetube.Registry.Invariant.{IsValid, new-IsValid}
use sievetube.Registry.Register.{register-IsValid, lookup-register}
use sievetube.Registry.Remove.{remove-IsValid, remove-true_iff, remove-register_stale}

program : Unit {0}
unfolding get insert erase remove_if supports new foreign drop_hostnames add_hostnames handle_of
    install register remove get_by_hostname len snapshot inc dec Text-discrete Protocol-discrete
    ℕ_discrete
program = tt

abbrev wide : Registration ℕ ℕ
wide = record {
  tenant_id = text "t1";
  hostnames = text "a.test" ∷ text "b.test" ∷ [];
  services = none;
  connection = 11;
  udp_reply_map = 0;
}

abbrev narrow : Registration ℕ ℕ
narrow = record wide {
  hostnames = text "a.test" ∷ [];
  services = some ((text "a.test", Protocol.http ∷ []) ∷ []);
}

abbrev wide_handle : ConnectorHandle ℕ ℕ
wide_handle = record {
  tenant_id = text "t1";
  hostnames = text "a.test" ∷ text "b.test" ∷ [];
  services = none;
  connection = 11;
  connected_at = 5;
  udp_reply_map = 0;
  generation = 1;
}

abbrev narrow_handle : ConnectorHandle ℕ ℕ
narrow_handle = record {
  tenant_id = text "t1";
  hostnames = text "a.test" ∷ [];
  services = some ((text "a.test", Protocol.http ∷ []) ∷ []);
  connection = 11;
  connected_at = 6;
  udp_reply_map = 0;
  generation = 2;
}

abbrev first : ConnectorRegistry ℕ ℕ
first = record {
  by_hostname = (text "b.test", wide_handle) ∷ (text "a.test", wide_handle) ∷ [];
  by_tenant = (text "t1", wide_handle) ∷ [];
  next_generation = 1;
  active_quic_connections = pos 1;
}

abbrev second : ConnectorRegistry ℕ ℕ
second = record {
  by_hostname = (text "a.test", narrow_handle) ∷ [];
  by_tenant = (text "t1", narrow_handle) ∷ [];
  next_generation = 2;
  active_quic_connections = pos 1;
}

abbrev registered : Registered ℕ ℕ
registered = record { handle = narrow_handle; replaced = some wide_handle }

register_first : register 5 wide new ≡ ok (first, record { handle = wide_handle; replaced = none })
unfolding program
register_first = refl

register-second : register 6 narrow first ≡ ok (second, registered)
unfolding program
register-second = refl

rejects_hostname_of_other_tenant :
    register 7 (record wide { tenant_id = text "t2" }) second
    ≡ err (served_by_another_tenant (text "a.test"))
unfolding program
rejects_hostname_of_other_tenant = refl

protocol_support :
    (supports narrow_handle (text "a.test") Protocol.http ≡ true)
    × (supports narrow_handle (text "a.test") Protocol.tcp ≡ false)
    × (supports narrow_handle (text "b.test") Protocol.http ≡ false)
unfolding program
protocol_support = (refl, refl, refl)

counts : (len second ≡ 1) × (snapshot second ≡ narrow_handle ∷ [])
unfolding program
counts = (refl, refl)

first_fits : (new {C = ℕ} {U = ℕ}).next_generation + 1 < 2 ^ 64
unfolding program
first_fits = omega arith

first-IsValid : IsValid first
first-IsValid =
    register-IsValid 5 wide new first (record { handle = wide_handle; replaced = none })
      register_first new-IsValid first_fits

second-IsValid : IsValid second
second-IsValid =
    register-IsValid 6 narrow first second registered register-second first-IsValid (omega arith)

register-IsValid_example : IsValid second
register-IsValid_example =
    register-IsValid 6 narrow first second registered register-second first-IsValid (omega arith)

lookup-register_example : get_by_hostname (text "b.test") second ≡ (
    if contains narrow.hostnames (text "b.test")
    then some narrow_handle
    else keep_unless (λ y. y.tenant_id == narrow.tenant_id) (get_by_hostname (text "b.test") first))
lookup-register_example =
    lookup-register 6 narrow first second registered (text "b.test") register-second first-IsValid

remove-IsValid_example : IsValid (remove (text "t1") 2 second).0
remove-IsValid_example = remove-IsValid (text "t1") 2 second second-IsValid

remove-true_iff_example :
    ((remove (text "t1") 2 second).1 ≡ true)
    ↔ ((x : ConnectorHandle ℕ ℕ) × (get (text "t1") second.by_tenant ≡ some x) × (x.generation ≡ 2))
remove-true_iff_example = remove-true_iff (text "t1") 2 second

remove-register_stale_example : remove (text "t1") 1 second ≡ (second, false)
remove-register_stale_example =
    remove-register_stale 6 1 narrow first second registered register-second (omega arith)
      (omega arith)

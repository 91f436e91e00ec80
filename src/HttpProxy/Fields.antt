-- ===== src/HttpProxy/Fields.antt =====
-- What setting, removing and stripping fields leaves of the others.
use sievetube.Config.{text}
use sievetube.Prelude.{
  text_eq, nat_eq, ℕ_discrete, Text-discrete, ◌≡◌, ◌∙◌, refl, ap, Text, ◌==◌, ◌||◌, Bool, true,
  false, Option, none, some, List, [], ◌∷◌, if◌then◌else◌, contains, arith, Bool-cases, inl, inr,
}
use sievetube.HttpProxy.{
  Headers, host, connection, upgrade, cookie, x_forwarded_for, x_forwarded_proto,
  hop_by_hop_headers, Scheme, scheme_name, Forwarded, Http, get_all, remove, insert_header,
  remove_all, join_with, listed, strip_hop_by_hop, join_cookie_fields, chain,
  apply_forwarded_headers, with_upgrade, with_forwarded,
}

pub get_all-remove :
    (n m : Text) (hs : Headers) → get_all n (remove m hs) ≡ (if m == n then [] else get_all n hs)
unfolding get_all remove
get_all-remove n m [] = ground arith
get_all-remove n m ((k, v) ∷ hs) = ground (arith, get_all-remove n m hs)

pub get_all-insert_header :
    (n m v : Text) (hs : Headers)
    → get_all n (insert_header m v hs) ≡ (if m == n then v ∷ [] else get_all n hs)
unfolding get_all insert_header
get_all-insert_header n m v hs = ground (arith, get_all-remove n m hs)

-- A name without fields has none after others are removed.
pub remove_all-absent :
    (n : Text) (ns : List Text) (hs : Headers)
    → get_all n hs ≡ []
    → get_all n (remove_all ns hs) ≡ []
unfolding remove_all
remove_all-absent n [] hs h = h
remove_all-absent n (m ∷ ms) hs h =
    remove_all-absent n ms (remove m hs) (ground (arith, get_all-remove n m hs, h))

pub get_all-remove_all :
    (n : Text) (ns : List Text) (hs : Headers)
    → contains ns n ≡ true
    → get_all n (remove_all ns hs) ≡ []
unfolding remove_all
get_all-remove_all n [] hs h = absurd (ground arith)
get_all-remove_all n (m ∷ ms) hs h = elim (Bool-cases (m == n)) [
  | inl here ↦ remove_all-absent n ms (remove m hs) (ground (arith, get_all-remove n m hs))
  | inr later ↦ get_all-remove_all n ms (remove m hs) (ground arith)
]

-- A field that concerns the connection of the client only.
abbrev pub is_hop : Http → Headers → Text → Bool
is_hop h hs n = contains (listed h hs) n || contains hop_by_hop_headers n

pub strip_hop_by_hop-gone :
    (h : Http) (n : Text) (hs : Headers)
    → is_hop h hs n ≡ true
    → get_all n (strip_hop_by_hop h hs) ≡ []
unfolding strip_hop_by_hop
strip_hop_by_hop-gone h n hs hop = elim (Bool-cases (contains hop_by_hop_headers n)) [
  | inl always ↦ get_all-remove_all n hop_by_hop_headers (remove_all (listed h hs) hs) always
  | inr asked ↦
      remove_all-absent n hop_by_hop_headers (remove_all (listed h hs) hs)
        (get_all-remove_all n (listed h hs) hs (ground arith))
]

pub join_cookie_fields-absent :
    (n : Text) (hs : Headers) → get_all n hs ≡ [] → get_all n (join_cookie_fields hs) ≡ []
unfolding join_cookie_fields
join_cookie_fields-absent n hs h =
    ground (arith, get_all-insert_header n cookie (join_with (text "; ") (get_all cookie hs)) hs)

-- The names that the Edge sets itself.
abbrev pub added_names : List Text
added_names = host ∷ connection ∷ upgrade ∷ x_forwarded_for ∷ x_forwarded_proto ∷ []

pub with_forwarded-other :
    (h : Http) (f : Option Forwarded) (scheme : Scheme) (n : Text) (hs : Headers)
    → (x_forwarded_for == n) ≡ false
    → (x_forwarded_proto == n) ≡ false
    → get_all n (with_forwarded h f scheme hs) ≡ get_all n hs
unfolding with_forwarded apply_forwarded_headers
with_forwarded-other h none scheme n hs a b = refl
with_forwarded-other h (some f) scheme n hs a b =
    let value = if h.value_ok (chain h f hs) then chain h f hs else f.peer_ip in
    let with_chain = insert_header x_forwarded_for value hs in
    ground (
      arith,
      get_all-insert_header n x_forwarded_for value hs,
      get_all-insert_header n x_forwarded_proto (scheme_name scheme) with_chain,
    )

pub with_upgrade-other :
    (protocol : Option Text) (n : Text) (hs : Headers)
    → (connection == n) ≡ false
    → (upgrade == n) ≡ false
    → get_all n (with_upgrade protocol hs) ≡ get_all n hs
unfolding with_upgrade
with_upgrade-other none n hs a b = refl
with_upgrade-other (some p) n hs a b = ground (
  arith,
  get_all-insert_header n connection (text "upgrade") hs,
  get_all-insert_header n upgrade p (insert_header connection (text "upgrade") hs),
)

abbrev pub connection_fields : Option Text → List Text
connection_fields none = []
connection_fields (some p) = text "upgrade" ∷ []

pub with_upgrade-connection :
    (protocol : Option Text) (hs : Headers)
    → get_all connection hs ≡ []
    → get_all connection (with_upgrade protocol hs) ≡ connection_fields protocol
unfolding with_upgrade Text-discrete ℕ_discrete
with_upgrade-connection none hs gone = gone
with_upgrade-connection (some p) hs gone =
    get_all-insert_header connection upgrade p (insert_header connection (text "upgrade") hs)
    ∙ get_all-insert_header connection connection (text "upgrade") hs

pub with_upgrade-upgrade :
    (protocol : Option Text) (hs : Headers)
    → get_all upgrade hs ≡ []
    → get_all upgrade (with_upgrade protocol hs) ≡ (elim protocol [ none ↦ [] | some p ↦ p ∷ [] ])
unfolding with_upgrade Text-discrete ℕ_discrete
with_upgrade-upgrade none hs gone = gone
with_upgrade-upgrade (some p) hs gone =
    get_all-insert_header upgrade upgrade p (insert_header connection (text "upgrade") hs)

pub apply_forwarded_headers-untrusted :
    (h : Http) (f : Forwarded) (scheme : Scheme) (hs : Headers)
    → f.trusted_peer ≡ false
    → (get_all x_forwarded_for (apply_forwarded_headers h f scheme hs) ≡ f.peer_ip ∷ [])
      × (get_all x_forwarded_proto (apply_forwarded_headers h f scheme hs)
          ≡ scheme_name scheme ∷ [])
unfolding apply_forwarded_headers chain Text-discrete ℕ_discrete
apply_forwarded_headers-untrusted h f scheme hs untrusted =
    let value = if h.value_ok (chain h f hs) then chain h f hs else f.peer_ip in
    let with_chain = insert_header x_forwarded_for value hs in
    let out = insert_header x_forwarded_proto (scheme_name scheme) with_chain in
    let same : apply_forwarded_headers h f scheme hs ≡ out = ground (arith, untrusted) in
    let peer : value ≡ f.peer_ip = ground (arith, untrusted) in
    (
      ap (get_all x_forwarded_for) same
          ∙ get_all-insert_header x_forwarded_for x_forwarded_proto (scheme_name scheme) with_chain
          ∙ get_all-insert_header x_forwarded_for x_forwarded_for value hs
          ∙ ap (λ v. v ∷ []) peer,
      ap (get_all x_forwarded_proto) same
          ∙ get_all-insert_header x_forwarded_proto x_forwarded_proto (scheme_name scheme)
              with_chain,
    )

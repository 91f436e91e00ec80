-- ===== src/HttpProxy/Backend.antt =====
-- What reaches a service of the client's fields: nothing that is meant for the Edge alone, one host, and no
-- address that an untrusted client made up.
use sievetube.Prelude.{
  text_eq, nat_eq, ℕ_discrete, Text-discrete, ◌≡◌, ◌∙◌, refl, ap, subst, Text, true, false, Option,
  none, some, [], ◌∷◌, ok, contains, arith,
}
use sievetube.HttpProxy.{
  Headers, host, connection, upgrade, x_forwarded_for, x_forwarded_proto, Scheme, scheme_name,
  Forwarded, Http, Request, get_all, insert_header, strip_hop_by_hop, join_cookie_fields,
  apply_forwarded_headers, with_upgrade, with_forwarded, backend_headers, build_backend_request,
}
use sievetube.HttpProxy.Fields.{
  get_all-insert_header, is_hop, strip_hop_by_hop-gone, join_cookie_fields-absent, added_names,
  with_forwarded-other, with_upgrade-other, connection_fields, with_upgrade-connection,
  with_upgrade-upgrade, apply_forwarded_headers-untrusted,
}

module _ (h : Http) (authority : Text) (scheme : Scheme) (protocol : Option Text)
    (f : Option Forwarded) where
  backend_headers-gone :
      (n : Text) (hs : Headers)
      → is_hop h hs n ≡ true
      → contains added_names n ≡ false
      → get_all n (backend_headers h authority scheme protocol f hs) ≡ []
  unfolding backend_headers
  backend_headers-gone n hs hop fresh =
      let kept = join_cookie_fields (strip_hop_by_hop h hs) in
      let gone =
        join_cookie_fields-absent n (strip_hop_by_hop h hs) (strip_hop_by_hop-gone h n hs hop) in
      with_forwarded-other h f scheme n (with_upgrade protocol (insert_header host authority kept))
        (ground arith) (ground arith)
      ∙ with_upgrade-other protocol n (insert_header host authority kept) (ground arith)
          (ground arith)
      ∙ get_all-insert_header n host authority kept
      ∙ ground (arith, gone)

  backend_headers-host :
      (hs : Headers)
      → get_all host (backend_headers h authority scheme protocol f hs) ≡ authority ∷ []
  unfolding backend_headers Text-discrete ℕ_discrete
  backend_headers-host hs =
      let kept = join_cookie_fields (strip_hop_by_hop h hs) in
      with_forwarded-other h f scheme host
        (with_upgrade protocol (insert_header host authority kept)) refl refl
      ∙ with_upgrade-other protocol host (insert_header host authority kept) refl refl
      ∙ get_all-insert_header host host authority kept

  backend_headers-connection :
      (hs : Headers)
      → get_all connection (backend_headers h authority scheme protocol f hs)
        ≡ connection_fields protocol
  unfolding backend_headers Text-discrete ℕ_discrete
  backend_headers-connection hs =
      let kept = join_cookie_fields (strip_hop_by_hop h hs) in
      let gone =
        join_cookie_fields-absent connection (strip_hop_by_hop h hs)
          (strip_hop_by_hop-gone h connection hs (ground arith)) in
      with_forwarded-other h f scheme connection
        (with_upgrade protocol (insert_header host authority kept)) refl refl
      ∙ with_upgrade-connection protocol (insert_header host authority kept)
          (get_all-insert_header connection host authority kept ∙ gone)

  backend_headers-upgrade :
      (hs : Headers)
      → get_all upgrade (backend_headers h authority scheme protocol f hs)
        ≡ (elim protocol [ none ↦ [] | some p ↦ p ∷ [] ])
  unfolding backend_headers Text-discrete ℕ_discrete
  backend_headers-upgrade hs =
      let kept = join_cookie_fields (strip_hop_by_hop h hs) in
      let gone =
        join_cookie_fields-absent upgrade (strip_hop_by_hop h hs)
          (strip_hop_by_hop-gone h upgrade hs (ground arith)) in
      with_forwarded-other h f scheme upgrade
        (with_upgrade protocol (insert_header host authority kept)) refl refl
      ∙ with_upgrade-upgrade protocol (insert_header host authority kept)
          (get_all-insert_header upgrade host authority kept ∙ gone)

-- What a service may rely on: `sent` has the one host, the connection fields of an upgrade and no others,
-- and no other field that was for the Edge alone.
pub record IsClean (h : Http) (req : Request) (authority : Text) (scheme : Scheme)
    (protocol : Option Text) (forwarded : Option Forwarded) (sent : Request) : Type 0 where
  pub one_host : get_all host sent.headers ≡ authority ∷ []
  pub own_connection : get_all connection sent.headers ≡ connection_fields protocol
  pub own_upgrade : get_all upgrade sent.headers ≡ (elim protocol [ none ↦ [] | some p ↦ p ∷ [] ])
  pub stripped :
      (n : Text)
      → is_hop h req.headers n ≡ true
      → contains added_names n ≡ false
      → get_all n sent.headers ≡ []
  pub true_address :
      (f : Forwarded)
      → forwarded ≡ some f
      → f.trusted_peer ≡ false
      → (get_all x_forwarded_for sent.headers ≡ f.peer_ip ∷ [])
        × (get_all x_forwarded_proto sent.headers ≡ scheme_name scheme ∷ [])

backend_headers-untrusted :
    (h : Http) (authority : Text) (scheme : Scheme) (protocol : Option Text)
    (forwarded : Option Forwarded) (hs : Headers) (f : Forwarded)
    → forwarded ≡ some f
    → f.trusted_peer ≡ false
    → (get_all x_forwarded_for (backend_headers h authority scheme protocol forwarded hs)
        ≡ f.peer_ip ∷ [])
      × (get_all x_forwarded_proto (backend_headers h authority scheme protocol forwarded hs)
          ≡ scheme_name scheme ∷ [])
unfolding backend_headers with_forwarded
backend_headers-untrusted h authority scheme protocol none hs f same untrusted =
    absurd (ground arith)
backend_headers-untrusted h authority scheme protocol (some g) hs f same untrusted =
    let known : g ≡ f = ground arith in
    let inner =
      with_upgrade protocol
        (insert_header host authority (join_cookie_fields (strip_hop_by_hop h hs))) in
    subst
      (λ z.
        (get_all x_forwarded_for (apply_forwarded_headers h g scheme inner) ≡ z.peer_ip ∷ [])
        × (get_all x_forwarded_proto (apply_forwarded_headers h g scheme inner)
            ≡ scheme_name scheme ∷ []))
      known (apply_forwarded_headers-untrusted h g scheme inner (ground (arith, known, untrusted)))

-- A request that is sent to a service has the authority as its one host, the fields of an upgrade
-- if it is one, no other hop-by-hop field and no field that the client's `Connection` lists, unless
-- the Edge sets it itself; and where forwarding fields are set for a client that is no trusted
-- proxy, they have the client's address alone and the scheme of its connection.
pub build_backend_request-IsClean :
    (h : Http) (req : Request) (authority : Text) (scheme : Scheme) (protocol : Option Text)
    (forwarded : Option Forwarded) (sent : Request)
    → build_backend_request h req authority scheme protocol forwarded ≡ ok sent
    → IsClean h req authority scheme protocol forwarded sent
unfolding build_backend_request
build_backend_request-IsClean h req authority scheme protocol forwarded sent built =
    let hs = backend_headers h authority scheme protocol forwarded req.headers in
    let same : sent.headers ≡ hs = ground arith in
    record {
      one_host =
          ap (get_all host) same
          ∙ backend_headers-host h authority scheme protocol forwarded req.headers;
      own_connection =
          ap (get_all connection) same
          ∙ backend_headers-connection h authority scheme protocol forwarded req.headers;
      own_upgrade =
          ap (get_all upgrade) same
          ∙ backend_headers-upgrade h authority scheme protocol forwarded req.headers;
      stripped = λ n hop fresh.
          ap (get_all n) same
          ∙ backend_headers-gone h authority scheme protocol forwarded n req.headers hop fresh;
      true_address = λ f known untrusted.
          let (addresses, proto) =
            backend_headers-untrusted h authority scheme protocol forwarded req.headers f known
              untrusted in
          (
            ap (get_all x_forwarded_for) same ∙ addresses,
            ap (get_all x_forwarded_proto) same ∙ proto,
          );
    }

-- ===== src/HttpProxy.antt =====
-- sievetube-edge/src/http_proxy.rs: the request that the Edge sends to a service. Of the crates `http` and
-- `hyper`, a `HeaderMap` is the list of its fields with lowercase names, in which the fields of one name
-- keep their order, and what they accept as names and values is a parameter. A body is passed through.
pub mod Fields
pub mod Backend
pub mod Http01
pub mod Gate
mod Tests
use sievetube.Config.{text}
use sievetube.Prelude.{
  text_eq, nat_eq, ℕ, Text, Eq, ◌==◌, ◌&&◌, ◌||◌, not, any, Bool, true, false, Option, none, some,
  List, [], ◌∷◌, ◌++◌, map, Result, ok, err, if◌then◌else◌, select, is_empty, contains, ◌>>=◌, ◌>>◌,
  fail_if,
}
use sievetube.Strings.{trim, split, to_ascii_lowercase}
use sievetube.Hostname.{split_authority, normalize_hostname}

abbrev pub Headers : Type 0
Headers = List (Text × Text)

abbrev pub host : Text
host = text "host"

abbrev pub connection : Text
connection = text "connection"

abbrev pub upgrade : Text
upgrade = text "upgrade"

abbrev pub cookie : Text
cookie = text "cookie"

abbrev pub x_forwarded_for : Text
x_forwarded_for = text "x-forwarded-for"

abbrev pub x_forwarded_proto : Text
x_forwarded_proto = text "x-forwarded-proto"

abbrev pub hop_by_hop_headers : List Text
hop_by_hop_headers =
    connection
    ∷ text "keep-alive"
    ∷ text "proxy-connection"
    ∷ text "proxy-authenticate"
    ∷ text "proxy-authorization"
    ∷ text "te"
    ∷ text "trailer"
    ∷ text "transfer-encoding"
    ∷ upgrade
    ∷ []

pub data Scheme : Type 0 where
  http https : Scheme

unfoldable pub scheme_name : Scheme → Text
scheme_name http = text "http"
scheme_name https = text "https"

pub record Forwarded : Type 0 where
  pub peer_ip : Text
  pub trusted_peer : Bool

-- The reasons of a `Rejection` for a bad request.
pub data Rejection : Type 0 where
  duplicate_host invalid_host_header host_mismatch missing_host invalid_authority invalid_host :
      Rejection
  invalid_target : Rejection

-- `to_str`, `HeaderName::from_bytes` (the lowercase name), `HeaderValue::from_str`, `Uri::try_from` on
-- a path, and `IpAddr` from text to text.
pub record Http : Type 0 where
  pub to_str : Text → Option Text
  pub header_name : Text → Option Text
  pub value_ok : Text → Bool
  pub target_ok : Text → Bool
  pub ip : Text → Option Text

pub record Request : Type 0 where
  pub authority : Option Text
  pub path_and_query : Option Text
  pub is_http11 : Bool
  pub headers : Headers

unfoldable pub get_all : Text → Headers → List Text
get_all name [] = []
get_all name ((n, v) ∷ hs) = let rest = get_all name hs in if n == name then v ∷ rest else rest

unfoldable pub remove : Text → Headers → Headers
remove name [] = []
remove name ((n, v) ∷ hs) = let rest = remove name hs in if n == name then rest else (n, v) ∷ rest

-- `HeaderMap::insert`: the only field of its name.
unfoldable pub insert_header : Text → Text → Headers → Headers
insert_header name value hs = (name, value) ∷ remove name hs

unfoldable pub remove_all : List Text → Headers → Headers
remove_all [] hs = hs
remove_all (n ∷ ns) hs = remove_all ns (remove n hs)

-- `filter_map`
unfoldable pub keep_some : (Text → Option Text) → List Text → List Text
keep_some f [] = []
keep_some f (x ∷ xs) = let rest = keep_some f xs in elim (f x) [ none ↦ rest | some y ↦ y ∷ rest ]

-- `flat_map(|v| v.split(','))`
unfoldable pub split_all : List Text → List Text
split_all [] = []
split_all (x ∷ xs) = split b',' x ++ split_all xs

-- `join(separator)`
unfoldable pub join_with : Text → List Text → Text
join_with separator [] = []
join_with separator (x ∷ []) = x
join_with separator (x ∷ y ∷ ys) = x ++ separator ++ join_with separator (y ∷ ys)

unfoldable pub header_tokens : Http → Headers → Text → List Text
header_tokens h hs name =
    select (λ t. not (is_empty t)) (map trim (split_all (keep_some h.to_str (get_all name hs))))

-- The names that `Connection` lists.
unfoldable pub listed : Http → Headers → List Text
listed h hs = keep_some h.header_name (header_tokens h hs connection)

unfoldable pub strip_hop_by_hop : Http → Headers → Headers
strip_hop_by_hop h hs = remove_all hop_by_hop_headers (remove_all (listed h hs) hs)

unfoldable pub join_cookie_fields : Headers → Headers
join_cookie_fields hs = elim (get_all cookie hs) [
  | [] ↦ hs
  | c ∷ cs ↦ if is_empty cs then hs else insert_header cookie (join_with (text "; ") (c ∷ cs)) hs
]

-- The addresses that a trusted proxy passed on, and the proxy's.
unfoldable pub chain : Http → Forwarded → Headers → Text
chain h f hs =
    let prior = keep_some h.to_str (get_all x_forwarded_for hs) in
    if not f.trusted_peer || is_empty prior
    then f.peer_ip
    else join_with (text ", ") prior ++ text ", " ++ f.peer_ip

unfoldable pub apply_forwarded_headers : Http → Forwarded → Scheme → Headers → Headers
apply_forwarded_headers h f scheme hs =
    let value = if h.value_ok (chain h f hs) then chain h f hs else f.peer_ip in
    let with_chain = insert_header x_forwarded_for value hs in
    if f.trusted_peer && not (is_empty (get_all x_forwarded_proto with_chain))
    then with_chain
    else insert_header x_forwarded_proto (scheme_name scheme) with_chain

-- `eq_ignore_ascii_case`
unfoldable pub same_ignoring_case : Text → Text → Bool
same_ignoring_case a b = to_ascii_lowercase a == to_ascii_lowercase b

unfoldable pub chosen_authority : Option Text → Option Text → Result Rejection Text
chosen_authority none none = err missing_host
chosen_authority none (some h) = ok h
chosen_authority (some a) none = ok a
chosen_authority (some a) (some h) = if same_ignoring_case a h then ok a else err host_mismatch

unfoldable pub request_authority : Http → Request → Result Rejection Text
request_authority h req = elim (get_all host req.headers) [
  | [] ↦ chosen_authority req.authority none
  | v ∷ vs ↦ if not (is_empty vs) then err duplicate_host else elim (h.to_str v) [
    | none ↦ err invalid_host_header
    | some header ↦ chosen_authority req.authority (some header)
  ]
]

unfoldable pub request_hostname : Http → Text → Result Rejection Text
request_hostname h authority = elim (split_authority authority) [
  | err e ↦ err invalid_authority
  | ok parts ↦ elim (h.ip parts.0) [
    | some ip ↦ ok ip
    | none ↦ elim (normalize_hostname parts.0) [ ok name ↦ ok name | err e ↦ err invalid_host ]
  ]
]

unfoldable pub first : List Text → Option Text
first [] = none
first (v ∷ vs) = some v

unfoldable pub upgrade_protocol : Http → Request → Option Text
upgrade_protocol h req =
    if not req.is_http11
    then none
    else if any (λ t. same_ignoring_case t upgrade) (header_tokens h req.headers connection)
    then first (get_all upgrade req.headers)
    else none

unfoldable pub with_upgrade : Option Text → Headers → Headers
with_upgrade none hs = hs
with_upgrade (some protocol) hs =
    insert_header upgrade protocol (insert_header connection (text "upgrade") hs)

unfoldable pub with_forwarded : Http → Option Forwarded → Scheme → Headers → Headers
with_forwarded h none scheme hs = hs
with_forwarded h (some f) scheme hs = apply_forwarded_headers h f scheme hs

unfoldable pub target_of : Request → Text
target_of req = elim req.path_and_query [ none ↦ text "/" | some target ↦ target ]

unfoldable pub backend_headers :
    Http → Text → Scheme → Option Text → Option Forwarded → Headers → Headers
backend_headers h authority scheme protocol forwarded hs = with_forwarded h forwarded scheme (
    with_upgrade protocol
      (insert_header host authority (join_cookie_fields (strip_hop_by_hop h hs))))

unfoldable pub build_backend_request :
    Http → Request → Text → Scheme → Option Text → Option Forwarded → Result Rejection Request
build_backend_request h req authority scheme protocol forwarded =
    if not (h.target_ok (target_of req))
    then err invalid_target
    else if not (h.value_ok authority)
    then err invalid_authority
    else ok (record {
      authority = none;
      path_and_query = some (target_of req);
      is_http11 = true;
      headers = backend_headers h authority scheme protocol forwarded req.headers;
    })

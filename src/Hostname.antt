-- ===== src/Hostname.antt =====
-- sievetube-common/src/hostname.rs: the normal form of hostnames, authorities, patterns and zones.
pub mod Normal
pub mod Keys
pub mod Matching
pub mod Authority
mod Tests
use mathlib.Core.Option
use sievetube.Prelude.{
  nat_eq, text_eq, ℕ, suc, ◌+◌, Text, ◌==◌, leb, ltb, ◌&&◌, ◌||◌, not, Bool, true, false, Option,
  none, some, List, [], ◌∷◌, ◌++◌, if◌then◌else◌, all, is_empty, length, Result, ok, err, ◌>>=◌,
  ◌>>◌, fail_if,
}
use sievetube.Strings.{
  trim, len, is_ascii, to_ascii_lowercase, is_ascii_alphanumeric, split, split_once, rsplit_once,
  strip_prefix, strip_suffix, starts_with, ends_with, has_char, parse_u16,
}

abbrev pub max_name_len : ℕ
max_name_len = 253

abbrev pub max_label_len : ℕ
max_label_len = 63

-- One constructor for each message.
pub data HostnameError : Type 0 where
  empty_hostname hostname_too_long not_ascii empty_label label_too_long : HostnameError
  wildcard_not_allowed hyphen_at_end invalid_character : HostnameError
  userinfo_not_allowed invalid_port unterminated_ipv6 data_after_ipv6 unbracketed_ipv6 :
      HostnameError

-- The bytes that a label may hold.
unfoldable pub label_byte : Bool → ℕ → Bool
label_byte allow_underscore b =
    is_ascii_alphanumeric b || b == b'-' || (allow_underscore && b == b'_')

abbrev pub star : Text
star = b'*' ∷ []

-- The body of the loop over the labels.
unfoldable pub check_label : Bool → Bool → ℕ → ℕ → Text → Result HostnameError (Unit {0})
check_label allow_wildcard allow_underscore count index label =
    if is_empty label
    then err empty_label
    else if ltb max_label_len (len label)
    then err label_too_long
    else if label == star
    then (if allow_wildcard && index == 0 && ltb 1 count then ok tt else err wildcard_not_allowed)
    else if starts_with b'-' label || ends_with b'-' label
    then err hyphen_at_end
    else if not (all (label_byte allow_underscore) label)
    then err invalid_character
    else ok tt

unfoldable pub check_labels : Bool → Bool → ℕ → ℕ → List Text → Result HostnameError (Unit {0})
check_labels w u count index [] = ok tt
check_labels w u count index (l ∷ ls) = do
  check_label w u count index l
  check_labels w u count (suc index) ls

-- `strip_suffix('.').unwrap_or(…)`
unfoldable pub without_dot : Text → Text
without_dot [] = []
without_dot (c ∷ []) = if c == b'.' then [] else c ∷ []
without_dot (c ∷ d ∷ s) = c ∷ without_dot (d ∷ s)

unfoldable pub normalize : Text → Bool → Bool → Result HostnameError Text
normalize input allow_wildcard allow_underscore = do
  let name = without_dot (trim input)
  fail_if (is_empty name) empty_hostname
  fail_if (ltb max_name_len (len name)) hostname_too_long
  fail_if (not (is_ascii name)) not_ascii
  let lower = to_ascii_lowercase name
  let labels = split b'.' lower
  check_labels allow_wildcard allow_underscore (length labels) 0 labels
  ok lower

unfoldable pub normalize_hostname : Text → Result HostnameError Text
normalize_hostname input = normalize input false false

unfoldable pub normalize_hostname_pattern : Text → Result HostnameError Text
normalize_hostname_pattern input = normalize input true false

unfoldable pub normalize_dns_name : Text → Result HostnameError Text
normalize_dns_name input = normalize input true true

unfoldable pub parse_port : Text → Result HostnameError (Option ℕ)
parse_port port =
    if is_empty port
    then ok none
    else elim (parse_u16 port) [ none ↦ err invalid_port | some p ↦ ok (some p) ]

-- What follows the bracket of an IPv6 literal.
unfoldable pub port_after_bracket : Text → Result HostnameError (Option ℕ)
port_after_bracket after = elim (strip_prefix (b':' ∷ []) after) [
  | some port ↦ parse_port port
  | none ↦ if is_empty after then ok none else err data_after_ipv6
]

unfoldable pub split_authority : Text → Result HostnameError (Text × Option ℕ)
split_authority authority =
    if has_char b'@' authority
    then err userinfo_not_allowed
    else elim (strip_prefix (b'[' ∷ []) authority) [
      | some rest ↦ elim (split_once b']' rest) [
        | none ↦ err unterminated_ipv6
        | some (host, after) ↦ do port ← port_after_bracket after; ok (host, port)
      ]
      | none ↦ elim (rsplit_once b':' authority) [
        | none ↦ ok (authority, none)
        | some (host, port) ↦
            if has_char b':' host
            then err unbracketed_ipv6
            else do p ← parse_port port; ok (host, p)
      ]
    ]

abbrev pub star_dot : Text
star_dot = b'*' ∷ b'.' ∷ []

unfoldable pub matches_pattern : Text → Text → Bool
matches_pattern pattern_text hostname =
    if pattern_text == hostname then true else elim (strip_prefix star_dot pattern_text) [
      | none ↦ false
      | some suffix ↦ elim (split_once b'.' hostname) [
        | none ↦ false
        | some (first, rest) ↦ not (is_empty first) && not (first == star) && rest == suffix
      ]
    ]

unfoldable pub wildcard_for : Text → Option Text
wildcard_for hostname = elim (split_once b'.' hostname) [
  | none ↦ none
  | some (first, rest) ↦ if has_char b'.' rest then some (star_dot ++ rest) else none
]

-- The name without a leading `*.`.
unfoldable pub zone_name : Text → Text
zone_name name = elim (strip_prefix star_dot name) [ none ↦ name | some rest ↦ rest ]

unfoldable pub is_within_zone : Text → Text → Bool
is_within_zone name zone =
    let base = zone_name name in
    base == zone
    || elim (strip_suffix zone base) [ none ↦ false | some front ↦ ends_with b'.' front ]

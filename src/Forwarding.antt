-- ===== src/Forwarding.antt =====
-- sievetube-edge/src/mesh/forward.rs: what an Edge does for its peers and through them. `C` stands for
-- `quinn::Connection`, `A` for `SocketAddr`, `K` for the UDP socket of a client.
pub mod Datagrams
pub mod Serving
pub mod Opening
pub mod Permits
pub mod Failover
pub mod Events
pub mod Replies
mod Tests
use sievetube.Prelude.{Text, Bool, true, false, Option, none, some, ◌++◌}
use sievetube.Config.{text}
use sievetube.Router.{ForwardError}
use sievetube.MeshWire.{
  RejectReason, unsupported_version, hop_limit, not_authorized, no_route, overloaded, invalid,
  retryable,
}

-- The three ways that an attempt fails.
unfoldable pub retryable_error : Text → ForwardError
retryable_error message = record { message = message; retryable = true; timed_out = false }

unfoldable pub timeout_error : Text → ForwardError
timeout_error message = record { message = message; retryable = true; timed_out = true }

unfoldable pub reason_of : Option RejectReason → RejectReason
reason_of none = invalid
reason_of (some reason) = reason

unfoldable pub as_str : RejectReason → Text
as_str unsupported_version = text "unsupported_version"
as_str hop_limit = text "hop_limit"
as_str not_authorized = text "not_authorized"
as_str no_route = text "no_route"
as_str overloaded = text "overloaded"
as_str invalid = text "invalid"

unfoldable pub rejected_error : Option RejectReason → ForwardError
rejected_error reason = record {
  message = text "peer rejected the request: " ++ as_str (reason_of reason);
  retryable = retryable (reason_of reason);
  timed_out = false;
}

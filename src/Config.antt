-- ===== src/Config.antt =====
-- sievetube-common/src/config.rs: the protocols of a tunnel, and ingress targets.
use Prim.Native.Char.{code}
use Prim.Native.String.{String}
use sievetube.Prelude.{Text, Eq, [], ◌∷◌}

pub data Protocol : Type 0 where
  http tcp udp : Protocol

unfoldable pub Protocol-discrete : Discrete Protocol
Protocol-discrete = hlevel

instance abbrev pub protocol_eq : Eq Protocol
protocol_eq = record { dec_eq = Protocol-discrete }

-- A literal of the source as its scalar values.
abbrev pub text : String → Text
text String.[] = []
text (String.◌∷◌ c s) = code c ∷ text s

-- ===== src/Router/Attempts.antt =====
-- Opening a stream: which candidates are tried.
use sievetube.Prelude.{
  text_eq, nat_eq, ◌≡◌, ◌↔◌, true, List, [], ◌∷◌, Result, ok, err, arith, Result-cases, Bool-cases,
  inl, inr,
}
use sievetube.Routes.{RemoteRoute}
use sievetube.Router.{OpenError, ForwardError, try_routes}

module _ {A W S : Type 0} (open_remote_stream : RemoteRoute A → W → W × Result ForwardError S) where
  -- The candidates are tried in order; each before the one that accepts fails in a retryable way.
  pub data Opens : List (RemoteRoute A) → W → W → S → Type 0 where
    accepted :
        (r : RemoteRoute A) (rs : List (RemoteRoute A)) (w v : W) (stream : S)
        → open_remote_stream r w ≡ (v, ok stream)
        → Opens (r ∷ rs) w v stream
    passed_over :
        (r : RemoteRoute A) (rs : List (RemoteRoute A)) (w u v : W) (e : ForwardError) (stream : S)
        → open_remote_stream r w ≡ (u, err e)
        → e.retryable ≡ true
        → Opens rs u v stream
        → Opens (r ∷ rs) w v stream

  opens :
      (rs : List (RemoteRoute A)) (last : OpenError) (w v : W) (stream : S)
      → try_routes open_remote_stream rs last w ≡ (v, ok stream)
      → Opens rs w v stream
  unfolding try_routes
  opens [] last w v stream h = ground arith
  opens (r ∷ rs) last w v stream h = elim (Result-cases (open_remote_stream r w).1) [
    | inl (s, answered) ↦ accepted r rs w v stream (ground arith)
    | inr (e, fails) ↦ elim (Bool-cases e.retryable) [
      | inr final ↦ ground arith
      | inl retry ↦ passed_over r rs w (open_remote_stream r w).0 v e stream (ground arith) retry (
          opens rs (record { message = e.message; timed_out = e.timed_out })
            (open_remote_stream r w).0 v stream (ground arith))
    ]
  ]

  opened :
      (rs : List (RemoteRoute A)) (last : OpenError) (w v : W) (stream : S)
      → Opens rs w v stream
      → try_routes open_remote_stream rs last w ≡ (v, ok stream)
  unfolding try_routes
  opened rs last w v stream (accepted r ss _ _ _ e) = ground arith
  opened rs last w v stream (passed_over r ss _ u _ e _ fails retry more) =
      ground
        (arith, opened ss (record { message = e.message; timed_out = e.timed_out }) u v stream more)

  -- Trying the candidates gives a stream exactly if one of them accepts with this stream after each
  -- of those before it failed in a retryable way.
  pub try_routes-ok_iff :
      (rs : List (RemoteRoute A)) (last : OpenError) (w v : W) (stream : S)
      → (try_routes open_remote_stream rs last w ≡ (v, ok stream)) ↔ Opens rs w v stream
  try_routes-ok_iff rs last w v stream = (opens rs last w v stream, opened rs last w v stream)

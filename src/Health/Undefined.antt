-- ===== src/Health/Undefined.antt =====
-- What Evaluate of internal/health/health.go makes of a metric without data: NaN, which Prometheus
-- answers with for a ratio or a quantile of no requests.
use transfergw.Base.{◌≡◌, refl, String, Option, none, some, ◌⊎◌, inl, inr}
use transfergw.Api.{ThresholdSpec}
use transfergw.Env.{Floats, Metric, Comparison}
use transfergw.Health.{Breach, first_breach, worse_than, check_over, configured, evaluate}
use transfergw.Health.Breaches.{IsNan, IsFloat64}

module _ (F : Floats) where
  open F use {Float, le, of_int}

  -- A metric that has a configured threshold, and that was measured as NaN on the Gateway path.
  abbrev pub IsUndefined : Option Float → Option (Metric Float) → Type 0
  IsUndefined t c =
      (x : Float) × (m : Metric Float) × (t ≡ some x) × (c ≡ some m) × IsNan F m.gateway

  check_over_nan :
      IsFloat64 F
      → (name : String) (t : Option Float) (c : Option (Metric Float)) → IsUndefined t c
      → (b : Breach Float) × (check_over F name t c ≡ some b)
  unfolding check_over worse_than
  check_over_nan laws name t c (x, m, e, e', nan) = (
    record { metric = name; ingress = m.ingress; gateway = m.gateway; threshold = x },
    rw (e, e', check_over)
        (rw (laws.nan_le m.gateway x nan, laws.nan_le m.gateway m.ingress nan) refl),
  )

  first_breach-first :
      (a later : Option (Breach Float))
      → ((b : Breach Float) × (a ≡ some b))
      → (b : Breach Float) × (first_breach a later ≡ some b)
  unfolding first_breach
  first_breach-first a later (b, e) = (b, rw e refl)

  first_breach-later :
      (a later : Option (Breach Float))
      → ((b : Breach Float) × (later ≡ some b))
      → (b : Breach Float) × (first_breach a later ≡ some b)
  unfolding first_breach
  first_breach-later none later h = h
  first_breach-later (some a) later h = (a, refl)

  -- Where NaN is at most nothing: an error rate, a latency or a rate of connection resets that has
  -- a configured threshold and is NaN on the Gateway path makes Evaluate report a breach, whatever
  -- the Ingress path and the other metrics are.
  pub evaluate_nan :
      IsFloat64 F
      → (t : ThresholdSpec Float) (c : Comparison Float)
      → IsUndefined t.error_rate c.error_rate
        ⊎ (IsUndefined (configured F (of_int t.latency_ms)) c.latency_ms
            ⊎ IsUndefined (configured F t.connection_resets) c.connection_resets)
      → (b : Breach Float) × (evaluate F (some t) (some c) ≡ some b)
  unfolding evaluate
  evaluate_nan laws t c (inl e) = first_breach-first _ _ (check_over_nan laws _ _ _ e)
  evaluate_nan laws t c (inr (inl l)) =
      first_breach-later _ _ (first_breach-first _ _ (check_over_nan laws _ _ _ l))
  evaluate_nan laws t c (inr (inr r)) =
      first_breach-later _ _
        (first_breach-later _ _ (first_breach-first _ _ (check_over_nan laws _ _ _ r)))

-- ===== src/Health.antt =====
-- Threshold evaluation, internal/health/health.go, and the functions of
-- internal/controller/transfergw_controller.go that ask for it and record it. float64 is the
-- parameter `Floats`.
pub mod Breaches
pub mod Undefined
use transfergw.Base.{
  ◌≡◌, String, ◌<>◌, Bool, true, false, ◌&&◌, ◌||◌, not, Option, none, some, ◌==◌, string_eq,
  if◌then◌else◌,
}
use transfergw.Base.Int.{ℤ}
use transfergw.Api.{ThresholdSpec}
use transfergw.Env.{Floats, Metric, Comparison}

pub record Breach (Float : Type 0) : Type 0 where
  pub metric : String
  pub ingress : Float
  pub gateway : Float
  pub threshold : Float

-- `if b := …; b != nil { return b }`: the first breach, if there is one, before the later checks.
unfoldable pub first_breach :
    {Float : Type 0} → Option (Breach Float) → Option (Breach Float) → Option (Breach Float)
first_breach none later = later
first_breach (some b) later = some b

module _ (F : Floats) where
  open F use {Float, lt, le, sub, mul, zero_float, one_float, of_int, show}

  -- The message of a breach, with %g for its numbers.
  pub breach_text : Breach Float → String
  breach_text b =
      b.metric
      <> (": Gateway path "
          <> (show b.gateway
              <> (" vs threshold "
                  <> (show b.threshold <> (" (Ingress path " <> (show b.ingress <> ")"))))))

  unfoldable pub worse_than : String → Metric Float → Float → Option (Breach Float)
  worse_than name m threshold =
      if le m.gateway threshold || le m.gateway m.ingress
      then none
      else some (record {
        metric = name;
        ingress = m.ingress;
        gateway = m.gateway;
        threshold = threshold;
      })

  -- A check against a threshold that may be unset, of a metric that may have no data.
  unfoldable pub check_over : String → Option Float → Option (Metric Float) → Option (Breach Float)
  unfolding worse_than
  check_over name none m = none
  check_over name (some x) none = none
  check_over name (some x) (some m) = worse_than name m x

  -- A zero value of a threshold that is no pointer is read as unset.
  unfoldable pub configured : Float → Option Float
  configured x = if lt zero_float x then some x else none

  latency_name : ThresholdSpec Float → String
  latency_name t =
      (if t.latency_percentile == "" then "latency" else t.latency_percentile <> " latency")
      <> " (ms)"

  -- The floor that the Gateway path has to clear.
  abbrev pub throughput_floor : Metric Float → Float → Float
  throughput_floor m x = mul m.ingress (sub one_float x)

  unfoldable pub check_throughput : Option Float → Option (Metric Float) → Option (Breach Float)
  check_throughput none m = none
  check_throughput (some x) none = none
  check_throughput (some x) (some m) =
      if lt zero_float m.ingress && lt m.gateway (throughput_floor m x)
      then some (record {
        metric = "throughput (req/s)";
        ingress = m.ingress;
        gateway = m.gateway;
        threshold = throughput_floor m x;
      })
      else none

  unfoldable pub evaluate :
      Option (ThresholdSpec Float) → Option (Comparison Float) → Option (Breach Float)
  unfolding latency_name
  evaluate none c = none
  evaluate (some t) none = none
  evaluate (some t) (some c) = first_breach (check_over "error rate" t.error_rate c.error_rate) (
      first_breach (check_over (latency_name t) (configured (of_int t.latency_ms)) c.latency_ms) (
        first_breach
          (check_over "connection reset rate" (configured t.connection_resets) c.connection_resets)
          (check_throughput t.throughput_delta c.throughput)))

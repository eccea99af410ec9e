-- ===== src/Controller/Check.antt =====
-- evaluateHealth and the functions that it records the metrics with,
-- internal/controller/transfergw_controller.go. The log lines are left out.
use transfergw.Base.{
  String, ◌<>◌, Bool, true, false, not, Option, none, some, List, [], ◌∷◌, contains, ◌==◌,
  string_eq, if◌then◌else◌,
}
use transfergw.Base.Int.{ℤ, pos, ◌+ℤ◌, ltb_ℤ}
use transfergw.Kube.{Ingress}
use transfergw.Api.{
  TransferGw, TransferGwStatus, MonitoringSpec, ThresholdSpec, MetricComparison, MetricsStatus,
}
use transfergw.Env.{Env, Floats, Metric, Comparison, Target, Result, ok, err}
use transfergw.Rollout.{duration_or}
use transfergw.Health.{Breach, evaluate}

-- 5 * time.Minute
abbrev pub default_health_check_interval : ℤ
default_health_check_interval = pos 300000000000

unfoldable pub health_check_interval : {Float : Type 0} → MonitoringSpec Float → ℤ
unfolding duration_or
health_check_interval monitoring =
    if monitoring.interval == ""
    then default_health_check_interval
    else duration_or monitoring.interval default_health_check_interval

-- The namespaces of the Ingresses, each once, in the order of their first Ingress.
namespaces_from : List String → List Ingress → List String
namespaces_from seen [] = []
namespaces_from seen (ing ∷ rest) = elim (contains seen ing.namespace) [
  | true ↦ namespaces_from seen rest
  | false ↦ ing.namespace ∷ namespaces_from (ing.namespace ∷ seen) rest
]

unfoldable pub ingress_namespaces : List Ingress → List String
unfolding namespaces_from
ingress_namespaces = namespaces_from []

module _ (F : Floats) where
  open F use {Float, le, sub, show, show_signed}

  unfoldable pub metric_comparison : Option (Metric Float) → String → Option MetricComparison
  metric_comparison none unit = none
  metric_comparison (some m) unit = some (record {
    ingress = show m.ingress <> unit;
    gateway = show m.gateway <> unit;
    delta = show_signed (sub m.gateway m.ingress) <> unit;
    status = if le m.gateway m.ingress then "healthy" else "degraded";
  })

  any_metric : MetricsStatus → Option MetricsStatus
  any_metric out = elim out.error_rate [
    | some x ↦ some out
    | none ↦ elim out.latency [
      | some x ↦ some out
      | none ↦ elim out.throughput [ some x ↦ some out | none ↦ none ]
    ]
  ]

  unfoldable pub to_metrics_status : Comparison Float → Option MetricsStatus
  unfolding any_metric metric_comparison
  to_metrics_status c = any_metric (record {
    latency = metric_comparison c.latency_ms "ms";
    error_rate = metric_comparison c.error_rate "";
    throughput = metric_comparison c.throughput "";
  })

module _ (E : Env) where
  open E use {State, Float, floats, now, metrics_source}

  abbrev pub Source : Type 0
  Source = TransferGw Float → Target → State → Result (Comparison Float) × State

  -- time.Now().Before(status.NextHealthCheck.Time), which reads the clock only if a time is set
  unfoldable pub too_early : TransferGwStatus → State → Bool × State
  too_early st s = elim st.next_health_check [
    | none ↦ (false, s)
    | some next ↦ let (t, s') = now s in (ltb_ℤ t next, s')
  ]

  -- The comparison and its record, when a check is due.
  unfoldable pub compare_health :
      TransferGw Float
      → MonitoringSpec Float
      → ThresholdSpec Float
      → Source
      → Target
      → TransferGwStatus
      → State
      → (TransferGwStatus × Option (Breach Float)) × State
  compare_health m monitoring thresholds compare target st s =
      let (r, s₁) = compare m target s in
      elim r [
        | err e ↦ ((st, none), s₁)
        | ok c ↦
            let (t, s₂) = now s₁ in
            (
              (
                record st {
                  last_health_check = some t;
                  next_health_check = some (t +ℤ health_check_interval monitoring);
                  metrics_status = to_metrics_status floats c;
                },
                evaluate floats (some thresholds) (some c),
              ),
              s₂,
            )
      ]

  -- What is needed for a check: monitoring that is on, thresholds and a source.
  unfoldable pub check_setup :
      TransferGw Float → Option (MonitoringSpec Float × ThresholdSpec Float × Source)
  check_setup m = elim m.spec.monitoring [
    | none ↦ none
    | some monitoring ↦ if not monitoring.enabled then none else elim monitoring.thresholds [
      | none ↦ none
      | some thresholds ↦ elim metrics_source [
        | none ↦ none
        | some compare ↦ some (monitoring, thresholds, compare)
      ]
    ]
  ]

  unfoldable pub evaluate_health :
      TransferGw Float
      → Target
      → TransferGwStatus
      → State
      → (TransferGwStatus × Option (Breach Float)) × State
  unfolding too_early
  evaluate_health m target st s = elim (check_setup m) [
    | none ↦ ((st, none), s)
    | some (monitoring, thresholds, compare) ↦
        let (early, s') = too_early st s in
        if early
        then ((st, none), s')
        else compare_health m monitoring thresholds compare target st s'
  ]

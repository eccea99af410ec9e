-- ===== src/Prometheus/Evidence.antt =====
-- The health check of the reconciler on top of the Prometheus client.
use transfergw.Base.{
  ◌≡◌, ◌⊎◌, refl, Bool, not, if◌then◌else◌, ap, ◌∙◌, inl, inr, Option, none, some, Option-cases,
  Bool-cases, true, arith,
}
use transfergw.Base.Int.{ℤ, ltb_ℤ}
use transfergw.Api.{TransferGw, TransferGwStatus, MonitoringSpec, ThresholdSpec}
use transfergw.Env.{Env, Target, Comparison}
use transfergw.Action.{Result-cases}
use transfergw.Health.{Breach}
use transfergw.Health.Breaches.{IsFloat64, Violates, evaluate-Violates}
use transfergw.Controller.Check.{Source, too_early, check_setup, compare_health, evaluate_health}
use transfergw.Prometheus.{Web, PrometheusSource, query_vars, compare}
use transfergw.Prometheus.Samples.{IsMeasured, compare-IsMeasured}

-- Without a source of metrics no check is set up.
pub check_setup_off :
    (E : Env) (m : TransferGw E.Float) → E.metrics_source ≡ none → check_setup E m ≡ none
unfolding check_setup
check_setup_off E m q = elim (Option-cases m.spec.monitoring) [
  | inl e ↦ rw (e, check_setup) refl
  | inr (monitoring, e) ↦
      rw (e, check_setup)
        (elim (Bool-cases monitoring.enabled) [
          | inr off ↦ rw off refl
          | inl on ↦ elim (Option-cases monitoring.thresholds) [
            | inl f ↦ rw (on, f) refl
            | inr (thresholds, f) ↦ rw (on, f) (rw q refl)
          ]
        ])
]

module _ (E : Env) where
  -- Without monitoring, thresholds and a source of metrics, and before the time of the next check,
  -- the health check leaves the status as it is and finds no breach.
  pub evaluate_health_skipped :
      (m : TransferGw E.Float) (target : Target) (st : TransferGwStatus) (s : E.State)
      → (check_setup E m ≡ none)
        ⊎ ((next : ℤ) × (st.next_health_check ≡ some next) × (ltb_ℤ (E.now s).0 next ≡ true))
      → (evaluate_health E m target st s).0 ≡ (st, none)
  unfolding evaluate_health
  evaluate_health_skipped m target st s (inl h) = rw (h, evaluate_health)
  evaluate_health_skipped m target st s (inr (next, e, l)) = elim (Option-cases (check_setup E m)) [
    | inl h ↦ rw (h, evaluate_health)
    | inr ((a, b, c), h) ↦ rw (h, evaluate_health, e, l)
  ]

module _ (E : Env) (W : Web E.State E.Float) (p : PrometheusSource E.State) (m : TransferGw E.Float)
    (target : Target) where
  -- What shows that a breach is one: the migration's thresholds, a comparison of sampled metrics,
  -- and the threshold that it violates, if no number is NaN.
  pub record Evidence (b : Breach E.Float) : Type 0 where
    pub monitoring : MonitoringSpec E.Float
    pub thresholds : ThresholdSpec E.Float
    pub comparison : Comparison E.Float
    pub enabled : m.spec.monitoring ≡ some monitoring
    pub watched : monitoring.thresholds ≡ some thresholds
    pub measured : IsMeasured W p (query_vars m target) comparison
    pub violated : Violates E.floats thresholds comparison b

  compare_health-Evidence :
      IsFloat64 E.floats
      → (monitoring : MonitoringSpec E.Float) (thresholds : ThresholdSpec E.Float)
      → m.spec.monitoring ≡ some monitoring
      → monitoring.thresholds ≡ some thresholds
      → (st : TransferGwStatus) (s : E.State) (b : Breach E.Float)
      → (compare_health E m monitoring thresholds (compare W p) target st s).0.1 ≡ some b
      → Evidence b
  unfolding compare_health
  compare_health-Evidence laws monitoring thresholds e w st s b h =
      elim (Result-cases (compare W p m target s).0) [
        | inr (error, q) ↦ let h' = rw (q, compare_health) at h in absurd (ground (arith, h'))
        | inl (c, q) ↦ record {
          monitoring = monitoring;
          thresholds = thresholds;
          comparison = c;
          enabled = e;
          watched = w;
          measured = rw q at (compare-IsMeasured W p m target s);
          violated = evaluate-Violates E.floats laws thresholds c b (rw (q, compare_health) at h);
        }
      ]

  check_setup-cases :
      (source : Source E)
      → E.metrics_source ≡ some source
      → (check_setup E m ≡ none)
        ⊎ ((monitoring : MonitoringSpec E.Float) × (thresholds : ThresholdSpec E.Float)
            × (m.spec.monitoring ≡ some monitoring)
            × (monitoring.thresholds ≡ some thresholds)
            × (check_setup E m ≡ some (monitoring, thresholds, source)))
  unfolding check_setup
  check_setup-cases source q = elim (Option-cases m.spec.monitoring) [
    | inl e ↦ inl (rw (e, check_setup) refl)
    | inr (monitoring, e) ↦ elim (Bool-cases monitoring.enabled) [
      | inr off ↦ inl (rw (e, check_setup) (rw off refl))
      | inl on ↦ elim (Option-cases monitoring.thresholds) [
        | inl f ↦ inl (rw (e, check_setup) (rw (on, f) refl))
        | inr (thresholds, f) ↦
            inr (
              monitoring,
              thresholds,
              e,
              f,
              rw (e, check_setup) (set_up monitoring thresholds on f),
            )
      ]
    ]
  ]
    where
      by_parts :
          MonitoringSpec E.Float
          → Bool
          → Option (ThresholdSpec E.Float)
          → Option (Source E)
          → Option (MonitoringSpec E.Float × ThresholdSpec E.Float × Source E)
      by_parts monitoring enabled thresholds found = if not enabled then none else elim thresholds [
        | none ↦ none
        | some t ↦ elim found [ none ↦ none | some c ↦ some (monitoring, t, c) ]
      ]

      set_up :
          (monitoring : MonitoringSpec E.Float) (thresholds : ThresholdSpec E.Float)
          → monitoring.enabled ≡ true
          → monitoring.thresholds ≡ some thresholds
          → by_parts monitoring monitoring.enabled monitoring.thresholds E.metrics_source
            ≡ some (monitoring, thresholds, source)
      set_up monitoring thresholds on f =
          ap (λ x. by_parts monitoring x monitoring.thresholds E.metrics_source) on
          ∙ ap (λ x. by_parts monitoring true x E.metrics_source) f
          ∙ ap (by_parts monitoring true (some thresholds)) q

  -- With the Prometheus client for its source of metrics, the health check of a migration finds a
  -- breach only with evidence: monitoring and thresholds are set, both numbers of every metric
  -- that was compared are samples that the server answered with, and the breach violates one of
  -- the thresholds, unless a number that it was compared by is NaN.
  pub evaluate_health-Evidence :
      IsFloat64 E.floats
      → E.metrics_source ≡ some (compare W p)
      → (st : TransferGwStatus) (s : E.State) (b : Breach E.Float)
      → (evaluate_health E m target st s).0.1 ≡ some b
      → Evidence b
  unfolding evaluate_health
  evaluate_health-Evidence laws source st s b h = elim (check_setup-cases (compare W p) source) [
    | inl e ↦ let h' = rw (e, evaluate_health) at h in absurd (ground (arith, h'))
    | inr (monitoring, thresholds, e, f, g) ↦ elim (Bool-cases (too_early E st s).0) [
      | inl early ↦ let h' = rw (g, early, evaluate_health) at h in absurd (ground (arith, h'))
      | inr due ↦
          compare_health-Evidence laws monitoring thresholds e f st _ b
            (rw (g, due, evaluate_health) at h)
    ]
  ]

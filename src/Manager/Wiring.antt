-- ===== src/Manager/Wiring.antt =====
-- The operator as main wires it.
use transfergw.Base.{
  Bool, inl, ◌≡◌, refl, ap, Option, none, some, true, false, ◌==◌, string_eq, if◌then◌else◌,
}
use transfergw.Api.{TransferGw, TransferGwStatus}
use transfergw.Env.{Env, Target}
use transfergw.Health.{Breach}
use transfergw.Health.Breaches.{IsFloat64}
use transfergw.Controller.Check.{evaluate_health}
use transfergw.Prometheus.{new_prometheus_source, compare}
use transfergw.Prometheus.Evidence.{
  check_setup_off, evaluate_health_skipped, Evidence, evaluate_health-Evidence,
}
use transfergw.Manager.{Flags, Clients, reconciler}

module _ (E : Env) (c : Clients E) (flags : Flags) (m : TransferGw E.Float) (target : Target)
    (st : TransferGwStatus) (s : E.State) where
  -- What the health check of the operator finds.
  abbrev pub found : Option (Breach E.Float)
  found = (evaluate_health (reconciler E c flags) m target st s).0.1

  -- Where numbers that are not NaN are ordered: without a URL of Prometheus the operator never
  -- finds a breach. With one, it finds a breach only with evidence: monitoring and thresholds are
  -- set, both numbers of every metric that was compared are samples that the server answered with,
  -- and the breach is a metric over its threshold and worse on the Gateway path, unless one of
  -- its numbers is NaN, or a throughput below its floor.
  pub reconciler-Evidence :
      IsFloat64 E.floats
      → ((flags.prometheus_url == "") ≡ true → found ≡ none)
        × ((flags.prometheus_url == "") ≡ false
            → (b : Breach E.Float) → found ≡ some b
            → Evidence
                (reconciler E c flags)
                c.web
                (new_prometheus_source c.prometheus_client flags.prometheus_url)
                m
                target
                b)
  reconciler-Evidence laws = (
    λ off.
        ap (λ r. r.1)
          (evaluate_health_skipped R m target st s (inl (check_setup_off R m (source off)))),
    λ on b h.
        evaluate_health-Evidence R c.web
          (new_prometheus_source c.prometheus_client flags.prometheus_url) m target laws (source on)
          st s b h,
  )
    where
      R : Env
      R = reconciler E c flags

      source :
          {b : Bool}
          → (flags.prometheus_url == "") ≡ b
          → R.metrics_source ≡ (
              if b
              then none
              else some
                  (compare c.web (new_prometheus_source c.prometheus_client flags.prometheus_url)))
      source e = rw e refl

-- ===== src/Health/Breaches.antt =====
-- The breaches of Evaluate, internal/health/health.go.
use transfergw.Base.{
  ◌≡◌, refl, sym, ap, Bool-cases, String, true, false, Option, none, some, arith, ◌⊎◌, inl, inr,
}
use mathlib.Core.Option.{some-injective}
use transfergw.Api.{ThresholdSpec}
use transfergw.Env.{Floats, Metric, Comparison}
use transfergw.Health.{
  Breach, first_breach, worse_than, check_over, configured, check_throughput, throughput_floor,
  evaluate,
}

module _ (F : Floats) where
  open F use {Float, lt, le, zero_float, of_int}

  -- NaN is the number that is not at most itself.
  abbrev pub IsNan : Float → Type 0
  IsNan a = le a a ≡ false

  -- What Evaluate relies on of the comparisons of float64: two numbers are ordered, and NaN is at
  -- most nothing.
  pub record IsFloat64 : Type 0 where
    pub ordered : (a b : Float) → le a a ≡ true → le b b ≡ true → le a b ≡ false → lt b a ≡ true
    pub nan_le : (a b : Float) → IsNan a → le a b ≡ false

  -- Greater, unless one of the two is NaN.
  abbrev pub Exceeds : Float → Float → Type 0
  Exceeds a b = (lt b a ≡ true) ⊎ (IsNan a ⊎ IsNan b)

  -- The Gateway path is over the threshold, and worse than the Ingress path, where the numbers
  -- that are compared are not NaN.
  abbrev pub IsWorse : Metric Float → Float → Type 0
  IsWorse m x = Exceeds m.gateway x × Exceeds m.gateway m.ingress

  -- The numbers of a breach are those of a measurement and a threshold.
  abbrev pub Reports : Breach Float → Metric Float → Float → Type 0
  Reports b m x = (b.ingress ≡ m.ingress) × (b.gateway ≡ m.gateway) × (b.threshold ≡ x)

  -- A configured threshold that a measured metric is over.
  abbrev pub Over : Option Float → Option (Metric Float) → Breach Float → Type 0
  Over t c b =
      (x : Float) × (m : Metric Float) × (t ≡ some x) × (c ≡ some m) × IsWorse m x × Reports b m x

  -- A throughput below the configured share of that of the Ingress path.
  abbrev pub Under : Option Float → Option (Metric Float) → Breach Float → Type 0
  Under t c b =
      (x : Float) × (m : Metric Float) × (t ≡ some x)
      × (c ≡ some m)
      × (lt zero_float m.ingress ≡ true)
      × (lt m.gateway (throughput_floor F m x) ≡ true)
      × Reports b m (throughput_floor F m x)

  abbrev pub Violates : ThresholdSpec Float → Comparison Float → Breach Float → Type 0
  Violates t c b =
      Over t.error_rate c.error_rate b
      ⊎ (Over (configured F (of_int t.latency_ms)) c.latency_ms b
          ⊎ (Over (configured F t.connection_resets) c.connection_resets b
              ⊎ Under t.throughput_delta c.throughput b))

  reports :
      (b b' : Breach Float)
      → some b ≡ some b'
      → (b'.ingress ≡ b.ingress) × (b'.gateway ≡ b.gateway) × (b'.threshold ≡ b.threshold)
  reports b b' h =
      let e = some-injective b b' h in
      (
        sym (ap (λ (r : Breach Float). r.ingress) e),
        sym (ap (λ (r : Breach Float). r.gateway) e),
        sym (ap (λ (r : Breach Float). r.threshold) e),
      )

  not_le-Exceeds : IsFloat64 → (a b : Float) → le a b ≡ false → Exceeds a b
  not_le-Exceeds laws a b h = elim (Bool-cases (le a a)) [
    | inr nan ↦ inr (inl nan)
    | inl num ↦ elim (Bool-cases (le b b)) [
      | inr nan ↦ inr (inr nan)
      | inl num' ↦ inl (laws.ordered a b num num' h)
    ]
  ]

  worse_than-IsWorse :
      IsFloat64
      → (name : String) (m : Metric Float) (x : Float) (b : Breach Float)
      → worse_than F name m x ≡ some b
      → IsWorse m x × Reports b m x
  unfolding worse_than
  worse_than-IsWorse laws name m x b h = elim (Bool-cases (le m.gateway x)) [
    | inl e ↦ cc (rw e at h)
    | inr e ↦ elim (Bool-cases (le m.gateway m.ingress)) [
      | inl e' ↦ cc (rw (e, e') at h)
      | inr e' ↦ (
        (not_le-Exceeds laws m.gateway x e, not_le-Exceeds laws m.gateway m.ingress e'),
        reports _ b (rw (e, e') at h),
      )
    ]
  ]

  check_over-Over :
      IsFloat64
      → (name : String) (t : Option Float) (c : Option (Metric Float)) (b : Breach Float)
      → check_over F name t c ≡ some b
      → Over t c b
  unfolding check_over
  check_over-Over laws name none c b h = cc
  check_over-Over laws name (some x) none b h = cc
  check_over-Over laws name (some x) (some m) b h =
      let (worse, report) = worse_than-IsWorse laws name m x b h in
      (x, m, refl, refl, worse, report)

  check_throughput-Under :
      (t : Option Float) (c : Option (Metric Float)) (b : Breach Float)
      → check_throughput F t c ≡ some b
      → Under t c b
  unfolding check_throughput
  check_throughput-Under none c b h = cc
  check_throughput-Under (some x) none b h = cc
  check_throughput-Under (some x) (some m) b h = elim (Bool-cases (lt zero_float m.ingress)) [
    | inr e ↦ cc (rw e at h)
    | inl e ↦ elim (Bool-cases (lt m.gateway (throughput_floor F m x))) [
      | inr e' ↦ cc (rw (e, e') at h)
      | inl e' ↦ (x, m, refl, refl, e, e', reports _ b (rw (e, e') at h))
    ]
  ]

  first_breach-cases :
      (a later : Option (Breach Float)) (b : Breach Float)
      → first_breach a later ≡ some b
      → (a ≡ some b) ⊎ (later ≡ some b)
  unfolding first_breach
  first_breach-cases none later b h = inr h
  first_breach-cases (some a) later b h = inl h

  -- Where numbers that are not NaN are ordered: every breach that is reported is a measured metric
  -- over a configured threshold and worse on the Gateway path than on the Ingress path, unless a
  -- number of the comparison is NaN, or it is a throughput of the Gateway path below its floor;
  -- and it carries the numbers that were compared.
  pub evaluate-Violates :
      IsFloat64
      → (t : ThresholdSpec Float) (c : Comparison Float) (b : Breach Float)
      → evaluate F (some t) (some c) ≡ some b
      → Violates t c b
  unfolding evaluate
  evaluate-Violates laws t c b h = elim (first_breach-cases _ _ b h) [
    | inl e ↦ inl (check_over-Over laws _ _ _ b e)
    | inr more ↦ inr (elim (first_breach-cases _ _ b more) [
      | inl e ↦ inl (check_over-Over laws _ _ _ b e)
      | inr more ↦ inr (elim (first_breach-cases _ _ b more) [
        | inl e ↦ inl (check_over-Over laws _ _ _ b e)
        | inr e ↦ inr (check_throughput-Under _ _ b e)
      ])
    ])
  ]

  -- A metric that is missing, unset in the spec, or no worse on the Gateway path than on the
  -- Ingress path or than its threshold allows.
  abbrev pub IsFine : Option Float → Option (Metric Float) → Type 0
  IsFine none c = Unit
  IsFine (some x) none = Unit
  IsFine (some x) (some m) = (le m.gateway x ≡ true) ⊎ (le m.gateway m.ingress ≡ true)

  abbrev pub Clears : Option Float → Option (Metric Float) → Type 0
  Clears none c = Unit
  Clears (some x) none = Unit
  Clears (some x) (some m) =
      (lt zero_float m.ingress ≡ false) ⊎ (lt m.gateway (throughput_floor F m x) ≡ false)

  check_over_fine :
      (name : String) (t : Option Float) (c : Option (Metric Float))
      → IsFine t c
      → check_over F name t c ≡ none
  unfolding check_over
  check_over_fine name none c h = refl
  check_over_fine name (some x) none h = refl
  check_over_fine name (some x) (some m) (inl e) = rw e
  check_over_fine name (some x) (some m) (inr e) = ground arith

  check_throughput_clear :
      (t : Option Float) (c : Option (Metric Float)) → Clears t c → check_throughput F t c ≡ none
  unfolding check_throughput
  check_throughput_clear none c h = refl
  check_throughput_clear (some x) none h = refl
  check_throughput_clear (some x) (some m) (inl e) = rw e
  check_throughput_clear (some x) (some m) (inr e) = ground arith

  -- A Gateway path that is no worse than its thresholds, or than the Ingress path, in every metric,
  -- and clears the floor of the throughput, is never reported.
  pub evaluate_healthy :
      (t : ThresholdSpec Float) (c : Comparison Float)
      → IsFine t.error_rate c.error_rate
      → IsFine (configured F (of_int t.latency_ms)) c.latency_ms
      → IsFine (configured F t.connection_resets) c.connection_resets
      → Clears t.throughput_delta c.throughput
      → evaluate F (some t) (some c) ≡ none
  unfolding evaluate first_breach
  evaluate_healthy t c e l r p = rw (
    check_over_fine _ _ _ e,
    check_over_fine _ _ _ l,
    check_over_fine _ _ _ r,
    check_throughput_clear _ _ p,
  )

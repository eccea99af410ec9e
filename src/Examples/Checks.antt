-- ===== src/Examples/Checks.antt =====
-- The theorems on the hooks, the health check, the conditions and the requests, applied.
use transfergw.Base.{
  ℕ, Bool, ltb, leb, inr, arith, ◌≡◌, ◌≢◌, string_eq, refl, inl, true, false, Option, none, some,
  [], ◌∷◌,
}
use transfergw.Base.Int.{pos, pos_part}
use transfergw.Kube.{cond_true}
use transfergw.Env.{Target, Floats, Comparison}
use transfergw.Api.{ThresholdSpec}
use transfergw.Conditions.{find_condition, set_condition}
use transfergw.Conditions.Laws.{find_condition-set_condition}
use transfergw.Hooks.{pre_conversion, hook_condition_type, run_hook}
use transfergw.Hooks.Laws.{run_hook_once}
use transfergw.Health.{Breach, configured, evaluate}
use transfergw.Health.Breaches.{IsFloat64, IsFine, Violates, evaluate-Violates, evaluate_healthy}
use transfergw.Health.Undefined.{evaluate_nan}
use transfergw.Examples.World.{
  world, migration, nat_floats, error_threshold, measured, fresh_status,
}

proceeds :
    (run_hook world (migration "canary" false) fresh_status pre_conversion true 1000).0.1 ≡ true
unfolding run_hook transfergw.Hooks.hook_to_ask transfergw.Hooks.hook_for string_eq
    transfergw.Hooks.is_approved find_condition transfergw.Hooks.ask_hook
proceeds = refl

run_hook_once_example :
    let m = migration "canary" false in
    run_hook world m
      (run_hook world m fresh_status pre_conversion true 1000).0.0
      pre_conversion
      true
      2000
    ≡ (((run_hook world m fresh_status pre_conversion true 1000).0.0, true), 2000)
run_hook_once_example =
    run_hook_once world (migration "canary" false) fresh_status pre_conversion true 1000 2000
      proceeds

other_type : "Ready" ≢ hook_condition_type pre_conversion
unfolding hook_condition_type
other_type = cc

abbrev errors_up : Breach ℕ
errors_up = record { metric = "error rate"; ingress = 1; gateway = 9; threshold = 5 }

breaks : evaluate nat_floats (some error_threshold) (some (measured 9)) ≡ some errors_up
unfolding evaluate transfergw.Health.first_breach transfergw.Health.check_over
breaks = refl

pub nat_floats-IsFloat64 : IsFloat64 nat_floats
nat_floats-IsFloat64 = record {
  ordered = λ a b num num' h. ground arith;
  nan_le = λ a b nan. ground arith;
}

evaluate-Violates_example : Violates nat_floats error_threshold (measured 9) errors_up
evaluate-Violates_example =
    evaluate-Violates nat_floats nat_floats-IsFloat64 error_threshold (measured 9) errors_up breaks

-- Natural numbers and NaN.
abbrev compared : (ℕ → ℕ → Bool) → Option ℕ → Option ℕ → Bool
compared test (some a) (some b) = test a b
compared test _ _ = false

abbrev nan_floats : Floats
nan_floats = record {
  Float = Option ℕ;
  lt = compared ltb;
  le = compared leb;
  sub = λ a b. none;
  mul = λ a b. none;
  zero_float = some 0;
  one_float = some 1;
  of_int = λ n. some (pos_part n);
  show = λ x. "x";
  show_signed = λ x. "+x";
}

nan_floats_ordered :
    (a b : Option ℕ)
    → compared leb a a ≡ true
    → compared leb b b ≡ true
    → compared leb a b ≡ false
    → compared ltb b a ≡ true
nan_floats_ordered none b h k l = cc
nan_floats_ordered (some a) none h k l = cc
nan_floats_ordered (some a) (some b) h k l = ground arith

nan_floats_nan_le : (a b : Option ℕ) → compared leb a a ≡ false → compared leb a b ≡ false
nan_floats_nan_le none b h = refl
nan_floats_nan_le (some a) none h = refl
nan_floats_nan_le (some a) (some b) h = ground arith

-- A latency without traffic on the Gateway path, and a threshold of 500 ms.
abbrev latency_threshold : ThresholdSpec (Option ℕ)
latency_threshold = record {
  error_rate = none;
  latency_ms = pos 500;
  latency_percentile = "p99";
  connection_resets = some 0;
  throughput_delta = none;
}

abbrev idle : Comparison (Option ℕ)
idle = record {
  error_rate = none;
  latency_ms = some (record { ingress = some 20; gateway = none });
  connection_resets = none;
  throughput = none;
}

latency_configured : configured nan_floats (some 500) ≡ some (some 500)
unfolding configured
latency_configured = refl

evaluate_nan_example :
    (b : Breach (Option ℕ)) × (evaluate nan_floats (some latency_threshold) (some idle) ≡ some b)
evaluate_nan_example =
    evaluate_nan nan_floats (record { ordered = nan_floats_ordered; nan_le = nan_floats_nan_le })
      latency_threshold idle
      (inr (
        inl
          (some 500, record { ingress = some 20; gateway = none }, latency_configured, refl, refl)))

unmeasured : (t : Option ℕ) → IsFine nat_floats t none
unmeasured none = tt
unmeasured (some x) = tt

evaluate_healthy_example : evaluate nat_floats (some error_threshold) (some (measured 2)) ≡ none
evaluate_healthy_example =
    evaluate_healthy nat_floats error_threshold (measured 2) (inl refl) (unmeasured _)
      (unmeasured _) tt

find_condition-set_condition_example :
    find_condition (set_condition fresh_status "Ready" cond_true "Done" "" (pos 7)) "Ready"
    ≡ some (record {
      type = "Ready";
      status = cond_true;
      observed_generation = pos 0;
      last_transition_time = pos 7;
      reason = "Done";
      message = "";
    })
unfolding string_eq find_condition
find_condition-set_condition_example =
    find_condition-set_condition fresh_status "Ready" cond_true "Done" "" (pos 7) "Ready"

abbrev target : Target
target = record { gateway_name = "gw"; gateway_namespace = "shop"; namespaces = "shop" ∷ [] }

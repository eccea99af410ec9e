-- ===== src/Rollout/Bounds.antt =====
-- The range of the percentages of the rollout.
use transfergw.Base.{◌≡◌, ◌⊎◌, String, Option, none, some, string_eq, arith}
use transfergw.Base.Int.{i32, i32_of_fits, ◌-ℤ◌, ℤ, pos, ◌≤ℤ◌, ◌<ℤ◌}
use transfergw.Api.{CanarySpec, TransferGw}
use transfergw.Rollout.{
  Pace, pace, advance, hour, duration_or, since, canary_percentage, rollout_percentage,
}

abbrev pub IsPercentage : ℤ → Type 0
IsPercentage z = (pos 0 ≤ℤ z) × (z ≤ℤ pos 100)

-- What is left of a percentage fits an int32.
pub i32_of_rest : (z : ℤ) → IsPercentage z → i32 (pos 100 -ℤ z) ≡ pos 100 -ℤ z
unfolding ◌-ℤ◌
i32_of_rest z h = i32_of_fits (pos 100 -ℤ z) (ground arith) (ground arith)

pub advance_bounds : (p : Pace) (elapsed : ℤ) → IsPercentage (advance p elapsed)
unfolding advance
advance_bounds p elapsed = ground arith

-- Settings that are missing or out of range are replaced, so the pace is always usable.
abbrev pub IsUsable : Pace → Type 0
IsUsable p = (pos 0 <ℤ p.initial) × (pos 0 <ℤ p.increment) × (pos 0 <ℤ p.step)

pub duration_or_pos : (s : String) (d : ℤ) → pos 0 <ℤ d → pos 0 <ℤ duration_or s d
unfolding duration_or
duration_or_pos s d h = ground arith

pub pace-IsUsable : (c : Option CanarySpec) → IsUsable (pace c)
unfolding pace
pace-IsUsable none = omega arith
pace-IsUsable (some c) = ground (arith, duration_or_pos c.step_duration hour)

module _ {Float : Type 0} (m : TransferGw Float) (now converted failed : ℤ) where
  -- Whatever the spec, the clock and the counts are, the share of the Gateway is a percentage.
  pub rollout_percentage_bounds : IsPercentage (rollout_percentage m now converted failed)
  unfolding rollout_percentage canary_percentage
  rollout_percentage_bounds =
      ground (arith, advance_bounds (pace m.spec.rollout.canary) (since now m.creation_timestamp))

  -- The rollout is held at 0 when nothing was converted, or anything failed to convert.
  pub rollout_percentage_held :
      (converted ≡ pos 0) ⊎ (pos 0 <ℤ failed) → rollout_percentage m now converted failed ≡ pos 0
  unfolding rollout_percentage
  rollout_percentage_held h = ground arith

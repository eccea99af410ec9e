-- ===== src/Rollout.antt =====
-- How much traffic the Gateway should take: rolloutPercentage and canaryPercentage of
-- internal/controller/transfergw_controller.go. The clock is the argument `now`.
pub mod Bounds
pub mod Schedule
use transfergw.Base.{
  ◌≡◌, refl, String, Bool, true, false, ◌||◌, ◌&&◌, Option, none, some, ◌==◌, string_eq, not,
  if◌then◌else◌,
}
use transfergw.Base.Int.{ℤ, pos, negsuc, ◌+ℤ◌, ◌-ℤ◌, ◌*ℤ◌, ◌/ℤ◌, ltb_ℤ, eqb_ℤ, i32}
use transfergw.Base.Duration.{parse_duration}
use transfergw.Api.{CanarySpec, RolloutSpec, TransferGw}

-- time.Hour
abbrev pub hour : ℤ
hour = pos 3600000000000

-- The settings that canaryPercentage works with: the spec's, where it has usable ones.
pub record Pace : Type 0 where
  pub initial : ℤ
  pub increment : ℤ
  pub step : ℤ

abbrev default_pace : Pace
default_pace = record { initial = pos 25; increment = pos 25; step = hour }

-- The duration that a text gives, if it is one and is positive, and a default otherwise.
unfoldable pub duration_or : String → ℤ → ℤ
duration_or s default = elim (parse_duration s) [
  | none ↦ default
  | some d ↦ if ltb_ℤ (pos 0) d then d else default
]

pace_of : CanarySpec → Pace
unfolding duration_or
pace_of c = record {
  initial = if ltb_ℤ (pos 0) c.initial_percentage then c.initial_percentage else pos 25;
  increment = if ltb_ℤ (pos 0) c.increment then c.increment else pos 25;
  step = if not (c.step_duration == "") then duration_or c.step_duration hour else hour;
}

unfoldable pub pace : Option CanarySpec → Pace
unfolding pace_of
pace none = default_pace
pace (some c) = pace_of c

-- time.Since: the difference of two times, held in the range of int64.
unfoldable pub since : ℤ → ℤ → ℤ
since now start =
    let d = now -ℤ start in
    if ltb_ℤ (pos 9223372036854775807) d
    then pos 9223372036854775807
    else if ltb_ℤ d (negsuc 9223372036854775807)
    then negsuc 9223372036854775807
    else d

-- The last lines of canaryPercentage, in int32 arithmetic.
unfoldable pub advance : Pace → ℤ → ℤ
advance p elapsed =
    let steps = i32 (elapsed /ℤ p.step) in
    let pct = i32 (p.initial +ℤ i32 (steps *ℤ p.increment)) in
    if ltb_ℤ (pos 100) pct then pos 100 else if ltb_ℤ pct (pos 0) then pos 0 else pct

module _ {Float : Type 0} where
  unfoldable pub canary_percentage : TransferGw Float → ℤ → ℤ
  canary_percentage m now = advance (pace m.spec.rollout.canary) (since now m.creation_timestamp)

  unfoldable pub rollout_percentage : TransferGw Float → ℤ → ℤ → ℤ → ℤ
  rollout_percentage m now converted failed =
      let mode = m.spec.rollout.mode in
      if eqb_ℤ converted (pos 0)
      then pos 0
      else if ltb_ℤ (pos 0) failed
      then pos 0
      else if mode == "immediate"
      then pos 100
      else if mode == "gradual" || mode == "canary"
      then canary_percentage m now
      else pos 100

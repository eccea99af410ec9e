-- ===== src/Rollout/Schedule.antt =====
-- The canary schedule in numbers, with its int32 arithmetic.
use transfergw.Base.{ℕ, zero, suc, ◌+◌, ◌*◌, ◌/◌, ◌≤◌, ◌<◌, ◌≡◌, ap, ◌∙◌, leb, if◌then◌else◌, arith}
use transfergw.Base.Int.{pos, ◌/ℤ◌, ◌-ℤ◌, ◌+ℤ◌, ◌*ℤ◌, i32, ◌≤ℤ◌}
use transfergw.Api.{TransferGw}
use native.Mathlib.Decide.{dec_lt}
use native.Mathlib.Nat.{mul-le-mul_left}
use transfergw.Rollout.{Pace, pace, since, advance, canary_percentage}

-- The settings as numbers.
abbrev pub pace_at : ℕ → ℕ → ℕ → Pace
pace_at initial increment step = record {
  initial = pos initial;
  increment = pos increment;
  step = pos step;
}

abbrev pub capped : ℕ → ℕ
capped n = if leb 100 n then 100 else n

-- While no int32 operation wraps, the share after k whole steps is the initial one and k
-- increments, up to 100.
pub advance-step :
    (initial increment step elapsed : ℕ)
    → initial + elapsed / step * increment < 2147483648
    → elapsed / step < 2147483648
    → advance (pace_at initial increment step) (pos elapsed)
      ≡ pos (capped (initial + elapsed / step * increment))
unfolding advance ◌/ℤ◌ ◌*ℤ◌ ◌+ℤ◌ i32
advance-step initial increment step elapsed h k = ground arith

div_mono : (step a b : ℕ) → a ≤ b → a / step ≤ b / step
div_mono step a b h = grind arith

steps_mono :
    (increment step elapsed later : ℕ)
    → elapsed ≤ later
    → elapsed / step * increment ≤ later / step * increment
steps_mono increment step elapsed later le = grind (arith, div_mono step elapsed later le)

-- The rollout never moves back while nothing wraps.
advance_mono :
    (initial increment step elapsed later : ℕ)
    → 0 < increment
    → elapsed ≤ later
    → initial + later / step * increment < 2147483648
    → advance (pace_at initial increment step) (pos elapsed)
      ≤ℤ advance (pace_at initial increment step) (pos later)
advance_mono initial increment step elapsed later hi le h =
    rw
      (
        advance-step initial increment step elapsed (omega (arith, mono)) (grind arith),
        advance-step initial increment step later h (grind arith),
      )
      (ground (arith, mono))
  where
    mono : elapsed / step * increment ≤ later / step * increment
    mono = steps_mono increment step elapsed later le

-- While the number of steps is an int32, a sum past the range of int32 wraps to a negative number
-- and the rollout falls back to 0.
advance_wraps :
    (initial increment step elapsed : ℕ)
    → elapsed / step < 2147483648
    → 2147483648 ≤ initial + elapsed / step * increment
    → initial + elapsed / step * increment < 4294967296
    → initial < 2147483648
    → advance (pace_at initial increment step) (pos elapsed) ≡ pos 0
unfolding advance ◌/ℤ◌ ◌*ℤ◌ ◌+ℤ◌ i32
advance_wraps initial increment step elapsed k a b c = ground arith

-- With the increment 1 the number of steps may pass the range of int32 too.
advance_wraps_single :
    (initial step elapsed : ℕ)
    → 2147483648 ≤ elapsed / step
    → initial + elapsed / step < 4294967296
    → initial < 2147483648
    → advance (pace_at initial 1 step) (pos elapsed) ≡ pos 0
unfolding advance ◌/ℤ◌ ◌*ℤ◌ ◌+ℤ◌ i32
advance_wraps_single initial step elapsed k b c = ground arith

-- A number of steps past that range leaves no room for a greater increment.
single_increment :
    (k increment : ℕ) → 2147483648 ≤ k → 0 < increment → k * increment < 4294967296 → increment ≡ 1
single_increment k increment h p b =
    grind (arith, λ (q : 2 ≤ increment). mul-le-mul_left {m = 2} k q)

increment_pos :
    (initial k increment : ℕ)
    → initial < 2147483648
    → 2147483648 ≤ initial + k * increment
    → 0 < increment
increment_pos initial k zero i a = absurd (omega arith)
increment_pos initial k (suc n) i a = omega arith

advance_wraps_all :
    (initial increment step elapsed : ℕ)
    → 2147483648 ≤ initial + elapsed / step * increment
    → initial + elapsed / step * increment < 4294967296
    → initial < 2147483648
    → advance (pace_at initial increment step) (pos elapsed) ≡ pos 0
advance_wraps_all initial increment step elapsed a b i = elim (dec_lt (elapsed / step) 2147483648) [
  | yes k ↦ advance_wraps initial increment step elapsed k a b i
  | no k ↦
      let one =
        single_increment (elapsed / step) increment (omega arith)
          (increment_pos initial (elapsed / step) increment i a) (omega arith) in
      rw one
        (advance_wraps_single initial step elapsed (omega arith) (omega (arith, rw one at b)) i)
]

since_created :
    (created elapsed : ℕ)
    → elapsed ≤ 9223372036854775807
    → since (pos (created + elapsed)) (pos created) ≡ pos elapsed
unfolding since ◌-ℤ◌
since_created created elapsed h = ground arith

-- After 100 steps any positive increment has made 100 percent.
hundred_steps : (step elapsed : ℕ) → 0 < step → 100 * step ≤ elapsed → 100 ≤ elapsed / step
hundred_steps step elapsed hs h = grind (arith, λ (p : elapsed / step ≤ 99). mul-le-mul_left step p)

steps_enough :
    (initial increment step elapsed : ℕ)
    → 0 < step
    → 0 < increment
    → 100 * step ≤ elapsed
    → 100 ≤ initial + elapsed / step * increment
steps_enough initial increment step elapsed hs hi h =
    omega (arith, hundred_steps step elapsed hs h, mul-le-mul_left {m = 1} (elapsed / step) hi)

capped-full : (n : ℕ) → 100 ≤ n → capped n ≡ 100
capped-full n h = ground arith

-- A migration created at a time, with the settings that its spec gives as numbers.
module _ {Float : Type 0} (m : TransferGw Float) (created initial increment step : ℕ)
    (made : m.creation_timestamp ≡ pos created)
    (paced : pace m.spec.rollout.canary ≡ pace_at initial increment step) where
  canary_percentage-since :
      (elapsed : ℕ)
      → elapsed ≤ 9223372036854775807
      → canary_percentage m (pos (created + elapsed))
        ≡ advance (pace_at initial increment step) (pos elapsed)
  unfolding canary_percentage
  canary_percentage-since elapsed h = rw (made, paced, since_created created elapsed h)

  -- While the exact sum and the number of steps are int32s and the time since the creation is an
  -- int64, the canary's share `elapsed` nanoseconds after the creation is the initial percentage
  -- and one increment for each whole step, up to 100.
  pub canary_percentage_schedule :
      (elapsed : ℕ)
      → elapsed ≤ 9223372036854775807
      → elapsed / step < 2147483648
      → initial + elapsed / step * increment < 2147483648
      → canary_percentage m (pos (created + elapsed))
        ≡ pos (capped (initial + elapsed / step * increment))
  canary_percentage_schedule elapsed e k h =
      rw (canary_percentage-since elapsed e) (advance-step initial increment step elapsed h k)

  pub canary_percentage_full :
      (elapsed : ℕ)
      → elapsed ≤ 9223372036854775807
      → 0 < step
      → 0 < increment
      → 100 * step ≤ elapsed
      → initial + elapsed / step * increment < 2147483648
      → canary_percentage m (pos (created + elapsed)) ≡ pos 100
  canary_percentage_full elapsed e hs hi long fits =
      canary_percentage_schedule elapsed e
        (omega (arith, fits, mul-le-mul_left {m = 1} (elapsed / step) hi)) fits
      ∙ ap pos (capped-full _ (steps_enough initial increment step elapsed hs hi long))

  -- With a positive increment, and while the exact sum at the later time is an int32 and the time
  -- since the creation an int64, the canary's share never falls as time goes on.
  canary_percentage_mono :
      (elapsed later : ℕ)
      → elapsed ≤ later
      → later ≤ 9223372036854775807
      → 0 < increment
      → initial + later / step * increment < 2147483648
      → canary_percentage m (pos (created + elapsed)) ≤ℤ canary_percentage m (pos (created + later))
  canary_percentage_mono elapsed later le e hi h =
      rw (canary_percentage-since elapsed (omega arith), canary_percentage-since later e)
        (advance_mono initial increment step elapsed later hi le h)

  -- With an initial percentage that is an int32, and while the time since the creation is an
  -- int64: from the time when the exact sum passes the range of int32, until it reaches 2 ^ 32, the
  -- canary's share is 0.
  pub canary_percentage_wraps :
      (elapsed : ℕ)
      → elapsed ≤ 9223372036854775807
      → initial < 2147483648
      → 2147483648 ≤ initial + elapsed / step * increment
      → initial + elapsed / step * increment < 4294967296
      → canary_percentage m (pos (created + elapsed)) ≡ pos 0
  canary_percentage_wraps elapsed e i a b =
      rw (canary_percentage-since elapsed e)
        (advance_wraps_all initial increment step elapsed a b i)

-- ===== src/Conditions/Laws.antt =====
-- The conditions after setCondition.
use transfergw.Base.{
  ◌≡◌, String, true, false, Option, none, some, List, [], ◌∷◌, ◌==◌, string_eq, arith,
  if◌then◌else◌,
}
use transfergw.Base.Int.{ℤ, pos}
use transfergw.Kube.{Condition, ConditionStatus}
use transfergw.Api.{TransferGwStatus}
use transfergw.Conditions.{
  condition_status_eq, set_in, set_condition, find_in, find_condition, has_in, has_condition,
}

-- What stands under a type after `cond` was set on top of `old`.
abbrev pub settled : Option Condition → Condition → Condition
settled none cond = cond
settled (some c) cond = record cond {
  last_transition_time =
      if c.status == cond.status then c.last_transition_time else cond.last_transition_time;
}

pub find_in-set_in :
    (cs : List Condition) (cond : Condition) (type : String)
    → find_in (set_in cs cond) type
      ≡ (if cond.type == type then some (settled (find_in cs cond.type) cond) else find_in cs type)
unfolding set_in find_in
find_in-set_in [] cond type = ground arith
find_in-set_in (c ∷ cs) cond type = ground (arith, find_in-set_in cs cond type)

-- Reading a condition back: the type that was set has the new status, reason and message, with the
-- time of its last transition kept exactly if its status stayed; every other type is as before.
pub find_condition-set_condition :
    (st : TransferGwStatus) (type : String) (s : ConditionStatus) (reason msg : String) (now : ℤ)
    (other : String)
    → find_condition (set_condition st type s reason msg now) other ≡ (
        if type == other
        then some (
            settled (find_condition st type) (record {
              type = type;
              status = s;
              observed_generation = pos 0;
              last_transition_time = now;
              reason = reason;
              message = msg;
            }))
        else find_condition st other)
unfolding set_condition find_condition
find_condition-set_condition st type s reason msg now other = find_in-set_in st.conditions _ other

-- No type is listed twice.
abbrev pub Distinct : List Condition → Type 0
Distinct [] = Unit
Distinct (c ∷ cs) = (has_in cs c.type ≡ false) × Distinct cs

has_in-set_in :
    (cs : List Condition) (cond : Condition) (type : String)
    → has_in (set_in cs cond) type ≡ (if cond.type == type then true else has_in cs type)
unfolding set_in has_in
has_in-set_in [] cond type = ground arith
has_in-set_in (c ∷ cs) cond type = ground (arith, has_in-set_in cs cond type)

set_in-Distinct : (cs : List Condition) (cond : Condition) → Distinct cs → Distinct (set_in cs cond)
unfolding set_in has_in
set_in-Distinct [] cond d = ground arith
set_in-Distinct (c ∷ cs) cond d =
    ground (arith, set_in-Distinct cs cond d.1, has_in-set_in cs cond c.type)

-- A status that lists no condition type twice keeps that when a condition is set, and then has the
-- type that was set.
pub set_condition-Distinct :
    (st : TransferGwStatus) (type : String) (s : ConditionStatus) (reason msg : String) (now : ℤ)
    → Distinct st.conditions
    → Distinct (set_condition st type s reason msg now).conditions
      × (has_condition (set_condition st type s reason msg now) type ≡ true)
unfolding set_condition has_condition
set_condition-Distinct st type s reason msg now d = (
  set_in-Distinct st.conditions _ d,
  ground (
    arith,
    has_in-set_in st.conditions
        (record {
          type = type;
          status = s;
          observed_generation = pos 0;
          last_transition_time = now;
          reason = reason;
          message = msg;
        })
        type,
  ),
)

-- ===== src/Conditions.antt =====
-- The conditions of a status: setCondition, findCondition and hasCondition of
-- internal/controller/transfergw_controller.go. The clock is the argument `now`.
pub mod Laws
use transfergw.Base.{
  ◌≡◌, String, Bool, true, false, Option, none, some, List, [], ◌∷◌, Eq, ◌==◌, string_eq,
  if◌then◌else◌,
}
use transfergw.Base.Int.{ℤ, pos}
use transfergw.Kube.{Condition, ConditionStatus}
use transfergw.Api.{TransferGwStatus}

pub ConditionStatus-discrete : Discrete ConditionStatus
ConditionStatus-discrete = hlevel

instance unfoldable pub condition_status_eq : Eq ConditionStatus
condition_status_eq = record { dec = ConditionStatus-discrete }

-- The loop of setCondition: the first condition of the type is replaced, and keeps the time of its
-- last transition if its status stays; without one the new condition is appended.
unfoldable pub set_in : List Condition → Condition → List Condition
set_in [] cond = cond ∷ []
set_in (c ∷ cs) cond =
    let rest = set_in cs cond in
    if c.type == cond.type
    then record cond {
      last_transition_time =
          if c.status == cond.status then c.last_transition_time else cond.last_transition_time;
    }
      ∷ cs
    else c ∷ rest

unfoldable pub set_condition :
    TransferGwStatus → String → ConditionStatus → String → String → ℤ → TransferGwStatus
set_condition st type s reason msg now = record st {
  conditions = set_in st.conditions (record {
    type = type;
    status = s;
    observed_generation = pos 0;
    last_transition_time = now;
    reason = reason;
    message = msg;
  });
}

unfoldable pub find_in : List Condition → String → Option Condition
find_in [] type = none
find_in (c ∷ cs) type = if c.type == type then some c else find_in cs type

unfoldable pub find_condition : TransferGwStatus → String → Option Condition
unfolding find_in
find_condition st type = find_in st.conditions type

unfoldable pub has_in : List Condition → String → Bool
has_in [] type = false
has_in (c ∷ cs) type = if c.type == type then true else has_in cs type

unfoldable pub has_condition : TransferGwStatus → String → Bool
unfolding has_in
has_condition st type = has_in st.conditions type

-- ===== src/Api/Status.antt =====
-- api/v1alpha/conduit_types.go: the methods of `ConduitStatus`.
pub mod Laws
use conduit_operator.Prelude.{ℕ, String, ◌==◌, Bool, false, not, Option, none, some}
use conduit_operator.Api.Condition.{Condition, ConditionType, ConditionStatus, find}
use conduit_operator.Api.ConditionSet
use conduit_operator.Api.Types.{ConduitStatus, conduit_conditions}

-- `now` and `now'` are the two readings of the clock.
unfoldable pub set_condition :
    ℕ → ℕ → ConduitStatus → ConditionType → ConditionStatus → String → String → ConduitStatus
set_condition now now' s ct status reason message = record s {
  conditions =
      ConditionSet.set_condition now now' conduit_conditions s.conditions ct status reason message;
}

unfoldable pub get_condition : ConduitStatus → ConditionType → Option Condition
unfolding ConditionSet.get_condition
get_condition s ct = ConditionSet.get_condition conduit_conditions s.conditions ct

unfoldable pub condition_changed : ConduitStatus → ConditionType → ConditionStatus → Bool
unfolding ConditionSet.get_condition
condition_changed s ct expected =
    elim (ConditionSet.get_condition conduit_conditions s.conditions ct) [
      | none ↦ false
      | some cond ↦ not (cond.status == expected)
    ]

-- ===== src/Api/ConditionSet.antt =====
-- api/v1alpha/condition.go: `ConditionSet`, a main condition that sums up its dependent conditions.
pub mod Ready
pub mod Repeat
use conduit_operator.Prelude.{
  ℕ, String, ◌==◌, Bool, true, false, Option, List, [], ◌∷◌, some, if◌then◌else◌, ◌||◌, ◌&&◌, not,
}
use conduit_operator.Api.Condition
use conduit_operator.Api.Condition.{
  Condition, Conditions, ConditionType, ConditionStatus, condition_true, condition_false,
  condition_unknown, is_false, is_unknown, find,
}

pub record ConditionSet : Type 0 where
  pub main : ConditionType
  pub deps : List ConditionType

abbrev pub new_condition_set : ConditionType → List ConditionType → ConditionSet
new_condition_set main deps = record { main = main; deps = deps }

abbrev pub get_condition_types : ConditionSet → List ConditionType
get_condition_types l = l.main ∷ l.deps

abbrev pub get_dependent_condition_types : ConditionSet → List ConditionType
get_dependent_condition_types l = l.deps

unfoldable pub get_condition : ConditionSet → Conditions → ConditionType → Option Condition
unfolding find
get_condition l conds t = find conds t

-- The flags `hasFailedCond` and `hasUnknownCond`.
pub record Flags : Type 0 where
  pub failed : Bool
  pub unknown : Bool

-- What a condition of the dependent type does to the flags.
unfoldable pub note : Condition → Flags → Flags
unfolding is_false is_unknown
note c flags =
    if is_false (some c)
    then record flags { failed = true }
    else if is_unknown (some c)
    then record flags { unknown = true }
    else flags

-- The inner loop for one dependent condition; the second part of the result is `found`.
unfoldable pub scan_conds : ConditionType → Conditions → Flags → Bool → Flags × Bool
scan_conds dep [] flags found = (flags, found)
scan_conds dep (c ∷ cs) flags found =
    scan_conds dep cs (if c.type == dep then note c flags else flags) (c.type == dep || found)

-- The loop over the dependent conditions.
unfoldable pub scan_deps : List ConditionType → Conditions → Flags → Flags
unfolding scan_conds
scan_deps [] conds flags = flags
scan_deps (dep ∷ deps) conds flags =
    let (flags', found) = scan_conds dep conds flags false in
    scan_deps deps conds (if found then flags' else record flags' { unknown = true })

-- `now` and `now'` are the readings of the clock by the two calls of `setCondition`.
unfoldable pub set_condition :
    ℕ
    → ℕ
    → ConditionSet
    → Conditions
    → ConditionType
    → ConditionStatus
    → String
    → String
    → Conditions
set_condition now now' l conds ct status reason message =
    let new_conds = Condition.set_condition now conds ct status reason message in
    let flags = scan_deps l.deps new_conds (record { failed = false; unknown = false }) in
    if flags.failed
    then Condition.set_condition now' new_conds l.main condition_false "ConditionFailed"
        "Conditions failed"
    else if flags.unknown
    then Condition.set_condition now' new_conds l.main condition_unknown "ConditionUnknown"
        "Conditions unknown"
    else Condition.set_condition now' new_conds l.main condition_true "OK" ""

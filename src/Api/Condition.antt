-- ===== src/Api/Condition.antt =====
-- api/v1alpha/condition.go: one condition, the lookup by type, and `setCondition` on a list.
--
-- `metav1.Now()` is the argument `now`. `sort.Sort` is an insertion sort by type: it keeps the order
-- of equal types, as Go's does on lists of at most twelve.

pub mod Sorting
pub mod Setting
use conduit_operator.Prelude.{
  ℕ, String, ◌==◌, Bool, true, false, not, ◌&&◌, Option, none, some, List, [], ◌∷◌, ◌++◌,
  if◌then◌else◌,
}
use conduit_operator.Strings.Order.{text_lt}

abbrev pub ConditionType : Type 0
ConditionType = String

-- `corev1.ConditionStatus` is a string type with three named values.
abbrev pub ConditionStatus : Type 0
ConditionStatus = String

abbrev pub condition_true : ConditionStatus
condition_true = "True"

abbrev pub condition_false : ConditionStatus
condition_false = "False"

abbrev pub condition_unknown : ConditionStatus
condition_unknown = "Unknown"

pub record Condition : Type 0 where
  pub type : ConditionType
  pub status : ConditionStatus
  pub reason : String
  pub message : String
  pub last_transition_time : Option ℕ

abbrev pub Conditions : Type 0
Conditions = List Condition

-- The methods on `*Condition`: a nil pointer is `none`.
unfoldable pub is_true : Option Condition → Bool
is_true none = false
is_true (some c) = c.status == condition_true

unfoldable pub is_false : Option Condition → Bool
is_false none = false
is_false (some c) = c.status == condition_false

unfoldable pub is_unknown : Option Condition → Bool
is_unknown none = true
is_unknown (some c) = c.status == condition_unknown

-- `Less` of `Conditions`.
unfoldable pub less : Condition → Condition → Bool
less a b = text_lt a.type b.type

unfoldable pub insert_sorted : Condition → Conditions → Conditions
insert_sorted x [] = x ∷ []
insert_sorted x (y ∷ ys) =
    let rest = insert_sorted x ys in if less y x then y ∷ rest else x ∷ y ∷ ys

unfoldable pub sort : Conditions → Conditions
sort [] = []
sort (x ∷ xs) = insert_sorted x (sort xs)

unfoldable pub cond_equals : Condition → ConditionStatus → String → String → Bool
cond_equals c status reason message =
    c.status == status && (c.reason == reason && c.message == message)

-- The loop of `setCondition`: each condition of the type that differs gives way to the updated one.
unfoldable pub update : Condition → Conditions → Conditions
update u [] = []
update u (c ∷ cs) =
    (if c.type == u.type && not (cond_equals c u.status u.reason u.message) then u else c)
    ∷ update u cs

-- The flag `shouldCreate`: no condition has the type.
unfoldable pub should_create : ConditionType → Conditions → Bool
should_create ct [] = true
should_create ct (c ∷ cs) = if c.type == ct then false else should_create ct cs

-- The variable `updatedCond` of `setCondition`.
abbrev pub updated_cond : ℕ → ConditionType → ConditionStatus → String → String → Condition
updated_cond now ct status reason message = record {
  type = ct;
  status = status;
  reason = reason;
  message = message;
  last_transition_time = some now;
}

unfoldable pub set_condition :
    ℕ → Conditions → ConditionType → ConditionStatus → String → String → Conditions
set_condition now conds ct status reason message =
    let u = updated_cond now ct status reason message in
    sort (update u conds ++ (if should_create ct conds then u ∷ [] else []))

-- The loop of `ConditionSet.GetCondition`: the first condition of the type.
unfoldable pub find : Conditions → ConditionType → Option Condition
find [] t = none
find (c ∷ cs) t = if c.type == t then some c else find cs t

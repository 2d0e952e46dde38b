-- ===== src/System/Bound.antt =====
-- api/v1alpha/condition.go: conditions of the set's types only, one a type, are at most as many.
use conduit_operator.Prelude.{
  suc, ◌≤◌, ◌≡◌, refl, true, false, ◌==◌, Option, none, some, ◌∙◌, List, [], ◌∷◌, arith, eq_iff,
  eq_refl, subst, if◌then◌else◌, Bool-cases, inl, inr,
}
use conduit_operator.Prelude.Lists.{length, contains}
use conduit_operator.Api.Condition.{Condition, Conditions, ConditionType, find}
use conduit_operator.Api.Condition.Sorting.{UniqueTypes}
use conduit_operator.Api.ConditionSet.{get_condition_types}
use conduit_operator.Api.Types.{ConduitStatus, conduit_conditions}
use conduit_operator.Controller.Touches.{status_in, status_of, Sound, Touches}

-- The types of the set, `Ready` first.
abbrev pub types : List ConditionType
types = get_condition_types conduit_conditions

-- No condition has another type.
abbrev pub Known : ConduitStatus → Type 0
Known s = (t : ConditionType) → contains types t ≡ false → status_of t s ≡ none

without : List ConditionType → ConditionType → List ConditionType
without [] t = []
without (x ∷ xs) t = if x == t then xs else x ∷ without xs t

length-without :
    (l : List ConditionType) (t : ConditionType)
    → contains l t ≡ true
    → length l ≡ suc (length (without l t))
unfolding without contains
length-without [] t h = cc h
length-without (x ∷ l) t h = ground (arith, length-without l t)

contains-without :
    (l : List ConditionType) (t u : ConditionType)
    → (t == u) ≡ false
    → contains (without l t) u ≡ contains l u
unfolding without contains
contains-without [] t u h = refl
contains-without (x ∷ l) t u h =
    ground (arith, contains-without l t u h, eq_iff x t, eq_iff x u, eq_iff t u)

find_of_without :
    (x : Condition) (l : Conditions) (among : List ConditionType)
    → UniqueTypes (x ∷ l)
    → ((t : ConditionType) → contains among t ≡ false → find (x ∷ l) t ≡ none)
    → (t : ConditionType) → contains (without among x.type) t ≡ false
    → find l t ≡ none
unfolding find
find_of_without x l among u h t out = elim (Bool-cases (x.type == t)) [
  | inl e ↦ subst (λ v. find l v ≡ none) ((eq_iff x.type t).0 e) u.0
  | inr e ↦ ground (arith, h t, contains-without among x.type t e)
]

length-le :
    (l : Conditions) (among : List ConditionType)
    → UniqueTypes l
    → ((t : ConditionType) → contains among t ≡ false → find l t ≡ none)
    → length l ≤ length among
unfolding find
length-le [] among u h = omega arith
length-le (x ∷ l) among u h = elim (Bool-cases (contains among x.type)) [
  | inr e ↦ absurd (ground (arith, h x.type e, eq_refl x.type))
  | inl e ↦
      let rest = length-le l (without among x.type) u.1 (find_of_without x l among u h) in
      omega (arith, length-without among x.type e, rest)
]

none_of_status_of : (found : Option Condition) → status_in found ≡ none → found ≡ none
none_of_status_of none h = refl
none_of_status_of (some c) h = cc h

-- A status of the set's types with one condition a type has at most six conditions.
pub length-conditions : (s : ConduitStatus) → Sound s → Known s → length s.conditions ≤ length types
length-conditions s w known =
    length-le s.conditions types w.1 (λ t e. none_of_status_of (find s.conditions t) (known t e))

not_of_contains :
    (l : List ConditionType) (t u : ConditionType)
    → contains l t ≡ true
    → contains l u ≡ false
    → (t == u) ≡ false
unfolding contains
not_of_contains [] t u h k = cc h
not_of_contains (x ∷ l) t u h k =
    ground (arith, not_of_contains l t u, eq_iff x t, eq_iff x u, eq_iff t u)

pub Touches-Known :
    (ct : ConditionType) (s after : ConduitStatus)
    → Touches ct s after
    → contains types ct ≡ true
    → Known s
    → Known after
unfolding contains
Touches-Known ct s after touches among known t out =
    touches.frame t (not_of_contains types ct t among out)
      (not_of_contains types "Ready" t refl out)
    ∙ known t out

-- ===== src/Api/Status/Laws.antt =====
-- api/v1alpha/conduit_types.go: the `Ready` condition of a status and its change test.
use conduit_operator.Prelude.{
  ℕ, String, ◌==◌, ◌≡◌, refl, Bool, false, not, ◌&&◌, [], ◌∷◌, List, arith, eq_refl, Bool-cases,
  inl, inr,
}
use conduit_operator.Prelude.Lists.{any, all, contains}
use conduit_operator.Api.Condition.{
  Conditions, ConditionType, ConditionStatus, condition_true, find, is_true, is_false, is_unknown,
}
use conduit_operator.Api.ConditionSet.Ready.{
  WellFormed, verdict, set_condition-WellFormed, find-set_condition_self, merged_fields,
  set_condition-main,
}
use conduit_operator.Api.Types.{ConduitStatus, conduit_conditions, condition_conduit_ready}
use conduit_operator.Api.Status.{set_condition, get_condition, condition_changed}

-- Neither false nor unknown; a missing condition is unknown.
abbrev pub is_met : Conditions → ConditionType → Bool
is_met conds d = not (is_false (find conds d)) && not (is_unknown (find conds d))

all-is_met :
    (conds : Conditions) (deps : List ConditionType)
    → all (is_met conds) deps ≡ (
        not (any (λ d. is_false (find conds d)) deps)
        && not (any (λ d. is_unknown (find conds d)) deps))
unfolding all any
all-is_met conds [] = refl
all-is_met conds (d ∷ deps) = ground (arith, all-is_met conds deps)

verdict-true :
    (conds : Conditions)
    → ((verdict conduit_conditions conds).status == condition_true)
      ≡ all (is_met conds) conduit_conditions.deps
unfolding verdict
verdict-true conds =
    let deps = conduit_conditions.deps in
    elim (Bool-cases (any (λ d. is_false (find conds d)) deps)) [
      | inl e ↦ rw (all-is_met conds deps, e)
      | inr e ↦ elim (Bool-cases (any (λ d. is_unknown (find conds d)) deps)) [
        | inl e' ↦ rw (all-is_met conds deps, e, e')
        | inr e' ↦ rw (all-is_met conds deps, e, e')
      ]
    ]

module _ (now now' : ℕ) (s : ConduitStatus) (ct : ConditionType) (status : ConditionStatus)
    (reason message : String) (w : WellFormed s.conditions) where
  pub set_condition_keeps_WellFormed :
      WellFormed (set_condition now now' s ct status reason message).conditions
  unfolding set_condition
  set_condition_keeps_WellFormed =
      set_condition-WellFormed now now' conduit_conditions s.conditions ct status reason message w.1

  -- After a call of SetCondition on a status whose conditions are in order with one a type, Ready
  -- is true exactly when each of the five dependent conditions is listed and is neither false nor
  -- unknown.
  pub is_true-ready :
      let after = set_condition now now' s ct status reason message in
      is_true (get_condition after condition_conduit_ready)
      ≡ all (is_met after.conditions) conduit_conditions.deps
  unfolding set_condition get_condition contains
  is_true-ready =
      let (c, found, p, q, r) =
        set_condition-main now now' conduit_conditions s.conditions ct status reason message w.1
          refl in
      rw (found, ← verdict-true) (unfold is_true in rw p)

  -- On a status whose conditions are in order with one a type, a status that SetCondition has set,
  -- for a type other than Ready, is not reported as changed.
  pub condition_changed-set_condition :
      (condition_conduit_ready == ct) ≡ false
      → condition_changed (set_condition now now' s ct status reason message) ct status ≡ false
  unfolding condition_changed set_condition
  condition_changed-set_condition ne =
      let h = merged_fields (find s.conditions ct) now ct status reason message in
      rw (
        condition_changed,
        find-set_condition_self now now' conduit_conditions s.conditions ct status reason message
            w.1 ne,
        h.0,
        eq_refl status,
      )

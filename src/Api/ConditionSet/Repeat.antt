-- ===== src/Api/ConditionSet/Repeat.antt =====
-- api/v1alpha/condition.go: a repeated call of `SetCondition`.
use conduit_operator.Prelude.{ℕ, String, ◌≡◌, true, false, some, ◌==◌, eq_refl}
use conduit_operator.Prelude.Lists.{contains}
use conduit_operator.Api.Condition.{
  Condition, Conditions, ConditionType, ConditionStatus, cond_equals, find,
}
use conduit_operator.Api.Condition.Setting.{set_condition_same}
use conduit_operator.Api.ConditionSet.{ConditionSet, set_condition}
use conduit_operator.Api.ConditionSet.Ready.{
  WellFormed, verdict, merged_fields, set_condition_lem, set_condition-WellFormed,
  set_condition-main, find-set_condition_self,
}

cond_equals_of_fields :
    (c : Condition) (status : ConditionStatus) (reason message : String)
    → c.status ≡ status
    → c.reason ≡ reason
    → c.message ≡ message
    → cond_equals c status reason message ≡ true
unfolding cond_equals
cond_equals_of_fields c status reason message p q r =
    rw (p, q, r, eq_refl status, eq_refl reason, eq_refl message)

module _ (l : ConditionSet) (ct : ConditionType) (status : ConditionStatus)
    (reason message : String) where
  -- A list where the condition of the type and the main condition are already what the call would
  -- make of them is returned as it is, whatever the clock says.
  pub set_condition_settled :
      (now now' : ℕ) (conds : Conditions) (c m : Condition)
      → WellFormed conds
      → find conds ct ≡ some c
      → cond_equals c status reason message ≡ true
      → find conds l.main ≡ some m
      → m.status ≡ (verdict l conds).status
      → m.reason ≡ (verdict l conds).reason
      → m.message ≡ (verdict l conds).message
      → set_condition now now' l conds ct status reason message ≡ conds
  set_condition_settled now now' conds c m w e same main p q r =
      let v = verdict l conds in
      rw
        (
          set_condition_lem now now' l conds ct status reason message w.1,
          set_condition_same now conds ct status reason message c w.0 w.1 e same,
        )
        (set_condition_same now' conds l.main v.status v.reason v.message m w.0 w.1 main
          (cond_equals_of_fields m v.status v.reason v.message p q r))

  -- On conditions in order with one a type, for a type that is not the main one, and a main type
  -- that is not a dependent one, a second call of SetCondition with the same arguments, at any
  -- later time, changes nothing.
  pub set_condition_idem :
      (now now' later later' : ℕ) (conds : Conditions)
      → WellFormed conds
      → (l.main == ct) ≡ false
      → contains l.deps l.main ≡ false
      → set_condition later later' l
          (set_condition now now' l conds ct status reason message)
          ct
          status
          reason
          message
        ≡ set_condition now now' l conds ct status reason message
  set_condition_idem now now' later later' conds w ne out =
      let (m, found, p, q, r) =
        set_condition-main now now' l conds ct status reason message w.1 out in
      let h = merged_fields (find conds ct) now ct status reason message in
      set_condition_settled later later' _ _ m
        (set_condition-WellFormed now now' l conds ct status reason message w.1)
        (find-set_condition_self now now' l conds ct status reason message w.1 ne)
        (cond_equals_of_fields _ status reason message h.0 h.1 h.2) found p q r

-- ===== src/Api/ConditionSet/Ready.antt =====
-- api/v1alpha/condition.go: the main condition beside the dependent ones.
use conduit_operator.Prelude.{
  ℕ, String, ◌≡◌, refl, ap, true, false, Bool, ◌||◌, Option, none, some, List, [], ◌∷◌, ◌==◌,
  eq_iff, eq_refl, arith, if◌then◌else◌, Option-cases, inl, inr,
}
use conduit_operator.Prelude.Lists.{any, contains}
use conduit_operator.Api.Condition
use conduit_operator.Api.Condition.{
  Condition, Conditions, ConditionType, ConditionStatus, condition_true, condition_false,
  condition_unknown, is_false, is_unknown, find, cond_equals,
}
use conduit_operator.Api.Condition.Sorting.{IsSorted, UniqueTypes}
use conduit_operator.Api.Condition.Setting.{
  merged, find-set_condition, set_condition-IsSorted, set_condition-UniqueTypes,
}
use conduit_operator.Api.ConditionSet.{
  ConditionSet, Flags, note, scan_conds, scan_deps, set_condition,
}

-- What one dependent condition adds to the flags, by its lookup.
scan_conds_of_absent :
    (dep : ConditionType) (l : Conditions) (flags : Flags) (found : Bool)
    → find l dep ≡ none
    → scan_conds dep l flags found ≡ (flags, found)
unfolding find scan_conds
scan_conds_of_absent dep [] flags found e = refl
scan_conds_of_absent dep (c ∷ l) flags found e =
    ground (arith, scan_conds_of_absent dep l flags found)

scan_conds_lem :
    (dep : ConditionType) (l : Conditions) (flags : Flags)
    → UniqueTypes l
    → scan_conds dep l flags false
      ≡ elim (find l dep) [ none ↦ (flags, false) | some c ↦ (note c flags, true) ]
unfolding find scan_conds
scan_conds_lem dep [] flags u = refl
scan_conds_lem dep (c ∷ l) flags u = ground (
  arith,
  scan_conds_lem dep l flags,
  scan_conds_of_absent dep l (note c flags) true,
  eq_iff c.type dep,
)

flags-note :
    (c : Condition) (flags : Flags)
    → note c flags ≡ record {
      failed = flags.failed || is_false (some c);
      unknown = flags.unknown || is_unknown (some c);
    }
unfolding note is_false is_unknown
flags-note c flags = ground (
  arith,
  eq_iff c.status condition_false,
  eq_iff c.status condition_unknown,
  eq_iff condition_false condition_unknown,
)

-- The flags after the loop: some dependent condition is false; some is missing or unknown.
scan_deps_lem :
    (deps : List ConditionType) (l : Conditions) (flags : Flags)
    → UniqueTypes l
    → scan_deps deps l flags ≡ record {
      failed = flags.failed || any (λ d. is_false (find l d)) deps;
      unknown = flags.unknown || any (λ d. is_unknown (find l d)) deps;
    }
unfolding scan_deps any is_false is_unknown
scan_deps_lem [] l flags u = ground arith
scan_deps_lem (d ∷ deps) l flags u = elim (Option-cases (find l d)) [
  | inl e ↦
      rw (scan_conds_lem d l flags u, e)
        (ground (arith, scan_deps_lem deps l (record flags { unknown = true }) u, e))
  | inr (c, e) ↦
      rw (scan_conds_lem d l flags u, e)
        (ground (arith, scan_deps_lem deps l (note c flags) u, e, flags-note c flags))
]

-- The verdict on the dependent conditions: the status, reason and message of the main condition.
pub record Verdict : Type 0 where
  pub status : ConditionStatus
  pub reason : String
  pub message : String

unfoldable pub verdict : ConditionSet → Conditions → Verdict
verdict l conds =
    if any (λ d. is_false (find conds d)) l.deps
    then record {
      status = condition_false;
      reason = "ConditionFailed";
      message = "Conditions failed";
    }
    else if any (λ d. is_unknown (find conds d)) l.deps
    then record {
      status = condition_unknown;
      reason = "ConditionUnknown";
      message = "Conditions unknown";
    }
    else record { status = condition_true; reason = "OK"; message = "" }

any_of_eq :
    (p q : ConditionType → Bool) (main : ConditionType) (deps : List ConditionType)
    → ((d : ConditionType) → (main == d) ≡ false → p d ≡ q d)
    → contains deps main ≡ false
    → any p deps ≡ any q deps
unfolding any contains
any_of_eq p q main [] h e = refl
any_of_eq p q main (d ∷ deps) h e =
    ground (arith, any_of_eq p q main deps h, h d, eq_iff main d, eq_iff d main)

verdict_of_eq :
    (l : ConditionSet) (a b : Conditions)
    → ((d : ConditionType) → (l.main == d) ≡ false → find a d ≡ find b d)
    → contains l.deps l.main ≡ false
    → verdict l a ≡ verdict l b
unfolding verdict
verdict_of_eq l a b h out = ground (
  arith,
  any_of_eq (λ d. is_false (find a d)) (λ d. is_false (find b d)) l.main l.deps
      (λ d e. ap is_false (h d e)) out,
  any_of_eq (λ d. is_unknown (find a d)) (λ d. is_unknown (find b d)) l.main l.deps
      (λ d e. ap is_unknown (h d e)) out,
)

-- What a call leaves at its type has the status, the reason and the message of the call.
pub merged_fields :
    (old : Option Condition) (now : ℕ) (ct : ConditionType) (status : ConditionStatus)
    (reason message : String)
    → let c = merged old now ct status reason message in
      (c.status ≡ status) × (c.reason ≡ reason) × (c.message ≡ message)
unfolding cond_equals
merged_fields none now ct status reason message = (refl, refl, refl)
merged_fields (some c) now ct status reason message =
    ground (arith, eq_iff c.status status, eq_iff c.reason reason, eq_iff c.message message)

-- In order, and with one condition a type.
abbrev pub WellFormed : Conditions → Type 0
WellFormed l = IsSorted l × UniqueTypes l

module _ (now now' : ℕ) (l : ConditionSet) (conds : Conditions) (ct : ConditionType)
    (status : ConditionStatus) (reason message : String) where
  abbrev pub middle : Conditions
  middle = Condition.set_condition now conds ct status reason message

  -- A call is two calls of `setCondition`: the second sets the main condition to the verdict.
  pub set_condition_lem :
      UniqueTypes conds
      → set_condition now now' l conds ct status reason message ≡ (
          let v = verdict l middle in
          Condition.set_condition now' middle l.main v.status v.reason v.message)
  unfolding set_condition verdict
  set_condition_lem u =
      rw
        (scan_deps_lem l.deps middle _
          (set_condition-UniqueTypes now conds ct status reason message u))
        (ground arith)

  -- The result of SetCondition is in order and has one condition a type, if the types were unique.
  pub set_condition-WellFormed :
      UniqueTypes conds → WellFormed (set_condition now now' l conds ct status reason message)
  set_condition-WellFormed u =
      let v = verdict l middle in
      rw (set_condition_lem u) (
        set_condition-IsSorted now' middle l.main v.status v.reason v.message,
        set_condition-UniqueTypes now' middle l.main v.status v.reason v.message
            (set_condition-UniqueTypes now conds ct status reason message u),
      )

  -- Where the types of the conditions are unique, SetCondition changes no lookup but those of the
  -- given type and of the main type.
  pub find-set_condition_ne :
      UniqueTypes conds
      → (t : ConditionType) → (ct == t) ≡ false
      → (l.main == t) ≡ false
      → find (set_condition now now' l conds ct status reason message) t ≡ find conds t
  find-set_condition_ne u t e e' =
      let v = verdict l middle in
      rw (set_condition_lem u) (
        ground (
          arith,
          find-set_condition now' middle l.main v.status v.reason v.message t,
          find-set_condition now conds ct status reason message t,
        ))

  -- The condition of the given type, if it is not the main one, is the old one or the new one.
  pub find-set_condition_self :
      UniqueTypes conds
      → (l.main == ct) ≡ false
      → find (set_condition now now' l conds ct status reason message) ct
        ≡ some (merged (find conds ct) now ct status reason message)
  find-set_condition_self u e =
      let v = verdict l middle in
      rw (set_condition_lem u) (
        ground (
          arith,
          find-set_condition now' middle l.main v.status v.reason v.message ct,
          find-set_condition now conds ct status reason message ct,
          eq_refl ct,
        ))

  pub verdict_final :
      UniqueTypes conds
      → contains l.deps l.main ≡ false
      → verdict l (set_condition now now' l conds ct status reason message) ≡ verdict l middle
  verdict_final u out =
      let v = verdict l middle in
      verdict_of_eq l _ middle
        (λ d e.
          rw (set_condition_lem u)
            (rw (find-set_condition now' middle l.main v.status v.reason v.message d, e)))
        out

  -- Where the types of the conditions are unique and the main type is not a dependent one, after
  -- ConditionSet.SetCondition the main condition is there, and its status, reason and message are
  -- the verdict on the dependent conditions as the result lists them.
  pub set_condition-main :
      UniqueTypes conds
      → contains l.deps l.main ≡ false
      → let after = set_condition now now' l conds ct status reason message in
        let v = verdict l after in
        (c : Condition) × (find after l.main ≡ some c)
        × (c.status ≡ v.status)
        × (c.reason ≡ v.reason)
        × (c.message ≡ v.message)
  set_condition-main u out =
      let v = verdict l middle in
      let c = merged (find middle l.main) now' l.main v.status v.reason v.message in
      let h = merged_fields (find middle l.main) now' l.main v.status v.reason v.message in
      rw (verdict_final u out) (
        c,
        rw (set_condition_lem u) (
            rw (find-set_condition now' middle l.main v.status v.reason v.message l.main, eq_refl)),
        h.0,
        h.1,
        h.2,
      )

-- ===== src/Webhook/Defaulter/Conditions.antt =====
-- internal/webhook/v1alpha/conduit_webhook.go: the conditions that `Default` sets.
use conduit_operator.Prelude.{
  ℕ, String, ◌+◌, ◌≡◌, ◌≢◌, refl, none, some, List, [], ◌∷◌, arith, eq_refl, Option-cases, inl, inr,
}
use conduit_operator.Prelude.Lists.{All}
use conduit_operator.Api.Condition
use conduit_operator.Api.Condition.{
  Conditions, ConditionType, ConditionStatus, condition_true, condition_false, condition_unknown,
  find,
}
use conduit_operator.Api.Condition.Setting.{find-set_condition}
use conduit_operator.Api.ConditionSet
use conduit_operator.Api.ConditionSet.{ConditionSet}
use conduit_operator.Api.Status.{set_condition, get_condition}
use conduit_operator.Api.Types.{ConduitStatus, conduit_conditions}
use conduit_operator.Webhook.Defaulter.{default_conditions}

-- The status lists a condition of the type.
abbrev pub Present : ConduitStatus → ConditionType → Type 0
Present s t = get_condition s t ≢ none

module _ (now : ℕ) (l : Conditions) (ct : ConditionType) (status : ConditionStatus)
    (reason message : String) where
  find-set_condition_present :
      find (Condition.set_condition now l ct status reason message) ct ≢ none
  find-set_condition_present =
      rw (find-set_condition now l ct status reason message ct, eq_refl ct) (ground arith)

  find-set_condition_keeps :
      (t : ConditionType)
      → find l t ≢ none
      → find (Condition.set_condition now l ct status reason message) t ≢ none
  find-set_condition_keeps t h = ground (arith, find-set_condition now l ct status reason message t)

module _ (now now' : ℕ) (s : ConduitStatus) (ct : ConditionType) (status : ConditionStatus)
    (reason message : String) where
  abbrev middle : Conditions
  middle = Condition.set_condition now s.conditions ct status reason message

  -- What the first call of `setCondition` leaves, the second keeps.
  Present-of_middle :
      (t : ConditionType)
      → find middle t ≢ none
      → Present (set_condition now now' s ct status reason message) t
  unfolding set_condition get_condition ConditionSet.set_condition
  Present-of_middle t h =
      let main = conduit_conditions.main in
      ground (
        arith,
        find-set_condition_keeps now' middle main condition_false "ConditionFailed"
            "Conditions failed" t,
        find-set_condition_keeps now' middle main condition_unknown "ConditionUnknown"
            "Conditions unknown" t,
        find-set_condition_keeps now' middle main condition_true "OK" "" t,
      )

  pub Present-set_condition : Present (set_condition now now' s ct status reason message) ct
  Present-set_condition =
      Present-of_middle ct (find-set_condition_present now s.conditions ct status reason message)

  pub Present-set_condition_keeps :
      (t : ConditionType)
      → Present s t
      → Present (set_condition now now' s ct status reason message) t
  Present-set_condition_keeps t h = Present-of_middle t (
      find-set_condition_keeps now s.conditions ct status reason message t
        (unfold get_condition in h))

abbrev step : (ℕ → ℕ) → ℕ → ConditionType → ConduitStatus → ConduitStatus
step now k t s = elim (get_condition s t) [
  | none ↦ set_condition (now k) (now (k + 1)) s t condition_unknown "" ""
  | some cond ↦ s
]

step_present :
    (now : ℕ → ℕ) (k : ℕ) (t : ConditionType) (s : ConduitStatus) → Present (step now k t s) t
step_present now k t s = elim (Option-cases (get_condition s t)) [
  | inl e ↦ rw (step, e) (Present-set_condition (now k) (now (k + 1)) s t condition_unknown "" "")
  | inr (c, e) ↦ rw (step, e) (ground arith)
]

step_keeps :
    (now : ℕ → ℕ) (k : ℕ) (t u : ConditionType) (s : ConduitStatus)
    → Present s u
    → Present (step now k t s) u
step_keeps now k t u s h = elim (Option-cases (get_condition s t)) [
  | inl e ↦
      rw (step, e)
        (Present-set_condition_keeps (now k) (now (k + 1)) s t condition_unknown "" "" u h)
  | inr (c, e) ↦ rw (step, e) h
]

default_conditions_keeps :
    (now : ℕ → ℕ) (k : ℕ) (ts : List ConditionType) (s : ConduitStatus) (u : ConditionType)
    → Present s u
    → Present (default_conditions now k ts s) u
unfolding default_conditions
default_conditions_keeps now k [] s u h = h
default_conditions_keeps now k (t ∷ ts) s u h =
    default_conditions_keeps now (k + 2) ts (step now k t s) u (step_keeps now k t u s h)

-- After the loop each of its types has a condition.
pub default_conditions-Present :
    (now : ℕ → ℕ) (k : ℕ) (ts : List ConditionType) (s : ConduitStatus)
    → All (Present (default_conditions now k ts s)) ts
unfolding default_conditions
default_conditions-Present now k [] s = tt
default_conditions-Present now k (t ∷ ts) s = (
  default_conditions_keeps now (k + 2) ts (step now k t s) t (step_present now k t s),
  default_conditions-Present now (k + 2) ts (step now k t s),
)

-- Where each type has a condition, the loop changes nothing.
pub default_conditions_of_Present :
    (now : ℕ → ℕ) (k : ℕ) (ts : List ConditionType) (s : ConduitStatus)
    → All (Present s) ts
    → default_conditions now k ts s ≡ s
unfolding default_conditions
default_conditions_of_Present now k [] s h = refl
default_conditions_of_Present now k (t ∷ ts) s h = elim (Option-cases (get_condition s t)) [
  | inl e ↦ absurd (h.0 e)
  | inr (c, e) ↦ rw e (default_conditions_of_Present now (k + 2) ts s h.1)
]

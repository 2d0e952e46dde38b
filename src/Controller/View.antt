-- ===== src/Controller/View.antt =====
-- api/v1alpha/conduit_types.go and api/v1alpha/condition.go: the conditions of a status as a map from
-- types to statuses, which forgets the order, the reasons, the messages and the times.
use conduit_operator.Prelude.{
  ℕ, String, ◌≡◌, refl, ap, subst, ◌∙◌, ◌==◌, Bool, true, false, Option, none, some, List, [], ◌∷◌,
  eq_iff, arith, if◌then◌else◌, Bool-cases, inl, inr,
}
use conduit_operator.Prelude.Lists.{any, contains, All}
use conduit_operator.Api.Condition.{
  Condition, Conditions, ConditionType, ConditionStatus, is_false, is_unknown, find,
}
use conduit_operator.Api.ConditionSet.Ready.{verdict, set_condition-main}
use conduit_operator.Api.Status.{set_condition}
use conduit_operator.Api.Status.Laws.{set_condition_keeps_WellFormed}
use conduit_operator.Api.Types.{ConduitStatus, conduit_conditions}
use conduit_operator.Controller.Touches.{
  status_in, status_of, Sound, Touches-set_condition, status_of-set_condition,
}

abbrev pub View : Type 0
View = ConditionType → Option ConditionStatus

abbrev pub view : ConduitStatus → View
view s t = status_of t s

abbrev fails : Option ConditionStatus → Bool
fails none = false
fails (some status) = status == "False"

abbrev is_open : Option ConditionStatus → Bool
is_open none = true
is_open (some status) = status == "Unknown"

-- What `Ready` is, by the five dependent conditions.
unfoldable pub ready_of : View → ConditionStatus
ready_of v =
    if any (λ d. fails (v d)) conduit_conditions.deps
    then "False"
    else if any (λ d. is_open (v d)) conduit_conditions.deps
    then "Unknown"
    else "True"

-- The map with one entry set, beside that of `Ready`.
abbrev pub with_entry : ConditionType → ConditionStatus → View → View
with_entry ct status v t = if ct == t then some status else v t

unfoldable pub put : ConditionType → ConditionStatus → View → View
put ct status v t =
    if "Ready" == t then some (ready_of (with_entry ct status v)) else with_entry ct status v t

fails-status_in : (found : Option Condition) → is_false found ≡ fails (status_in found)
unfolding is_false
fails-status_in none = refl
fails-status_in (some c) = refl

is_open-status_in : (found : Option Condition) → is_unknown found ≡ is_open (status_in found)
unfolding is_unknown
is_open-status_in none = refl
is_open-status_in (some c) = refl

any_of_same :
    (p q : ConditionType → Bool) (l : List ConditionType)
    → ((d : ConditionType) → p d ≡ q d)
    → any p l ≡ any q l
unfolding any
any_of_same p q [] h = refl
any_of_same p q (d ∷ l) h = rw (h d, any_of_same p q l h) refl

ready_of-verdict :
    (conds : Conditions)
    → (verdict conduit_conditions conds).status ≡ ready_of (λ t. status_in (find conds t))
unfolding verdict ready_of
ready_of-verdict conds = ground (
  arith,
  any_of_same (λ d. is_false (find conds d)) (λ d. fails (status_in (find conds d)))
      conduit_conditions.deps (λ d. fails-status_in (find conds d)),
  any_of_same (λ d. is_unknown (find conds d)) (λ d. is_open (status_in (find conds d)))
      conduit_conditions.deps (λ d. is_open-status_in (find conds d)),
)

-- Only the five dependent conditions count.
ready_of_same :
    (v w : View)
    → ((t : ConditionType) → ("Ready" == t) ≡ false → v t ≡ w t)
    → ready_of v ≡ ready_of w
unfolding ready_of any
ready_of_same v w h =
    rw
      (
        h "ConfigReady" refl,
        h "SecretReady" refl,
        h "VolumeBound" refl,
        h "DeploymentRunning" refl,
        h "ServiceReady" refl,
      )
      refl

module _ (now now' : ℕ) (s : ConduitStatus) (ct : ConditionType) (status : ConditionStatus)
    (reason message : String) (w : Sound s) (ne : ("Ready" == ct) ≡ false) where
  abbrev after : ConduitStatus
  after = set_condition now now' s ct status reason message

  view_of_other :
      (t : ConditionType) → ("Ready" == t) ≡ false → view after t ≡ with_entry ct status (view s) t
  view_of_other t other = elim (Bool-cases (ct == t)) [
    | inl e ↦ rw e (
        subst (λ x. view after x ≡ some status) ((eq_iff ct t).0 e)
          (status_of-set_condition now now' ct status reason message s w ne))
    | inr e ↦ rw e ((Touches-set_condition now now' ct status reason message s w).frame t e other)
  ]

  view_of_ready : view after "Ready" ≡ some (ready_of (with_entry ct status (view s)))
  unfolding set_condition contains
  view_of_ready =
      let (c, found, same, _, _) =
        set_condition-main now now' conduit_conditions s.conditions ct status reason message w.1
          refl in
      ap status_in found
      ∙ ap some (
          same
          ∙ ready_of-verdict after.conditions
          ∙ ready_of_same (view after) (with_entry ct status (view s)) view_of_other)

  view-set_condition : (t : ConditionType) → view after t ≡ put ct status (view s) t
  unfolding put
  view-set_condition t = elim (Bool-cases ("Ready" == t)) [
    | inl e ↦
        rw (e, put)
          (subst (λ x. view after x ≡ some (ready_of (with_entry ct status (view s))))
            ((eq_iff "Ready" t).0 e) view_of_ready)
    | inr e ↦ rw (e, put) (view_of_other t e)
  ]

-- The arguments of a call of `SetCondition`, with the two readings of the clock.
pub record Setting : Type 0 where
  pub now : ℕ
  pub now' : ℕ
  pub type : ConditionType
  pub status : ConditionStatus
  pub reason : String
  pub message : String

-- Calls in a row, of the code and on the map.
abbrev pub set_all : List Setting → ConduitStatus → ConduitStatus
set_all [] s = s
set_all (x ∷ xs) s = set_all xs (set_condition x.now x.now' s x.type x.status x.reason x.message)

abbrev pub put_all : List Setting → View → View
put_all [] v = v
put_all (x ∷ xs) v = put_all xs (put x.type x.status v)

-- From a status whose conditions are in order with one a type, any calls of SetCondition in a row,
-- for types other than Ready, refine the same calls on a map from types to statuses, in which each
-- sets one entry and gives Ready what the five dependent entries say: False where one is false,
-- else Unknown where one is unknown or missing, else True; the clocks, reasons and messages count
-- for nothing there.
pub set_all_refines_put_all :
    (calls : List Setting) (s : ConduitStatus)
    → Sound s
    → All (λ x. ("Ready" == x.type) ≡ false) calls
    → view (set_all calls s) ≡ put_all calls (view s)
set_all_refines_put_all [] s w h = refl
set_all_refines_put_all (x ∷ xs) s w (ne, h) =
    set_all_refines_put_all xs (set_condition x.now x.now' s x.type x.status x.reason x.message)
      (set_condition_keeps_WellFormed x.now x.now' s x.type x.status x.reason x.message w) h
    ∙ ap (put_all xs)
        (λ i t. view-set_condition x.now x.now' s x.type x.status x.reason x.message w ne t i)

-- ===== src/Controller/Touches.antt =====
-- internal/controller/conduit_controller.go: what may become of a status where one condition is set.
use conduit_operator.Prelude.{ℕ, String, ◌≡◌, refl, ap, ◌∙◌, ◌==◌, false, Option, none, some}
use conduit_operator.Prelude.Lists.{all}
use conduit_operator.Api.Condition.{Condition, ConditionType, ConditionStatus, is_true, find}
use conduit_operator.Api.ConditionSet.Ready.{
  WellFormed, find-set_condition_self, find-set_condition_ne, merged_fields,
}
use conduit_operator.Api.Status.{set_condition, get_condition}
use conduit_operator.Api.Status.Laws.{set_condition_keeps_WellFormed, is_true-ready, is_met}
use conduit_operator.Api.Types.{ConduitStatus, conduit_conditions}

abbrev pub status_in : Option Condition → Option ConditionStatus
status_in none = none
status_in (some c) = some c.status

-- The status of a condition, if it is there.
abbrev pub status_of : ConditionType → ConduitStatus → Option ConditionStatus
status_of ct s = status_in (find s.conditions ct)

-- The conditions are in order, one a type.
abbrev pub Sound : ConduitStatus → Type 0
Sound s = WellFormed s.conditions

-- `Ready` is true exactly where the five dependent conditions are met.
abbrev pub Summed : ConduitStatus → Type 0
Summed s = is_true (get_condition s "Ready") ≡ all (is_met s.conditions) conduit_conditions.deps

-- What may become of a status where only one condition is set, beside `Ready`.
pub record Touches (ct : ConditionType) (s after : ConduitStatus) : Type 0 where
  pub sound : Sound after
  pub frame :
      (t : ConditionType)
      → (ct == t) ≡ false
      → ("Ready" == t) ≡ false
      → status_of t after ≡ status_of t s
  pub summed : Summed s → Summed after

pub Touches-refl : (ct : ConditionType) (s : ConduitStatus) → Sound s → Touches ct s s
Touches-refl ct s w = record { sound = w; frame = λ t e f. refl; summed = λ h. h }

pub Touches_trans :
    (ct : ConditionType) {a b c : ConduitStatus} → Touches ct a b → Touches ct b c → Touches ct a c
Touches_trans ct f g = record {
  sound = g.sound;
  frame = λ t e h. g.frame t e h ∙ f.frame t e h;
  summed = λ h. g.summed (f.summed h);
}

module _ (now now' : ℕ) (ct : ConditionType) (status : ConditionStatus) (reason message : String)
    (s : ConduitStatus) (w : Sound s) where
  abbrev after : ConduitStatus
  after = set_condition now now' s ct status reason message

  pub Summed-set_condition : Summed after
  Summed-set_condition = is_true-ready now now' s ct status reason message w

  pub Touches-set_condition : Touches ct s after
  unfolding set_condition
  Touches-set_condition = record {
    sound = set_condition_keeps_WellFormed now now' s ct status reason message w;
    frame = λ t e f. ap status_in (
        find-set_condition_ne now now' conduit_conditions s.conditions ct status reason message w.1
          t e f);
    summed = λ h. Summed-set_condition;
  }

  pub status_of-set_condition : ("Ready" == ct) ≡ false → status_of ct after ≡ some status
  unfolding set_condition
  status_of-set_condition ne =
      let h = merged_fields (find s.conditions ct) now ct status reason message in
      ap status_in (
        find-set_condition_self now now' conduit_conditions s.conditions ct status reason message
          w.1 ne)
      ∙ ap some h.0

-- ===== src/Controller/Reconcile/Met.antt =====
-- internal/controller/conduit_controller.go: a met condition, and the five that `Ready` depends on.
use conduit_operator.Prelude.{
  String, ◌≡◌, refl, ◌&&◌, Bool, true, false, not, Option, none, some, arith, ◌↔◌,
}
use conduit_operator.Prelude.Lists.{all}
use conduit_operator.Api.Condition.{Condition, ConditionType, is_false, is_unknown}
use conduit_operator.Api.Types.{conduit_conditions}
use conduit_operator.Controller.Touches.{status_in}
use conduit_operator.Controller.Stages.{is_none, verdict}

-- A condition of status True is met, one of status False is not.
pub met_of_true :
    (found : Option Condition)
    → status_in found ≡ some "True"
    → not (is_false found) && not (is_unknown found) ≡ true
unfolding is_false is_unknown
met_of_true none h = cc
met_of_true (some x) h = let e : x.status ≡ "True" = cc h in rw e refl

unmet_of_false :
    (found : Option Condition)
    → status_in found ≡ some "False"
    → not (is_false found) && not (is_unknown found) ≡ false
unfolding is_false is_unknown
unmet_of_false none h = cc
unmet_of_false (some x) h = let e : x.status ≡ "False" = cc h in rw e refl

pub bool_of_met :
    (found : Option Condition) (b : Bool)
    → status_in found ≡ some (verdict b)
    → not (is_false found) && not (is_unknown found) ≡ true
    → b ≡ true
bool_of_met found true h m = refl
bool_of_met found false h m = cc (unmet_of_false found h)

pub none_of_both : (e : Option String) (b : Bool) → is_none e && b ≡ true → (e ≡ none) × (b ≡ true)
none_of_both none b h = (refl, h)
none_of_both (some e) b h = cc

all_five :
    (a b c d e : Bool)
    → (a && (b && (c && (d && (e && true)))) ≡ true)
      ↔ ((a ≡ true) × (b ≡ true) × (c ≡ true) × (d ≡ true) × (e ≡ true))
all_five a b c d e = ground arith

pub all-deps :
    (p : ConditionType → Bool)
    → (all p conduit_conditions.deps ≡ true) ↔ (
        (p "ConfigReady" ≡ true)
        × (p "SecretReady" ≡ true)
        × (p "VolumeBound" ≡ true)
        × (p "DeploymentRunning" ≡ true)
        × (p "ServiceReady" ≡ true))
unfolding all
all-deps p =
    all_five (p "ConfigReady") (p "SecretReady") (p "VolumeBound") (p "DeploymentRunning")
      (p "ServiceReady")

-- ===== src/Examples/Conditions.antt =====
-- The theorems on conditions at a status with two of them.
use conduit_operator.Prelude.{◌≡◌, refl, false, List, [], ◌∷◌}
use conduit_operator.Prelude.Lists.{all, contains}
use conduit_operator.Api.Condition.{less, find, is_true}
use conduit_operator.Api.ConditionSet
use conduit_operator.Api.ConditionSet.Ready.{WellFormed}
use conduit_operator.Api.ConditionSet.Repeat.{set_condition_idem}
use conduit_operator.Api.Status.{set_condition, get_condition}
use conduit_operator.Api.Status.Laws.{is_met, is_true-ready}
use conduit_operator.Controller.View.{Setting, view, set_all, put_all, set_all_refines_put_all}
use conduit_operator.Api.Types.{conduit_conditions}
use conduit_operator.Examples.Parts.{resource, two_conditions}

pub two_WellFormed : WellFormed two_conditions
unfolding less find
two_WellFormed = ((refl, tt), (refl, (refl, tt)))

no_main : contains conduit_conditions.deps "Ready" ≡ false
unfolding contains
no_main = refl

is_true-ready_example :
    is_true
      (get_condition (set_condition 5 6 resource.status "SecretReady" "True" "Created" "") "Ready")
    ≡ all
        (is_met (set_condition 5 6 resource.status "SecretReady" "True" "Created" "").conditions)
        conduit_conditions.deps
is_true-ready_example =
    is_true-ready 5 6 resource.status "SecretReady" "True" "Created" "" two_WellFormed

set_condition_idem_example :
    ConditionSet.set_condition 8 9 conduit_conditions
      (ConditionSet.set_condition 5 6 conduit_conditions two_conditions "VolumeBound" "True" "" "")
      "VolumeBound"
      "True"
      ""
      ""
    ≡ ConditionSet.set_condition 5 6 conduit_conditions two_conditions "VolumeBound" "True" "" ""
set_condition_idem_example =
    set_condition_idem conduit_conditions "VolumeBound" "True" "" "" 5 6 8 9 two_conditions
      two_WellFormed refl no_main

-- The secret is there, and then the deployment fails.
abbrev two_calls : List Setting
two_calls =
    record {
      now = 5;
      now' = 6;
      type = "SecretReady";
      status = "True";
      reason = "Created";
      message = "";
    }
    ∷ record {
      now = 7;
      now' = 8;
      type = "DeploymentRunning";
      status = "False";
      reason = "Error";
      message = "e";
    }
    ∷ []

set_all_refines_put_all_example :
    view (set_all two_calls resource.status) ≡ put_all two_calls (view resource.status)
set_all_refines_put_all_example =
    set_all_refines_put_all two_calls resource.status two_WellFormed (refl, (refl, tt))

-- ===== src/Controller/Reconcile/Ready.antt =====
-- internal/controller/conduit_controller.go: the condition `Ready` after the stages of `Reconcile`.
use conduit_operator.Prelude.{ℕ, ◌≡◌, refl, ap, sym, subst, ◌∙◌, ◌==◌, true, false, none, some}
use conduit_operator.Api.Condition.{ConditionType, is_true, find}
use conduit_operator.Api.Status.{get_condition}
use conduit_operator.Api.Status.Laws.{is_met}
use conduit_operator.Api.Types.{Conduit, conduit_conditions, namespaced_name}
use conduit_operator.Prelude.Lists.{all}
use conduit_operator.Api.ConditionSet
use conduit_operator.Api.ConditionSet.Ready.{WellFormed}
use conduit_operator.Controller.Running.{update_status_lem}
use conduit_operator.Controller.Run.{done}
use conduit_operator.Controller.State.{State}
use conduit_operator.Controller.Touches.{Sound, Summed, status_of}
use conduit_operator.Controller.Stages.{sees, verdict-met}
use conduit_operator.Controller.Stages.Objects.{is_bound, is_read, service_of_none}
use conduit_operator.Controller.Stages.Deployment.{
  IsRunning, create_or_update_deployment_of_running,
}
use conduit_operator.Controller.Cluster.{Cluster, Libraries}
use conduit_operator.Controller.Reconcile.{
  ConduitReconciler, StageResults, run_stages, deployment_stage, service_stage, status_stage,
}
use conduit_operator.Controller.Reconcile.Met.{met_of_true, all-deps}
use conduit_operator.Controller.Reconcile.Told.{Ran-run_stages, Told-run_stages, volume_answer}

module _ (K : Cluster) (L : Libraries) (r : ConduitReconciler) (clock : ℕ → ℕ → ℕ) (c : Conduit)
    (s : State K.World) (f : StageResults K.World) (w : Sound s.status)
    (h : run_stages K L r clock c s ≡ done f) where
  -- Before the update of the status.
  run_stages-Summed : Sound f.service.0.status × Summed f.service.0.status
  run_stages-Summed =
      let told = Told-run_stages K L r clock c s f w h in
      (told.service.touches.sound, told.service.summed)

  -- In the status that UpdateStatus leaves after a run of the five stages that does not panic,
  -- whatever the errors of the stages and of the update, from a status whose conditions are in
  -- order with one a type, the conditions are in order with one a type, and Ready is true exactly
  -- where none of the five dependent conditions is false, unknown or missing.
  pub status_stage-Summed :
      let last = (status_stage K L r clock c f.service.0).0 in
      Sound last.status × Summed last.status
  unfolding status_stage get_condition ConditionSet.get_condition
  status_stage-Summed =
      let kept =
        (update_status_lem (clock 5 0) c.meta.generation (K.get_status c f.service.0.world)
          K.same_status (λ status. K.save_status c status f.service.0.world) f.service.0).0 in
      subst
        (λ conds.
          WellFormed conds
          × (is_true (find conds "Ready") ≡ all (is_met conds) conduit_conditions.deps))
        (sym kept) run_stages-Summed

  -- What the later stages leave of the condition of each stage.
  pub later_than_deployment :
      (t : ConditionType)
      → ("ServiceReady" == t) ≡ false
      → ("Ready" == t) ≡ false
      → status_of t f.service.0.status ≡ status_of t f.deployment.0.status
  later_than_deployment t e ready =
      (Told-run_stages K L r clock c s f w h).service.touches.frame t e ready

  pub later_than_volume :
      (t : ConditionType)
      → ("ServiceReady" == t) ≡ false
      → ("DeploymentRunning" == t) ≡ false
      → ("Ready" == t) ≡ false
      → status_of t f.service.0.status ≡ status_of t f.volume.0.status
  later_than_volume t e e' ready =
      later_than_deployment t e ready
      ∙ (Told-run_stages K L r clock c s f w h).deployment.frame t e' ready

  pub later_than_secret :
      (t : ConditionType)
      → ("ServiceReady" == t) ≡ false
      → ("DeploymentRunning" == t) ≡ false
      → ("VolumeBound" == t) ≡ false
      → ("Ready" == t) ≡ false
      → status_of t f.service.0.status ≡ status_of t f.secret.0.status
  later_than_secret t e e' e'' ready =
      later_than_volume t e e' ready
      ∙ (Told-run_stages K L r clock c s f w h).volume.touches.frame t e'' ready

  pub config_kept :
      status_of "ConfigReady" f.service.0.status ≡ status_of "ConfigReady" f.config.0.status
  config_kept =
      later_than_secret "ConfigReady" refl refl refl refl
      ∙ (Told-run_stages K L r clock c s f w h).secret.frame "ConfigReady" refl refl

  -- A run of the five stages that does not panic, from a status whose conditions are in order with
  -- one a type, in which no stage has an error, the claim of the volume is bound, and the
  -- deployment is read with its config map and secret and seen running, ends with Ready true.
  pub run_stages_reaches_ready :
      IsRunning L.semver L.rules L.order L.merge r.flags c
        ((K.reader f.volume.0.world).get_config_map
          (namespaced_name c).namespace
          (namespaced_name c).name)
        ((K.reader f.volume.0.world).get_secret
          (namespaced_name c).namespace
          (namespaced_name c).name)
        (K.deployment (namespaced_name c) f.volume.0.world)
      → sees is_bound (volume_answer K L r clock c f.secret.0) ≡ true
      → f.config.1 ≡ none
      → f.secret.1 ≡ none
      → f.volume.1 ≡ none
      → f.deployment.1 ≡ none
      → f.service.1 ≡ none
      → is_true (get_condition f.service.0.status "Ready") ≡ true
  unfolding deployment_stage service_stage
  run_stages_reaches_ready k bound config secret volume deployment service =
      let ran = Ran-run_stages K L r clock c s f h in
      let told = Told-run_stages K L r clock c s f w h in
      let last = f.service.0.status in
      let read : is_read (K.service (namespaced_name c) f.deployment.0.world) ≡ true =
        service_of_none (clock 4) f.deployment.0 c _ (rw ran.service at service) in
      let config_met =
        met_of_true (find last.conditions "ConfigReady") (config_kept ∙ told.config_met config) in
      let secret_met =
        met_of_true (find last.conditions "SecretReady")
          (later_than_secret "SecretReady" refl refl refl refl ∙ told.secret_met secret) in
      let volume_met = met_of_true (find last.conditions "VolumeBound") (
        later_than_volume "VolumeBound" refl refl refl
        ∙ told.volume.tells
        ∙ ap some (verdict-met f.volume.1 _ volume bound)) in
      let deployment_met = met_of_true (find last.conditions "DeploymentRunning") (
        later_than_deployment "DeploymentRunning" refl refl
        ∙ create_or_update_deployment_of_running L.show (clock 3) L.merge L.semver L.rules L.order
            r.meta r.flags c f.volume.0 f.deployment told.volume.touches.sound _ _ _ ran.deployment
            k deployment) in
      let service_met =
        met_of_true (find last.conditions "ServiceReady")
          (told.service.tells ∙ ap some (verdict-met f.service.1 _ service read)) in
      told.service.summed
      ∙ (all-deps (is_met last.conditions)).1
          (config_met, secret_met, volume_met, deployment_met, service_met)

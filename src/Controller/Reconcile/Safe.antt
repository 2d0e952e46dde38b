-- ===== src/Controller/Reconcile/Safe.antt =====
-- internal/controller/conduit_controller.go: the errors of the stages, where `Ready` is true.
use conduit_operator.Prelude.{
  String, ℕ, ◌≡◌, refl, sym, ◌∙◌, true, false, none, [], Option-cases, inl, inr,
}
use conduit_operator.Prelude.Dict.{Dict}
use conduit_operator.Prelude.Result.{ok}
use conduit_operator.Api.Condition.{ConditionType, is_true}
use conduit_operator.Api.Status.{get_condition}
use conduit_operator.Api.Status.Laws.{is_met}
use conduit_operator.Api.Types.{Conduit, namespaced_name}
use conduit_operator.Flags.{returns}
use conduit_operator.Kube.{ConfigMap, Secret}
use conduit_operator.Config.{pipeline_config_yaml}
use conduit_operator.Config.Registry.{schema_registry_config}
use conduit_operator.Controller.Run.{done}
use conduit_operator.Controller.State.{State}
use conduit_operator.Controller.Touches.{Sound}
use conduit_operator.Controller.Stages.{sees}
use conduit_operator.Controller.Stages.Objects.{is_bound}
use conduit_operator.Controller.Stages.Deployment.{create_or_update_deployment_of_error}
use conduit_operator.Controller.Cluster.{Cluster, Libraries}
use conduit_operator.Controller.Reconcile.{
  ConduitReconciler, StageResults, run_stages, deployment_stage, stage_errors,
}
use conduit_operator.Controller.Reconcile.Met.{bool_of_met, none_of_both, all-deps}
use conduit_operator.Controller.Reconcile.Told.{
  Ran-run_stages, Told-run_stages, volume_answer, config_stage-Tells, secret_stage-Tells,
}
use conduit_operator.Controller.Reconcile.Ready.{
  later_than_deployment, later_than_volume, later_than_secret, config_kept,
}

module _ (K : Cluster) (L : Libraries) (r : ConduitReconciler) (clock : ℕ → ℕ → ℕ) (c : Conduit)
    (s : State K.World) (f : StageResults K.World) (w : Sound s.status)
    (h : run_stages K L r clock c s ≡ done f)
    (ready : is_true (get_condition f.service.0.status "Ready") ≡ true) where
  abbrev Named : ConditionType → Type 0
  Named t = is_met f.service.0.status.conditions t ≡ true

  met :
      Named "ConfigReady"
      × Named "SecretReady"
      × Named "VolumeBound"
      × Named "DeploymentRunning"
      × Named "ServiceReady"
  met =
      (all-deps (is_met f.service.0.status.conditions)).0
        (sym (Told-run_stages K L r clock c s f w h).service.summed ∙ ready)

  config_of_ready :
      (y : String)
      → pipeline_config_yaml (K.reader s.world) L.marshal c ≡ returns (ok y)
      → f.config.1 ≡ none
  config_of_ready y e =
      let t = config_stage-Tells K L r clock c s f w (Ran-run_stages K L r clock c s f h) y e in
      (none_of_both f.config.1 _
        (bool_of_met _ _ (config_kept K L r clock c s f w h ∙ t.tells) met.0)).0

  secret_of_ready :
      (d : Dict String)
      → schema_registry_config L.urls L.schema_registry_type_confluent (K.reader f.config.0.world) c
        ≡ ok d
      → f.secret.1 ≡ none
  secret_of_ready d e =
      let told = Told-run_stages K L r clock c s f w h in
      let t =
        secret_stage-Tells K L r clock c s f told.config.sound (Ran-run_stages K L r clock c s f h)
          d e in
      (none_of_both f.secret.1 _ (
        bool_of_met _ _
          (later_than_secret K L r clock c s f w h "SecretReady" refl refl refl refl ∙ t.tells)
          met.1)).0

  volume_of_ready :
      (f.volume.1 ≡ none) × (sees is_bound (volume_answer K L r clock c f.secret.0) ≡ true)
  volume_of_ready =
      let told = Told-run_stages K L r clock c s f w h in
      none_of_both f.volume.1 _ (
        bool_of_met _ _
          (later_than_volume K L r clock c s f w h "VolumeBound" refl refl refl ∙ told.volume.tells)
          met.2)

  service_of_ready : f.service.1 ≡ none
  service_of_ready =
      let told = Told-run_stages K L r clock c s f w h in
      (none_of_both f.service.1 _ (bool_of_met _ _ told.service.tells met.4)).0

  deployment_of_ready :
      (cm : ConfigMap) (secret : Secret)
      → (K.reader f.volume.0.world).get_config_map
          (namespaced_name c).namespace
          (namespaced_name c).name
        ≡ ok cm
      → (K.reader f.volume.0.world).get_secret
          (namespaced_name c).namespace
          (namespaced_name c).name
        ≡ ok secret
      → f.deployment.1 ≡ none
  unfolding deployment_stage
  deployment_of_ready cm secret e e' = elim (Option-cases f.deployment.1) [
    | inl none_ ↦ none_
    | inr (m, some_) ↦
        let told = Told-run_stages K L r clock c s f w h in
        let ran = (Ran-run_stages K L r clock c s f h).deployment in
        let t =
          create_or_update_deployment_of_error L.show (clock 3) L.merge L.semver L.rules L.order
            r.meta r.flags c f.volume.0 f.deployment told.volume.touches.sound cm secret _ m
            (rw (e, e', deployment_stage) at ran) some_ in
        absurd (
          cc (
            bool_of_met _ false
              (later_than_deployment K L r clock c s f w h "DeploymentRunning" refl refl ∙ t)
              met.3))
  ]

  -- Where Ready is true after a run of the five stages, from a status whose conditions are in
  -- order with one a type, and the pipeline configuration and the registry settings were made and
  -- the config map and secret of the deployment read, no stage has an error and the claim of the
  -- volume is bound.
  pub stage_errors_of_ready :
      (y : String) (d : Dict String) (cm : ConfigMap) (secret : Secret)
      → pipeline_config_yaml (K.reader s.world) L.marshal c ≡ returns (ok y)
      → schema_registry_config L.urls L.schema_registry_type_confluent (K.reader f.config.0.world) c
        ≡ ok d
      → (K.reader f.volume.0.world).get_config_map
          (namespaced_name c).namespace
          (namespaced_name c).name
        ≡ ok cm
      → (K.reader f.volume.0.world).get_secret
          (namespaced_name c).namespace
          (namespaced_name c).name
        ≡ ok secret
      → (stage_errors K L r clock c f ≡ [])
        × (sees is_bound (volume_answer K L r clock c f.secret.0) ≡ true)
  stage_errors_of_ready y d cm secret made_config made_secret read_config read_secret = (
    rw
        (
          config_of_ready y made_config,
          secret_of_ready d made_secret,
          volume_of_ready.0,
          deployment_of_ready cm secret read_config read_secret,
          service_of_ready,
        )
        refl,
    volume_of_ready.1,
  )

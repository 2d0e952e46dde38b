-- ===== src/Controller/Reconcile/Told.antt =====
-- internal/controller/conduit_controller.go: what a run of the stages of `Reconcile` consists of.
use conduit_operator.Prelude.{ℕ, String, ◌≡◌, refl, subst, none, some, inl, inr, ◌⊎◌}
use conduit_operator.Prelude.Dict.{Dict}
use conduit_operator.Prelude.Result.{Result, ok}
use conduit_operator.Api.Types.{Conduit, namespaced_name}
use conduit_operator.Kube.{PersistentVolumeClaim}
use conduit_operator.Flags.{Call, returns, panics}
use conduit_operator.Config.{pipeline_config_yaml}
use conduit_operator.Config.Registry.{schema_registry_config}
use conduit_operator.Volumes.{conduit_volume_claim}
use conduit_operator.Controller.Run.{done, done_injective, not_panicked, >>=-eq-done}
use conduit_operator.Controller.State.{State, Answer}
use conduit_operator.Controller.Touches.{Touches, Sound, status_of}
use conduit_operator.Controller.Stages.{Tells, sees}
use conduit_operator.Controller.Stages.Objects.{
  create_or_update_config-Touches, create_or_update_secret-Touches, is_read, is_bound,
  create_or_update_config-Tells, create_or_update_secret-Tells, create_or_update_volume-Tells,
  create_or_update_service-Tells,
}
use conduit_operator.Controller.Stages.Deployment.{create_or_update_deployment-Touches}
use conduit_operator.Controller.Cluster.{Cluster, Libraries}
use conduit_operator.Controller.Reconcile.{
  Stage, ConduitReconciler, StageResults, config_stage, secret_stage, volume_stage,
  deployment_stage, service_stage, run_stages,
}

pub Call-cases :
    {A : Type 0} (call : Call A) → ((y : Result A) × (call ≡ returns y)) ⊎ (call ≡ panics)
Call-cases (returns y) = inl (y, refl)
Call-cases panics = inr refl

module _ (K : Cluster) (L : Libraries) (r : ConduitReconciler) (clock : ℕ → ℕ → ℕ)
    (c : Conduit) where
  -- What a run of the stages consists of.
  pub record Ran (s : State K.World) (f : StageResults K.World) : Type 0 where
    pub config : config_stage K L r clock c s ≡ done f.config
    pub secret : f.secret ≡ secret_stage K L r clock c f.config.0
    pub volume : f.volume ≡ volume_stage K L r clock c f.secret.0
    pub deployment : deployment_stage K L r clock c f.volume.0 ≡ done f.deployment
    pub service : f.service ≡ service_stage K L r clock c f.deployment.0

  pub Ran-run_stages :
      (s : State K.World) (f : StageResults K.World) → run_stages K L r clock c s ≡ done f → Ran s f
  unfolding run_stages
  Ran-run_stages s f h =
      let (config, e, h') = >>=-eq-done (config_stage K L r clock c s) _ h in
      let volume = volume_stage K L r clock c (secret_stage K L r clock c config.0).0 in
      let (deployment, e', same) = >>=-eq-done (deployment_stage K L r clock c volume.0) _ h' in
      subst (Ran s) (done_injective same)
        (record { config = e; secret = refl; volume = refl; deployment = e'; service = refl })

  config_stage-Touches :
      (s : State K.World) (out : Stage K.World)
      → Sound s.status
      → config_stage K L r clock c s ≡ done out
      → Touches "ConfigReady" s.status out.0.status
        × (out.1 ≡ none → status_of "ConfigReady" out.0.status ≡ some "True")
  unfolding config_stage
  config_stage-Touches s out w h =
      elim (Call-cases (pipeline_config_yaml (K.reader s.world) L.marshal c)) [
        | inl (y, e) ↦
            let answer = K.config_map (namespaced_name c) s.world in
            subst
              (λ x.
                Touches "ConfigReady" s.status x.0.status
                × (x.1 ≡ none → status_of "ConfigReady" x.0.status ≡ some "True"))
              (done_injective (rw (e, config_stage) at h))
              (create_or_update_config-Touches (clock 0) s y answer w)
        | inr e ↦ absurd (not_panicked (rw (e, config_stage) at h))
      ]

  -- The claim of the volume, as the stage asks for it.
  abbrev pub volume_answer : State K.World → Answer K.World PersistentVolumeClaim
  volume_answer s = K.volume (conduit_volume_claim L.must_parse (namespaced_name c) "1Gi") s.world

  -- What each stage of a run leaves in the status.
  pub record Told (s : State K.World) (f : StageResults K.World) : Type 0 where
    pub config : Touches "ConfigReady" s.status f.config.0.status
    pub config_met : f.config.1 ≡ none → status_of "ConfigReady" f.config.0.status ≡ some "True"
    pub secret : Touches "SecretReady" f.config.0.status f.secret.0.status
    pub secret_met : f.secret.1 ≡ none → status_of "SecretReady" f.secret.0.status ≡ some "True"
    pub volume : Tells "VolumeBound" (sees is_bound (volume_answer f.secret.0)) f.secret.0 f.volume
    pub deployment : Touches "DeploymentRunning" f.volume.0.status f.deployment.0.status
    pub service :
        Tells "ServiceReady"
          (is_read (K.service (namespaced_name c) f.deployment.0.world))
          f.deployment.0
          f.service

  pub Told-run_stages :
      (s : State K.World) (f : StageResults K.World)
      → Sound s.status
      → run_stages K L r clock c s ≡ done f
      → Told s f
  unfolding secret_stage volume_stage deployment_stage service_stage
  Told-run_stages s f w h =
      let ran = Ran-run_stages s f h in
      let config = config_stage-Touches s f.config w ran.config in
      let secret : Touches "SecretReady" f.config.0.status f.secret.0.status
          × (f.secret.1 ≡ none → status_of "SecretReady" f.secret.0.status ≡ some "True") =
        rw ran.secret (create_or_update_secret-Touches (clock 1) f.config.0 _ _ config.0.sound) in
      let volume : Tells "VolumeBound" (sees is_bound (volume_answer f.secret.0)) f.secret.0
          f.volume =
        rw ran.volume (create_or_update_volume-Tells (clock 2) f.secret.0 secret.0.sound _) in
      let deployment =
        create_or_update_deployment-Touches L.show (clock 3) L.merge L.semver L.rules L.order r.meta
          r.flags c f.volume.0 f.deployment volume.touches.sound _ _ _ ran.deployment in
      let service : Tells "ServiceReady"
          (is_read (K.service (namespaced_name c) f.deployment.0.world)) f.deployment.0 f.service =
        rw ran.service
          (create_or_update_service-Tells (clock 4) f.deployment.0 deployment.sound c _) in
      record {
        config = config.0;
        config_met = config.1;
        secret = secret.0;
        secret_met = secret.1;
        volume = volume;
        deployment = deployment;
        service = service;
      }

  -- The stages of the config map and of the secret, where their contents can be made.
  pub config_stage-Tells :
      (s : State K.World) (f : StageResults K.World)
      → Sound s.status
      → Ran s f
      → (y : String) → pipeline_config_yaml (K.reader s.world) L.marshal c ≡ returns (ok y)
      → Tells "ConfigReady" (is_read (K.config_map (namespaced_name c) s.world)) s f.config
  unfolding config_stage
  config_stage-Tells s f w ran y e =
      subst (Tells "ConfigReady" (is_read (K.config_map (namespaced_name c) s.world)) s)
        (done_injective (rw (e, config_stage) at ran.config))
        (create_or_update_config-Tells (clock 0) s w y (K.config_map (namespaced_name c) s.world))

  pub secret_stage-Tells :
      (s : State K.World) (f : StageResults K.World)
      → Sound f.config.0.status
      → Ran s f
      → (d : Dict String)
      → schema_registry_config L.urls L.schema_registry_type_confluent (K.reader f.config.0.world) c
        ≡ ok d
      → Tells "SecretReady"
          (is_read (K.secret (namespaced_name c) f.config.0.world))
          f.config.0
          f.secret
  unfolding secret_stage
  secret_stage-Tells s f w ran d e =
      rw (ran.secret, e)
        (create_or_update_secret-Tells (clock 1) f.config.0 w d
          (K.secret (namespaced_name c) f.config.0.world))

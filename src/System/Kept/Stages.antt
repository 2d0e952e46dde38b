-- ===== src/System/Kept/Stages.antt =====
-- internal/controller/conduit_controller.go: a run of the stages and the update of the status leave
-- the rest of the resource alone.
use conduit_operator.Prelude.{ℕ, ◌≡◌, subst, Option, inl, inr}
use conduit_operator.Prelude.Result.{Result, ok, err}
use conduit_operator.Api.Types.{Conduit, namespaced_name}
use conduit_operator.Kube.{ConfigMap, Secret}
use conduit_operator.Config.{pipeline_config_yaml}
use conduit_operator.Controller.Run.{done, done_injective, not_panicked}
use conduit_operator.Controller.State.{State}
use conduit_operator.Controller.Deployment.{
  create_or_update_deployment, deployment_labels, deployment_annotations,
}
use conduit_operator.Controller.Cluster.{Cluster, Libraries}
use conduit_operator.Controller.Reconcile.{
  Stage, ConduitReconciler, StageResults, config_stage, secret_stage, volume_stage,
  deployment_stage, service_stage, run_stages,
}
use conduit_operator.Controller.Reconcile.Told.{Call-cases, Ran-run_stages}
use conduit_operator.System.{Webhook, IsServer, Writes, stay, write}
use conduit_operator.System.Kept.{
  Keeps, create_or_update_config-Keeps, create_or_update_secret-Keeps,
  create_or_update_volume-Keeps, create_or_update_service-Keeps, apply_deployment-Keeps,
}

Writes_trans :
    (H : Webhook) (K : Cluster) (stored : K.World → Option Conduit) {u v w : K.World}
    → Writes H K stored u v
    → Writes H K stored v w
    → Writes H K stored u w
Writes_trans H K stored before (stay _) = before
Writes_trans H K stored before (write after last) =
    write (Writes_trans H K stored before after) last

module _ (H : Webhook) (K : Cluster) (stored : K.World → Option Conduit)
    (server : IsServer H K stored) (L : Libraries) (r : ConduitReconciler) (clock : ℕ → ℕ → ℕ)
    (c : Conduit) where
  abbrev Between : K.World → K.World → Type 0
  Between = Writes H K stored

  config_stage-Keeps :
      (s : State K.World) (out : Stage K.World)
      → config_stage K L r clock c s ≡ done out
      → Keeps Between stay s out
  unfolding config_stage
  config_stage-Keeps s out h =
      elim (Call-cases (pipeline_config_yaml (K.reader s.world) L.marshal c)) [
        | inr e ↦ absurd (not_panicked (rw (e, config_stage) at h))
        | inl (y, e) ↦ subst (Keeps Between stay s) (done_injective (rw (e, config_stage) at h)) (
            create_or_update_config-Keeps Between stay (clock 0) y _ s
              (server.config_maps (namespaced_name c) s.world))
      ]

  create_or_update_deployment-Keeps :
      (cm : Result ConfigMap) (secret : Result Secret) (s : State K.World) (out : Stage K.World)
      → create_or_update_deployment L.show
          (clock 3)
          L.merge
          L.semver
          L.rules
          L.order
          r.meta
          r.flags
          c
          cm
          secret
          (K.deployment (namespaced_name c) s.world)
          s
        ≡ done out
      → Keeps Between stay s out
  unfolding create_or_update_deployment
  create_or_update_deployment-Keeps (err e) secret s out h =
      subst (Keeps Between stay s) (done_injective h) (stay s.world)
  create_or_update_deployment-Keeps (ok cm) (err e) s out h =
      subst (Keeps Between stay s) (done_injective h) (stay s.world)
  create_or_update_deployment-Keeps (ok cm) (ok secret) s out h =
      apply_deployment-Keeps Between stay (clock 3) L.show (deployment_labels r.meta c)
        (deployment_annotations r.meta c cm) c L.merge _ (K.deployment (namespaced_name c) s.world)
        s out (server.deployments (namespaced_name c) s.world) h

  deployment_stage-Keeps :
      (s : State K.World) (out : Stage K.World)
      → deployment_stage K L r clock c s ≡ done out
      → Keeps Between stay s out
  unfolding deployment_stage
  deployment_stage-Keeps s out h =
      create_or_update_deployment-Keeps ((K.reader s.world).get_config_map _ _)
        ((K.reader s.world).get_secret _ _) s out h

  pub run_stages-Keeps :
      (s : State K.World) (f : StageResults K.World)
      → run_stages K L r clock c s ≡ done f
      → Writes H K stored s.world f.service.0.world
  unfolding secret_stage volume_stage service_stage
  run_stages-Keeps s f h =
      let ran = Ran-run_stages K L r clock c s f h in
      let nn = namespaced_name c in
      let secret : Keeps Between stay f.config.0 f.secret = rw ran.secret (
        create_or_update_secret-Keeps Between stay (clock 1) _ _ f.config.0
          (server.secrets nn f.config.0.world)) in
      let volume : Keeps Between stay f.secret.0 f.volume = rw ran.volume (
        create_or_update_volume-Keeps Between stay (clock 2) _ f.secret.0
          (server.volumes _ f.secret.0.world)) in
      let service : Keeps Between stay f.deployment.0 f.service = rw ran.service (
        create_or_update_service-Keeps Between stay (clock 4) c _ f.deployment.0
          (server.services nn f.deployment.0.world)) in
      Writes_trans H K stored
        (Writes_trans H K stored
          (Writes_trans H K stored
            (Writes_trans H K stored (config_stage-Keeps s f.config ran.config) secret) volume)
          (deployment_stage-Keeps f.volume.0 f.deployment ran.deployment))
        service

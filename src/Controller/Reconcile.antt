-- ===== src/Controller/Reconcile.antt =====
-- internal/controller/conduit_controller.go: `NewConduitReconciler` and `Reconcile`.
--
-- The cluster and the libraries are parameters. `clock i k` is the k-th reading of the clock in the
-- i-th stage. The resource's status is in the state of the stages; the rest of the resource does not
-- change in a call.
pub mod Told
pub mod Met
pub mod Ready
pub mod Safe
pub mod Returns
pub mod Created
pub mod Finalizer
use conduit_operator.Prelude.{
  ℕ, String, ◌<>◌, Bool, Option, none, some, List, [], ◌∷◌, ◌++◌, if◌then◌else◌,
}
use conduit_operator.Prelude.Dict.{Dict}
use conduit_operator.Prelude.Result.{Result}
use conduit_operator.Api.Types.{
  Conduit, ConduitStatus, ConduitInstanceMetadata, NamespacedName, namespaced_name,
  conduit_finalizer, conduit_pipeline_file, conduit_connectors_path, conduit_db_path,
  conduit_processors_path, deleted_reason,
}
use conduit_operator.Flags.{
  Args, Call, returns, panics, new_flags, with_pipeline_file, with_connectors_path, with_db_path,
  with_processors_path, with_log_format,
}
use conduit_operator.Semver.{Semver}
use conduit_operator.Kube.{
  ConfigMap, Secret, PersistentVolumeClaim, Service, Deployment, DeploymentSpec,
}
use conduit_operator.Config.{Reader, Configuration, pipeline_config_yaml}
use conduit_operator.Config.Registry.{Urls, schema_registry_config}
use conduit_operator.Volumes.{conduit_volume_claim}
use conduit_operator.Controller.Run.{Run, done, panicked, ◌>>=◌}
use conduit_operator.Controller.Cluster.{
  Fetch, fetched, not_found, unavailable, Cluster, Libraries, Reconciled,
}
use conduit_operator.Controller.State.{State, Event, Answer, normal}
use conduit_operator.Controller.Objects.{
  create_or_update_config, create_or_update_secret, create_or_update_volume,
  create_or_update_service, update_status,
}
use conduit_operator.Controller.Deployment.{create_or_update_deployment}

pub record ConduitReconciler : Type 0 where
  pub meta : ConduitInstanceMetadata
  pub flags : Args

unfoldable pub new_conduit_reconciler : ConduitInstanceMetadata → ConduitReconciler
unfolding new_flags
new_conduit_reconciler meta = record {
  meta = meta;
  flags = new_flags (
      with_pipeline_file conduit_pipeline_file
      ∷ with_connectors_path conduit_connectors_path
      ∷ with_db_path conduit_db_path
      ∷ with_processors_path conduit_processors_path
      ∷ with_log_format meta.log_format
      ∷ []);
}

-- `errors.Join(errs, fmt.Errorf("…: %w", err))`, where there is an error.
abbrev pub wrapped : String → Option String → List String
wrapped prefix none = []
wrapped prefix (some e) = (prefix <> (": " <> e)) ∷ []

-- What a stage leaves, with its error.
abbrev pub Stage : Type 0 → Type 0
Stage W = State W × Option String

-- What the five stages leave that make an object.
pub record StageResults (W : Type 0) : Type 0 where
  pub config : Stage W
  pub secret : Stage W
  pub volume : Stage W
  pub deployment : Stage W
  pub service : Stage W

module _ (K : Cluster) (L : Libraries) (r : ConduitReconciler) (clock : ℕ → ℕ → ℕ)
    (c : Conduit) where
  unfoldable pub config_stage : State K.World → Run (Stage K.World)
  config_stage s = elim (pipeline_config_yaml (K.reader s.world) L.marshal c) [
    | panics ↦ panicked
    | returns y ↦
        done (create_or_update_config (clock 0) y (K.config_map (namespaced_name c) s.world) s)
  ]

  unfoldable pub secret_stage : State K.World → Stage K.World
  secret_stage s =
      create_or_update_secret (clock 1)
        (schema_registry_config L.urls L.schema_registry_type_confluent (K.reader s.world) c)
        (K.secret (namespaced_name c) s.world) s

  unfoldable pub volume_stage : State K.World → Stage K.World
  volume_stage s =
      create_or_update_volume (clock 2)
        (K.volume (conduit_volume_claim L.must_parse (namespaced_name c) "1Gi") s.world) s

  unfoldable pub deployment_stage : State K.World → Run (Stage K.World)
  deployment_stage s =
      let nn = namespaced_name c in
      create_or_update_deployment L.show (clock 3) L.merge L.semver L.rules L.order r.meta r.flags c
        ((K.reader s.world).get_config_map nn.namespace nn.name)
        ((K.reader s.world).get_secret nn.namespace nn.name) (K.deployment nn s.world) s

  unfoldable pub service_stage : State K.World → Stage K.World
  service_stage s = create_or_update_service (clock 4) c (K.service (namespaced_name c) s.world) s

  unfoldable pub status_stage : State K.World → Stage K.World
  status_stage s =
      update_status (clock 5 0) c.meta.generation (K.get_status c s.world) K.same_status
        (λ status. K.save_status c status s.world) s

  -- Each stage is called whatever the error of the one before.
  unfoldable pub run_stages : State K.World → Run (StageResults K.World)
  run_stages s = do
    config ← config_stage s
    let secret = secret_stage config.0
    let volume = volume_stage secret.0
    deployment ← deployment_stage volume.0
    let service = service_stage deployment.0
    done (record {
      config = config;
      secret = secret;
      volume = volume;
      deployment = deployment;
      service = service;
    })

  -- The errors of the stages, in their order. The secret's error is reported as one of the config.
  abbrev pub stage_errors : StageResults K.World → List String
  stage_errors f =
      wrapped "error reconciling config" f.config.1
      ++ (wrapped "error reconciling config" f.secret.1
          ++ (wrapped "error reconciling volume" f.volume.1
              ++ (wrapped "error reconciling deployment" f.deployment.1
                  ++ wrapped "error reconciling service" f.service.1)))

  -- `Reconcile` behind the finalizer.
  unfoldable pub reconcile_stages : K.World → Run (Reconciled K.World)
  reconcile_stages w = do
    f ← run_stages (record { status = c.status; events = []; world = w })
    let last = status_stage f.service.0
    done (record {
      world = last.0.world;
      events = last.0.events;
      requeue_after = 10;
      errors = stage_errors f ++ wrapped "error updating status" last.1;
    })

module _ (K : Cluster) (L : Libraries) (r : ConduitReconciler) (clock : ℕ → ℕ → ℕ) where
  abbrev pub with_finalizers : List String → Conduit → Conduit
  with_finalizers fs c = record c { meta = record c.meta { finalizers = fs } }

  -- A deleted resource loses its finalizer.
  unfoldable pub reconcile_deleted : Conduit → K.World → Reconciled K.World
  reconcile_deleted c w =
      let (w', e) =
        K.update_conduit
          (with_finalizers (K.remove_finalizer c.meta.finalizers conduit_finalizer) c) w in
      elim e [
        | some e ↦ record { world = w'; events = []; requeue_after = 10; errors = e ∷ [] }
        | none ↦ record {
          world = w';
          events = record { type = normal; reason = deleted_reason } ∷ [];
          requeue_after = 0;
          errors = [];
        }
      ]

  -- A resource without the finalizer gets it.
  unfoldable pub reconcile_new : Conduit → K.World → Reconciled K.World
  reconcile_new c w =
      let (w', e) =
        K.update_conduit (with_finalizers (K.add_finalizer c.meta.finalizers conduit_finalizer) c)
          w in
      elim e [
        | some e ↦ record { world = w'; events = []; requeue_after = 10; errors = e ∷ [] }
        | none ↦ record { world = w'; events = []; requeue_after = 10; errors = [] }
      ]

  unfoldable pub reconcile : NamespacedName → K.World → Run (Reconciled K.World)
  reconcile req w = elim (K.get_conduit req w) [
    | not_found ↦ done (record { world = w; events = []; requeue_after = 0; errors = [] })
    | unavailable e ↦ done (record { world = w; events = []; requeue_after = 0; errors = e ∷ [] })
    | fetched c ↦ elim c.meta.deletion_timestamp [
      | some deleted_at ↦ done (reconcile_deleted c w)
      | none ↦
          if K.contains_finalizer c.meta.finalizers conduit_finalizer
          then reconcile_stages K L r clock c w
          else done (reconcile_new c w)
    ]
  ]

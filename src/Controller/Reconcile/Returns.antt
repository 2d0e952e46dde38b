-- ===== src/Controller/Reconcile/Returns.antt =====
-- internal/controller/conduit_controller.go: calls of `Reconcile` that do not panic.
use conduit_operator.Prelude.{
  ℕ, String, ◌≡◌, refl, Bool, some, List, Bool-cases, Option-cases, inl, inr, ◌⊎◌,
}
use conduit_operator.Prelude.Dict.{Dict}
use conduit_operator.Prelude.Result.{Result, ok, err, Result-cases}
use conduit_operator.Strings.Prefix.{trim_prefix}
use conduit_operator.Api.Types.{Conduit, NamespacedName, namespaced_name, conduit_finalizer}
use conduit_operator.Semver.{Semver, Release, IsDocumented}
use conduit_operator.Flags.{Args, Call, returns, panics}
use conduit_operator.Flags.Supported.{IsRange, for_version_lem, supported}
use conduit_operator.Kube.{EnvVar, Container, Deployment, DeploymentSpec}
use conduit_operator.Containers.{conduit_runtime_container}
use conduit_operator.Config.{pipeline_config_yaml}
use conduit_operator.Controller.Run.{Run, done, ◌>>=◌}
use conduit_operator.Controller.State.{State, Answer, unread, found}
use conduit_operator.Controller.Deployment.{
  apply_deployment, create_or_update_deployment, deployment_labels, deployment_annotations,
  deployment_env,
}
use conduit_operator.Controller.Cluster.{Fetch, fetched, not_found, unavailable, Cluster, Libraries}
use conduit_operator.Controller.Reconcile.{
  ConduitReconciler, config_stage, secret_stage, volume_stage, deployment_stage, run_stages,
  reconcile_stages, reconcile,
}

pub Fetch-cases :
    (fetch : Fetch)
    → (fetch ≡ not_found)
      ⊎ ((e : String) × (fetch ≡ unavailable e))
      ⊎ ((c : Conduit) × (fetch ≡ fetched c))
Fetch-cases not_found = inl refl
Fetch-cases (unavailable e) = inr (inl (e, refl))
Fetch-cases (fetched c) = inr (inr (c, refl))

pub fetched_injective : {a b : Conduit} → fetched a ≡ fetched b → a ≡ b
fetched_injective h = cc

abbrev pub Returns {ℓ} : {A : Type ℓ} → Run A → Type ℓ
Returns {A = A} run = (out : A) × (run ≡ done out)

-- Both calls return where the rest does on every result of the first.
Returns->>= {ℓ κ} :
    {A : Type ℓ} {B : Type κ} (run : Run A) (rest : A → Run B)
    → Returns run
    → ((a : A) → Returns (rest a))
    → Returns (run >>= rest)
Returns->>= run rest (a, e) h = rw e (h a)

-- A call that does not panic.
abbrev Answers {ℓ} : {A : Type ℓ} → Call A → Type ℓ
Answers {A = A} call = (y : Result A) × (call ≡ returns y)

module _ (S : Semver) (release : S.Version → Release) (d : IsDocumented S release) where
  conduit_runtime_container-Answers :
      (rules : Dict String) (image version : String) (env : List EnvVar) (flags : Args)
      (v : S.Version)
      → IsRange rules
      → S.new_version (trim_prefix version "v") ≡ ok v
      → Answers (conduit_runtime_container S rules image version env flags)
  unfolding conduit_runtime_container
  conduit_runtime_container-Answers rules image version env flags v range parsed =
      let e = for_version_lem S release d rules flags version v range parsed in
      elim (Option-cases (supported flags (release v))) [
        | inl u ↦ rw (e, u, conduit_runtime_container) (_, refl)
        | inr (args, u) ↦ rw (e, u, conduit_runtime_container) (_, refl)
      ]

module _ {W : Type 0} (show : ℕ → String) (now : ℕ → ℕ) (labels annotations : Dict String)
    (c : Conduit) (merge : DeploymentSpec → DeploymentSpec → Result DeploymentSpec) where
  apply_deployment-Returns :
      (container : Call Container) (answer : Answer W Deployment) (s : State W)
      → Answers container
      → Returns (apply_deployment show now merge labels annotations c container answer s)
  unfolding apply_deployment
  apply_deployment-Returns container (unread e) s h = (_, refl)
  apply_deployment-Returns panics (found d owner save) s (y, h) = absurd (cc h)
  apply_deployment-Returns (returns (err e)) (found d owner save) s h = (_, refl)
  apply_deployment-Returns (returns (ok container)) (found d owner save) s h = (_, refl)

-- A resource that the stages do not panic on: Running is set, and the version is one that parses.
pub record IsComplete (S : Semver) (c : Conduit) : Type 0 where
  pub running : Bool
  pub runs : c.spec.running ≡ some running
  pub version : S.Version
  pub parsed : S.new_version (trim_prefix c.spec.version "v") ≡ ok version

module _ (K : Cluster) (L : Libraries) (release : L.semver.Version → Release)
    (d : IsDocumented L.semver release) (range : IsRange L.rules) (r : ConduitReconciler)
    (clock : ℕ → ℕ → ℕ) where
  module _ (c : Conduit) (complete : IsComplete L.semver c) where
    config_stage-Returns : (s : State K.World) → Returns (config_stage K L r clock c s)
    unfolding config_stage pipeline_config_yaml
    config_stage-Returns s = rw complete.runs (_, refl)

    deployment_stage-Returns : (s : State K.World) → Returns (deployment_stage K L r clock c s)
    unfolding deployment_stage create_or_update_deployment
    deployment_stage-Returns s =
        let nn = namespaced_name c in
        elim (Result-cases ((K.reader s.world).get_config_map nn.namespace nn.name)) [
          | inr (m, e) ↦ rw (e, create_or_update_deployment) (_, refl)
          | inl (cm, e) ↦ elim (Result-cases ((K.reader s.world).get_secret nn.namespace nn.name)) [
            | inr (m, f) ↦ rw (e, f, create_or_update_deployment) (_, refl)
            | inl (secret, f) ↦
                rw (e, f, create_or_update_deployment)
                  (apply_deployment-Returns L.show (clock 3) (deployment_labels r.meta c)
                    (deployment_annotations r.meta c cm) c L.merge _ (K.deployment nn s.world) s
                    (conduit_runtime_container-Answers L.semver release d L.rules c.spec.image
                      c.spec.version (deployment_env L.order c secret) r.flags complete.version
                      range complete.parsed))
          ]
        ]

    pub run_stages-Returns : (s : State K.World) → Returns (run_stages K L r clock c s)
    unfolding run_stages
    run_stages-Returns s =
        Returns->>= (config_stage K L r clock c s) _ (config_stage-Returns s) (λ config.
          Returns->>=
            (deployment_stage K L r clock c
              (volume_stage K L r clock c (secret_stage K L r clock c config.0).0).0)
            _ (deployment_stage-Returns _) (λ deployment. (_, refl)))

  -- Under the documented meaning of the constraints and for every order of the range over the
  -- rules, Reconcile returns without a panic where the resource that it fetches, if it fetches
  -- one, has Running set and a version that parses.
  pub reconcile-Returns :
      (req : NamespacedName) (w : K.World)
      → ((c : Conduit) → K.get_conduit req w ≡ fetched c → IsComplete L.semver c)
      → Returns (reconcile K L r clock req w)
  unfolding reconcile reconcile_stages
  reconcile-Returns req w h = elim (Fetch-cases (K.get_conduit req w)) [
    | inl e ↦ rw (e, reconcile) (_, refl)
    | inr (inl (m, e)) ↦ rw (e, reconcile) (_, refl)
    | inr (inr (c, e)) ↦ elim (Option-cases c.meta.deletion_timestamp) [
      | inr (deleted_at, g) ↦ rw (e, reconcile, g) (_, refl)
      | inl g ↦ elim (Bool-cases (K.contains_finalizer c.meta.finalizers conduit_finalizer)) [
        | inr b ↦ rw (e, reconcile, g, b) (_, refl)
        | inl b ↦
            rw (e, reconcile, g, b)
              (Returns->>= (run_stages K L r clock c _) _ (run_stages-Returns c (h c e) _)
                (λ f. (_, refl)))
      ]
    ]
  ]

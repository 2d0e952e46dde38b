-- ===== src/System.antt =====
-- The operator at work on one resource: the webhook of internal/webhook/v1alpha/conduit_webhook.go and
-- `Reconcile` of internal/controller/conduit_controller.go over one API server.
--
-- The server is a parameter: what is documented of it is the hypothesis `IsServer`. The resource has
-- the status as a subresource, so a write of the resource leaves the status, and one of the status
-- leaves the rest. The webhook is called for each creation and update, by the controller too. Others
-- write between the reconciler's own writes.
pub mod Kept
pub mod Specification
pub mod Bound
pub mod Consistent
pub mod Invariant
pub mod Progress
pub mod Ready
pub mod Deletion
use conduit_operator.Prelude.{ℕ, String, ◌≡◌, ◌⊎◌, Option, none, some, List, []}
use conduit_operator.Prelude.Dict.{Dict}
use conduit_operator.Prelude.Result.{Result}
use conduit_operator.Api.Types.{Conduit, ConduitProcessor, ConduitStatus, NamespacedName}
use conduit_operator.Config.{Reader}
use conduit_operator.Semver.{Semver}
use conduit_operator.Validator.Connector.{Specs}
use conduit_operator.Validator.FieldError.{FieldError}
use conduit_operator.Validator.Http.{Http}
use conduit_operator.Validator.Listing.{PluginInfo}
use conduit_operator.Validator.Processor.{TempDir, Plugins, Store}
use conduit_operator.Webhook.Defaulter.{default_conduit}
use conduit_operator.Webhook.Object.{conduit}
use conduit_operator.Webhook.Validator.{Service, admitted, validate_create, validate_update}
use conduit_operator.Webhook.Validator.Wired.{Clients, validator}
use conduit_operator.Controller.Run.{done}
use conduit_operator.Controller.State.{Answer, found}
use conduit_operator.Controller.Cluster.{Fetch, fetched, Cluster, Libraries, Reconciled}
use conduit_operator.Controller.Reconcile.{ConduitReconciler, reconcile}

-- What the webhook calls.
pub record Webhook : Type 1 where
  pub specs : Specs
  pub plugins : Plugins
  pub http : Http
  pub reader : Reader
  pub list : Dict PluginInfo
  pub temp_dir : TempDir
  pub clients : Clients plugins.Registry
  pub nil_registry :
      ConduitProcessor
      → List String
      → Store plugins.Registry
      → Store plugins.Registry × Option FieldError
  pub semver : Semver
  pub constraint : semver.Constraints
  pub parse_error : String → Option String
  pub show : FieldError → String

module _ (H : Webhook) where
  abbrev pub service : Service
  service = validator H.specs H.plugins H.http H.reader H.list H.temp_dir H.clients H.nil_registry

  -- A resource that was created: the defaults' specification, which was admitted, and no status.
  pub record Created (new : Conduit) : Type 0 where
    pub asked : Conduit
    pub now : ℕ → ℕ
    pub seen : Store H.plugins.Registry
    pub admits :
        (validate_create service H.semver H.constraint H.parse_error
          (conduit (default_conduit now asked))
          seen).1
        ≡ admitted
    pub spec : new.spec ≡ (default_conduit now asked).spec
    pub status : new.status.conditions ≡ []

  -- A resource that was updated: its status is the old one.
  pub record Updated (old new : Conduit) : Type 0 where
    pub asked : Conduit
    pub now : ℕ → ℕ
    pub seen : Store H.plugins.Registry
    pub admits :
        (validate_update service H.show (conduit (default_conduit now asked)) seen).1 ≡ admitted
    pub spec : new.spec ≡ (default_conduit now asked).spec
    pub status : new.status ≡ old.status

  module _ (K : Cluster) (stored : K.World → Option Conduit) where
    -- A world in which the resource is as before.
    abbrev pub Same : K.World → K.World → Type 0
    Same w w' = stored w' ≡ stored w

    -- What the resource is after a write of it: as it was, gone, or updated.
    abbrev pub Rewritten : K.World → K.World → Type 0
    Rewritten w w' =
        Same w w'
        ⊎ (stored w' ≡ none)
        ⊎ ((old : Conduit) × (new : Conduit) × (stored w ≡ some old)
            × (stored w' ≡ some new)
            × Updated old new)

    -- What is written beside `Reconcile`: the user's creations and updates, which the webhook admits,
    -- and the server's changes of the metadata, as at a deletion.
    pub data Write : K.World → K.World → Type 0 where
      creates :
          {w w' : K.World} (new : Conduit)
          → stored w ≡ none
          → stored w' ≡ some new
          → Created new
          → Write w w'
      updates : {w w' : K.World} → Rewritten w w' → Write w w'
      marks :
          {w w' : K.World} (old new : Conduit)
          → stored w ≡ some old
          → stored w' ≡ some new
          → new.spec ≡ old.spec
          → new.status ≡ old.status
          → Write w w'

    -- Any number of writes.
    pub data Writes : K.World → K.World → Type 0 where
      stay : (w : K.World) → Writes w w
      write : {w w' w'' : K.World} → Writes w w' → Write w' w'' → Writes w w''

    -- What an object's write may come with: the writes of others to the resource.
    abbrev pub Leaves : {A : Type 0} → K.World → Answer K.World A → Type 0
    Leaves {A} w answer =
        (a : A) (owner : Option String) (save : A → K.World × Result _)
        → answer ≡ found a owner save
        → (a' : A) → Writes w (save a').0

    -- The documented behaviour of the server towards the reconciler; others may write before a write
    -- of the reconciler is done.
    pub record IsServer : Type 0 where
      pub reads :
          (req : NamespacedName) (w : K.World) (c : Conduit)
          → K.get_conduit req w ≡ fetched c
          → stored w ≡ some c
      pub updates : (c : Conduit) (w : K.World) → Writes w (K.update_conduit c w).0
      pub saves :
          (c : Conduit) (status : ConduitStatus) (w : K.World)
          → (w' : K.World) × Writes w w'
            × (Same w' (K.save_status c status w).0
                ⊎ ((old : Conduit) × (stored w' ≡ some old)
                    × (stored (K.save_status c status w).0
                        ≡ some (record old { status = status }))))
      pub config_maps : (nn : NamespacedName) (w : K.World) → Leaves w (K.config_map nn w)
      pub secrets : (nn : NamespacedName) (w : K.World) → Leaves w (K.secret nn w)
      pub volumes : (pvc : _) (w : K.World) → Leaves w (K.volume pvc w)
      pub deployments : (nn : NamespacedName) (w : K.World) → Leaves w (K.deployment nn w)
      pub services : (nn : NamespacedName) (w : K.World) → Leaves w (K.service nn w)

    module _ (L : Libraries) (r : ConduitReconciler) where
      -- A step of the cluster: a write, or a call of `Reconcile`, with the writes that come between.
      pub data Step : K.World → K.World → Type 0 where
        writes : {w w' : K.World} → Write w w' → Step w w'
        reconciles :
            {w : K.World} (clock : ℕ → ℕ → ℕ) (req : NamespacedName) (out : Reconciled K.World)
            → reconcile K L r clock req w ≡ done out
            → Step w out.world

      -- The worlds that are reached from one without the resource.
      pub data Reach : K.World → Type 0 where
        start : (w : K.World) → stored w ≡ none → Reach w
        next : {w w' : K.World} → Reach w → Step w w' → Reach w'

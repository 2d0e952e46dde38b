-- ===== src/Examples/Cluster.antt =====
-- A cluster of one resource, in which every object is there and every call succeeds.
use conduit_operator.Prelude.{ℕ, suc, String, true, false, Option, none, some, List, [], ◌∷◌}
use conduit_operator.Prelude.Lists.{contains}
use conduit_operator.Prelude.Result.{ok}
use conduit_operator.Api.Types.{Conduit, conduit_finalizer, new_conduit_instance_metadata}
use conduit_operator.Kube.{
  ConfigMap, Secret, PersistentVolumeClaim, Service, Deployment, DeploymentSpec,
}
use conduit_operator.Config.{Reader}
use conduit_operator.Flags.{constraints}
use conduit_operator.Controller.State.{found, created, unchanged}
use conduit_operator.Controller.Cluster.{Fetch, fetched, not_found, Cluster, Libraries}
use conduit_operator.Controller.Reconcile.{ConduitReconciler, new_conduit_reconciler}
use conduit_operator.Examples.Parts.{resource, with_registry}
use conduit_operator.Examples.Versions.{small}

-- The resource as it is stored, and the number of writes.
pub record Shop : Type 0 where
  pub stored : Fetch
  pub writes : ℕ

abbrev pub write : Shop → Shop
write w = record w { writes = suc w.writes }

-- A deleted resource is gone with its last finalizer.
abbrev pub keep_at : Option ℕ → List String → Conduit → Fetch
keep_at none fs c = fetched c
keep_at (some deleted_at) [] c = not_found
keep_at (some deleted_at) (f ∷ fs) c = fetched c

abbrev pub keep : Conduit → Fetch
keep c = keep_at c.meta.deletion_timestamp c.meta.finalizers c

abbrev pub remove_first : List String → String → List String
remove_first [] f = []
remove_first (g ∷ gs) f = gs

abbrev pub config_map : ConfigMap
config_map = record {
  name = "conduit-server-pipe";
  namespace = "default";
  resource_version = "7";
  content = [];
}

abbrev pub secret : Secret
secret = record { name = "conduit-server-pipe"; namespace = "default"; content = [] }

abbrev pub claim : PersistentVolumeClaim
claim = record {
  name = "conduit-server-pipe";
  namespace = "default";
  access_modes = [];
  storage = "1Gi";
  phase = "Bound";
}

abbrev pub service : Service
service = record {
  name = "conduit-server-pipe";
  namespace = "default";
  type = "ClusterIP";
  ports = [];
  selector = [];
  cluster_ip = "10.0.0.7";
}

abbrev pub empty_spec : DeploymentSpec
empty_spec = record {
  strategy = "";
  replicas = 0;
  match_labels = [];
  labels = [];
  annotations = [];
  restart_policy = "";
  init_containers = [];
  containers = [];
  volumes = [];
}

abbrev pub deployment : Deployment
deployment = record {
  name = "conduit-server-pipe";
  namespace = "default";
  spec = empty_spec;
  status = record { replicas = 1; ready_replicas = 1; unavailable_replicas = 0 };
}

abbrev pub all_objects : Reader
all_objects = record {
  get_config_map = λ _ _. ok config_map;
  get_secret = λ _ _. ok secret;
  show_ref = λ _. "";
}

abbrev pub tidy : Cluster
tidy = record {
  World = Shop;
  get_conduit = λ req w. w.stored;
  update_conduit = λ c w. (record { stored = keep c; writes = suc w.writes }, none);
  reader = λ w. all_objects;
  config_map = λ nn w. found config_map none (λ cm. (write w, ok created));
  secret = λ nn w. found secret none (λ s. (write w, ok created));
  volume = λ pvc w. found claim none (λ p. (w, ok unchanged));
  deployment = λ nn w. found deployment none (λ d. (write w, ok created));
  service = λ nn w. found service none (λ s. (write w, ok created));
  get_status = λ c w. ok c.status;
  same_status = λ a b. false;
  save_status = λ c status w. (write w, none);
  contains_finalizer = contains;
  add_finalizer = λ fs f. f ∷ fs;
  remove_finalizer = remove_first;
}

abbrev pub libraries : Libraries
libraries = record {
  semver = small;
  rules = constraints;
  order = λ es. es;
  urls = record {
    Url = String;
    parse = λ s. ok s;
    user_password = λ user password url. url;
    print = λ url. url;
  };
  schema_registry_type_confluent = "confluent";
  marshal = λ config. ok "version: 2.2";
  must_parse = λ size. size;
  merge = λ old new. ok new;
  show = λ n. "1";
}

abbrev pub reconciler : ConduitReconciler
reconciler = new_conduit_reconciler new_conduit_instance_metadata

-- The resource, to be run.
abbrev pub to_run : Conduit
to_run = record with_registry {
  meta = record resource.meta { finalizers = conduit_finalizer ∷ [] };
  spec = record with_registry.spec { running = some true; connectors = []; processors = [] };
}

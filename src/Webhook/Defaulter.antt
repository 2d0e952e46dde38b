-- ===== src/Webhook/Defaulter.antt =====
-- internal/webhook/v1alpha/conduit_webhook.go: `ConduitCustomDefaulter.Default`.
--
-- `now k` is the k-th reading of the clock in the call; each `SetCondition` takes two.
pub mod Conditions
pub mod Idempotent
pub mod Complete
use conduit_operator.Prelude.{
  ℕ, String, ◌+◌, ◌<>◌, ◌==◌, Bool, true, Option, none, some, List, [], ◌∷◌, map, nat_eq,
  if◌then◌else◌,
}
use conduit_operator.Prelude.Lists.{contains}
use conduit_operator.Prelude.Result.{Result, ok, err}
use conduit_operator.Strings.Case.{to_lower}
use conduit_operator.Strings.Prefix.{has_prefix, trim_prefix}
use conduit_operator.Strings.FilePath.{base}
use conduit_operator.Api.Condition.{ConditionType, condition_unknown}
use conduit_operator.Api.ConditionSet.{get_condition_types}
use conduit_operator.Api.Status.{set_condition, get_condition}
use conduit_operator.Api.Types.{
  Conduit, ConduitSpec, ConduitStatus, ConduitConnector, ConduitProcessor, conduit_conditions,
  conduit_image, conduit_version,
}
use conduit_operator.Plugin.{builtin_connectors}
use conduit_operator.Webhook.Object.{Object, conduit, other}

-- A text, or the one to take where it is empty.
unfoldable pub or_default : String → String → String
or_default s d = if s == "" then d else s

-- The loop over the condition types.
unfoldable pub default_conditions : (ℕ → ℕ) → ℕ → List ConditionType → ConduitStatus → ConduitStatus
default_conditions now k [] s = s
default_conditions now k (t ∷ ts) s = default_conditions now (k + 2) ts (elim (get_condition s t) [
  | none ↦ set_condition (now k) (now (k + 1)) s t condition_unknown "" ""
  | some cond ↦ s
])

unfoldable pub default_processor : ConduitProcessor → ConduitProcessor
default_processor p = record p {
  workers = if nat_eq p.workers 0 then 1 else p.workers;
  id = or_default p.id p.name;
}

unfoldable pub processor_defaulter : List ConduitProcessor → List ConduitProcessor
unfolding default_processor
processor_defaulter [] = []
processor_defaulter (p ∷ ps) = default_processor p ∷ processor_defaulter ps

-- The `switch` on the plugin of a connector.
unfoldable pub default_plugin : ConduitConnector → ConduitConnector
default_plugin c =
    let plugin = to_lower c.plugin in
    if contains builtin_connectors plugin
    then record c { plugin = "builtin:" <> plugin; plugin_name = "builtin:" <> plugin }
    else if has_prefix plugin "builtin:"
    then record c { plugin_name = c.plugin }
    else record c {
      plugin_pkg = "github.com/" <> (c.plugin <> ("/cmd/connector@" <> c.plugin_version));
      plugin_name = "standalone:" <> trim_prefix (base c.plugin) "conduit-connector-";
    }

unfoldable pub default_connector : ConduitConnector → ConduitConnector
default_connector c = default_plugin (record c {
  id = or_default c.id c.name;
  processors = processor_defaulter c.processors;
  plugin_version = or_default c.plugin_version "latest";
})

-- A nil `Running` becomes true.
unfoldable pub default_running : Option Bool → Option Bool
default_running none = some true
default_running (some r) = some r

unfoldable pub default_spec : String → ConduitSpec → ConduitSpec
default_spec object_name spec =
    let name = or_default spec.name object_name in
    record spec {
      running = default_running spec.running;
      name = name;
      id = or_default spec.id name;
      image = or_default spec.image conduit_image;
      version = or_default spec.version conduit_version;
      connectors = map default_connector spec.connectors;
      processors = processor_defaulter spec.processors;
    }

unfoldable pub default_conduit : (ℕ → ℕ) → Conduit → Conduit
default_conduit now c = record c {
  status = default_conditions now 0 (get_condition_types conduit_conditions) c.status;
  spec = default_spec c.meta.name c.spec;
}

-- `Default`: the object as the call leaves it, or the error.
unfoldable pub default : (ℕ → ℕ) → Object → Result Object
default now (conduit c) = ok (conduit (default_conduit now c))
default now (other type) = err ("expected an Conduit object but got " <> type)

-- ===== src/Examples/System.antt =====
-- The theorems on the reached worlds, at a server that stores one resource and calls the webhook.
use conduit_operator.Prelude.{◌≤◌, ◌≡◌, refl, subst, none, some, [], ◌∷◌}
use conduit_operator.Prelude.Result.{ok}
use conduit_operator.Api.Types.{Conduit, conduit_finalizer, namespaced_name}
use conduit_operator.Validator.Connector.{
  validate_connector, validate_connector_plugin, validate_connector_plugin_type,
  validate_connector_parameters,
}
use conduit_operator.Validator.Processor.{
  validate_processor, validate_processor_plugin, validate_standalone_processor,
}
use conduit_operator.Strings.Prefix.{trim_prefix}
use conduit_operator.Prelude.Lists.{length, contains}
use conduit_operator.Plugin.{validate_plugin, validate_plugin_type}
use conduit_operator.Controller.Run.{done}
use conduit_operator.Controller.Reconcile.{reconcile, reconcile_new}
use conduit_operator.Webhook.Defaulter.{
  default_conduit, default_spec, default_running, or_default, default_connector, default_plugin,
  default_processor, processor_defaulter,
}
use conduit_operator.Webhook.Validator.Wired.{registry_factory}
use conduit_operator.Webhook.Validator.{
  validate_update, validate_parts, registry, validate_registry, validate_conduit_version,
  validate_connectors, scan_processors, scan_connectors, validate_processors,
}
use conduit_operator.Controller.Cluster.{fetched, not_found}
use conduit_operator.System.{Created, Reach, start, next, creates, writes, reconciles}
use conduit_operator.System.Specification.{IsChecked}
use conduit_operator.Controller.Touches.{Summed}
use conduit_operator.Api.Condition.Sorting.{UniqueTypes}
use conduit_operator.System.Invariant.{
  reached-IsChecked, reached-Summed, length-conditions_of_reached,
}
use conduit_operator.System.Progress.{reached-Returns}
use conduit_operator.Controller.Reconcile.Returns.{Returns}
use mathlib.Core.Option.{some-injective}
use conduit_operator.Examples.Versions.{small, small-IsDocumented, literal_IsRange}
use conduit_operator.Examples.Cluster.{Shop, libraries, reconciler}
use conduit_operator.Examples.Admitted.{files, small_resource, defaulted, creation}
use conduit_operator.Examples.Server.{hook, stored, serving, serving-IsServer}

-- The resource as it is stored after its creation.
abbrev first : Conduit
first = record defaulted {
  status = record { observed_generation = 0; conditions = []; updated_at = none };
}

abbrev empty : Shop
empty = record { stored = not_found; writes = 0 }

abbrev one : Shop
one = record { stored = fetched first; writes = 1 }

first-Created : Created hook first
first-Created = record {
  asked = small_resource;
  now = λ k. k;
  seen = files;
  admits = creation;
  spec = refl;
  status = refl;
}

Reach-one : Reach hook serving stored libraries reconciler one
Reach-one = next (start empty refl) (writes (creates first refl refl first-Created))

-- As `Reconcile` leaves it the first time.
abbrev second : Conduit
second = record first { meta = record first.meta { finalizers = conduit_finalizer ∷ [] } }

abbrev two : Shop
two = record { stored = fetched second; writes = 2 }

first_call :
    reconcile serving libraries reconciler (λ i k. k) (namespaced_name first) one
    ≡ done (record { world = two; events = []; requeue_after = 10; errors = [] })
unfolding reconcile reconcile_new contains validate_update default_conduit registry_factory
    validate_parts registry default_spec validate_registry validate_conduit_version trim_prefix
    or_default validate_connectors validate_connector validate_connector_plugin validate_plugin
    default_connector default_running default_plugin validate_connector_plugin_type
    validate_plugin_type validate_connector_parameters scan_processors scan_connectors
    validate_processors default_processor processor_defaulter validate_processor
    validate_processor_plugin validate_standalone_processor
first_call = refl

Reach-two : Reach hook serving stored libraries reconciler two
Reach-two = next Reach-one (
    reconciles (λ i k. k) (namespaced_name first)
      (record { world = two; events = []; requeue_after = 10; errors = [] }) first_call)

reached-IsChecked_example : IsChecked second.spec
reached-IsChecked_example =
    reached-IsChecked hook serving stored serving-IsServer libraries reconciler two second Reach-two
      refl

reached-Summed_example : Summed second.status
reached-Summed_example =
    reached-Summed hook serving stored serving-IsServer libraries reconciler two second Reach-two
      refl

length-conditions_of_reached_example :
    UniqueTypes second.status.conditions × length second.status.conditions ≤ 6
length-conditions_of_reached_example =
    length-conditions_of_reached hook serving stored serving-IsServer libraries reconciler two
      second Reach-two refl

second-parses :
    (c : Conduit)
    → stored two ≡ some c
    → (v : small.Version) × (small.new_version (trim_prefix c.spec.version "v") ≡ ok v)
unfolding trim_prefix default_conduit default_spec or_default
second-parses c h =
    subst (λ x. (v : small.Version) × (small.new_version (trim_prefix x.spec.version "v") ≡ ok v))
      (some-injective second c h) (_, refl)

reached-Returns_example :
    Returns (reconcile serving libraries reconciler (λ i k. k) (namespaced_name second) two)
reached-Returns_example =
    reached-Returns hook serving stored serving-IsServer libraries (λ r. r) small-IsDocumented
      literal_IsRange reconciler two (λ i k. k) (namespaced_name second) Reach-two second-parses

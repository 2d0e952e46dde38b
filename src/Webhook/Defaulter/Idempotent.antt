-- ===== src/Webhook/Defaulter/Idempotent.antt =====
-- internal/webhook/v1alpha/conduit_webhook.go: a second run of `Default` on the specification.
use conduit_operator.Prelude.{
  String, ◌<>◌, ◌≡◌, refl, Bool, true, false, Option, none, some, List, [], ◌∷◌, map, arith,
  Bool-cases, inl, inr,
}
use conduit_operator.Prelude.Lists.{contains}
use conduit_operator.Strings.Case.{to_lower}
use conduit_operator.Strings.Prefix.{has_prefix, trim_prefix}
use conduit_operator.Strings.FilePath.{base}
use conduit_operator.Api.Types.{
  ConduitConnector, ConduitProcessor, ConduitSpec, conduit_image, conduit_version,
}
use conduit_operator.Plugin.{builtin_connectors}
use conduit_operator.Plugin.Allowed.{OneOf, contains-OneOf}
use conduit_operator.Webhook.Defaulter.{
  default_processor, processor_defaulter, default_plugin, default_connector, default_spec,
  default_running, or_default,
}

or_default_idem : (s d : String) → or_default (or_default s d) d ≡ or_default s d
unfolding or_default
or_default_idem s d = ground arith

default_processor_idem :
    (p : ConduitProcessor) → default_processor (default_processor p) ≡ default_processor p
unfolding default_processor or_default
default_processor_idem p = ground arith

processor_defaulter_idem :
    (ps : List ConduitProcessor)
    → processor_defaulter (processor_defaulter ps) ≡ processor_defaulter ps
unfolding processor_defaulter
processor_defaulter_idem [] = refl
processor_defaulter_idem (p ∷ ps) = rw (processor_defaulter_idem ps, default_processor_idem p)

builtin_names :
    (s : String)
    → OneOf builtin_connectors s
    → (contains builtin_connectors (to_lower ("builtin:" <> s)) ≡ false)
      × (has_prefix (to_lower ("builtin:" <> s)) "builtin:" ≡ true)
unfolding to_lower contains has_prefix
builtin_names s (inl e) = rw e (refl, refl)
builtin_names s (inr (inl e)) = rw e (refl, refl)
builtin_names s (inr (inr (inl e))) = rw e (refl, refl)
builtin_names s (inr (inr (inr (inl e)))) = rw e (refl, refl)
builtin_names s (inr (inr (inr (inr (inl e))))) = rw e (refl, refl)
builtin_names s (inr (inr (inr (inr (inr e))))) = absurd e

-- The fields that every branch of the `switch` finds set.
abbrev pub prepare : ConduitConnector → ConduitConnector
prepare c = record c {
  id = or_default c.id c.name;
  processors = processor_defaulter c.processors;
  plugin_version = or_default c.plugin_version "latest";
}

abbrev pub builtin : ConduitConnector → ConduitConnector
builtin c = record (prepare c) {
  plugin = "builtin:" <> to_lower c.plugin;
  plugin_name = "builtin:" <> to_lower c.plugin;
}

abbrev pub prefixed : ConduitConnector → ConduitConnector
prefixed c = record (prepare c) { plugin_name = c.plugin }

abbrev pub standalone : ConduitConnector → ConduitConnector
standalone c = record (prepare c) {
  plugin_pkg =
      "github.com/" <> (c.plugin <> ("/cmd/connector@" <> or_default c.plugin_version "latest"));
  plugin_name = "standalone:" <> trim_prefix (base c.plugin) "conduit-connector-";
}

module _ (c : ConduitConnector) where
  pub default_connector-builtin :
      contains builtin_connectors (to_lower c.plugin) ≡ true → default_connector c ≡ builtin c
  unfolding default_connector default_plugin
  default_connector-builtin e = rw e

  pub default_connector-prefixed :
      contains builtin_connectors (to_lower c.plugin) ≡ false
      → has_prefix (to_lower c.plugin) "builtin:" ≡ true
      → default_connector c ≡ prefixed c
  unfolding default_connector default_plugin
  default_connector-prefixed e e' = rw (e, e')

  pub default_connector-standalone :
      contains builtin_connectors (to_lower c.plugin) ≡ false
      → has_prefix (to_lower c.plugin) "builtin:" ≡ false
      → default_connector c ≡ standalone c
  unfolding default_connector default_plugin
  default_connector-standalone e e' = rw (e, e')

default_connector_idem :
    (c : ConduitConnector) → default_connector (default_connector c) ≡ default_connector c
default_connector_idem c = elim (Bool-cases (contains builtin_connectors (to_lower c.plugin))) [
  | inl e ↦
      let h =
        builtin_names (to_lower c.plugin)
          (contains-OneOf builtin_connectors (to_lower c.plugin) e) in
      rw (default_connector-builtin c e, default_connector-prefixed (builtin c) h.0 h.1)
        (rw (
          or_default_idem c.id c.name,
          or_default_idem c.plugin_version "latest",
          processor_defaulter_idem c.processors,
        ))
  | inr e ↦ elim (Bool-cases (has_prefix (to_lower c.plugin) "builtin:")) [
    | inl e' ↦
        rw (default_connector-prefixed c e e', default_connector-prefixed (prefixed c) e e')
          (rw (
            or_default_idem c.id c.name,
            or_default_idem c.plugin_version "latest",
            processor_defaulter_idem c.processors,
          ))
    | inr e' ↦
        rw (default_connector-standalone c e e', default_connector-standalone (standalone c) e e')
          (rw (
            or_default_idem c.id c.name,
            or_default_idem c.plugin_version "latest",
            processor_defaulter_idem c.processors,
          ))
  ]
]

default_connectors_idem :
    (cs : List ConduitConnector)
    → map default_connector (map default_connector cs) ≡ map default_connector cs
default_connectors_idem [] = refl
default_connectors_idem (c ∷ cs) = rw (default_connector_idem c, default_connectors_idem cs)

default_running_idem : (r : Option Bool) → default_running (default_running r) ≡ default_running r
unfolding default_running
default_running_idem none = refl
default_running_idem (some r) = refl

pub default_spec_idem :
    (object_name : String) (spec : ConduitSpec)
    → default_spec object_name (default_spec object_name spec) ≡ default_spec object_name spec
unfolding default_spec
default_spec_idem object_name spec =
    let name = or_default spec.name object_name in
    rw (
      default_running_idem spec.running,
      or_default_idem spec.name object_name,
      or_default_idem spec.id name,
      or_default_idem spec.image conduit_image,
      or_default_idem spec.version conduit_version,
      default_connectors_idem spec.connectors,
      processor_defaulter_idem spec.processors,
    )

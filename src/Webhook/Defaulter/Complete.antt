-- ===== src/Webhook/Defaulter/Complete.antt =====
-- internal/webhook/v1alpha/conduit_webhook.go: `Default` on a whole resource.
use conduit_operator.Prelude.{
  ℕ, String, ◌<>◌, ◌≡◌, ◌≢◌, refl, ap, true, false, none, List, [], ◌∷◌, map, arith, eq_iff,
  Bool-cases, inl, inr,
}
use conduit_operator.Prelude.Lists.{All, contains}
use text.Mathlib.TextLemmas.{append-eq-nil_iff}
use conduit_operator.Strings.Case.{to_lower}
use conduit_operator.Strings.Prefix.{has_prefix}
use conduit_operator.Plugin.{builtin_connectors}
use conduit_operator.Prelude.Result.{ok, ◌>>=◌}
use conduit_operator.Api.ConditionSet.{get_condition_types}
use conduit_operator.Api.Types.{
  Conduit, ConduitConnector, ConduitProcessor, conduit_conditions, conduit_image, conduit_version,
}
use conduit_operator.Webhook.Object.{Object, conduit, other}
use conduit_operator.Webhook.Defaulter.{
  default, default_conduit, default_spec, default_connector, processor_defaulter, default_running,
  or_default,
}
use conduit_operator.Webhook.Defaulter.Idempotent.{
  default_spec_idem, default_connector-builtin, default_connector-prefixed,
  default_connector-standalone,
}
use conduit_operator.Webhook.Defaulter.Conditions.{
  Present, default_conditions-Present, default_conditions_of_Present,
}

default_conduit_idem :
    (now later : ℕ → ℕ) (c : Conduit)
    → default_conduit later (default_conduit now c) ≡ default_conduit now c
unfolding default_conduit
default_conduit_idem now later c = rw (
  default_spec_idem c.meta.name c.spec,
  default_conditions_of_Present later 0 (get_condition_types conduit_conditions) _
      (default_conditions-Present now 0 (get_condition_types conduit_conditions) c.status),
)

-- Giving a resource its defaults a second time, at any later time, changes nothing, and an object
-- of another kind is an error both times.
pub default_idem :
    (now later : ℕ → ℕ) (o : Object) → (default now o >>= default later) ≡ default now o
unfolding default
default_idem now later (conduit c) = ap (λ d. ok (conduit d)) (default_conduit_idem now later c)
default_idem now later (other type) = refl

-- A processor with an amount of workers.
abbrev pub ReadyProcessor : ConduitProcessor → Type 0
ReadyProcessor p = p.workers ≢ 0

-- A connector with a plugin version, a name for its plugin, and workers in each processor.
abbrev pub ReadyConnector : ConduitConnector → Type 0
ReadyConnector c = (c.plugin_version ≢ "") × (c.plugin_name ≢ "") × All ReadyProcessor c.processors

processor_defaulter-Ready :
    (ps : List ConduitProcessor) → All ReadyProcessor (processor_defaulter ps)
unfolding processor_defaulter
processor_defaulter-Ready [] = tt
processor_defaulter-Ready (p ∷ ps) = (ground arith, processor_defaulter-Ready ps)

or_default-ne : (s d : String) → d ≢ "" → or_default s d ≢ ""
unfolding or_default
or_default-ne s d h = ground (arith, eq_iff s "")

append-ne : (p s : String) → p ≢ "" → p <> s ≢ ""
append-ne p s h e = h (append-eq-nil_iff.0 e).0

has_prefix-ne : (s : String) → has_prefix (to_lower s) "builtin:" ≡ true → s ≢ ""
unfolding has_prefix to_lower
has_prefix-ne s h e = let k : false ≡ true = rw e at h in cc k

builtin_ne : ◌≢◌ {A = String} "builtin:" ""
builtin_ne = ground (arith, eq_iff "builtin:" "")

standalone_ne : ◌≢◌ {A = String} "standalone:" ""
standalone_ne = ground (arith, eq_iff "standalone:" "")

latest_ne : ◌≢◌ {A = String} "latest" ""
latest_ne = ground (arith, eq_iff "latest" "")

default_connector-Ready : (c : ConduitConnector) → ReadyConnector (default_connector c)
default_connector-Ready c =
    let version = or_default-ne c.plugin_version "latest" latest_ne in
    let workers = processor_defaulter-Ready c.processors in
    elim (Bool-cases (contains builtin_connectors (to_lower c.plugin))) [
      | inl e ↦
          rw (default_connector-builtin c e)
            (version, append-ne "builtin:" (to_lower c.plugin) builtin_ne, workers)
      | inr e ↦ elim (Bool-cases (has_prefix (to_lower c.plugin) "builtin:")) [
        | inl e' ↦
            rw (default_connector-prefixed c e e') (version, has_prefix-ne c.plugin e', workers)
        | inr e' ↦
            rw (default_connector-standalone c e e')
              (version, append-ne "standalone:" _ standalone_ne, workers)
      ]
    ]

default_connectors-Ready :
    (cs : List ConduitConnector) → All ReadyConnector (map default_connector cs)
default_connectors-Ready [] = tt
default_connectors-Ready (c ∷ cs) = (default_connector-Ready c, default_connectors-Ready cs)

-- What the validator and the controller may rely on.
pub record IsDefaulted (c : Conduit) : Type 0 where
  pub conditions : All (Present c.status) (get_condition_types conduit_conditions)
  pub running : c.spec.running ≢ none
  pub image : c.spec.image ≢ ""
  pub version : c.spec.version ≢ ""
  pub connectors : All ReadyConnector c.spec.connectors
  pub processors : All ReadyProcessor c.spec.processors

-- After Default every condition type of the set has a condition, Running, the image and the
-- version are set, every connector has a plugin version and a plugin name, and every processor has
-- workers.
pub default-IsDefaulted : (now : ℕ → ℕ) (c : Conduit) → IsDefaulted (default_conduit now c)
unfolding default_conduit default_spec
default-IsDefaulted now c = record {
  conditions = default_conditions-Present now 0 (get_condition_types conduit_conditions) c.status;
  running = unfold default_running in ground arith;
  image = or_default-ne c.spec.image conduit_image (ground (arith, eq_iff conduit_image ""));
  version =
      or_default-ne c.spec.version conduit_version (ground (arith, eq_iff conduit_version ""));
  connectors = default_connectors-Ready c.spec.connectors;
  processors = processor_defaulter-Ready c.spec.processors;
}

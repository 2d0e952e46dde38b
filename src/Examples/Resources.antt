-- ===== src/Examples/Resources.antt =====
-- The theorems on defaults, configuration and containers at the shared resource.
use conduit_operator.Prelude.{◌+◌, ◌⊎◌, ◌≡◌, ◌↔◌, refl, true, none, [], ◌∷◌}
use conduit_operator.Prelude.Lists.{any, All}
use conduit_operator.Prelude.Dict.{lookup, insert}
use conduit_operator.Prelude.Result.{ok, ◌>>=◌}
use conduit_operator.Builder.{connector_buildable, processor_buildable}
use conduit_operator.Containers.{is_standalone, is_downloaded, conduit_init_containers}
use conduit_operator.Containers.Init.{runs, all_processors, conduit_init_containers_lem}
use conduit_operator.Config.{
  env_vars, scan_settings, env_var_name, settings_with_env_vars, setting_value, pipeline_config,
  Pipeline,
}
use conduit_operator.Config.Settings.{
  IsCarried, Resolves, last_value, result_of, env_vars-IsCarried, settings_with_env_vars_lem,
}
use conduit_operator.Config.Building.{ProcessorsResolve, IsPipelineOf, pipeline_config_lem}
use conduit_operator.Webhook.Object.{conduit}
use conduit_operator.Webhook.Defaulter.{default}
use conduit_operator.Webhook.Defaulter.Complete.{default_idem}
use conduit_operator.Plugin.{
  validate_plugin, builtin_connectors, allowed_github_orgs, forbidden_connectors,
}
use conduit_operator.Plugin.Allowed.{OneOf, Below, validate_plugin_iff}
use conduit_operator.Strings.Case.{to_lower, trim_spaces}
use conduit_operator.Strings.Prefix.{trim_prefix}
use conduit_operator.Examples.Parts.{resource, sink, filter, no_objects}

default_idem_example :
    (default (λ k. k) (conduit resource) >>= default (λ k. k + 100))
    ≡ default (λ k. k) (conduit resource)
default_idem_example = default_idem (λ k. k) (λ k. k + 100) (conduit resource)

env_vars-IsCarried_example :
    All (λ cc. All (IsCarried no_objects (env_vars resource)) cc.settings) resource.spec.connectors
env_vars-IsCarried_example = env_vars-IsCarried no_objects resource

processors_resolve : ProcessorsResolve no_objects (filter ∷ [])
unfolding setting_value
processors_resolve = ((("key", refl), tt), tt)

settings_resolve : All (Resolves no_objects) sink.settings
unfolding setting_value env_var_name
settings_resolve = (("localhost", refl), (("${PASS_WORD}", refl), tt))

pipeline_config_lem_example :
    (p : Pipeline) × (pipeline_config no_objects true resource.spec
      ≡ ok (record { version = "2.2"; pipelines = p ∷ [] }))
    × IsPipelineOf no_objects true resource.spec p
pipeline_config_lem_example =
    pipeline_config_lem no_objects true resource.spec ((settings_resolve, processors_resolve), tt)
      processors_resolve

settings_built :
    settings_with_env_vars no_objects sink.settings
    ≡ ok (("servers", "localhost") ∷ ("sasl.password", "${PASS_WORD}") ∷ [])
unfolding scan_settings setting_value env_var_name insert
settings_built = refl

settings_with_env_vars_lem_example :
    last_value no_objects "servers" sink.settings
    ≡ result_of none
        (lookup "servers" (("servers", "localhost") ∷ ("sasl.password", "${PASS_WORD}") ∷ []))
settings_with_env_vars_lem_example =
    settings_with_env_vars_lem no_objects sink.settings
      (("servers", "localhost") ∷ ("sasl.password", "${PASS_WORD}") ∷ []) settings_built "servers"

conduit_init_containers_lem_example :
    let containers = conduit_init_containers (sink ∷ []) (filter ∷ []) in
    (runs "conduit-init" containers ≡ true)
    × (runs "conduit-init-connectors" containers ≡ any is_standalone (sink ∷ []))
    × (runs "conduit-init-processors" containers
        ≡ any is_downloaded (all_processors (sink ∷ []) (filter ∷ [])))
conduit_init_containers_lem_example = conduit_init_containers_lem (sink ∷ []) (filter ∷ [])

validate_plugin_iff_example :
    let t = to_lower (trim_spaces " ConduitIO/conduit-connector-http ") in
    (validate_plugin " ConduitIO/conduit-connector-http " ≡ none) ↔ (
      OneOf builtin_connectors (trim_prefix t "builtin:")
      ⊎ (Below allowed_github_orgs t × ¬ OneOf forbidden_connectors t))
validate_plugin_iff_example = validate_plugin_iff " ConduitIO/conduit-connector-http "

-- ===== src/Validator/Passing.antt =====
-- pkg/conduit/conduit_validator.go: which connectors pass.
use conduit_operator.Prelude.{String, ◌≡◌, ◌↔◌, none, List, [], arith}
use conduit_operator.Prelude.Dict.{Dict}
use conduit_operator.Api.Types.{ConduitConnector}
use conduit_operator.Config.{Reader}
use conduit_operator.Plugin.{validate_plugin, validate_plugin_type}
use conduit_operator.Validator.Http.{Http}
use conduit_operator.Validator.Listing.{PluginInfo}
use conduit_operator.Validator.Connector.{
  Specs, validate_connector_plugin, validate_connector_plugin_type, validate_connector_parameters,
  validate_connector,
}

module _ (P : Specs) (http : Http) (cl : Reader) (c : ConduitConnector) (fp : List String) where
  no_list :
      validate_plugin_type c.type ≡ none → validate_connector_parameters P http cl [] c fp ≡ none
  unfolding validate_connector_parameters validate_plugin_type
  no_list h = ground arith

  passing :
      (list : Dict PluginInfo)
      → validate_connector P http cl list c fp ≡ none
        ↔ (validate_plugin c.plugin ≡ none)
          × (validate_plugin_type c.type ≡ none)
          × (validate_connector_parameters P http cl list c fp ≡ none)
  unfolding validate_connector validate_connector_plugin validate_connector_plugin_type
  passing list = ground arith

  -- A connector that passes ValidateConnector, with any list of connectors, has a supported plugin
  -- and plugin type; without a list every connector with a supported plugin and plugin type
  -- passes.
  pub validate_connector_lem :
      ((list : Dict PluginInfo)
        → validate_connector P http cl list c fp ≡ none
        → (validate_plugin c.plugin ≡ none) × (validate_plugin_type c.type ≡ none))
      × (validate_plugin c.plugin ≡ none
          → validate_plugin_type c.type ≡ none
          → validate_connector P http cl [] c fp ≡ none)
  validate_connector_lem = (
    λ list h. let (p, t, r) = (passing list).0 h in (p, t),
    λ p t. (passing []).1 (p, t, no_list t),
  )

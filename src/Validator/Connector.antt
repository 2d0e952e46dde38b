-- ===== src/Validator/Connector.antt =====
-- pkg/conduit/conduit_validator.go: `ValidateConnector`.
--
-- The specification of a connector and `config.Validate` belong to other repositories: they are the
-- parameter `P`. A call of the logger is left out, and so is a panic of `sdk.YAMLSpecification`.
use conduit_operator.Prelude.{
  String, ◌<>◌, not, ◌||◌, ◌==◌, Option, none, some, List, [], ◌∷◌, if◌then◌else◌, nat_eq,
}
use conduit_operator.Prelude.Dict.{Dict, insert, lookup}
use conduit_operator.Prelude.Result.{Result, ok, err, ◌>>=◌, wrap}
use conduit_operator.Strings.Quote.{quote}
use conduit_operator.Api.Types.{ConduitConnector, SettingsVar}
use conduit_operator.Config.{Reader}
use conduit_operator.Plugin.{validate_plugin, validate_plugin_type}
use conduit_operator.Validator.FieldError.{FieldError, child, invalid_error, internal_error}
use conduit_operator.Validator.Http.{Http, status_ok}
use conduit_operator.Validator.Listing.{PluginInfo, base_url, filter_connector}

-- `sdk.YAMLSpecification(body, version)()` and the `Validate` of its parameters.
pub record Specs : Type 1 where
  pub Spec : Type 0
  pub yaml_specification : String → String → Spec
  pub validate_source : Spec → Dict String → Option String
  pub validate_destination : Spec → Dict String → Option String

-- pconfig's `TypeSource` and `TypeDestination`.
abbrev pub type_source : String
type_source = "source"

abbrev pub type_destination : String
type_destination = "destination"

abbrev pub field_error : List String → String → String → Option String → Option FieldError
field_error fp name value none = none
field_error fp name value (some e) = some (invalid_error (child fp name) value e)

unfoldable pub validate_connector_plugin : ConduitConnector → List String → Option FieldError
validate_connector_plugin c fp = field_error fp "plugin" c.plugin (validate_plugin c.plugin)

unfoldable pub validate_connector_plugin_type : ConduitConnector → List String → Option FieldError
validate_connector_plugin_type c fp = field_error fp "type" c.type (validate_plugin_type c.type)

-- The client reads the secret without a namespace.
unfoldable pub value_or_secret : Reader → SettingsVar → Result String
unfolding quote
value_or_secret cl setting = elim setting.secret_ref [
  | none ↦ ok setting.value
  | some ref ↦
      wrap (λ e. "failed to get " <> (quote ref.name <> (" secret: " <> e)))
        (cl.get_secret "" ref.name)
      >>= λ secret. elim (lookup ref.key secret.content) [
        | some val ↦ ok val
        | none ↦ err ("secret ref key " <> (ref.key <> " does not exist"))
      ]
]

-- The loop over the settings: the values and the errors, each under the setting's name. A setting
-- that cannot be read has the empty text as its value.
unfoldable pub scan_settings :
    Reader → List SettingsVar → Dict String → Dict String → Dict String × Dict String
scan_settings cl [] settings errs = (settings, errs)
scan_settings cl (setting ∷ rest) settings errs = elim (value_or_secret cl setting) [
  | ok val ↦ scan_settings cl rest (insert setting.name val settings) errs
  | err e ↦ scan_settings cl rest (insert setting.name "" settings) (insert setting.name e errs)
]

-- The loop over the errors.
unfoldable pub error_list : Dict String → String
error_list [] = ""
error_list ((setting, e) ∷ errs) =
    "{ setting: " <> (setting <> (", err: " <> (e <> ("} " <> error_list errs))))

module _ (P : Specs) where
  unfoldable pub fetch_yaml_spec : Http → ConduitConnector → PluginInfo → Result P.Spec
  fetch_yaml_spec http c plugin =
      if plugin.version == ""
      then err ("no version found for connector " <> plugin.name)
      else wrap (λ e. "creating the http request " <> e)
          (http.new_request (
            base_url
            <> ("/"
                <> (plugin.org
                    <> ("/" <> (plugin.name <> ("@" <> (plugin.version <> "/connector.yaml"))))))))
        >>= λ req.
            (wrap (λ e. "getting yaml from cache with error " <> e) (http.do_request req)
              >>= λ resp.
                  if nat_eq resp.status_code status_ok
                  then (wrap (λ e. "reading response body " <> e) resp.body >>= λ body.
                      ok (P.yaml_specification body c.plugin_version))
                  else err ("getting yaml, status code " <> http.show_status resp.status_code))

  -- The check of the settings against the specification.
  unfoldable pub validate_config :
      ConduitConnector → List String → P.Spec → Dict String → Option FieldError
  validate_config c fp spec config =
      if c.type == type_source
      then field_error fp "parameter" c.type (P.validate_source spec config)
      else if c.type == type_destination
      then field_error fp "parameter" c.type (P.validate_destination spec config)
      else none

  -- The part behind the specification.
  unfoldable pub validate_settings :
      Reader → ConduitConnector → List String → P.Spec → Option FieldError
  validate_settings cl c fp spec =
      let (settings, errs) = scan_settings cl c.settings [] [] in
      elim errs [
        | [] ↦ validate_config c fp spec settings
        | e ∷ es ↦ some (
            internal_error (child fp "parameter")
              ("getting secrets for connector " <> (c.name <> (": " <> error_list (e ∷ es)))))
      ]

  unfoldable pub validate_connector_parameters :
      Http → Reader → Dict PluginInfo → ConduitConnector → List String → Option FieldError
  validate_connector_parameters http cl connector_list c fp =
      if not (c.type == type_source || c.type == type_destination)
      then some (
          internal_error (child fp "parameter")
            ("connector type " <> (c.type <> " is not recognized")))
      else elim connector_list [
        | [] ↦ none
        | p ∷ ps ↦ elim (filter_connector (p ∷ ps) c.plugin_name) [
          | none ↦ none
          | some plugin ↦ elim (fetch_yaml_spec http c plugin) [
            | err e ↦ none
            | ok spec ↦ validate_settings cl c fp spec
          ]
        ]
      ]

  unfoldable pub validate_connector :
      Http → Reader → Dict PluginInfo → ConduitConnector → List String → Option FieldError
  validate_connector http cl connector_list c fp = elim (validate_connector_plugin c fp) [
    | some e ↦ some e
    | none ↦ elim (validate_connector_plugin_type c fp) [
      | some e ↦ some e
      | none ↦ validate_connector_parameters http cl connector_list c fp
    ]
  ]

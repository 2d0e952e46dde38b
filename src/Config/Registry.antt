-- ===== src/Config/Registry.antt =====
-- internal/controller/conduit_config.go: the connection string of the schema registry.
--
-- net/url is the parameter `U`.
use conduit_operator.Prelude.{String, ◌<>◌, ◌==◌, none, some, [], if◌then◌else◌}
use conduit_operator.Prelude.Dict.{Dict, lookup, insert}
use conduit_operator.Prelude.Result.{Result, ok, ◌>>=◌, wrap}
use conduit_operator.Strings.Quote.{quote}
use conduit_operator.Api.Types.{Conduit, SettingsVar, SchemaRegistry}
use conduit_operator.Config.{Reader}

abbrev pub schema_registry_conn_string_env_var : String
schema_registry_conn_string_env_var = "CONDUIT_SCHEMA_REGISTRY_CONFLUENT_CONNECTION_STRING"

abbrev pub schema_registry_type_env_var : String
schema_registry_type_env_var = "CONDUIT_SCHEMA_REGISTRY_TYPE"

-- A value of the setting, or of its secret in the namespace; a missing key gives the empty text.
unfoldable pub value_or_secret : Reader → String → SettingsVar → Result String
unfolding quote
value_or_secret cl namespace v = elim v.secret_ref [
  | none ↦ ok v.value
  | some ref ↦
      wrap (λ e. "failed to get " <> (quote ref.name <> (" secret: " <> e)))
        (cl.get_secret namespace ref.name)
      >>= λ secret. elim (lookup ref.key secret.content) [ some val ↦ ok val | none ↦ ok "" ]
]

-- `url.Parse`, `u.User = url.UserPassword(user, password)` and `u.String()`.
pub record Urls : Type 1 where
  pub Url : Type 0
  pub parse : String → Result Url
  pub user_password : String → String → Url → Url
  pub print : Url → String

module _ (U : Urls) (schema_registry_type_confluent : String) where
  -- The part behind the guard; `schema_registry_type_confluent` is conduit's constant.
  unfoldable pub registry_settings : Reader → String → SchemaRegistry → Result (Dict String)
  registry_settings cl namespace registry =
      wrap (λ e. "failed to parse registry URL: " <> e) (U.parse registry.url) >>= λ u.
      (wrap (λ e. "failed to resolve registry username: " <> e)
          (value_or_secret cl namespace registry.username)
        >>= λ user.
            (wrap (λ e. "failed to resolve registry username: " <> e)
                (value_or_secret cl namespace registry.password)
              >>= λ password.
                  let target = if password == "" then u else U.user_password user password u in
                  ok (
                    insert schema_registry_conn_string_env_var (U.print target)
                      (insert schema_registry_type_env_var schema_registry_type_confluent []))))

  unfoldable pub schema_registry_config : Reader → Conduit → Result (Dict String)
  schema_registry_config cl c = elim c.spec.registry [
    | none ↦ ok []
    | some registry ↦
        if registry.url == "" then ok [] else registry_settings cl c.meta.namespace registry
  ]

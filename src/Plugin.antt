-- ===== src/Plugin.antt =====
-- pkg/conduit/plugin.go: which connector plugins and plugin types are supported.
pub mod Allowed
use conduit_operator.Prelude.{
  String, ◌<>◌, ◌==◌, ◌≡◌, refl, Bool, ◌||◌, Option, none, some, List, [], ◌∷◌, if◌then◌else◌,
}
use conduit_operator.Prelude.Lists.{any, contains}
use conduit_operator.Strings.Case.{to_lower, trim_spaces}
use conduit_operator.Strings.Prefix.{has_prefix, trim_prefix}
use conduit_operator.Strings.Quote.{quote}

abbrev pub allowed_github_orgs : List String
allowed_github_orgs = "conduitio/" ∷ "conduitio-labs/" ∷ "meroxa/" ∷ []

abbrev pub forbidden_connectors : List String
forbidden_connectors =
    "github.com/conduitio/conduit-connector-file" ∷ "conduitio/conduit-connector-file" ∷ []

abbrev pub builtin_connectors : List String
builtin_connectors = "kafka" ∷ "generator" ∷ "s3" ∷ "postgres" ∷ "log" ∷ []

abbrev pub source_connector : String
source_connector = "source"

abbrev pub dest_connector : String
dest_connector = "destination"

-- One round of the loop over the organizations: the name may start with `github.com/`.
unfoldable pub is_from_org : String → String → Bool
unfolding has_prefix
is_from_org trimmed_name org =
    has_prefix trimmed_name org || has_prefix trimmed_name ("github.com/" <> org)

-- `none` is the nil error, `some` the message of an error.
unfoldable pub validate_plugin : String → Option String
unfolding to_lower trim_spaces trim_prefix contains any is_from_org quote
validate_plugin name =
    let trimmed_name = to_lower (trim_spaces name) in
    if contains builtin_connectors (trim_prefix trimmed_name "builtin:")
    then none
    else if any (λ fc. trimmed_name == fc) forbidden_connectors
    then some ("plugin " <> (quote name <> " is not supported"))
    else if any (is_from_org trimmed_name) allowed_github_orgs
    then none
    else some ("plugin " <> (quote name <> " is not supported"))

unfoldable pub validate_plugin_type : String → Option String
unfolding quote
validate_plugin_type t =
    if t == source_connector || t == dest_connector
    then none
    else some ("plugin type " <> (quote t <> " is not supported"))

-- The cases of plugin_test.go.
accepts_test :
    (validate_plugin "github.com/conduitio/foo-connector" ≡ none)
    × (validate_plugin "ConduitIO/foo-connector" ≡ none)
    × (validate_plugin "builtin:log  " ≡ none)
unfolding validate_plugin
accepts_test = (refl, refl, refl)

refuses_test :
    (validate_plugin "builtin:file" ≡ some "plugin \"builtin:file\" is not supported")
    × (validate_plugin "github.com/ConduitIO/conduit-connector-file"
        ≡ some "plugin \"github.com/ConduitIO/conduit-connector-file\" is not supported")
    × (validate_plugin "" ≡ some "plugin \"\" is not supported")
unfolding validate_plugin
refuses_test = (refl, refl, refl)

-- ===== src/Validator/Listing.antt =====
-- pkg/conduit/conduit_validator.go: the list of connectors and the lookup in it.
--
-- A range over the list, a Go map, takes its pairs in any order: here the order of the `Dict`.
use conduit_operator.Prelude.{
  String, ◌<>◌, ◌≡◌, refl, Bool, Option, none, some, List, [], ◌∷◌, if◌then◌else◌, nat_eq,
}
use conduit_operator.Prelude.Lists.{contains}
use conduit_operator.Prelude.Dict.{Dict, insert}
use conduit_operator.Prelude.Result.{Result, ok, err, ◌>>=◌}
use conduit_operator.Strings.Case.{to_lower}
use conduit_operator.Strings.Prefix.{trim_prefix, has_substring}
use conduit_operator.Strings.Split.{split_path}
use conduit_operator.Plugin.{allowed_github_orgs, builtin_connectors}
use conduit_operator.Validator.Http.{Http, status_ok}

abbrev pub base_url : String
base_url = "https://conduit.io/connectors/github.com"

abbrev pub connector_url : String
connector_url = "https://conduit.io/connectors.json"

pub record PluginInfo : Type 0 where
  pub name : String
  pub org : String
  pub url : String
  pub version : String

pub record Releases : Type 0 where
  pub name : String
  pub latest : Bool

pub record ConnectorInfo : Type 0 where
  pub name : String
  pub url : String
  pub releases : List Releases

-- The loop over the releases: the name of the first that is the latest.
unfoldable pub latest_version : List Releases → String
latest_version [] = ""
latest_version (rel ∷ rels) = if rel.latest then rel.name else latest_version rels

-- The rest of a round of the loop over the connectors, behind the split of the name.
unfoldable pub add_parts : ConnectorInfo → List String → Dict PluginInfo → Dict PluginInfo
unfolding contains latest_version
add_parts c (org ∷ name ∷ []) plugins =
    if contains allowed_github_orgs (org <> "/")
    then insert name
        (record { name = name; org = org; url = c.url; version = latest_version c.releases })
        plugins
    else plugins
add_parts c parts plugins = plugins

unfoldable pub add_connector : ConnectorInfo → Dict PluginInfo → Dict PluginInfo
unfolding to_lower split_path
add_connector c plugins = add_parts c (split_path (to_lower c.name)) plugins

unfoldable pub add_connectors : List ConnectorInfo → Dict PluginInfo → Dict PluginInfo
add_connectors [] plugins = plugins
add_connectors (c ∷ cs) plugins = add_connectors cs (add_connector c plugins)

-- `unmarshal` is `json.Unmarshal` into the list of connectors.
unfoldable pub connector_list :
    Http → (unmarshal : String → Result (List ConnectorInfo)) → Result (Dict PluginInfo)
connector_list http unmarshal = http.new_request connector_url >>= λ req.
    (http.do_request req >>= λ resp.
    if nat_eq resp.status_code status_ok
    then (resp.body >>= λ body.
        (unmarshal body >>= λ connectors. ok (add_connectors connectors [])))
    else err ("getting connector list, status code: " <> http.show_status resp.status_code))

-- An error leaves no list.
abbrev pub list_of : Result (Dict PluginInfo) → Dict PluginInfo
list_of (ok plugins) = plugins
list_of (err e) = []

-- The list that `NewValidator` keeps.
unfoldable pub new_validator :
    Http → (unmarshal : String → Result (List ConnectorInfo)) → Dict PluginInfo
new_validator http unmarshal = list_of (connector_list http unmarshal)

-- The `switch` on the number of parts.
unfoldable pub format_parts : List String → String
unfolding trim_prefix contains
format_parts (part ∷ []) =
    let trimmed_name = trim_prefix part "builtin:" in
    if contains builtin_connectors trimmed_name then "conduit-connector-" <> trimmed_name else ""
format_parts (org ∷ name ∷ []) = name
format_parts parts = ""

-- The error of `formatPluginName` is always nil.
unfoldable pub format_plugin_name : String → String
unfolding to_lower trim_prefix split_path format_parts
format_plugin_name pn = format_parts (split_path (trim_prefix (to_lower pn) "github.com/"))

-- The loop over the list.
unfoldable pub first_containing : String → Dict PluginInfo → Option PluginInfo
unfolding has_substring
first_containing plugin_name [] = none
first_containing plugin_name ((k, p) ∷ ps) =
    if has_substring p.name plugin_name then some p else first_containing plugin_name ps

-- `none` where the call returns the error that no plugin matches.
unfoldable pub filter_connector : Dict PluginInfo → String → Option PluginInfo
unfolding format_plugin_name first_containing
filter_connector connector_list n = first_containing (format_plugin_name n) connector_list

format_plugin_name_test :
    (format_plugin_name "builtin:log" ≡ "conduit-connector-log")
    × (format_plugin_name "github.com/ConduitIO/conduit-connector-file" ≡ "conduit-connector-file")
    × (format_plugin_name "standalone:file" ≡ "")
unfolding format_plugin_name
format_plugin_name_test = (refl, refl, refl)

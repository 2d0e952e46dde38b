-- ===== src/Flags.antt =====
-- pkg/conduit/version.go: the command line flags of the Conduit server for its version.
pub mod Supported
pub mod Reading
use conduit_operator.Prelude.{
  String, ◌<>◌, Bool, true, false, Option, none, some, List, [], ◌∷◌, ◌==◌, if◌then◌else◌,
}
use conduit_operator.Prelude.Dict.{Dict}
use conduit_operator.Prelude.Result.{Result, ok, err}
use conduit_operator.Strings.Prefix.{trim_prefix}
use conduit_operator.Strings.FilePath.{dir}
use conduit_operator.Semver.{Semver}

pub record Args : Type 0 where
  pub pipeline_file : String
  pub connectors_path : String
  pub db_path : String
  pub processors_path : String
  pub log_format : String

abbrev pub zero_args : Args
zero_args = record {
  pipeline_file = "";
  connectors_path = "";
  db_path = "";
  processors_path = "";
  log_format = "";
}

apply_all : List (Args → Args) → Args → Args
apply_all [] args = args
apply_all (fn ∷ fns) args = apply_all fns (fn args)

-- `Flags` holds a pointer to its arguments, and nothing else.
unfoldable pub new_flags : List (Args → Args) → Args
unfolding apply_all
new_flags fns = apply_all fns zero_args

abbrev pub with_pipeline_file : String → Args → Args
with_pipeline_file file a = record a { pipeline_file = file }

abbrev pub with_connectors_path : String → Args → Args
with_connectors_path path a = record a { connectors_path = path }

abbrev pub with_db_path : String → Args → Args
with_db_path path a = record a { db_path = path }

abbrev pub with_processors_path : String → Args → Args
with_processors_path path a = record a { processors_path = path }

abbrev pub with_log_format : String → Args → Args
with_log_format format a = record a { log_format = format }

unfoldable pub v011 : Args → List String
v011 a =
    "-pipelines.path" ∷ a.pipeline_file ∷ "-connectors.path" ∷ a.connectors_path ∷ "-db.type"
    ∷ "sqlite" ∷ "-db.sqlite.path" ∷ a.db_path ∷ "-pipelines.exit-on-error" ∷ "-processors.path"
    ∷ a.processors_path ∷ "-log.format" ∷ a.log_format ∷ []

unfoldable pub v012 : Args → List String
v012 a =
    "--pipelines.path" ∷ a.pipeline_file ∷ "--connectors.path" ∷ a.connectors_path ∷ "--db.type"
    ∷ "sqlite" ∷ "--db.sqlite.path" ∷ a.db_path ∷ "--pipelines.exit-on-degraded"
    ∷ "--pipelines.error-recovery.max-retries" ∷ "0" ∷ "--processors.path" ∷ a.processors_path
    ∷ "--log.format" ∷ a.log_format ∷ []

unfoldable pub v013upto4 : Args → List String
v013upto4 a =
    "run" ∷ "--pipelines.path" ∷ a.pipeline_file ∷ "--connectors.path" ∷ a.connectors_path
    ∷ "--db.type" ∷ "sqlite" ∷ "--db.sqlite.path" ∷ a.db_path ∷ "--pipelines.exit-on-degraded"
    ∷ "--pipelines.error-recovery.max-retries" ∷ "0" ∷ "--processors.path" ∷ a.processors_path
    ∷ "--log.format" ∷ a.log_format ∷ []

unfoldable pub v0134plus : Args → List String
v0134plus a =
    "run"
    ∷ "--pipelines.path"
    ∷ dir a.pipeline_file
    ∷ "--connectors.path"
    ∷ a.connectors_path
    ∷ "--db.type"
    ∷ "sqlite"
    ∷ "--db.sqlite.path"
    ∷ a.db_path
    ∷ "--pipelines.exit-on-degraded"
    ∷ "--pipelines.error-recovery.max-retries"
    ∷ "0"
    ∷ "--processors.path"
    ∷ a.processors_path
    ∷ "--log.format"
    ∷ a.log_format
    ∷ []

-- The `switch` on the key of the rule that matched; any other key goes on with the loop.
unfoldable pub flags_for : Args → String → Option (List String)
flags_for a key =
    if key == "v011"
    then some (v011 a)
    else if key == "v012"
    then some (v012 a)
    else if key == "v013.4"
    then some (v013upto4 a)
    else if key == "v013.5+"
    then some (v0134plus a)
    else none

-- The map `constraints`, in the order of its literal. A range over it may take any order.
abbrev pub constraints : Dict String
constraints =
    ("v011", "~0.11.x")
    ∷ ("v012", "~0.12.x")
    ∷ ("v013.4", "<= 0.13.4, >= 0.13.0")
    ∷ ("v013.5+", "^0.13.5")
    ∷ []

-- What a call does: it returns, or it panics.
pub data Call {ℓ} (A : Type ℓ) : Type ℓ where
  returns : Result A → Call A
  panics : Call A

-- The rest of a round of the loop, behind the call of `Check`.
abbrev pub checked : Args → String → Option Bool → Call (List String) → Call (List String)
checked a key none rest = panics
checked a key (some false) rest = rest
checked a key (some true) rest = elim (flags_for a key) [
  | some flags ↦ returns (ok flags)
  | none ↦ rest
]

module _ (S : Semver) where
  -- The loop over the rules, in the order in which the range gives them.
  unfoldable pub match_rules : Args → String → Option S.Version → Dict String → Call (List String)
  match_rules a ver v [] = returns (err ("version " <> (ver <> " not supported")))
  match_rules a ver v ((key, rule) ∷ rules) =
      let rest = match_rules a ver v rules in
      elim (S.new_constraint rule) [
        | err e ↦ returns (err ("parse error occured while creating constraint: " <> e))
        | ok c ↦ checked a key (S.check c v) rest
      ]

  -- `v, _ := semver.NewVersion(sanitized)`: on an error the pointer is nil.
  unfoldable pub parse_version : String → Option S.Version
  parse_version ver = elim (S.new_version (trim_prefix ver "v")) [ ok v ↦ some v | err e ↦ none ]

  -- `rules` is `constraints` in the order of the range.
  unfoldable pub for_version : Dict String → Args → String → Call (List String)
  for_version rules a ver = match_rules a ver (parse_version ver) rules

-- ===== src/Examples/Versions.antt =====
-- The theorems on versions at a small library that knows the five constraints.
use conduit_operator.Prelude.{
  String, ◌≡◌, ◌↔◌, refl, ◌==◌, Bool, true, false, none, some, List, if◌then◌else◌, inl, inr,
}
use conduit_operator.Prelude.Dict.{Dict, keys}
use conduit_operator.Prelude.Lists.{contains}
use conduit_operator.Prelude.Result.{ok, err}
use conduit_operator.Strings.Prefix.{trim_prefix}
use conduit_operator.Semver.{Release, Semver, IsDocumented, in_minor, at_least_minor}
use conduit_operator.Flags.{
  v0134plus, Args, returns, for_version, match_rules, parse_version, constraints,
}
use conduit_operator.Flags.Reading.{read_flags, meant, read_flags-for_version}
use conduit_operator.Flags.Supported.{IsRange, supported, or_unsupported, for_version_lem}
use conduit_operator.Webhook.Validator.{conduit_ver_constraint, validate_conduit_version}
use conduit_operator.Webhook.Validator.Versions.{validate_conduit_version_lem}

abbrev pub small : Semver
small = record {
  Version = Release;
  Constraints = Release → Bool;
  new_version = λ s.
      if s == "0.13.5"
      then ok (record { major = 0; minor = 13; patch = 5; prerelease = false })
      else if s == "0.13.2"
      then ok (record { major = 0; minor = 13; patch = 2; prerelease = false })
      else if s == "0.14.0"
      then ok (record { major = 0; minor = 14; patch = 0; prerelease = false })
      else err "invalid semantic version";
  new_constraint = λ s.
      if s == "~0.11.x"
      then ok (in_minor 11 0 none)
      else if s == "~0.12.x"
      then ok (in_minor 12 0 none)
      else if s == "<= 0.13.4, >= 0.13.0"
      then ok (in_minor 13 0 (some 4))
      else if s == "^0.13.5"
      then ok (in_minor 13 5 none)
      else if s == ">= 0.11.0"
      then ok (at_least_minor 11)
      else err "improper constraint";
  check = λ c v. elim v [ none ↦ none | some r ↦ some (c r) ];
}

pub small-IsDocumented : IsDocumented small (λ r. r)
small-IsDocumented = record {
  tilde_11 = (in_minor 11 0 none, refl, λ v. refl);
  tilde_12 = (in_minor 12 0 none, refl, λ v. refl);
  up_to_13_4 = (in_minor 13 0 (some 4), refl, λ v. refl);
  caret_13_5 = (in_minor 13 5 none, refl, λ v. refl);
  from_11 = (at_least_minor 11, refl, λ v. refl);
}

abbrev pub current : Release
current = record { major = 0; minor = 13; patch = 5; prerelease = false }

abbrev pub args : Args
args = record {
  pipeline_file = "/conduit.pipelines/pipeline.yaml";
  connectors_path = "/conduit.storage/connectors";
  db_path = "/conduit.storage/db";
  processors_path = "/conduit.storage/processors";
  log_format = "json";
}

pub literal_IsRange : IsRange constraints
unfolding contains keys
literal_IsRange = (
  (
    inl (refl, refl),
    (inr (inl (refl, refl)), (inr (inr (inl (refl, refl))), (inr (inr (inr (refl, refl))), tt))),
  ),
  (refl, (refl, (refl, (refl, tt)))),
)

pub parsed : small.new_version (trim_prefix "v0.13.5" "v") ≡ ok current
unfolding trim_prefix
parsed = refl

constraint_made : conduit_ver_constraint small ≡ ok (at_least_minor 11)
unfolding trim_prefix
constraint_made = refl

for_version_lem_example :
    for_version small constraints args "v0.13.5"
    ≡ returns (or_unsupported "v0.13.5" (supported args current))
for_version_lem_example =
    for_version_lem small (λ r. r) small-IsDocumented constraints args "v0.13.5" current
      literal_IsRange parsed

validate_conduit_version_lem_example :
    (validate_conduit_version small (at_least_minor 11) "v0.13.5" ≡ none
      ↔ at_least_minor 11 current ≡ true)
    × ((rules : Dict String) (a : Args) (flags : List String)
        → IsRange rules
        → for_version small rules a "v0.13.5" ≡ returns (ok flags)
        → validate_conduit_version small (at_least_minor 11) "v0.13.5" ≡ none)
validate_conduit_version_lem_example =
    validate_conduit_version_lem small (λ r. r) small-IsDocumented (at_least_minor 11) "v0.13.5"
      current constraint_made parsed

-- The webhook admits 0.14.0, for which there are no flags.
admitted_without_flags :
    (validate_conduit_version small (at_least_minor 11) "v0.14.0" ≡ none)
    × (for_version small constraints args "v0.14.0" ≡ returns (err "version v0.14.0 not supported"))
unfolding validate_conduit_version for_version match_rules parse_version trim_prefix
admitted_without_flags = (refl, refl)

flags_made : for_version small constraints args "v0.13.5" ≡ returns (ok (v0134plus args))
unfolding supported
flags_made =
    for_version_lem small (λ r. r) small-IsDocumented constraints args "v0.13.5" current
      literal_IsRange parsed

read_flags-for_version_example : read_flags (v0134plus args) ≡ meant current args
read_flags-for_version_example =
    read_flags-for_version small (λ r. r) small-IsDocumented constraints args "v0.13.5" current
      (v0134plus args) literal_IsRange parsed flags_made

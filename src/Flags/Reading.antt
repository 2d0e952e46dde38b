-- ===== src/Flags/Reading.antt =====
-- pkg/conduit/version.go: what a reader of the command line finds in the flags.
use conduit_operator.Prelude.{
  String, ◌≡◌, refl, Bool, true, false, none, some, List, [], ◌∷◌, ◌==◌, ◌||◌, inl, inr, arith,
  if◌then◌else◌, Option-cases, sym, ◌∙◌, ap,
}
use conduit_operator.Strings.Prefix.{cut_prefix, trim_prefix}
use conduit_operator.Strings.FilePath.{dir}
use conduit_operator.Prelude.Dict.{Dict}
use conduit_operator.Prelude.Result.{ok}
use conduit_operator.Semver.{Semver, Release, in_minor, IsDocumented}
use conduit_operator.Flags.{Args, zero_args, v011, v012, v013upto4, v0134plus, returns, for_version}
use conduit_operator.Flags.Supported.{supported, IsRange, for_version_lem}

-- The name of a flag stands behind one dash or two.
abbrev flag_name : String → String
flag_name s = trim_prefix (trim_prefix s "-") "-"

-- The flags that take no value.
abbrev is_switch : String → Bool
is_switch name = name == "pipelines.exit-on-error" || name == "pipelines.exit-on-degraded"

abbrev put : String → String → Args → Args
put name value a =
    if name == "pipelines.path"
    then record a { pipeline_file = value }
    else if name == "connectors.path"
    then record a { connectors_path = value }
    else if name == "db.sqlite.path"
    then record a { db_path = value }
    else if name == "processors.path"
    then record a { processors_path = value }
    else if name == "log.format"
    then record a { log_format = value }
    else a

-- The flags from left to right, each but a switch with the word behind it.
read_pairs : List String → Args → Args
read_pairs [] a = a
read_pairs (word ∷ []) a = a
read_pairs (word ∷ value ∷ rest) a = elim (is_switch (flag_name word)) [
  | true ↦ read_pairs (value ∷ rest) a
  | false ↦ read_pairs rest (put (flag_name word) value a)
]

-- A command line is read from the left, with the command `run` before the flags or without it.
unfoldable pub read_flags : List String → Args
unfolding read_pairs
read_flags [] = zero_args
read_flags (word ∷ rest) = elim (word == "run") [
  | true ↦ read_pairs rest zero_args
  | false ↦ read_pairs (word ∷ rest) zero_args
]

read_flags-v011 : (a : Args) → read_flags (v011 a) ≡ a
unfolding read_flags read_pairs v011 trim_prefix cut_prefix
read_flags-v011 a = refl

read_flags-v012 : (a : Args) → read_flags (v012 a) ≡ a
unfolding read_flags read_pairs v012 trim_prefix cut_prefix
read_flags-v012 a = refl

read_flags-v013upto4 : (a : Args) → read_flags (v013upto4 a) ≡ a
unfolding read_flags read_pairs v013upto4 trim_prefix cut_prefix
read_flags-v013upto4 a = refl

-- From 0.13.5 on the flag names the directory of the pipeline file.
abbrev pub with_dir : Args → Args
with_dir a = record a { pipeline_file = dir a.pipeline_file }

read_flags-v0134plus : (a : Args) → read_flags (v0134plus a) ≡ with_dir a
unfolding read_flags read_pairs v0134plus trim_prefix cut_prefix
read_flags-v0134plus a = refl

-- The arguments that the flags stand for.
abbrev pub meant : Release → Args → Args
meant v a = if in_minor 13 5 none v then with_dir a else a

read_flags-supported :
    (a : Args) (v : Release) (flags : List String)
    → supported a v ≡ some flags
    → read_flags flags ≡ meant v a
unfolding supported
read_flags-supported a v flags h =
    ground
      (arith, read_flags-v011 a, read_flags-v012 a, read_flags-v013upto4 a, read_flags-v0134plus a)

returned : (found flags : List String) → returns (ok found) ≡ returns (ok flags) → found ≡ flags
returned found flags h = cc

module _ (S : Semver) (release : S.Version → Release) (d : IsDocumented S release) where
  -- Where ForVersion returns flags, for a version that parses, under the documented meaning of the
  -- constraints and for every order of the range over the rules, a reader that takes them from
  -- left to right, each flag but the two switches with the word behind it, gets the arguments
  -- back, with the directory of the pipeline file in place of the file from 0.13.5 on.
  pub read_flags-for_version :
      (rules : Dict String) (a : Args) (ver : String) (v : S.Version) (flags : List String)
      → IsRange rules
      → S.new_version (trim_prefix ver "v") ≡ ok v
      → for_version S rules a ver ≡ returns (ok flags)
      → read_flags flags ≡ meant (release v) a
  read_flags-for_version rules a ver v flags h parsed out =
      elim (Option-cases (supported a (release v))) [
        | inl e ↦
            let k = sym (for_version_lem S release d rules a ver v h parsed) ∙ out in
            absurd (cc (rw e at k))
        | inr (found, e) ↦
            let k = sym (for_version_lem S release d rules a ver v h parsed) ∙ out in
            let same : returns (ok found) ≡ returns (ok flags) = rw e at k in
            read_flags-supported a (release v) flags (e ∙ ap some (returned found flags same))
      ]

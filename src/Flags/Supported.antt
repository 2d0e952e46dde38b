-- ===== src/Flags/Supported.antt =====
-- pkg/conduit/version.go: the versions that have flags.
use conduit_operator.Prelude.{
  String, ◌<>◌, ◌≡◌, refl, ap, ◌∙◌, Bool, true, false, Option, none, some, List, [], ◌∷◌, ◌==◌, ◌⊎◌,
  inl, inr, arith, eq_iff, if◌then◌else◌,
}
use conduit_operator.Prelude.Lists.{All, contains}
use conduit_operator.Prelude.Dict.{Dict, keys}
use conduit_operator.Prelude.Result.{Result, ok, err}
use conduit_operator.Strings.Prefix.{trim_prefix}
use conduit_operator.Semver.{Semver, Release, IsDocumented, in_minor}
use conduit_operator.Flags.{
  Args, v011, v012, v013upto4, v0134plus, flags_for, Call, returns, checked, match_rules,
  parse_version, for_version, constraints,
}

-- A rule of the map.
abbrev pub IsRule : String × String → Type 0
IsRule (key, rule) =
    ((key ≡ "v011") × (rule ≡ "~0.11.x"))
    ⊎ ((key ≡ "v012") × (rule ≡ "~0.12.x"))
    ⊎ ((key ≡ "v013.4") × (rule ≡ "<= 0.13.4, >= 0.13.0"))
    ⊎ ((key ≡ "v013.5+") × (rule ≡ "^0.13.5"))

-- What a range over the map gives: its rules, all of them, in some order.
abbrev pub IsRange : Dict String → Type 0
IsRange rules = All IsRule rules × All (λ (k, r). contains (keys rules) k ≡ true) constraints

-- The key of the rule that a release meets.
unfoldable pub rule_of : Release → Option String
rule_of v =
    if in_minor 11 0 none v
    then some "v011"
    else if in_minor 12 0 none v
    then some "v012"
    else if in_minor 13 0 (some 4) v
    then some "v013.4"
    else if in_minor 13 5 none v
    then some "v013.5+"
    else none

-- The flags of the server for a release, if the operator supports it.
unfoldable pub supported : Args → Release → Option (List String)
supported a v =
    if in_minor 11 0 none v
    then some (v011 a)
    else if in_minor 12 0 none v
    then some (v012 a)
    else if in_minor 13 0 (some 4) v
    then some (v013upto4 a)
    else if in_minor 13 5 none v
    then some (v0134plus a)
    else none

abbrev pub unsupported : String → Result (List String)
unsupported ver = err ("version " <> (ver <> " not supported"))

abbrev is_key : Option String → String → Bool
is_key none key = false
is_key (some k) key = k == key

-- The rules exclude one another.
key_11 : (v : Release) → in_minor 11 0 none v ≡ is_key (rule_of v) "v011"
unfolding rule_of
key_11 v = ground arith

key_12 : (v : Release) → in_minor 12 0 none v ≡ is_key (rule_of v) "v012"
unfolding rule_of
key_12 v = ground arith

key_13_4 : (v : Release) → in_minor 13 0 (some 4) v ≡ is_key (rule_of v) "v013.4"
unfolding rule_of
key_13_4 v = ground arith

key_13_5 : (v : Release) → in_minor 13 5 none v ≡ is_key (rule_of v) "v013.5+"
unfolding rule_of
key_13_5 v = ground arith

-- The answer of a range over rules with the given keys: the flags of the release's key if it is there.
abbrev answer : Args → String → Option String → List String → Call (List String)
answer a ver none ks = returns (unsupported ver)
answer a ver (some k) ks =
    if contains ks k
    then (elim (flags_for a k) [
      | none ↦ returns (unsupported ver)
      | some flags ↦ returns (ok flags)
    ])
    else returns (unsupported ver)

answer_nil :
    (a : Args) (ver : String) (o : Option String) → returns (unsupported ver) ≡ answer a ver o []
unfolding contains
answer_nil a ver none = refl
answer_nil a ver (some k) = refl

answer_cons :
    (a : Args) (ver key : String) (o : Option String) (ks : List String)
    → checked a key (some (is_key o key)) (answer a ver o ks) ≡ answer a ver o (key ∷ ks)
unfolding contains
answer_cons a ver key none ks = refl
answer_cons a ver key (some k) ks = ground (arith, eq_iff k key, eq_iff key k)

-- The error, or the flags.
abbrev pub or_unsupported : String → Option (List String) → Result (List String)
or_unsupported ver none = unsupported ver
or_unsupported ver (some flags) = ok flags

answer_full :
    (a : Args) (ver : String) (r : Release) (ks : List String)
    → All (λ (k, rule). contains ks k ≡ true) constraints
    → answer a ver (rule_of r) ks ≡ returns (or_unsupported ver (supported a r))
unfolding rule_of supported flags_for
answer_full a ver r ks h = ground arith

module _ (S : Semver) (release : S.Version → Release) (d : IsDocumented S release) where
  -- A rule matches exactly the releases whose key is the rule's.
  check_rule :
      (key rule : String) (v : S.Version)
      → IsRule (key, rule)
      → (c : S.Constraints) × (S.new_constraint rule ≡ ok c)
        × (S.check c (some v) ≡ some (is_key (rule_of (release v)) key))
  check_rule key rule v (inl (k, r)) =
      let (c, made, meant) = d.tilde_11 in
      rw (k, r) (c, made, meant v ∙ ap some (key_11 (release v)))
  check_rule key rule v (inr (inl (k, r))) =
      let (c, made, meant) = d.tilde_12 in
      rw (k, r) (c, made, meant v ∙ ap some (key_12 (release v)))
  check_rule key rule v (inr (inr (inl (k, r)))) =
      let (c, made, meant) = d.up_to_13_4 in
      rw (k, r) (c, made, meant v ∙ ap some (key_13_4 (release v)))
  check_rule key rule v (inr (inr (inr (k, r)))) =
      let (c, made, meant) = d.caret_13_5 in
      rw (k, r) (c, made, meant v ∙ ap some (key_13_5 (release v)))

  match_rules_lem :
      (a : Args) (ver : String) (v : S.Version) (rules : Dict String)
      → All IsRule rules
      → match_rules S a ver (some v) rules ≡ answer a ver (rule_of (release v)) (keys rules)
  unfolding match_rules keys contains
  match_rules_lem a ver v [] h = answer_nil a ver (rule_of (release v))
  match_rules_lem a ver v ((key, rule) ∷ rules) (r, h) =
      let (c, made, checked) = check_rule key rule v r in
      rw (match_rules, made, checked, match_rules_lem a ver v rules h)
        (answer_cons a ver key (rule_of (release v)) (keys rules))

  parse_version_of_ok :
      (ver : String) (v : S.Version)
      → S.new_version (trim_prefix ver "v") ≡ ok v
      → parse_version S ver ≡ some v
  unfolding parse_version
  parse_version_of_ok ver v e = rw (parse_version, e)

  -- For a version that parses, under the documented meaning of the four constraints and for every
  -- order of the range over the rules, ForVersion returns the flags of the one rule that the
  -- release meets, or the error if it meets none; it never panics.
  pub for_version_lem :
      (rules : Dict String) (a : Args) (ver : String) (v : S.Version)
      → IsRange rules
      → S.new_version (trim_prefix ver "v") ≡ ok v
      → for_version S rules a ver ≡ returns (or_unsupported ver (supported a (release v)))
  unfolding for_version
  for_version_lem rules a ver v h parsed =
      rw (parse_version_of_ok ver v parsed, match_rules_lem a ver v rules h.0)
        (answer_full a ver (release v) (keys rules) h.1)

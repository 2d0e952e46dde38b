-- ===== src/Webhook/Validator/Versions.antt =====
-- internal/webhook/v1alpha/conduit_webhook.go: the versions of conduit that the webhook admits.
use conduit_operator.Prelude.{String, ◌≡◌, sym, ◌∙◌, ◌↔◌, true, none, some, List, arith}
use conduit_operator.Prelude.Dict.{Dict}
use conduit_operator.Prelude.Result.{ok}
use conduit_operator.Strings.Prefix.{trim_prefix, cut_prefix}
use conduit_operator.Semver.{Release, Semver, IsDocumented, at_least_minor}
use conduit_operator.Flags.{Args, returns, for_version}
use conduit_operator.Flags.Supported.{IsRange, supported, or_unsupported, for_version_lem}
use conduit_operator.Webhook.Validator.{conduit_ver_constraint, validate_conduit_version}

supported-at_least :
    (a : Args) (r : Release) (ver : String) (flags : List String)
    → returns (or_unsupported ver (supported a r)) ≡ returns (ok flags)
    → at_least_minor 11 r ≡ true
unfolding supported
supported-at_least a r ver flags h = ground arith

module _ (S : Semver) (release : S.Version → Release) (d : IsDocumented S release) where
  constraint_of :
      (constraint : S.Constraints) (v : S.Version)
      → conduit_ver_constraint S ≡ ok constraint
      → S.check constraint (some v) ≡ some (at_least_minor 11 (release v))
  unfolding trim_prefix cut_prefix
  constraint_of constraint v h =
      let (c, made, meant) = d.from_11 in
      let same : c ≡ constraint = cc (made, h) in rw (← same) (meant v)

  validate-at_least :
      (constraint : S.Constraints) (ver : String) (v : S.Version)
      → conduit_ver_constraint S ≡ ok constraint
      → S.new_version (trim_prefix ver "v") ≡ ok v
      → validate_conduit_version S constraint ver ≡ none ↔ at_least_minor 11 (release v) ≡ true
  unfolding validate_conduit_version
  validate-at_least constraint ver v h e =
      rw (validate_conduit_version, e, constraint_of constraint v h) (ground arith)

  -- Under the documented meaning of the constraints, of the versions that parse the webhook admits
  -- exactly the releases from 0.11.0 on, and every version that ForVersion has flags for is one of
  -- them.
  pub validate_conduit_version_lem :
      (constraint : S.Constraints) (ver : String) (v : S.Version)
      → conduit_ver_constraint S ≡ ok constraint
      → S.new_version (trim_prefix ver "v") ≡ ok v
      → (validate_conduit_version S constraint ver ≡ none ↔ at_least_minor 11 (release v) ≡ true)
        × ((rules : Dict String) (a : Args) (flags : List String)
            → IsRange rules
            → for_version S rules a ver ≡ returns (ok flags)
            → validate_conduit_version S constraint ver ≡ none)
  validate_conduit_version_lem constraint ver v h e =
      let admits = validate-at_least constraint ver v h e in
      (
        admits,
        λ rules a flags r f. admits.1 (
            supported-at_least a (release v) ver flags
              (sym (for_version_lem S release d rules a ver v r e) ∙ f)),
      )

-- ===== src/Webhook/Validator.antt =====
-- internal/webhook/v1alpha/conduit_webhook.go: `ConduitCustomValidator`.
--
-- `ValidatorService` is an interface: here the parameter `V`, whose calls may change a world (the
-- registered plugins, the temporary files). A panic of such a call is not modelled.
pub mod Agreement
pub mod Versions
pub mod Wired
pub mod Admitted
use conduit_operator.Prelude.{
  String, ◌<>◌, ◌≡◌, Bool, true, false, ◌==◌, Option, none, some, List, [], ◌∷◌, ◌++◌,
  if◌then◌else◌,
}
use conduit_operator.Prelude.Result.{Result, ok, err}
use conduit_operator.Strings.Prefix.{trim_prefix}
use conduit_operator.Strings.Quote.{quote}
use conduit_operator.Api.Types.{
  Conduit, ConduitConnector, ConduitProcessor, SchemaRegistry, conduit_earliest_available,
}
use conduit_operator.Semver.{Semver}
use conduit_operator.Validator.FieldError.{FieldError, invalid_error, internal_error}
use conduit_operator.Webhook.Object.{Object, conduit, other}

-- A nil `PluginRegistry` is `none`. `factory` is `registryFactory`.
pub record Service : Type 1 where
  pub World : Type 0
  pub Registry : Type 0
  pub factory : SchemaRegistry → List String → World → World × (Option Registry × Option FieldError)
  pub validate_connector : ConduitConnector → List String → World → World × Option FieldError
  pub validate_processor :
      ConduitProcessor → List String → Option Registry → World → World × Option FieldError

-- What a validation answers: nothing, the errors of the fields, or another error.
pub data Admission : Type 0 where
  admitted : Admission
  refused : String → List FieldError → Admission
  failed : String → Admission

-- An error that is there goes behind the others.
abbrev pub append_error : List FieldError → Option FieldError → List FieldError
append_error errs none = errs
append_error errs (some e) = errs ++ e ∷ []

-- `apierrors.NewInvalid`, where there are errors.
abbrev pub admission_of : String → List FieldError → Admission
admission_of name [] = admitted
admission_of name (e ∷ errs) = refused name (e ∷ errs)

module _ (S : Semver) where
  -- The call of `NewConstraint` in `init`, which panics on an error.
  abbrev pub conduit_ver_constraint : Result S.Constraints
  conduit_ver_constraint = S.new_constraint (">= " <> trim_prefix conduit_earliest_available "v")

  -- `Check` of a version that is there does not panic.
  abbrev pub passes : Option Bool → Bool
  passes none = false
  passes (some b) = b

  unfoldable pub validate_conduit_version : S.Constraints → String → Option FieldError
  unfolding quote
  validate_conduit_version constraint ver =
      let fp = "spec" ∷ "version" ∷ [] in
      elim (S.new_version (trim_prefix ver "v")) [
        | err e ↦ some (invalid_error fp ver e)
        | ok v ↦
            if passes (S.check constraint (some v))
            then none
            else some (
                invalid_error fp ver (
                  "unsupported conduit version "
                  <> (quote ver <> (", minimum required " <> quote conduit_earliest_available))))
      ]

-- `parse_error` is the message of `url.Parse`, if it fails.
unfoldable pub validate_registry :
    (parse_error : String → Option String) → Option SchemaRegistry → Option FieldError
validate_registry parse_error none = none
validate_registry parse_error (some sr) = if sr.url == "" then none else elim (parse_error sr.url) [
  | none ↦ none
  | some e ↦ some (invalid_error ("spec" ∷ "schemaRegistry" ∷ "url" ∷ []) sr.url e)
]

module _ (V : Service) where
  unfoldable pub registry :
      Option SchemaRegistry
      → List String
      → V.World
      → V.World × (Option V.Registry × Option FieldError)
  registry none fp w = (w, (none, some (internal_error fp "registry must be set")))
  registry (some r) fp w =
      if r.url == ""
      then (w, (none, some (internal_error fp "registry must be set")))
      else V.factory r fp w

  -- The loop over the processors, with the errors so far.
  unfoldable pub scan_processors :
      Option V.Registry
      → List String
      → List ConduitProcessor
      → List FieldError
      → V.World
      → V.World × List FieldError
  scan_processors r fp [] errs w = (w, errs)
  scan_processors r fp (p ∷ ps) errs w =
      let (w', e) = V.validate_processor p fp r w in
      scan_processors r fp ps (append_error errs e) w'

  unfoldable pub validate_processors :
      List ConduitProcessor → Option V.Registry → List String → V.World → V.World × List FieldError
  validate_processors pp r fp w = scan_processors r fp pp [] w

  -- The loop over the connectors, with the errors so far.
  unfoldable pub scan_connectors :
      Option V.Registry
      → List String
      → List ConduitConnector
      → List FieldError
      → V.World
      → V.World × List FieldError
  unfolding validate_processors
  scan_connectors r fp [] errs w = (w, errs)
  scan_connectors r fp (c ∷ cs) errs w =
      let (w', e) = V.validate_connector c fp w in
      let (w'', proc_errs) = validate_processors c.processors r fp w' in
      scan_connectors r fp cs (append_error errs e ++ proc_errs) w''

  unfoldable pub validate_connectors :
      List ConduitConnector → Option V.Registry → V.World → V.World × List FieldError
  unfolding scan_connectors
  validate_connectors cc r w = scan_connectors r ("spec" ∷ "connectors" ∷ []) cc [] w

  -- The errors of the connectors and processors of a resource, in the order of the calls.
  unfoldable pub validate_parts :
      Conduit → Option V.Registry → List FieldError → V.World → V.World × List FieldError
  validate_parts c r errs w =
      let (w', verrs) = validate_connectors c.spec.connectors r w in
      let (w'', perrs) = validate_processors c.spec.processors r ("spec" ∷ "processors" ∷ []) w' in
      (w'', (errs ++ verrs) ++ perrs)

  -- `show` is the text of a field's error.
  unfoldable pub validate_update :
      (show : FieldError → String) → Object → V.World → V.World × Admission
  validate_update show (other type) w =
      (w, failed ("expected a Conduit object for the newObj but got " <> type))
  validate_update show (conduit c) w =
      let (w', (r, e)) = registry c.spec.registry ("schemaregistry" ∷ []) w in
      elim e [
        | some e ↦ (w', failed ("failed creating schema registry " <> show e))
        | none ↦
            let (w'', errs) = validate_connectors c.spec.connectors r w' in
            elim errs [
              | x ∷ xs ↦ (w'', refused c.meta.name (x ∷ xs))
              | [] ↦
                  let (w''', errs) =
                    validate_processors c.spec.processors r ("spec" ∷ "processors" ∷ []) w'' in
                  (w''', admission_of c.meta.name errs)
            ]
      ]

  unfoldable pub validate_create :
      (S : Semver) (constraint : S.Constraints) (parse_error : String → Option String)
      → Object
      → V.World
      → V.World × Admission
  validate_create S constraint parse_error (other type) w =
      (w, failed ("expected a Conduit object but got " <> type))
  validate_create S constraint parse_error (conduit c) w =
      let errs = append_error [] (validate_conduit_version S constraint c.spec.version) in
      let errs = append_error errs (validate_registry parse_error c.spec.registry) in
      let (w', (r, e)) = registry c.spec.registry ("schemaregistry" ∷ []) w in
      let (w'', errs) = validate_parts c r (append_error errs e) w' in
      (w'', admission_of c.meta.name errs)

unfoldable pub validate_delete : Object → Admission
validate_delete (conduit c) = admitted
validate_delete (other type) = failed ("expected a Conduit object but got " <> type)

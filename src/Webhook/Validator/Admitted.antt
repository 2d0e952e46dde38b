-- ===== src/Webhook/Validator/Admitted.antt =====
-- internal/webhook/v1alpha/conduit_webhook.go with pkg/conduit/conduit_validator.go as its
-- `ValidatorService`: what the resources are that the webhook admits.
use conduit_operator.Prelude.{
  String, ◌≡◌, refl, Option, none, some, List, [], ◌∷◌, ◌++◌, arith, false, ◌⊎◌, inl, inr, ◌==◌,
}
use conduit_operator.Prelude.Lists.{All}
use conduit_operator.Prelude.Result.{Result-cases}
use conduit_operator.Prelude.Dict.{Dict}
use conduit_operator.Api.Types.{Conduit, ConduitConnector, ConduitProcessor, SchemaRegistry}
use conduit_operator.Config.{Reader}
use conduit_operator.Plugin.{validate_plugin, validate_plugin_type}
use conduit_operator.Semver.{Semver}
use conduit_operator.Validator.FieldError.{FieldError}
use conduit_operator.Validator.Http.{Http}
use conduit_operator.Validator.Listing.{PluginInfo}
use conduit_operator.Validator.Connector.{Specs}
use conduit_operator.Validator.Passing.{validate_connector_lem}
use conduit_operator.Validator.Processor.{
  TempDir, Plugins, Store, validate_processor, validate_processor_plugin,
}
use conduit_operator.Webhook.Object.{conduit}
use conduit_operator.Webhook.Validator.{
  Service, admitted, append_error, scan_processors, validate_processors, scan_connectors,
  validate_connectors, validate_create, validate_update, registry,
}
use conduit_operator.Webhook.Validator.Wired.{Clients, registry_factory, validator}
use conduit_operator.Webhook.Validator.Agreement.{
  append_error-nil, append-eq-nil, update-admitted, create-update,
}

-- A scan without an error, where the service answers no error for good parts only.
module _ (V : Service) (Good : ConduitConnector → Type 0) (Fine : ConduitProcessor → Type 0)
    (r : Option V.Registry)
    (good_of_none : (c : ConduitConnector) (fp : List String) (w : V.World)
      → (V.validate_connector c fp w).1 ≡ none
      → Good c)
    (fine_of_none : (p : ConduitProcessor) (fp : List String) (w : V.World)
      → (V.validate_processor p fp r w).1 ≡ none
      → Fine p) where
  scan_processors_of_nil :
      (fp : List String) (ps : List ConduitProcessor) (errs : List FieldError) (w : V.World)
      → (scan_processors V r fp ps errs w).1 ≡ []
      → (errs ≡ []) × All Fine ps
  unfolding scan_processors
  scan_processors_of_nil fp [] errs w h = (h, tt)
  scan_processors_of_nil fp (p ∷ ps) errs w h =
      let (w', e) = V.validate_processor p fp r w in
      let (none_yet, rest) = scan_processors_of_nil fp ps (append_error errs e) w' h in
      let (a, b) = (append_error-nil errs e).0 none_yet in (a, (fine_of_none p fp w b, rest))

  scan_connectors_of_nil :
      (fp : List String) (cs : List ConduitConnector) (errs : List FieldError) (w : V.World)
      → (scan_connectors V r fp cs errs w).1 ≡ []
      → (errs ≡ []) × All (λ c. Good c × All Fine c.processors) cs
  unfolding scan_connectors validate_processors
  scan_connectors_of_nil fp [] errs w h = (h, tt)
  scan_connectors_of_nil fp (c ∷ cs) errs w h =
      let (w', e) = V.validate_connector c fp w in
      let (w'', found) = scan_processors V r fp c.processors [] w' in
      let (none_yet, rest) = scan_connectors_of_nil fp cs (append_error errs e ++ found) w'' h in
      let (a, b) = (append-eq-nil (append_error errs e) found).0 none_yet in
      let (nothing, e_none) = (append_error-nil errs e).0 a in
      (
        nothing,
        ((good_of_none c fp w e_none, (scan_processors_of_nil fp c.processors [] w' b).1), rest),
      )

-- A supported plugin and plugin type.
abbrev pub IsSupported : ConduitConnector → Type 0
IsSupported c = (validate_plugin c.plugin ≡ none) × (validate_plugin_type c.type ≡ none)

abbrev pub HasPlugin : ConduitProcessor → Type 0
HasPlugin p = (p.plugin == "") ≡ false

HasPlugin-of_none :
    (plugins : Plugins) (http : Http) (F : TempDir) (p : ConduitProcessor) (fp : List String)
    (w : Store plugins.Registry)
    → (validate_processor plugins http F p fp w).1 ≡ none
    → HasPlugin p
unfolding validate_processor validate_processor_plugin
HasPlugin-of_none plugins http F p fp w h = ground arith

-- A registry is made where the factory answers no error.
factory_makes :
    {R : Type 0} (clients : Clients R) (sr : SchemaRegistry) (fp : List String) (w : Store R)
    → (registry_factory clients sr fp w).1.1 ≡ none
    → (registry_factory clients sr fp w).1.0 ≡ some tt
unfolding registry_factory
factory_makes clients sr fp w h = elim (Result-cases (clients.new_client sr.url)) [
  | inr (m, e) ↦ absurd (cc (rw (e, registry_factory) at h))
  | inl (cl, e) ↦ elim (Result-cases (clients.new_registry cl w).1) [
    | inr (m, f) ↦ absurd (cc (rw (e, f, registry_factory) at h))
    | inl (reg, f) ↦ rw (e, f, registry_factory) refl
  ]
]

module _ (P : Specs) (plugins : Plugins) (http : Http) (cl : Reader) (list : Dict PluginInfo)
    (F : TempDir) (clients : Clients plugins.Registry)
    (nil_registry : ConduitProcessor
      → List String
      → Store plugins.Registry
      → Store plugins.Registry × Option FieldError) where
  abbrev V : Service
  V = validator P plugins http cl list F clients nil_registry

  registry_made :
      (sr : Option SchemaRegistry) (fp : List String) (w : Store plugins.Registry)
      → (registry V sr fp w).1.1 ≡ none
      → (registry V sr fp w).1.0 ≡ some tt
  unfolding registry
  registry_made none fp w h = cc h
  registry_made (some sr) fp w h = ground (arith, factory_makes clients sr fp w)

  checks_processors :
      (r : Option {0} Unit)
      → r ≡ some tt
      → (p : ConduitProcessor) (fp : List String) (w : Store plugins.Registry)
      → (V.validate_processor p fp r w).1 ≡ none
      → HasPlugin p
  checks_processors none e p fp w h = cc e
  checks_processors (some reg) e p fp w h = HasPlugin-of_none plugins http F p fp w h

  -- With the validator of pkg/conduit behind the webhook, every connector of a resource that is
  -- admitted at its creation or an update has a supported plugin and plugin type, and every
  -- processor, of a connector or of the pipeline, has a plugin.
  pub admitted-IsSupported :
      (S : Semver) (constraint : S.Constraints) (parse_error : String → Option String)
      (show : FieldError → String) (c : Conduit) (w : Store plugins.Registry)
      → ((validate_create V S constraint parse_error (conduit c) w).1 ≡ admitted)
        ⊎ ((validate_update V show (conduit c) w).1 ≡ admitted)
      → All (λ cc. IsSupported cc × All HasPlugin cc.processors) c.spec.connectors
        × All HasPlugin c.spec.processors
  unfolding validate_connectors validate_processors
  admitted-IsSupported S constraint parse_error show c w h =
      let updated : (validate_update V show (conduit c) w).1 ≡ admitted = elim h [
        | inl created ↦ ((create-update V S constraint parse_error show c w).0.0 created).0
        | inr updated ↦ updated
      ] in
      let (made, no_errs, no_perrs) = (update-admitted V show c w).0 updated in
      let reg = registry_made c.spec.registry ("schemaregistry" ∷ []) w made in
      let good = λ (cc : ConduitConnector) (fp : List String) (w : Store plugins.Registry).
        (validate_connector_lem P http cl cc fp).0 list in
      let r = (registry V c.spec.registry ("schemaregistry" ∷ []) w).1.0 in
      let fine = checks_processors r reg in
      (
        (scan_connectors_of_nil V IsSupported HasPlugin r good fine ("spec" ∷ "connectors" ∷ [])
            c.spec.connectors [] _ no_errs).1,
        (scan_processors_of_nil V IsSupported HasPlugin r good fine ("spec" ∷ "processors" ∷ [])
            c.spec.processors [] _ no_perrs).1,
      )

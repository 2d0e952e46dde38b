-- ===== src/Webhook/Validator/Agreement.antt =====
-- internal/webhook/v1alpha/conduit_webhook.go: the validation of a creation beside that of an update.
use conduit_operator.Prelude.{String, ◌≡◌, ◌≢◌, ◌↔◌, Option, none, some, List, [], ◌∷◌, ◌++◌, arith}
use conduit_operator.Api.Types.{Conduit}
use conduit_operator.Semver.{Semver}
use conduit_operator.Validator.FieldError.{FieldError}
use conduit_operator.Webhook.Object.{conduit}
use conduit_operator.Webhook.Validator.{
  Service, admitted, append_error, admission_of, validate_conduit_version, validate_registry,
  registry, validate_connectors, validate_processors, validate_parts, validate_create,
  validate_update,
}

pub append_error-nil :
    (errs : List FieldError) (e : Option FieldError)
    → append_error errs e ≡ [] ↔ (errs ≡ []) × (e ≡ none)
append_error-nil [] none = ground arith
append_error-nil [] (some e) = ground arith
append_error-nil (x ∷ errs) none = ground arith
append_error-nil (x ∷ errs) (some e) = ground arith

pub append-eq-nil : (xs ys : List FieldError) → xs ++ ys ≡ [] ↔ (xs ≡ []) × (ys ≡ [])
append-eq-nil [] ys = ground arith
append-eq-nil (x ∷ xs) ys = ground arith

admission_of-admitted :
    (name : String) (errs : List FieldError) → admission_of name errs ≡ admitted ↔ errs ≡ []
admission_of-admitted name errs = ground arith

-- No error is there where none was collected.
collected :
    (name : String) (d e f : Option FieldError) (xs ys : List FieldError)
    → admission_of name ((append_error (append_error (append_error [] d) e) f ++ xs) ++ ys)
        ≡ admitted
      ↔ (d ≡ none) × (e ≡ none) × (f ≡ none) × (xs ≡ []) × (ys ≡ [])
collected name d e f xs ys =
    let one = append_error [] d in
    let two = append_error one e in
    let three = append_error two f in
    ground (
      arith,
      admission_of-admitted name ((three ++ xs) ++ ys),
      append-eq-nil (three ++ xs) ys,
      append-eq-nil three xs,
      append_error-nil two f,
      append_error-nil one e,
      append_error-nil [] d,
    )

module _ (V : Service) where
  pub update-admitted :
      (show : FieldError → String) (c : Conduit) (w : V.World)
      → let (w', (r, e)) = registry V c.spec.registry ("schemaregistry" ∷ []) w in
        let (w'', errs) = validate_connectors V c.spec.connectors r w' in
        let (w''', perrs) =
          validate_processors V c.spec.processors r ("spec" ∷ "processors" ∷ []) w'' in
        (validate_update V show (conduit c) w).1 ≡ admitted
        ↔ (e ≡ none) × (errs ≡ []) × (perrs ≡ [])
  unfolding validate_update
  update-admitted show c w = ground arith

  same_world :
      (S : Semver) (constraint : S.Constraints) (parse_error : String → Option String)
      (show : FieldError → String) (c : Conduit) (w : V.World)
      → (validate_update V show (conduit c) w).1 ≡ admitted
      → (validate_create V S constraint parse_error (conduit c) w).0
        ≡ (validate_update V show (conduit c) w).0
  unfolding validate_create validate_parts validate_update
  same_world S constraint parse_error show c w h = ground arith

  pub create-admitted :
      (S : Semver) (constraint : S.Constraints) (parse_error : String → Option String) (c : Conduit)
      (w : V.World)
      → let (w', (r, e)) = registry V c.spec.registry ("schemaregistry" ∷ []) w in
        let (w'', errs) = validate_connectors V c.spec.connectors r w' in
        let (w''', perrs) =
          validate_processors V c.spec.processors r ("spec" ∷ "processors" ∷ []) w'' in
        (validate_create V S constraint parse_error (conduit c) w).1 ≡ admitted
        ↔ (validate_conduit_version S constraint c.spec.version ≡ none)
          × (validate_registry parse_error c.spec.registry ≡ none)
          × (e ≡ none)
          × (errs ≡ [])
          × (perrs ≡ [])
  unfolding validate_create validate_parts
  create-admitted S constraint parse_error c w =
      let (w', (r, e)) = registry V c.spec.registry ("schemaregistry" ∷ []) w in
      let (w'', errs) = validate_connectors V c.spec.connectors r w' in
      collected c.meta.name (validate_conduit_version S constraint c.spec.version)
        (validate_registry parse_error c.spec.registry) e errs
        (validate_processors V c.spec.processors r ("spec" ∷ "processors" ∷ []) w'').1

  -- ValidateCreate admits a resource exactly where ValidateUpdate admits it, the version of
  -- conduit passes the check and the address of the registry parses; where the update is admitted,
  -- both leave the same world.
  pub create-update :
      (S : Semver) (constraint : S.Constraints) (parse_error : String → Option String)
      (show : FieldError → String) (c : Conduit) (w : V.World)
      → ((validate_create V S constraint parse_error (conduit c) w).1 ≡ admitted
          ↔ ((validate_update V show (conduit c) w).1 ≡ admitted)
            × (validate_conduit_version S constraint c.spec.version ≡ none)
            × (validate_registry parse_error c.spec.registry ≡ none))
        × ((validate_update V show (conduit c) w).1 ≡ admitted
            → (validate_create V S constraint parse_error (conduit c) w).0
              ≡ (validate_update V show (conduit c) w).0)
  create-update S constraint parse_error show c w = (
    ground (arith, create-admitted S constraint parse_error c w, update-admitted show c w),
    same_world S constraint parse_error show c w,
  )

  -- A resource without a registry is admitted neither when it is created nor when it is updated.
  pub registry-required :
      (S : Semver) (constraint : S.Constraints) (parse_error : String → Option String)
      (show : FieldError → String) (c : Conduit) (w : V.World)
      → c.spec.registry ≡ none
      → ((validate_create V S constraint parse_error (conduit c) w).1 ≢ admitted)
        × ((validate_update V show (conduit c) w).1 ≢ admitted)
  unfolding registry
  registry-required S constraint parse_error show c w e =
      let nothing : (f : (registry V c.spec.registry ("schemaregistry" ∷ []) w).1.1 ≡ none) → ⊥ =
        rw e (λ f. cc f) in
      (
        λ h. let (_, _, f, _, _) = (create-admitted S constraint parse_error c w).0 h in nothing f,
        λ h. nothing ((update-admitted show c w).0 h).0,
      )

-- ===== src/Controller/Reconcile/Created.antt =====
-- internal/controller/conduit_controller.go behind internal/webhook/v1alpha/conduit_webhook.go: the
-- resources that the webhook has given their defaults and admitted.
use conduit_operator.Prelude.{
  ℕ, String, ◌≡◌, refl, ap, sym, subst, ◌∙◌, Bool, true, Option, none, some, inl, inr,
}
use conduit_operator.Prelude.Result.{ok, Result-cases}
use conduit_operator.Strings.Prefix.{trim_prefix}
use conduit_operator.Api.Types.{Conduit, NamespacedName}
use conduit_operator.Semver.{Semver, Release, IsDocumented}
use conduit_operator.Flags.Supported.{IsRange}
use conduit_operator.Webhook.Defaulter.{default_conduit, default_spec, default_running}
use conduit_operator.Webhook.Object.{conduit}
use conduit_operator.Webhook.Validator.{
  Service, admitted, validate_create, validate_conduit_version,
}
use conduit_operator.Webhook.Validator.Agreement.{create-admitted}
use conduit_operator.Controller.Cluster.{fetched, Cluster, Libraries}
use conduit_operator.Controller.Reconcile.{ConduitReconciler, reconcile}
use conduit_operator.Controller.Reconcile.Returns.{
  Returns, IsComplete, fetched_injective, reconcile-Returns,
}

module _ (S : Semver) where
  parses :
      (constraint : S.Constraints) (ver : String)
      → validate_conduit_version S constraint ver ≡ none
      → (v : S.Version) × (S.new_version (trim_prefix ver "v") ≡ ok v)
  unfolding validate_conduit_version
  parses constraint ver h = elim (Result-cases (S.new_version (trim_prefix ver "v"))) [
    | inl found ↦ found
    | inr (m, e) ↦ absurd (cc (rw (e, validate_conduit_version) at h))
  ]

running_of_default : (running : Option Bool) → (b : Bool) × (default_running running ≡ some b)
unfolding default_running
running_of_default none = (true, refl)
running_of_default (some b) = (b, refl)

module _ (V : Service) (S : Semver) (constraint : S.Constraints)
    (parse_error : String → Option String) (now : ℕ → ℕ) where
  -- What the webhook admits at the creation, after the defaults, is complete, and so is any resource
  -- with that specification.
  created-IsComplete :
      (c stored : Conduit) (w : V.World)
      → (validate_create V S constraint parse_error (conduit (default_conduit now c)) w).1
        ≡ admitted
      → stored.spec ≡ (default_conduit now c).spec
      → IsComplete S stored
  unfolding default_conduit default_spec
  created-IsComplete c stored w h same =
      let made = default_conduit now c in
      let (version_ok, address_ok, _, _, _) =
        (create-admitted V S constraint parse_error made w).0 h in
      let (v, parsed) = parses S constraint made.spec.version version_ok in
      let (b, runs) = running_of_default c.spec.running in
      record {
        running = b;
        runs = ap (λ x. x.running) same ∙ runs;
        version = v;
        parsed = ap (λ x. S.new_version (trim_prefix x.version "v")) same ∙ parsed;
      }

module _ (K : Cluster) (L : Libraries) (release : L.semver.Version → Release)
    (d : IsDocumented L.semver release) (range : IsRange L.rules) (r : ConduitReconciler)
    (clock : ℕ → ℕ → ℕ) where
  -- Under the documented meaning of the constraints and for every order of the range over the
  -- rules, Reconcile returns without a panic on a resource with the specification that the
  -- webhook's defaults gave and its validation of the creation admitted.
  pub reconcile_of_created :
      (V : Service) (constraint : L.semver.Constraints) (parse_error : String → Option String)
      (now : ℕ → ℕ) (c stored : Conduit) (seen : V.World) (req : NamespacedName) (w : K.World)
      → (validate_create V L.semver constraint parse_error (conduit (default_conduit now c)) seen).1
        ≡ admitted
      → stored.spec ≡ (default_conduit now c).spec
      → K.get_conduit req w ≡ fetched stored
      → Returns (reconcile K L r clock req w)
  reconcile_of_created V constraint parse_error now c stored seen req w h same read =
      reconcile-Returns K L release d range r clock req w (λ other e.
        subst (IsComplete L.semver) (fetched_injective (sym read ∙ e))
          (created-IsComplete V L.semver constraint parse_error now c stored seen h same))

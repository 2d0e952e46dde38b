-- ===== src/Controller/Saved.antt =====
-- internal/controller/conduit_controller.go: what a call of `CreateOrUpdate` saves. The world is the
-- object that was saved last, if there is one.
use conduit_operator.Prelude.{
  ℕ, String, ◌≡◌, refl, ap, sym, ◌∙◌, Option, none, some, arith, inl, inr, List, [], ◌∷◌,
}
use conduit_operator.Prelude.Dict.{Dict, lookup, lookup-insert, copy}
use conduit_operator.Prelude.Result.{Result, ok, err, Result-cases}
use conduit_operator.Api.Condition.{ConditionType, ConditionStatus}
use conduit_operator.Api.Types.{Conduit, ConduitInstanceMetadata, namespaced_name}
use conduit_operator.Flags.{Args, Call, returns, panics}
use conduit_operator.Semver.{Semver}
use conduit_operator.Kube.{
  EnvVar, Container, ConfigMap, Secret, Service, Deployment, DeploymentSpec,
}
use conduit_operator.Controller.Run.{done, done_injective, not_panicked}
use conduit_operator.Controller.State.{
  State, Answer, found, Operation, unchanged, updated, created, finish, create_or_update,
}
use conduit_operator.Controller.Objects.{mutate_service, create_or_update_service}
use conduit_operator.Controller.Deployment.{
  name_label, set_running, mutate_deployment, update_deployment, apply_deployment,
  create_or_update_deployment, deployment_spec, deployment_labels, deployment_annotations,
}

pub finish-world :
    {W : Type 0} (now : ℕ → ℕ) (ct : ConditionType) (error_reason : String) (r : Result Operation)
    (s : State W)
    → (finish now ct error_reason r s).0.world ≡ s.world
finish-world now ct error_reason (err e) s = refl
finish-world now ct error_reason (ok unchanged) s = refl
finish-world now ct error_reason (ok updated) s = refl
finish-world now ct error_reason (ok created) s = refl

pub set_running-world :
    {W : Type 0} (now : ℕ → ℕ) (status : ConditionStatus) (reason ready : String) (s : State W)
    → (set_running now status reason ready s).world ≡ s.world
unfolding set_running
set_running-world now status reason ready s = ground arith

-- The answer for an object, where saving is seen.
abbrev pub seen : {A : Type 0} → A → Option String → Result Operation → Answer (Option A) A
seen a owner r = found a owner (λ x. (some x, r))

some_injective : {A : Type 0} {a b : A} → some a ≡ some b → a ≡ b
some_injective h = cc h

not_saved : {A B : Type 0} {a : A} {w : Option A} → w ≡ none → w ≡ some a → B
not_saved e h = absurd (cc)

saved-create_or_update :
    {A : Type 0} (now : ℕ → ℕ) (ct : ConditionType) (error_reason : String)
    (mutate : A → State (Option A) → A × State (Option A)) (a y : A) (owner : Option String)
    (r : Result Operation) (s : State (Option A))
    → (mutate a s).1.world ≡ s.world
    → s.world ≡ none
    → (create_or_update now ct error_reason mutate (seen a owner r) s).0.world ≡ some y
    → (mutate a s).0 ≡ y
unfolding create_or_update
saved-create_or_update now ct error_reason mutate a y (some e) r s kept empty h =
    not_saved (kept ∙ empty) h
saved-create_or_update now ct error_reason mutate a y none r s kept empty h =
    let after : State _ = record (mutate a s).1 { world = some (mutate a s).0 } in
    some_injective (sym (finish-world now ct error_reason r after) ∙ h)

saved-service :
    (now : ℕ → ℕ) (c : Conduit) (service y : Service) (owner : Option String) (r : Result Operation)
    (s : State (Option Service))
    → s.world ≡ none
    → (create_or_update_service now c (seen service owner r) s).0.world ≡ some y
    → y.selector ≡ (name_label, (namespaced_name c).name) ∷ []
unfolding create_or_update_service mutate_service
saved-service now c service y owner r s empty h =
    ap (λ x. x.selector)
      (sym (
        saved-create_or_update now _ _ (mutate_service now (namespaced_name c).name) service y owner
          r s refl empty h))

module _ (show : ℕ → String) (now : ℕ → ℕ)
    (merge : DeploymentSpec → DeploymentSpec → Result DeploymentSpec) (c : Conduit)
    (d y : Deployment) (owner : Option String) (r : Result Operation)
    (s : State (Option Deployment)) (empty : s.world ≡ none) where
  -- The saved deployment selects its pods by the name of the server and gives them these labels.
  abbrev IsLabelled : Dict String → Type 0
  IsLabelled labels =
      (y.spec.match_labels ≡ (name_label, (namespaced_name c).name) ∷ []) × (y.spec.labels ≡ labels)

  saved-update_deployment :
      (labels annotations : Dict String) (container : Container)
      → (update_deployment show now merge labels annotations c container d
          (seen d owner r)
          s).0.world
        ≡ some y
      → IsLabelled labels
  unfolding update_deployment mutate_deployment
  saved-update_deployment labels annotations container h =
      elim (Result-cases (merge d.spec (deployment_spec c container))) [
        | inr (m, e) ↦ not_saved empty (rw (e, update_deployment) at h)
        | inl (merged, e) ↦
            let same =
              saved-create_or_update now _ _
                (mutate_deployment show now labels annotations c merged) d y owner r s
                (set_running-world now _ _ _ s) empty (rw (e, update_deployment) at h) in
            (ap (λ x. x.spec.match_labels) (sym same), ap (λ x. x.spec.labels) (sym same))
      ]

  saved-apply_deployment :
      (labels annotations : Dict String) (container : Call Container)
      (out : State (Option Deployment) × Option String)
      → apply_deployment show now merge labels annotations c container (seen d owner r) s ≡ done out
      → out.0.world ≡ some y
      → IsLabelled labels
  unfolding apply_deployment
  saved-apply_deployment labels annotations panics out h g = absurd (not_panicked h)
  saved-apply_deployment labels annotations (returns (err e)) out h g =
      not_saved empty (ap (λ x. x.0.world) (done_injective h) ∙ g)
  saved-apply_deployment labels annotations (returns (ok container)) out h g =
      saved-update_deployment labels annotations container
        (ap (λ x. x.0.world) (done_injective h) ∙ g)

  saved-deployment :
      (S : Semver) (rules : Dict String) (order : List EnvVar → List EnvVar)
      (meta : ConduitInstanceMetadata) (flags : Args) (cm : Result ConfigMap)
      (secret : Result Secret) (out : State (Option Deployment) × Option String)
      → create_or_update_deployment show now merge S rules order meta flags c cm secret
          (seen d owner r)
          s
        ≡ done out
      → out.0.world ≡ some y
      → IsLabelled (deployment_labels meta c)
  unfolding create_or_update_deployment
  saved-deployment S rules order meta flags (err e) secret out h g =
      not_saved empty (ap (λ x. x.0.world) (done_injective h) ∙ g)
  saved-deployment S rules order meta flags (ok cm) (err e) out h g =
      not_saved empty (ap (λ x. x.0.world) (done_injective h) ∙ g)
  saved-deployment S rules order meta flags (ok cm) (ok secret) out h g =
      saved-apply_deployment (deployment_labels meta c) (deployment_annotations meta c cm) _ out h g

  -- Where the stage of the deployment saves a deployment and that of the service a service of one
  -- resource, whatever the objects were before and whatever the calls answer, the deployment's
  -- selector is the selector of the service, and every entry of that selector is a label of the
  -- deployment's pods.
  pub service_selects_pods :
      (S : Semver) (rules : Dict String) (order : List EnvVar → List EnvVar)
      (meta : ConduitInstanceMetadata) (flags : Args) (cm : Result ConfigMap)
      (secret : Result Secret) (out : State (Option Deployment) × Option String) (now' : ℕ → ℕ)
      (service svc : Service) (owner' : Option String) (r' : Result Operation)
      (s' : State (Option Service)) (key value : String)
      → create_or_update_deployment show now merge S rules order meta flags c cm secret
          (seen d owner r)
          s
        ≡ done out
      → out.0.world ≡ some y
      → s'.world ≡ none
      → (create_or_update_service now' c (seen service owner' r') s').0.world ≡ some svc
      → lookup key svc.selector ≡ some value
      → (y.spec.match_labels ≡ svc.selector) × (lookup key y.spec.labels ≡ some value)
  unfolding deployment_labels lookup
  service_selects_pods S rules order meta flags cm secret out now' service svc owner' r' s' key
        value h g empty' h' k =
      let (matched, labelled) = saved-deployment S rules order meta flags cm secret out h g in
      let selected = saved-service now' c service svc owner' r' s' empty' h' in
      let labels = copy (copy [] meta.labels) c.meta.labels in
      let found_name = sym (ap (lookup key) selected) ∙ k in
      (
        matched ∙ sym selected,
        ap (lookup key) labelled
            ∙ ground (arith, lookup-insert name_label key (namespaced_name c).name labels),
      )

-- ===== src/System/Ready.antt =====
-- internal/controller/conduit_controller.go: the resource that a call of `Reconcile` without errors
-- leaves in the cluster.
use conduit_operator.Prelude.{
  ℕ, String, ◌≡◌, refl, ap, sym, ◌∙◌, Bool, true, Option, none, some, List, [], ◌∷◌, ◌++◌, inl, inr,
  Bool-cases, Option-cases,
}
use conduit_operator.Prelude.Result.{Result, ok, err}
use conduit_operator.Api.Condition.{is_true, find}
use conduit_operator.Api.Status.{get_condition}
use conduit_operator.Api.ConditionSet
use conduit_operator.Api.Types.{
  Conduit, ConduitStatus, NamespacedName, conduit_finalizer, namespaced_name,
}
use conduit_operator.Controller.Run.{done, done_injective}
use conduit_operator.Controller.State.{State}
use conduit_operator.Controller.Objects.{update_status}
use conduit_operator.Controller.Touches.{Sound}
use conduit_operator.Controller.Stages.{sees}
use conduit_operator.Controller.Stages.Objects.{is_bound}
use conduit_operator.Controller.Stages.Deployment.{IsRunning}
use conduit_operator.Controller.Cluster.{fetched, Cluster, Libraries, Reconciled}
use conduit_operator.Controller.Reconcile.{
  ConduitReconciler, StageResults, run_stages, status_stage, stage_errors, reconcile_stages,
  reconcile, wrapped,
}
use conduit_operator.Controller.Reconcile.Told.{volume_answer}
use conduit_operator.Controller.Reconcile.Ready.{run_stages_reaches_ready}
use conduit_operator.Controller.Reconcile.Finalizer.{reconcile_kept}

-- The documented behaviour of the server towards `UpdateStatus`: a read gives the status that is
-- stored, and a write that succeeds stores its status; `DeepEqual` is true of equal conditions only.
pub record IsStatusStore (K : Cluster) (stored : K.World → Option Conduit) : Type 0 where
  pub latest :
      (c : Conduit) (w : K.World) (status : ConduitStatus)
      → K.get_status c w ≡ ok status
      → (old : Conduit) × (stored w ≡ some old) × (old.status ≡ status)
  pub equal : (a b : ConduitStatus) → K.same_status a b ≡ true → a.conditions ≡ b.conditions
  pub saved :
      (c old : Conduit) (status : ConduitStatus) (w : K.World)
      → stored w ≡ some old
      → (K.save_status c status w).1 ≡ none
      → stored (K.save_status c status w).0 ≡ some (record old { status = status })

none_of_wrapped : (prefix : String) (e : Option String) → wrapped prefix e ≡ [] → e ≡ none
none_of_wrapped prefix none h = refl
none_of_wrapped prefix (some e) h = cc h

nil_of_append : {A : Type 0} (xs ys : List A) → xs ++ ys ≡ [] → (xs ≡ []) × (ys ≡ [])
nil_of_append [] ys h = (refl, h)
nil_of_append (x ∷ xs) ys h = absurd (cc h)

wrapped_append :
    (prefix : String) (e : Option String) (errs : List String)
    → wrapped prefix e ++ errs ≡ []
    → (e ≡ none) × (errs ≡ [])
wrapped_append prefix e errs h =
    let (a, b) = nil_of_append (wrapped prefix e) errs h in (none_of_wrapped prefix e a, b)

module _ {W : Type 0} (stored : W → Option Conduit) (now generation : ℕ)
    (same : ConduitStatus → ConduitStatus → Bool) (save : ConduitStatus → W × Option String)
    (s : State W) where
  -- The resource is there with the conditions of the state.
  abbrev Stores : W → Type 0
  Stores w =
      (kept : Conduit) × (stored w ≡ some kept) × (kept.status.conditions ≡ s.status.conditions)

  Stores-update_status :
      (latest : Result ConduitStatus)
      → ((status : ConduitStatus)
          → latest ≡ ok status
          → (old : Conduit) × (stored s.world ≡ some old) × (old.status ≡ status))
      → ((a b : ConduitStatus) → same a b ≡ true → a.conditions ≡ b.conditions)
      → ((old : Conduit) (status : ConduitStatus)
          → stored s.world ≡ some old
          → (save status).1 ≡ none
          → stored (save status).0 ≡ some (record old { status = status }))
      → (update_status now generation latest same save s).1 ≡ none
      → Stores (update_status now generation latest same save s).0.world
  unfolding update_status
  Stores-update_status (err e) reads equal saves h = absurd (cc h)
  Stores-update_status (ok l) reads equal saves h =
      let (old, there, e) = reads l refl in
      elim (Bool-cases (same l s.status)) [
        | inl g ↦ rw g (old, there, ap (λ x. x.conditions) e ∙ equal l s.status g)
        | inr g ↦
            let status = record s.status {
              updated_at = some now;
              observed_generation = generation;
            } in
            elim (Option-cases (save status).1) [
              | inl k ↦ rw (g, k) (record old { status = status }, saves old status there k, refl)
              | inr (m, k) ↦
                  let broken : some m ≡ none = rw (g, k, update_status) at h in absurd (cc broken)
            ]
      ]

module _ (K : Cluster) (L : Libraries) (r : ConduitReconciler) (clock : ℕ → ℕ → ℕ)
    (c : Conduit) where
  stage_errors-none :
      (f : StageResults K.World)
      → stage_errors K L r clock c f ≡ []
      → (f.config.1 ≡ none)
        × (f.secret.1 ≡ none)
        × (f.volume.1 ≡ none)
        × (f.deployment.1 ≡ none)
        × (f.service.1 ≡ none)
  stage_errors-none f h =
      let (config, h) = wrapped_append "error reconciling config" f.config.1 _ h in
      let (secret, h) = wrapped_append "error reconciling config" f.secret.1 _ h in
      let (volume, h) = wrapped_append "error reconciling volume" f.volume.1 _ h in
      let (deployment, h) = wrapped_append "error reconciling deployment" f.deployment.1 _ h in
      (
        config,
        secret,
        volume,
        deployment,
        none_of_wrapped "error reconciling service" f.service.1 h,
      )

  module _ (stored : K.World → Option Conduit) (store : IsStatusStore K stored) where
    Stores-status_stage :
        (s : State K.World)
        → (status_stage K L r clock c s).1 ≡ none
        → (kept : Conduit) × (stored (status_stage K L r clock c s).0.world ≡ some kept)
          × (kept.status.conditions ≡ s.status.conditions)
    unfolding status_stage
    Stores-status_stage s h =
        Stores-update_status stored (clock 5 0) c.meta.generation K.same_status
          (λ status. K.save_status c status s.world) s (K.get_status c s.world)
          (λ status e. store.latest c s.world status e) store.equal
          (λ old status e f. store.saved c old status s.world e f) h

    -- Where Reconcile fetches a resource that is not deleted and has the finalizer, whose
    -- conditions are in order with one a type, returns no errors, and the claim of the volume is
    -- bound and the deployment is read with its config map and secret and seen running, the
    -- resource that is stored afterwards has Ready true; reads give the stored status, a write of
    -- the status that succeeds stores it, and equal statuses have equal conditions.
    pub reconcile_stores_ready :
        (req : NamespacedName) (w : K.World) (f : StageResults K.World) (out : Reconciled K.World)
        → Sound c.status
        → K.get_conduit req w ≡ fetched c
        → c.meta.deletion_timestamp ≡ none
        → K.contains_finalizer c.meta.finalizers conduit_finalizer ≡ true
        → run_stages K L r clock c (record { status = c.status; events = []; world = w }) ≡ done f
        → IsRunning L.semver L.rules L.order L.merge r.flags c
            ((K.reader f.volume.0.world).get_config_map
              (namespaced_name c).namespace
              (namespaced_name c).name)
            ((K.reader f.volume.0.world).get_secret
              (namespaced_name c).namespace
              (namespaced_name c).name)
            (K.deployment (namespaced_name c) f.volume.0.world)
        → sees is_bound (volume_answer K L r clock c f.secret.0) ≡ true
        → reconcile K L r clock req w ≡ done out
        → out.errors ≡ []
        → (kept : Conduit) × (stored out.world ≡ some kept)
          × (is_true (get_condition kept.status "Ready") ≡ true)
    unfolding reconcile_stages get_condition ConditionSet.get_condition
    reconcile_stores_ready req w f out sound read live final ran running bound h clean =
        let s : State K.World = record { status = c.status; events = []; world = w } in
        let last = status_stage K L r clock c f.service.0 in
        let stages = sym (reconcile_kept K L r clock req w c read live final) ∙ h in
        let same = done_injective (rw (ran, reconcile_stages) at stages) in
        let (none_failed, status_saved) =
          nil_of_append (stage_errors K L r clock c f) (wrapped "error updating status" last.1)
            (ap (λ x. x.errors) same ∙ clean) in
        let (config, secret, volume, deployment, service) = stage_errors-none f none_failed in
        let ready =
          run_stages_reaches_ready K L r clock c s f sound ran running bound config secret volume
            deployment service in
        let (kept, there, conds) =
          Stores-status_stage f.service.0
            (none_of_wrapped "error updating status" last.1 status_saved) in
        (
          kept,
          ap stored (ap (λ x. x.world) (sym same)) ∙ there,
          ap (λ x. is_true (find x "Ready")) conds ∙ ready,
        )

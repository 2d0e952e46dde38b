-- ===== src/System/Deletion.antt =====
-- internal/controller/conduit_controller.go behind internal/webhook/v1alpha/conduit_webhook.go: a
-- resource that is being deleted.
use conduit_operator.Prelude.{ℕ, String, ◌≡◌, ◌≢◌, ap, sym, ◌∙◌, Option, none, some, [], ◌∷◌}
use conduit_operator.Api.Types.{Conduit, NamespacedName, conduit_finalizer}
use conduit_operator.Validator.Processor.{Store}
use conduit_operator.Webhook.Defaulter.{default_conduit, default_spec}
use conduit_operator.Webhook.Object.{conduit}
use conduit_operator.Webhook.Validator.{admitted, validate_update}
use conduit_operator.Webhook.Validator.Agreement.{registry-required}
use conduit_operator.Controller.Run.{done, done_injective}
use conduit_operator.Controller.Cluster.{fetched, Cluster, Libraries, Reconciled}
use conduit_operator.Controller.Reconcile.{
  ConduitReconciler, reconcile, reconcile_deleted, with_finalizers,
}
use conduit_operator.System.{Webhook, service}

module _ (H : Webhook) where
  -- The webhook refuses an update, at any time and whatever it has stored.
  abbrev pub Refuses : Conduit → Type 0
  Refuses c =
      (now : ℕ → ℕ) (seen : Store H.plugins.Registry)
      → (validate_update (service H) H.show (conduit (default_conduit now c)) seen).1 ≢ admitted

  -- The documented behaviour of the server: an update that the webhook refuses fails and stores
  -- nothing.
  pub record IsGuarded (K : Cluster) (stored : K.World → Option Conduit) : Type 0 where
    pub fails :
        (c : Conduit) (w : K.World) → Refuses c → (e : String) × ((K.update_conduit c w).1 ≡ some e)
    pub leaves :
        (c : Conduit) (w : K.World) → Refuses c → stored (K.update_conduit c w).0 ≡ stored w

  module _ (K : Cluster) (stored : K.World → Option Conduit) (guarded : IsGuarded K stored)
      (L : Libraries) (r : ConduitReconciler) (clock : ℕ → ℕ → ℕ) where
    refused_deletion :
        (req : NamespacedName) (w : K.World) (c : Conduit) (t : ℕ) (out : Reconciled K.World)
        → K.get_conduit req w ≡ fetched c
        → c.meta.deletion_timestamp ≡ some t
        → Refuses
            (with_finalizers K L r clock (K.remove_finalizer c.meta.finalizers conduit_finalizer) c)
        → reconcile K L r clock req w ≡ done out
        → (stored out.world ≡ stored w) × (out.errors ≢ [])
    unfolding reconcile reconcile_deleted
    refused_deletion req w c t out read deleted refuses h =
        let asked =
          with_finalizers K L r clock (K.remove_finalizer c.meta.finalizers conduit_finalizer) c in
        let (e, failed) = guarded.fails asked w refuses in
        let same = done_injective (rw (read, reconcile, deleted, failed, reconcile_deleted) at h) in
        (
          ap stored (ap (λ x. x.world) (sym same)) ∙ guarded.leaves asked w refuses,
          λ none_left. let clash : e ∷ [] ≡ [] = ap (λ x. x.errors) same ∙ none_left in cc clash,
        )

    -- A resource without a registry that is being deleted is stored as before after a call of
    -- Reconcile, which returns an error: the webhook refuses the update that takes the finalizer
    -- away; an update that the webhook refuses is taken to fail and to store nothing.
    pub deletion_without_registry :
        (req : NamespacedName) (w : K.World) (c : Conduit) (t : ℕ) (out : Reconciled K.World)
        → K.get_conduit req w ≡ fetched c
        → c.meta.deletion_timestamp ≡ some t
        → c.spec.registry ≡ none
        → reconcile K L r clock req w ≡ done out
        → (stored out.world ≡ stored w) × (out.errors ≢ [])
    unfolding default_conduit default_spec
    deletion_without_registry req w c t out read deleted registry =
        let asked =
          with_finalizers K L r clock (K.remove_finalizer c.meta.finalizers conduit_finalizer) c in
        refused_deletion req w c t out read deleted (λ now seen.
          (registry-required (service H) H.semver H.constraint H.parse_error H.show
            (default_conduit now asked) seen registry).1)

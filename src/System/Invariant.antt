-- ===== src/System/Invariant.antt =====
-- The resource in every world that the cluster reaches, with the webhook of
-- internal/webhook/v1alpha/conduit_webhook.go and `Reconcile` of
-- internal/controller/conduit_controller.go.
use mathlib.Core.Option.{some-injective}
use conduit_operator.Prelude.{
  ℕ, ◌≡◌, refl, sym, subst, ◌∙◌, ◌≤◌, Option, none, some, [], inl, inr, Bool-cases, Option-cases,
}
use conduit_operator.Prelude.Lists.{length}
use conduit_operator.Api.Condition.Sorting.{UniqueTypes}
use conduit_operator.Api.Types.{Conduit, ConduitStatus, NamespacedName, conduit_finalizer}
use conduit_operator.Controller.Run.{done, done_injective, >>=-eq-done}
use conduit_operator.Controller.State.{State}
use conduit_operator.Controller.Touches.{Summed}
use conduit_operator.Controller.Cluster.{Cluster, Libraries, Reconciled}
use conduit_operator.Controller.Reconcile.{
  ConduitReconciler, run_stages, status_stage, reconcile_stages, reconcile_deleted, reconcile_new,
  reconcile, with_finalizers,
}
use conduit_operator.Controller.Reconcile.Returns.{Fetch-cases}
use conduit_operator.System.{
  Webhook, Rewritten, IsServer, Step, creates, Write, Writes, stay, write, writes, updates, marks,
  reconciles, Reach, start, next,
}
use conduit_operator.System.Kept.Stages.{run_stages-Keeps}
use conduit_operator.System.Specification.{IsChecked, Created-IsChecked, Updated-IsChecked}
use conduit_operator.System.Bound.{length-conditions}
use conduit_operator.System.Consistent.{
  IsConsistent, no_conditions-IsConsistent, status_stage-IsConsistent, world-status_stage,
}

pub record IsGood (c : Conduit) : Type 0 where
  pub checked : IsChecked c.spec
  pub consistent : IsConsistent c.status

module _ (K : Cluster) (L : Libraries) (r : ConduitReconciler) (clock : ℕ → ℕ → ℕ)
    (c : Conduit) where
  abbrev without_finalizer : Conduit
  without_finalizer =
      with_finalizers K L r clock (K.remove_finalizer c.meta.finalizers conduit_finalizer) c

  abbrev with_finalizer : Conduit
  with_finalizer =
      with_finalizers K L r clock (K.add_finalizer c.meta.finalizers conduit_finalizer) c

module _ (H : Webhook) (K : Cluster) (stored : K.World → Option Conduit) where
  -- The resource, if it is there, is good.
  abbrev pub HoldsGood : K.World → Type 0
  HoldsGood w = (c : Conduit) → stored w ≡ some c → IsGood c

  absent-HoldsGood : (w : K.World) → stored w ≡ none → HoldsGood w
  absent-HoldsGood w e c h = cc

  written-HoldsGood : (w : K.World) (new : Conduit) → stored w ≡ some new → IsGood new → HoldsGood w
  written-HoldsGood w new e good c h =
      let same : new ≡ c = some-injective new c (sym e ∙ h) in subst IsGood same good

  Same-HoldsGood : (w w' : K.World) → stored w' ≡ stored w → HoldsGood w → HoldsGood w'
  Same-HoldsGood w w' e good c h = good c (sym e ∙ h)

  Rewritten-HoldsGood : (w w' : K.World) → Rewritten H K stored w w' → HoldsGood w → HoldsGood w'
  Rewritten-HoldsGood w w' (inl same) good = Same-HoldsGood w w' same good
  Rewritten-HoldsGood w w' (inr (inl gone)) good = absent-HoldsGood w' gone
  Rewritten-HoldsGood w w' (inr (inr (old, new, before, after, written))) good =
      written-HoldsGood w' new after (record {
        checked = Updated-IsChecked H old new written;
        consistent = subst IsConsistent (sym written.status) (good old before).consistent;
      })

  Write-HoldsGood : (w w' : K.World) → HoldsGood w → Write H K stored w w' → HoldsGood w'
  Write-HoldsGood w w' good (creates new before after created) =
      written-HoldsGood w' new after (record {
        checked = Created-IsChecked H new created;
        consistent = no_conditions-IsConsistent new.status created.status;
      })
  Write-HoldsGood w w' good (updates written) = Rewritten-HoldsGood w w' written good
  Write-HoldsGood w w' good (marks old new before after spec status) =
      written-HoldsGood w' new after (record {
        checked = subst IsChecked (sym spec) (good old before).checked;
        consistent = subst IsConsistent (sym status) (good old before).consistent;
      })

  Writes-HoldsGood : (w w' : K.World) → HoldsGood w → Writes H K stored w w' → HoldsGood w'
  Writes-HoldsGood w w' good (stay _) = good
  Writes-HoldsGood w w' good (write {w' = between} before last) =
      Write-HoldsGood between w' (Writes-HoldsGood w between good before) last

  module _ (server : IsServer H K stored) (L : Libraries) (r : ConduitReconciler)
      (clock : ℕ → ℕ → ℕ) where
    saved-HoldsGood :
        (c : Conduit) (status : ConduitStatus) (w : K.World)
        → HoldsGood w
        → IsConsistent status
        → HoldsGood (K.save_status c status w).0
    saved-HoldsGood c status w good consistent =
        let (between, before, last) = server.saves c status w in
        let kept = Writes-HoldsGood w between good before in
        elim last [
          | inl same ↦ Same-HoldsGood between (K.save_status c status w).0 same kept
          | inr (old, there, after) ↦
              written-HoldsGood (K.save_status c status w).0 (record old { status = status }) after
                (record { checked = (kept old there).checked; consistent = consistent })
        ]

    stages-HoldsGood :
        (c : Conduit) (w : K.World) (out : Reconciled K.World)
        → IsGood c
        → HoldsGood w
        → reconcile_stages K L r clock c w ≡ done out
        → HoldsGood out.world
    unfolding reconcile_stages
    stages-HoldsGood c w out this good h =
        let s : State K.World = record { status = c.status; events = []; world = w } in
        let (f, ran, same) = >>=-eq-done (run_stages K L r clock c s) _ h in
        let last = (status_stage K L r clock c f.service.0).0 in
        let before =
          Writes-HoldsGood w f.service.0.world good
            (run_stages-Keeps H K stored server L r clock c s f ran) in
        let consistent = status_stage-IsConsistent K L r clock c s f ran this.consistent in
        subst (λ x. HoldsGood x.world) (done_injective same)
          (elim (world-status_stage K L r clock c s f ran this.consistent) [
            | inl e ↦ subst HoldsGood (sym e) before
            | inr e ↦
                subst HoldsGood (sym e)
                  (saved-HoldsGood c last.status f.service.0.world before consistent)
          ])

    deleted-HoldsGood :
        (c : Conduit) (w : K.World)
        → HoldsGood w
        → HoldsGood (reconcile_deleted K L r clock c w).world
    unfolding reconcile_deleted
    deleted-HoldsGood c w good =
        let asked = without_finalizer K L r clock c in
        let same : (reconcile_deleted K L r clock c w).world ≡ (K.update_conduit asked w).0 =
          elim (Option-cases (K.update_conduit asked w).1) [
            | inl e ↦ rw (e, reconcile_deleted) refl
            | inr (m, e) ↦ rw (e, reconcile_deleted) refl
          ] in
        subst HoldsGood (sym same)
          (Writes-HoldsGood w (K.update_conduit asked w).0 good (server.updates asked w))

    new-HoldsGood :
        (c : Conduit) (w : K.World) → HoldsGood w → HoldsGood (reconcile_new K L r clock c w).world
    unfolding reconcile_new
    new-HoldsGood c w good =
        let asked = with_finalizer K L r clock c in
        let same : (reconcile_new K L r clock c w).world ≡ (K.update_conduit asked w).0 =
          elim (Option-cases (K.update_conduit asked w).1) [
            | inl e ↦ rw (e, reconcile_new) refl
            | inr (m, e) ↦ rw (e, reconcile_new) refl
          ] in
        subst HoldsGood (sym same)
          (Writes-HoldsGood w (K.update_conduit asked w).0 good (server.updates asked w))

    reconcile-HoldsGood :
        (req : NamespacedName) (w : K.World) (out : Reconciled K.World)
        → HoldsGood w
        → reconcile K L r clock req w ≡ done out
        → HoldsGood out.world
    unfolding reconcile
    reconcile-HoldsGood req w out good h = elim (Fetch-cases (K.get_conduit req w)) [
      | inl e ↦ subst (λ x. HoldsGood x.world) (done_injective (rw (e, reconcile) at h)) good
      | inr (inl (m, e)) ↦
          subst (λ x. HoldsGood x.world) (done_injective (rw (e, reconcile) at h)) good
      | inr (inr (c, e)) ↦ elim (Option-cases c.meta.deletion_timestamp) [
        | inr (deleted_at, g) ↦
            subst (λ x. HoldsGood x.world) (done_injective (rw (e, reconcile, g) at h))
              (deleted-HoldsGood c w good)
        | inl g ↦ elim (Bool-cases (K.contains_finalizer c.meta.finalizers conduit_finalizer)) [
          | inr b ↦
              subst (λ x. HoldsGood x.world) (done_injective (rw (e, reconcile, g, b) at h))
                (new-HoldsGood c w good)
          | inl b ↦
              stages-HoldsGood c w out (good c (server.reads req w c e)) good
                (rw (e, reconcile, g, b) at h)
        ]
      ]
    ]

  module _ (server : IsServer H K stored) (L : Libraries) (r : ConduitReconciler) where
    Step-HoldsGood : (w w' : K.World) → HoldsGood w → Step H K stored L r w w' → HoldsGood w'
    Step-HoldsGood w w' good (writes written) = Write-HoldsGood w w' good written
    Step-HoldsGood w w' good (reconciles clock req out ran) =
        reconcile-HoldsGood server L r clock req w out good ran

    pub Reach-HoldsGood : (w : K.World) → Reach H K stored L r w → HoldsGood w
    Reach-HoldsGood w (start _ absent) = absent-HoldsGood w absent
    Reach-HoldsGood w' (next {w} reached step) =
        Step-HoldsGood w w' (Reach-HoldsGood w reached) step

    -- In every world that is reached from one without the resource, by creations and updates
    -- through the webhook, changes of the metadata, steps beside the resource and calls of
    -- Reconcile, between whose own writes others may write too, over a server that behaves as
    -- documented, the resource's specification has Running, an image and a version, every
    -- connector has a plugin name and a plugin version, a supported plugin and a supported plugin
    -- type, and every processor has workers and a plugin.
    pub reached-IsChecked :
        (w : K.World) (c : Conduit) → Reach H K stored L r w → stored w ≡ some c → IsChecked c.spec
    reached-IsChecked w c reached e = (Reach-HoldsGood w reached c e).checked

    -- In every world that is reached from one without the resource, by creations and updates
    -- through the webhook, changes of the metadata, steps beside the resource and calls of
    -- Reconcile, between whose own writes others may write too, over a server that behaves as
    -- documented, Ready is true in the resource's status exactly where none of the five dependent
    -- conditions is false, unknown or missing.
    pub reached-Summed :
        (w : K.World) (c : Conduit) → Reach H K stored L r w → stored w ≡ some c → Summed c.status
    reached-Summed w c reached e = (Reach-HoldsGood w reached c e).consistent.summed

    -- In every world that is reached from one without the resource, by creations and updates
    -- through the webhook, changes of the metadata, steps beside the resource and calls of
    -- Reconcile, between whose own writes others may write too, over a server that behaves as
    -- documented, the status has one condition a type, and at most six conditions.
    pub length-conditions_of_reached :
        (w : K.World) (c : Conduit)
        → Reach H K stored L r w
        → stored w ≡ some c
        → UniqueTypes c.status.conditions × length c.status.conditions ≤ 6
    length-conditions_of_reached w c reached e =
        let good = (Reach-HoldsGood w reached c e).consistent in
        (good.sound.1, length-conditions c.status good.sound good.known)

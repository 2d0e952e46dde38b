-- ===== src/Controller/Reconcile/Finalizer.antt =====
-- internal/controller/conduit_controller.go: `Reconcile` of a resource that keeps its finalizer.
use conduit_operator.Prelude.{ℕ, ◌≡◌, true, none}
use conduit_operator.Api.Types.{Conduit, NamespacedName, conduit_finalizer}
use conduit_operator.Controller.Cluster.{fetched, Cluster, Libraries}
use conduit_operator.Controller.Reconcile.{ConduitReconciler, reconcile_stages, reconcile}

module _ (K : Cluster) (L : Libraries) (r : ConduitReconciler) (clock : ℕ → ℕ → ℕ) where
  pub reconcile_kept :
      (req : NamespacedName) (w : K.World) (c : Conduit)
      → K.get_conduit req w ≡ fetched c
      → c.meta.deletion_timestamp ≡ none
      → K.contains_finalizer c.meta.finalizers conduit_finalizer ≡ true
      → reconcile K L r clock req w ≡ reconcile_stages K L r clock c w
  unfolding reconcile
  reconcile_kept req w c read live kept = simp (read, reconcile, live, kept)

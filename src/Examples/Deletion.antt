-- ===== src/Examples/Deletion.antt =====
-- The theorem on a resource without a registry that is being deleted, at the server that stores it.
use conduit_operator.Prelude.{ℕ, String, ◌≡◌, ◌≢◌, refl, some, [], ◌∷◌}
use conduit_operator.Api.Types.{Conduit, conduit_finalizer, namespaced_name}
use conduit_operator.Webhook.Validator.{Admission, admitted, refused, failed}
use conduit_operator.Controller.Run.{done}
use conduit_operator.Controller.Cluster.{Fetch, fetched, not_found, unavailable, Reconciled}
use conduit_operator.Controller.Reconcile.{reconcile, reconcile_deleted}
use conduit_operator.System.Deletion.{Refuses, IsGuarded, deletion_without_registry}
use conduit_operator.Examples.Parts.{resource}
use conduit_operator.Examples.Cluster.{Shop, libraries, reconciler}
use conduit_operator.Examples.Admitted.{files}
use conduit_operator.Examples.Server.{hook, stored, there, answer, accept, made, update_in, serving}
use conduit_operator.Examples.Reconcile.{ticks}

accept_of_refused :
    (old new : Conduit) (n : ℕ) (a : Admission)
    → a ≢ admitted
    → ((e : String) × ((accept old new n a).1 ≡ some e))
      × (there (accept old new n a).0.stored ≡ some old)
accept_of_refused old new n admitted h = absurd (h refl)
accept_of_refused old new n (refused name errs) h = ((name, refl), refl)
accept_of_refused old new n (failed e) h = ((e, refl), refl)

update_in_of_refused :
    (fetch : Fetch) (n : ℕ) (c : Conduit)
    → Refuses hook c
    → ((e : String) × ((update_in fetch n c).1 ≡ some e))
      × (there (update_in fetch n c).0.stored ≡ there fetch)
update_in_of_refused (fetched old) n c h =
    accept_of_refused old (made c) n (answer c) (h (λ k. k) files)
update_in_of_refused not_found n c h = (("not found", refl), refl)
update_in_of_refused (unavailable e) n c h = ((e, refl), refl)

serving-IsGuarded : IsGuarded hook serving stored
serving-IsGuarded = record {
  fails = λ c w h. (update_in_of_refused w.stored w.writes c h).0;
  leaves = λ c w h. (update_in_of_refused w.stored w.writes c h).1;
}

-- A resource that was stored before the webhook was there.
abbrev leaving : Conduit
leaving = record resource {
  meta = record resource.meta { finalizers = conduit_finalizer ∷ []; deletion_timestamp = some 5 };
}

abbrev shop : Shop
shop = record { stored = fetched leaving; writes = 0 }

abbrev left : Reconciled Shop
left = reconcile_deleted serving libraries reconciler ticks leaving shop

left-made : reconcile serving libraries reconciler ticks (namespaced_name leaving) shop ≡ done left
unfolding reconcile
left-made = refl

deletion_without_registry_example : (stored left.world ≡ some leaving) × (left.errors ≢ [])
deletion_without_registry_example =
    deletion_without_registry hook serving stored serving-IsGuarded libraries reconciler ticks
      (namespaced_name leaving) shop leaving 5 left refl refl refl left-made

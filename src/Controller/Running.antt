-- ===== src/Controller/Running.antt =====
-- internal/controller/conduit_controller.go: the running status and the update of the status.
use conduit_operator.Prelude.{
  ℕ, ◌<◌, ◌≤◌, String, ◌≡◌, refl, ◌↔◌, ◌⊎◌, inl, inr, Bool, true, Option, none, some, ◌≢◌, arith,
  eq_iff, Bool-cases, Option-cases,
}
use conduit_operator.Prelude.Result.{Result, ok, err}
use conduit_operator.Api.Types.{Conduit, ConduitStatus}
use conduit_operator.Kube.{DeploymentStatus}
use conduit_operator.Controller.State.{State}
use conduit_operator.Controller.Objects.{update_status}
use conduit_operator.Controller.Deployment.{get_replicas, deployment_running_status}

-- With the replicas that getReplicas asks for, the running status is True exactly where Running is
-- true, the deployment has replicas and all of them are ready; where Running is not true the
-- status is False with the reason Stopped.
pub deployment_running_status_lem :
    (c : Conduit) (d : DeploymentStatus)
    → ((deployment_running_status (get_replicas c) d).0 ≡ "True"
        ↔ (c.spec.running ≡ some true) × (0 < d.replicas) × (d.replicas ≤ d.ready_replicas))
      × (c.spec.running ≢ some true
          → deployment_running_status (get_replicas c) d ≡ ("False", "Stopped"))
unfolding deployment_running_status get_replicas
deployment_running_status_lem c d = ground (arith, eq_iff "True" "False", eq_iff "True" "Unknown")

-- UpdateStatus changes no condition; without an error the latest status was read and either it is
-- the same and nothing changes, or the status was saved with the given generation and time.
pub update_status_lem :
    {W : Type 0} (now generation : ℕ) (latest : Result ConduitStatus)
    (same : ConduitStatus → ConduitStatus → Bool) (save : ConduitStatus → W × Option String)
    (s : State W)
    → let (after, e) = update_status now generation latest same save s in
      (after.status.conditions ≡ s.status.conditions)
      × (e ≡ none
          → ((l : ConduitStatus) × (latest ≡ ok l)
              × (((same l s.status ≡ true) × (after ≡ s))
                  ⊎ (((save after.status).1 ≡ none)
                      × (after.status.observed_generation ≡ generation)
                      × (after.status.updated_at ≡ some now)))))
unfolding update_status
update_status_lem now generation (err e) same save s = (refl, λ h. cc h)
update_status_lem now generation (ok l) same save s = elim (Bool-cases (same l s.status)) [
  | inl e ↦ rw e (refl, λ h. (l, refl, inl (e, refl)))
  | inr e ↦
      let status = record s.status { updated_at = some now; observed_generation = generation } in
      elim (Option-cases (save status).1) [
        | inl f ↦ rw (e, f) (refl, λ h. (l, refl, inr (f, refl, refl)))
        | inr (m, f) ↦ rw (e, f) (refl, λ h. cc h)
      ]
]

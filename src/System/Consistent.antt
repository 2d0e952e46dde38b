-- ===== src/System/Consistent.antt =====
-- internal/controller/conduit_controller.go: the conditions that a run of the stages and the update of
-- the status leave.
use conduit_operator.Prelude.{
  ℕ, String, ◌≡◌, refl, ap, sym, subst, ◌∙◌, Bool, Option, some, [], ◌⊎◌, inl, inr, Bool-cases,
  Option-cases,
}
use conduit_operator.Prelude.Lists.{all, contains}
use conduit_operator.Prelude.Result.{Result, ok, err}
use conduit_operator.Api.Condition.{is_true, is_false, is_unknown, find}
use conduit_operator.Api.Status.{get_condition}
use conduit_operator.Api.ConditionSet
use conduit_operator.Api.Status.Laws.{is_met}
use conduit_operator.Api.ConditionSet.Ready.{WellFormed}
use conduit_operator.Api.Types.{Conduit, ConduitStatus, conduit_conditions}
use conduit_operator.Controller.Run.{done}
use conduit_operator.Controller.State.{State}
use conduit_operator.Controller.Objects.{update_status}
use conduit_operator.Controller.Running.{update_status_lem}
use conduit_operator.Controller.Touches.{Sound, Summed, status_of}
use conduit_operator.Controller.Cluster.{Cluster, Libraries}
use conduit_operator.Controller.Reconcile.{
  ConduitReconciler, StageResults, run_stages, status_stage,
}
use conduit_operator.Controller.Reconcile.Told.{Told-run_stages}
use conduit_operator.Controller.Reconcile.Ready.{status_stage-Summed}
use conduit_operator.System.Bound.{Known, Touches-Known}

-- The conditions are in order, one a type and of the set's types, and `Ready` is true exactly where
-- the five dependent ones are met.
pub record IsConsistent (s : ConduitStatus) : Type 0 where
  pub sound : Sound s
  pub summed : Summed s
  pub known : Known s

Known-of_conditions : (s s' : ConduitStatus) → s'.conditions ≡ s.conditions → Known s → Known s'
Known-of_conditions s s' e h t out =
    ap (λ conds. status_of t (record s { conditions = conds })) e ∙ h t out

pub IsConsistent-of_conditions :
    (s s' : ConduitStatus) → s'.conditions ≡ s.conditions → IsConsistent s → IsConsistent s'
unfolding get_condition ConditionSet.get_condition
IsConsistent-of_conditions s s' e h = record {
  sound = subst WellFormed (sym e) h.sound;
  summed =
      subst (λ conds. is_true (find conds "Ready") ≡ all (is_met conds) conduit_conditions.deps)
        (sym e) h.summed;
  known = Known-of_conditions s s' e h.known;
}

pub no_conditions-IsConsistent : (s : ConduitStatus) → s.conditions ≡ [] → IsConsistent s
unfolding get_condition find ConditionSet.get_condition is_true is_false is_unknown all
no_conditions-IsConsistent s e =
    IsConsistent-of_conditions (record s { conditions = [] }) s e
      (record { sound = (tt, tt); summed = refl; known = λ t out. refl })

world-update_status :
    {W : Type 0} (now generation : ℕ) (latest : Result ConduitStatus)
    (same : ConduitStatus → ConduitStatus → Bool) (save : ConduitStatus → W × Option String)
    (s : State W)
    → let last = (update_status now generation latest same save s).0 in
      (last.world ≡ s.world) ⊎ (last.world ≡ (save last.status).0)
unfolding update_status
world-update_status now generation (err e) same save s = inl refl
world-update_status now generation (ok l) same save s = elim (Bool-cases (same l s.status)) [
  | inl e ↦ rw e (inl refl)
  | inr e ↦
      let status = record s.status { updated_at = some now; observed_generation = generation } in
      elim (Option-cases (save status).1) [
        | inl f ↦ rw (e, f) (inr refl)
        | inr (m, f) ↦ rw (e, f) (inr refl)
      ]
]

module _ (K : Cluster) (L : Libraries) (r : ConduitReconciler) (clock : ℕ → ℕ → ℕ) (c : Conduit)
    (s : State K.World) (f : StageResults K.World) (h : run_stages K L r clock c s ≡ done f)
    (w : IsConsistent s.status) where
  service-Known : Known f.service.0.status
  unfolding contains
  service-Known =
      let told = Told-run_stages K L r clock c s f w.sound h in
      Touches-Known "ServiceReady" f.deployment.0.status f.service.0.status told.service.touches
        refl
        (Touches-Known "DeploymentRunning" f.volume.0.status f.deployment.0.status told.deployment
          refl
          (Touches-Known "VolumeBound" f.secret.0.status f.volume.0.status told.volume.touches refl
            (Touches-Known "SecretReady" f.config.0.status f.secret.0.status told.secret refl
              (Touches-Known "ConfigReady" s.status f.config.0.status told.config refl w.known))))

  pub status_stage-IsConsistent : IsConsistent (status_stage K L r clock c f.service.0).0.status
  unfolding status_stage
  status_stage-IsConsistent =
      let both = status_stage-Summed K L r clock c s f w.sound h in
      let kept =
        (update_status_lem (clock 5 0) c.meta.generation (K.get_status c f.service.0.world)
          K.same_status (λ status. K.save_status c status f.service.0.world) f.service.0).0 in
      record {
        sound = both.0;
        summed = both.1;
        known =
            (Known-of_conditions f.service.0.status
              (status_stage K L r clock c f.service.0).0.status kept service-Known);
      }

  -- The world after the update of the status: as before, or with the status saved.
  pub world-status_stage :
      let last = (status_stage K L r clock c f.service.0).0 in
      (last.world ≡ f.service.0.world)
      ⊎ (last.world ≡ (K.save_status c last.status f.service.0.world).0)
  unfolding status_stage
  world-status_stage =
      world-update_status (clock 5 0) c.meta.generation (K.get_status c f.service.0.world)
        K.same_status (λ status. K.save_status c status f.service.0.world) f.service.0

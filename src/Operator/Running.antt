-- ===== src/Operator/Running.antt =====
-- cmd/operator/main.go: `main` runs the manager where nothing fails before.
use conduit_operator.Prelude.{
  String, ◌≡◌, refl, ◌∙◌, Option, none, some, List, [], ◌∷◌, ◌++◌, inl, inr, Option-cases, Bool,
}
use conduit_operator.Prelude.Lists.{All}
use conduit_operator.Prelude.Result.{ok}
use conduit_operator.Api.Types.{ConduitInstanceMetadata}
use conduit_operator.Operator.CommandLine.{Options}
use conduit_operator.Operator.{
  Exit, ended, made, Tls, Calls, tls_setup, read_metadata, instance_metadata, or_fatal_exit,
  add_watcher, run_manager, main,
}
use conduit_operator.Operator.Startup.{
  Event, watcher, started, logging, added, exit_of, registrations,
}

All-split : {A : Type 0} (P : A → Type 0) (xs ys : List A) → All P (xs ++ ys) → All P xs × All P ys
All-split P [] ys h = (tt, h)
All-split P (x ∷ xs) ys (h, g) = let (a, b) = All-split P xs ys g in ((h, a), b)

module _ (C : Calls) (mgr : C.Manager) (fails : Event C.Watcher → Option String) where
  abbrev Log : Type 0
  Log = List (Event C.Watcher)

  abbrev logged : Calls
  logged = logging C (ok mgr) fails

  passes :
      (msg : String) (e : Event C.Watcher) (w : Log) (rest : Log → Log × Exit)
      → fails e ≡ none
      → or_fatal_exit logged msg (e ∷ w, fails e) rest ≡ rest (e ∷ w)
  passes msg e w rest h = rw h refl

  passes_watcher :
      (msg : String) (x : Option C.Watcher) (w : Log) (rest : Log → Log × Exit)
      → All (λ e. fails e ≡ none) (added x)
      → add_watcher logged msg mgr x w rest ≡ rest (added x ++ w)
  passes_watcher msg none w rest h = refl
  passes_watcher msg (some x) w rest h = passes msg (watcher x) w rest h.0

  ends :
      (w : Log)
      → or_fatal_exit logged "problem running manager"
          (started ∷ w, fails started)
          (λ w. (w, ended))
        ≡ (started ∷ w, exit_of (fails started))
  ends w = elim (Option-cases (fails started)) [ inl k ↦ rw k refl | inr (m, k) ↦ rw k refl ]

  runs_manager :
      (meta : ConduitInstanceMetadata) (tls : Tls C.Watcher)
      → All (λ e. fails e ≡ none) (registrations C meta tls)
      → run_manager logged mgr meta tls []
        ≡ (started ∷ registrations C meta tls, exit_of (fails started))
  unfolding run_manager
  runs_manager meta tls (f6, (f5, rest)) =
      let P : Event C.Watcher → Type 0 = λ e. fails e ≡ none in
      let (f4, rest') = All-split P (added tls.webhook_watcher) _ rest in
      let (f3, (f2, (f1, none_left))) = All-split P (added tls.metrics_watcher) _ rest' in
      passes _ _ _ _ f1
      ∙ passes _ _ _ _ f2
      ∙ passes_watcher _ tls.metrics_watcher _ _ f3
      ∙ passes_watcher _ tls.webhook_watcher _ _ f4
      ∙ passes _ _ _ _ f5
      ∙ passes _ _ _ _ f6
      ∙ ends _

  -- With a manager that logs the calls on it: where the configuration is found, the manager is
  -- made, the options give the configuration of the servers and the metadata, and none of the
  -- registrations of the webhook, the controller, the watchers and the checks fails, main makes
  -- these in this order, runs the manager and ends with the error of the run, if it has one.
  pub main_of_registered :
      {Z : Type 0} (development : Z → Bool) (o : Options Z) (config : C.Config)
      (meta : ConduitInstanceMetadata) (tls : Tls C.Watcher)
      → C.get_config ≡ ok config
      → tls_setup C o ≡ made tls
      → instance_metadata C development o ≡ made meta
      → All (λ e. fails e ≡ none) (registrations C meta tls)
      → main logged development o [] ≡ (started ∷ registrations C meta tls, exit_of (fails started))
  unfolding main tls_setup instance_metadata read_metadata
  main_of_registered development o config meta tls found set_up loaded h =
      rw (set_up, loaded, found) (runs_manager meta tls h)

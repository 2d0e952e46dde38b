-- ===== src/Operator/Startup.antt =====
-- cmd/operator/main.go: what `main` has done when it runs the manager.
use conduit_operator.Prelude.{
  String, ◌≡◌, refl, ap, sym, ◌∙◌, Bool, true, false, Option, none, some, List, [], ◌∷◌, ◌++◌, inl,
  inr, Option-cases,
}
use conduit_operator.Prelude.Lists.{All, any, All-append}
use conduit_operator.Prelude.Result.{Result, Result-cases}
use conduit_operator.Api.Types.{ConduitInstanceMetadata}
use conduit_operator.Controller.Reconcile.{new_conduit_reconciler}
use conduit_operator.Validator.Listing.{new_validator}
use conduit_operator.Operator.CommandLine.{Options}
use conduit_operator.Operator.Certificates.{Attempt-cases}
use conduit_operator.Operator.{
  WebhookSetup, ControllerSetup, Exit, ended, exited, died, made, Tls, Calls, tls_setup,
  read_metadata, instance_metadata, or_fatal_exit, add_watcher, run_manager, main,
}

-- A call on the manager, with what it is given.
pub data Event (W : Type 0) : Type 0 where
  webhook : WebhookSetup → Event W
  controller : ControllerSetup → Event W
  watcher : W → Event W
  healthz : String → Event W
  readyz : String → Event W
  started : Event W

abbrev pub is_started : {W : Type 0} → Event W → Bool
is_started started = true
is_started (webhook setup) = false
is_started (controller setup) = false
is_started (watcher w) = false
is_started (healthz name) = false
is_started (readyz name) = false

-- A manager that logs the calls on it, the last one first, and fails as `fails` says.
abbrev pub logging : (C : Calls) → Result C.Manager → (Event C.Watcher → Option String) → Calls
logging C manager fails = record C {
  World = List (Event C.Watcher);
  new_manager = λ config options w. (w, manager);
  complete_webhook = λ mgr setup w. (webhook setup ∷ w, fails (webhook setup));
  complete_controller = λ mgr setup w. (controller setup ∷ w, fails (controller setup));
  add = λ mgr x w. (watcher x ∷ w, fails (watcher x));
  add_healthz_check = λ mgr name w. (healthz name ∷ w, fails (healthz name));
  add_readyz_check = λ mgr name w. (readyz name ∷ w, fails (readyz name));
  start = λ mgr w. (started ∷ w, fails started);
}

abbrev pub added : {W : Type 0} → Option W → List (Event W)
added none = []
added (some x) = watcher x ∷ []

abbrev pub exit_of : Option String → Exit
exit_of none = ended
exit_of (some e) = exited "problem running manager" e

module _ (C : Calls) where
  -- What has to be registered before the manager runs, the last one first.
  abbrev pub registrations : ConduitInstanceMetadata → Tls C.Watcher → List (Event C.Watcher)
  registrations meta tls =
      readyz "readyz"
      ∷ healthz "healthz"
      ∷ (added tls.webhook_watcher
          ++ (added tls.metrics_watcher
              ++ controller (record {
                max_concurrent_reconciles = C.num_cpu;
                kind = "Conduit";
                owns = "Secret" ∷ [];
                reconciler = new_conduit_reconciler meta;
              })
                ∷ webhook (record { kind = "Conduit"; list = new_validator C.http C.connectors })
                ∷ []))

module _ (C : Calls) (manager : Result C.Manager) (fails : Event C.Watcher → Option String) where
  abbrev Log : Type 0
  Log = List (Event C.Watcher)

  module _ (log : Log) (exit : Exit) (runs : any is_started log ≡ true) where
    clash : ¬ (any is_started log ≡ false)
    clash quiet = cc (runs, quiet)

    -- A call that is not the start has succeeded if the manager runs.
    succeeded :
        (msg : String) (e : Event C.Watcher) (w : Log) (rest : Log → Log × Exit)
        → any is_started (e ∷ w) ≡ false
        → or_fatal_exit (logging C manager fails) msg (e ∷ w, fails e) rest ≡ (log, exit)
        → (fails e ≡ none) × (rest (e ∷ w) ≡ (log, exit))
    succeeded msg e w rest not_yet h = elim (Option-cases (fails e)) [
      | inl k ↦ (k, rw k at h)
      | inr (m, k) ↦
          let same : (e ∷ w, exited msg m) ≡ (log, exit) = rw k at h in
          let no : any is_started log ≡ false =
            ap (any is_started) (sym (ap (λ x. x.0) same)) ∙ not_yet in
          absurd (clash no)
    ]

    watched :
        (msg : String) (mgr : C.Manager) (x : Option C.Watcher) (w : Log) (rest : Log → Log × Exit)
        → any is_started w ≡ false
        → add_watcher (logging C manager fails) msg mgr x w rest ≡ (log, exit)
        → All (λ e. fails e ≡ none) (added x)
          × (rest (added x ++ w) ≡ (log, exit))
          × (any is_started (added x ++ w) ≡ false)
    unfolding any
    watched msg mgr none w rest not_yet h = (tt, h, not_yet)
    watched msg mgr (some x) w rest not_yet h =
        let (e, k) = succeeded msg (watcher x) w rest not_yet h in ((e, tt), k, not_yet)

    ran :
        (w : Log)
        → or_fatal_exit
            (logging C manager fails)
            "problem running manager"
            (started ∷ w, fails started)
            (λ w. (w, ended))
          ≡ (log, exit)
        → (log ≡ started ∷ w) × (exit ≡ exit_of (fails started))
    ran w h = elim (Option-cases (fails started)) [
      | inl k ↦
          let same : (started ∷ w, ended) ≡ (log, exit) = rw k at h in
          (sym (ap (λ x. x.0) same), sym (ap (λ x. x.1) same) ∙ ap exit_of (sym k))
      | inr (m, k) ↦
          let same : (started ∷ w, exited "problem running manager" m) ≡ (log, exit) = rw k at h in
          (sym (ap (λ x. x.0) same), sym (ap (λ x. x.1) same) ∙ ap exit_of (sym k))
    ]

    registered :
        (mgr : C.Manager) (meta : ConduitInstanceMetadata) (tls : Tls C.Watcher)
        → run_manager (logging C manager fails) mgr meta tls [] ≡ (log, exit)
        → (log ≡ started ∷ registrations C meta tls)
          × All (λ e. fails e ≡ none) (registrations C meta tls)
          × (exit ≡ exit_of (fails started))
    unfolding run_manager any
    registered mgr meta tls h =
        let (f1, h1) = succeeded _ _ _ _ refl h in
        let (f2, h2) = succeeded _ _ _ _ refl h1 in
        let (f3, h3, n3) = watched _ mgr tls.metrics_watcher _ _ refl h2 in
        let (f4, h4, n4) = watched _ mgr tls.webhook_watcher _ _ n3 h3 in
        let (f5, h5) = succeeded _ _ _ _ n4 h4 in
        let (f6, h6) = succeeded _ _ _ _ n4 h5 in
        let (log_is, exit_is) = ran _ h6 in
        let P : Event C.Watcher → Type 0 = λ e. fails e ≡ none in
        (
          log_is,
          (
            f6,
            (
              f5,
              All-append P (added tls.webhook_watcher) _ f4
                  (All-append P (added tls.metrics_watcher) _ f3 (f2, (f1, tt))),
            ),
          ),
          exit_is,
        )

    no_start : {A : Type 0} (e : Exit) → ◌≡◌ {A = Log × Exit} ([], e) (log, exit) → A
    unfolding any
    no_start e same = absurd (clash (ap (any is_started) (sym (ap (λ x. x.0) same))))

    -- With a manager that logs the calls on it and may fail any of them: where the manager has run
    -- when main ends, the options gave the configuration of the servers and the metadata; the
    -- webhook, the controller with that metadata, the watchers of the certificates that there are
    -- and the two checks were registered before, each with success, once and in this order, with
    -- no other call; and the process ends with the error of the run, if it has one.
    pub starts_after_registrations :
        {Z : Type 0} (development : Z → Bool) (o : Options Z)
        → main (logging C manager fails) development o [] ≡ (log, exit)
        → (tls : Tls C.Watcher) × (meta : ConduitInstanceMetadata) × (tls_setup C o ≡ made tls)
          × (instance_metadata C development o ≡ made meta)
          × (log ≡ started ∷ registrations C meta tls)
          × All (λ e. fails e ≡ none) (registrations C meta tls)
          × (exit ≡ exit_of (fails started))
    unfolding main tls_setup instance_metadata read_metadata
    starts_after_registrations development o h = elim (Attempt-cases (tls_setup C o)) [
      | inr (msg, e, g) ↦ no_start (exited msg e) (rw g at h)
      | inl (tls, g) ↦ elim (Attempt-cases (instance_metadata C development o)) [
        | inr (msg, e, k) ↦ no_start (exited msg e) (rw (g, k) at h)
        | inl (meta, k) ↦ elim (Result-cases C.get_config) [
          | inr (e, c) ↦ no_start (died e) (rw (g, k, c) at h)
          | inl (cfg, c) ↦ elim (Result-cases manager) [
            | inr (e, m) ↦ no_start (exited "unable to start manager" e) (rw (g, k, c, m) at h)
            | inl (mgr, m) ↦
                let (a, b, x) = registered mgr meta tls (rw (g, k, c, m) at h) in
                (tls, meta, g, k, a, b, x)
          ]
        ]
      ]
    ]

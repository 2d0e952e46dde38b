-- ===== src/Operator.antt =====
-- cmd/operator/main.go: the command of the operator, from its options to the run of the manager.
--
-- The log is left out. The certificate watchers, the manager, the file system and the YAML library
-- are parameters; the manager's calls change a world of their own.
pub mod Slices
pub mod CommandLine
pub mod Certificates
pub mod Startup
pub mod LogFormat
pub mod Running
use conduit_operator.Prelude.{
  ℕ, suc, String, Bool, true, false, Option, none, some, List, [], ◌∷◌, ◌++◌, ◌==◌, if◌then◌else◌,
}
use conduit_operator.Prelude.Result.{Result, ok, err}
use conduit_operator.Strings.FilePath.{join_path}
use conduit_operator.Api.Types.{
  ConduitInstanceMetadata, new_conduit_instance_metadata, conduit_log_format_text,
}
use conduit_operator.Controller.Reconcile.{ConduitReconciler, new_conduit_reconciler}
use conduit_operator.Prelude.Dict.{Dict}
use conduit_operator.Validator.Http.{Http}
use conduit_operator.Validator.Listing.{PluginInfo, ConnectorInfo, new_validator}
use conduit_operator.Operator.Slices.{Slice, nil, append_item}
use conduit_operator.Operator.CommandLine.{Options}

-- A function of the TLS configuration: one that leaves HTTP/1.1 alone, or a watcher's certificate.
pub data TlsOption (W : Type 0) : Type 0 where
  disable_http2 : TlsOption W
  certificate : W → TlsOption W

-- What `os.Stat` says of a file.
pub data Stat : Type 0 where
  there : Stat
  missing : Stat
  unknown : String → Stat

-- How the process ends: `main` returns, `fatal` exits with a message, or `GetConfigOrDie` exits.
pub data Exit : Type 0 where
  ended : Exit
  exited : String → String → Exit
  died : String → Exit

-- A part of `main` before the manager: it makes something, or it ends the process.
pub data Attempt (A : Type 0) : Type 0 where
  made : A → Attempt A
  fatal : String → String → Attempt A

infixl 5 ◌>>=◌
abbrev pub ◌>>=◌ : {A B : Type 0} → Attempt A → (A → Attempt B) → Attempt B
made a >>= f = f a
fatal msg e >>= f = fatal msg e

-- The error of a call as the end of the process.
abbrev pub or_fatal : {A : Type 0} → String → Result A → Attempt A
or_fatal msg (ok a) = made a
or_fatal msg (err e) = fatal msg e

-- The slices of the TLS options, over one store of arrays, and the watchers.
pub record Tls (W : Type 0) : Type 0 where
  pub arrays : List (List (TlsOption W))
  pub webhook_opts : Slice
  pub metrics_opts : Slice
  pub webhook_watcher : Option W
  pub metrics_watcher : Option W

pub record ManagerOptions (W : Type 0) : Type 0 where
  pub tls : Tls W
  pub metrics_bind_address : String
  pub metrics_secure_serving : Bool
  pub metrics_filter : Bool
  pub health_probe_bind_address : String
  pub leader_election : Bool
  pub leader_election_id : String
  pub leader_election_release_on_cancel : Bool

-- What the builder of a webhook is given, beside the defaulter: the kind and the validator's list.
pub record WebhookSetup : Type 0 where
  pub kind : String
  pub list : Dict PluginInfo

-- What the builder of a controller is given.
pub record ControllerSetup : Type 0 where
  pub max_concurrent_reconciles : ℕ
  pub kind : String
  pub owns : List String
  pub reconciler : ConduitReconciler

-- What the command calls. `room` is the capacity that `append` adds to a new array of a length.
pub record Calls : Type 1 where
  pub Watcher : Type 0
  pub World : Type 0
  pub Config : Type 0
  pub Manager : Type 0
  pub room : ℕ → ℕ
  pub new_watcher : String → String → Result Watcher
  pub stat : String → Stat
  pub read_file : String → Result String
  pub unmarshal : String → ConduitInstanceMetadata → Result ConduitInstanceMetadata
  pub get_config : Result Config
  pub new_manager : Config → ManagerOptions Watcher → World → World × Result Manager
  pub http : Http
  pub connectors : String → Result (List ConnectorInfo)
  pub num_cpu : ℕ
  pub complete_webhook : Manager → WebhookSetup → World → World × Option String
  pub complete_controller : Manager → ControllerSetup → World → World × Option String
  pub add : Manager → Watcher → World → World × Option String
  pub add_healthz_check : Manager → String → World → World × Option String
  pub add_readyz_check : Manager → String → World → World × Option String
  pub start : Manager → World → World × Option String

module _ (C : Calls) where
  -- The watcher of a certificate, where the options give a path for it.
  abbrev pub cert_watcher : String → String → String → String → Attempt (Option C.Watcher)
  cert_watcher msg path name key =
      if path == ""
      then made none
      else (or_fatal msg
            (C.new_watcher (join_path (path ∷ name ∷ [])) (join_path (path ∷ key ∷ [])))
          >>= λ w. made (some w))

  abbrev pub append_certificate :
      Option C.Watcher
      → List (List (TlsOption C.Watcher))
      → Slice
      → List (List (TlsOption C.Watcher)) × Slice
  append_certificate none arrays s = (arrays, s)
  append_certificate (some w) arrays s = append_item C.room (certificate w) arrays s

  -- The options that both servers have.
  abbrev pub tls_opts : Bool → List (List (TlsOption C.Watcher)) × Slice
  tls_opts true = ([], nil)
  tls_opts false = append_item C.room disable_http2 [] nil

  -- `webhookTLSOpts` and the options of the metrics start as copies of one slice, `tlsOpts`.
  unfoldable pub tls_setup : {Z : Type 0} → Options Z → Attempt (Tls C.Watcher)
  tls_setup o =
      let (arrays, opts) = tls_opts o.enable_http2 in
      cert_watcher "Failed to initialize webhook certificate watcher" o.webhook_cert_path
        o.webhook_cert_name o.webhook_cert_key
      >>= λ webhook_watcher.
          let (arrays', webhook_opts) = append_certificate webhook_watcher arrays opts in
          cert_watcher "to initialize metrics certificate watcher" o.metrics_cert_path
            o.metrics_cert_name o.metrics_cert_key
          >>= λ metrics_watcher.
              let (arrays'', metrics_opts) = append_certificate metrics_watcher arrays' opts in
              made (record {
                arrays = arrays'';
                webhook_opts = webhook_opts;
                metrics_opts = metrics_opts;
                webhook_watcher = webhook_watcher;
                metrics_watcher = metrics_watcher;
              })

  -- `readMetadata`
  unfoldable pub read_metadata : String → Result ConduitInstanceMetadata
  read_metadata file = elim (C.stat file) [
    | missing ↦ ok new_conduit_instance_metadata
    | unknown e ↦ err e
    | there ↦ elim (C.read_file file) [
      | err e ↦ err e
      | ok content ↦ C.unmarshal content new_conduit_instance_metadata
    ]
  ]

  abbrev pub manager_options : {Z : Type 0} → Options Z → Tls C.Watcher → ManagerOptions C.Watcher
  manager_options o tls = record {
    tls = tls;
    metrics_bind_address = o.metrics_addr;
    metrics_secure_serving = o.secure_metrics;
    metrics_filter = o.secure_metrics;
    health_probe_bind_address = o.probe_addr;
    leader_election = o.enable_leader_election;
    leader_election_id = "0dd9b448.conduit.io";
    leader_election_release_on_cancel = true;
  }

  -- The metadata of the instances; in development the log format is text.
  unfoldable pub instance_metadata :
      {Z : Type 0} → (Z → Bool) → Options Z → Attempt ConduitInstanceMetadata
  instance_metadata development o =
      or_fatal "failed to load conduit instance metadata" (read_metadata o.metadata_file)
      >>= λ meta. made (
          if development o.logger
          then record meta { log_format = conduit_log_format_text }
          else meta)

  -- `SetupConduitWebhookWithManager`
  abbrev pub setup_conduit_webhook_with_manager : C.Manager → C.World → C.World × Option String
  setup_conduit_webhook_with_manager mgr =
      C.complete_webhook mgr (record { kind = "Conduit"; list = new_validator C.http C.connectors })

  -- `SetupWithManager`
  abbrev pub setup_with_manager : C.Manager → ConduitReconciler → C.World → C.World × Option String
  setup_with_manager mgr r = C.complete_controller mgr (record {
    max_concurrent_reconciles = C.num_cpu;
    kind = "Conduit";
    owns = "Secret" ∷ [];
    reconciler = r;
  })

  -- The error of a call on the manager ends the process with a message.
  abbrev pub or_fatal_exit :
      String → C.World × Option String → (C.World → C.World × Exit) → C.World × Exit
  or_fatal_exit msg (w, none) rest = rest w
  or_fatal_exit msg (w, some e) rest = (w, exited msg e)

  abbrev pub add_watcher :
      String → C.Manager → Option C.Watcher → C.World → (C.World → C.World × Exit) → C.World × Exit
  add_watcher msg mgr none w rest = rest w
  add_watcher msg mgr (some x) w rest = or_fatal_exit msg (C.add mgr x w) rest

  -- `main` behind the manager: the registrations, and the run of the manager.
  unfoldable pub run_manager :
      C.Manager → ConduitInstanceMetadata → Tls C.Watcher → C.World → C.World × Exit
  run_manager mgr meta tls w =
      or_fatal_exit "unable to create webhook" (setup_conduit_webhook_with_manager mgr w) (λ w.
        or_fatal_exit "unable to create controller"
          (setup_with_manager mgr (new_conduit_reconciler meta) w)
          (λ w.
            add_watcher "unable to add metrics certificate watcher to manager" mgr
              tls.metrics_watcher w
              (λ w.
                add_watcher "unable to add webhook certificate watcher to manager" mgr
                  tls.webhook_watcher w
                  (λ w.
                    or_fatal_exit "unable to set up health check"
                      (C.add_healthz_check mgr "healthz" w)
                      (λ w.
                        or_fatal_exit "unable to set up ready check"
                          (C.add_readyz_check mgr "readyz" w)
                          (λ w.
                            or_fatal_exit "problem running manager" (C.start mgr w)
                              (λ w. (w, ended))))))))

  -- What a part makes goes to the rest of `main`; otherwise the process ends.
  abbrev or_exit : {A : Type 0} → C.World → Attempt A → (A → C.World × Exit) → C.World × Exit
  or_exit w (made a) rest = rest a
  or_exit w (fatal msg e) rest = (w, exited msg e)

  module _ {Z : Type 0} (development : Z → Bool) where
    -- `main`, from the parsed options on.
    unfoldable pub main : Options Z → C.World → C.World × Exit
    main o w = or_exit w (tls_setup o) (λ tls. or_exit w (instance_metadata development o) (λ meta.
        elim C.get_config [
          | err e ↦ (w, died e)
          | ok cfg ↦
              let (w', mgr) = C.new_manager cfg (manager_options o tls) w in
              elim mgr [
                | err e ↦ (w', exited "unable to start manager" e)
                | ok mgr ↦ run_manager mgr meta tls w'
              ]
        ]))

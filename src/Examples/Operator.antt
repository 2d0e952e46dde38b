-- ===== src/Examples/Operator.antt =====
-- The theorems on the operator's command, with a manager that logs the calls.
use conduit_operator.Prelude.{
  String, ◌≡◌, inl, refl, Bool, true, false, Option, none, some, List, [], ◌∷◌, ◌++◌,
}
use conduit_operator.Prelude.Lists.{All, any}
use conduit_operator.Prelude.Result.{ok}
use conduit_operator.Strings.FilePath.{join_path}
use conduit_operator.Api.Types.{
  ConduitInstanceMetadata, new_conduit_instance_metadata, conduit_log_format_text,
}
use conduit_operator.Controller.Reconcile.{new_conduit_reconciler}
use conduit_operator.Operator.Slices.{items}
use conduit_operator.Operator.CommandLine.{Options, default_options, set_flags}
use conduit_operator.Operator.CommandLine.Printing.{print_flags, set_flags-print_flags}
use conduit_operator.Operator.{
  missing, disable_http2, certificate, ended, made, Tls, Calls, tls_setup, read_metadata,
  instance_metadata, run_manager, main,
}
use conduit_operator.Operator.Certificates.{common, own, served, tls_setup_lem}
use conduit_operator.Operator.LogFormat.{servers_log_format}
use conduit_operator.Operator.Running.{main_of_registered}
use conduit_operator.Operator.Startup.{
  Event, started, is_started, logging, registrations, exit_of, starts_after_registrations,
}
use conduit_operator.Flags.{Args, v0134plus, returns, for_version, constraints}
use conduit_operator.Flags.Supported.{supported, for_version_lem}
use conduit_operator.Flags.Reading.{read_flags}
use conduit_operator.Examples.Validation.{answering, connectors}
use conduit_operator.Examples.Versions.{small, small-IsDocumented, current, literal_IsRange, parsed}

abbrev logs : String → List String → List String × Option String
logs call w = (call ∷ w, none)

abbrev working : Calls
working = record {
  Watcher = String;
  World = List String;
  Config = String;
  Manager = String;
  room = λ n. 0;
  new_watcher = λ cert key. ok cert;
  stat = λ file. missing;
  read_file = λ file. ok "";
  unmarshal = λ content meta. ok meta;
  get_config = ok "in-cluster";
  new_manager = λ config options w. (w, ok "manager");
  http = answering;
  connectors = connectors;
  num_cpu = 4;
  complete_webhook = λ mgr setup. logs "webhook";
  complete_controller = λ mgr setup. logs setup.reconciler.flags.log_format;
  add = λ mgr watcher. logs watcher;
  add_healthz_check = λ mgr name. logs name;
  add_readyz_check = λ mgr name. logs name;
  start = λ mgr. logs "start";
}

-- In development, with both certificates, as in the chart.
abbrev chart : Options Bool
chart = record (default_options true) {
  webhook_cert_path = "/tmp/k8s-webhook-server/serving-certs";
  metrics_cert_path = "/tmp/k8s-metrics-server/serving-certs";
}

abbrev development : Bool → Bool
development b = b

abbrev webhook_cert : String
webhook_cert = join_path ("/tmp/k8s-webhook-server/serving-certs" ∷ "tls.crt" ∷ [])

abbrev metrics_cert : String
metrics_cert = join_path ("/tmp/k8s-metrics-server/serving-certs" ∷ "tls.crt" ∷ [])

abbrev set_up : Tls String
set_up = record {
  arrays =
      (disable_http2 ∷ [])
      ∷ (disable_http2 ∷ certificate webhook_cert ∷ [])
      ∷ (disable_http2 ∷ certificate metrics_cert ∷ [])
      ∷ [];
  webhook_opts = record { at = 1; len = 2; cap = 2 };
  metrics_opts = record { at = 2; len = 2; cap = 2 };
  webhook_watcher = some webhook_cert;
  metrics_watcher = some metrics_cert;
}

set_up-made : tls_setup working chart ≡ made set_up
unfolding tls_setup
set_up-made = refl

tls_setup_lem_example :
    (items set_up.arrays set_up.metrics_opts ≡ common false ++ own (some metrics_cert))
    × (items set_up.arrays set_up.webhook_opts
        ≡ common false ++ own (served false (some webhook_cert) (some metrics_cert) 0))
tls_setup_lem_example = tls_setup_lem working chart set_up set_up-made

-- The same command where a new array has room for one item more.
abbrev roomy : Calls
roomy = record working { room = λ n. 1 }

abbrev shared : Tls String
shared = record {
  arrays = (disable_http2 ∷ certificate metrics_cert ∷ []) ∷ [];
  webhook_opts = record { at = 0; len = 2; cap = 2 };
  metrics_opts = record { at = 0; len = 2; cap = 2 };
  webhook_watcher = some webhook_cert;
  metrics_watcher = some metrics_cert;
}

roomy_test : tls_setup roomy chart ≡ made shared
unfolding tls_setup
roomy_test = refl

abbrev text : ConduitInstanceMetadata
text = record new_conduit_instance_metadata { log_format = conduit_log_format_text }

text-made : instance_metadata working development chart ≡ made text
unfolding instance_metadata read_metadata
text-made = refl

abbrev log : List String
log =
    "start"
    ∷ "readyz"
    ∷ "healthz"
    ∷ webhook_cert
    ∷ metrics_cert
    ∷ (new_conduit_reconciler text).flags.log_format
    ∷ "webhook"
    ∷ []

main_test : main working development chart [] ≡ (log, ended)
unfolding main tls_setup instance_metadata read_metadata run_manager
main_test = refl

abbrev passing : Event String → Option String
passing e = none

starting :
    main (logging working (ok "manager") passing) development chart []
    ≡ (started ∷ registrations working text set_up, ended)
unfolding main tls_setup instance_metadata read_metadata run_manager
starting = refl

runs : any (is_started {W = String}) (started ∷ registrations working text set_up) ≡ true
unfolding any
runs = refl

starts_after_registrations_example :
    (tls : Tls String) × (meta : ConduitInstanceMetadata) × (tls_setup working chart ≡ made tls)
    × (instance_metadata working development chart ≡ made meta)
    × (started ∷ registrations working text set_up ≡ started ∷ registrations working meta tls)
    × All (λ e. passing e ≡ none) (registrations working meta tls)
    × (ended ≡ exit_of (passing started))
starts_after_registrations_example =
    starts_after_registrations working (ok "manager") passing
      (started ∷ registrations working text set_up) ended runs development chart starting

set_flags-print_flags_example :
    set_flags (λ name value z. none) (print_flags chart) (default_options false)
    ≡ some (record chart { logger = false })
set_flags-print_flags_example =
    set_flags-print_flags (λ name value z. none) chart (default_options false)

main_of_registered_example :
    main (logging working (ok "manager") passing) development chart []
    ≡ (started ∷ registrations working text set_up, exit_of (passing started))
main_of_registered_example =
    main_of_registered working "manager" passing development chart "in-cluster" text set_up refl
      set_up-made text-made (refl, (refl, (refl, (refl, (refl, (refl, tt))))))

abbrev text_flags : Args
text_flags = (new_conduit_reconciler text).flags

text_flags-made :
    for_version small constraints text_flags "v0.13.5" ≡ returns (ok (v0134plus text_flags))
unfolding supported
text_flags-made =
    for_version_lem small (λ r. r) small-IsDocumented constraints text_flags "v0.13.5" current
      literal_IsRange parsed

servers_log_format_example :
    (meta : ConduitInstanceMetadata) × (instance_metadata working development chart ≡ made meta)
    × (out : List String) × (for_version small constraints
          (new_conduit_reconciler meta).flags
          "v0.13.5"
        ≡ returns (ok out))
    × ((read_flags out).log_format ≡ conduit_log_format_text)
servers_log_format_example =
    servers_log_format small (λ r. r) small-IsDocumented constraints "v0.13.5" current
      literal_IsRange parsed working development chart new_conduit_instance_metadata text_flags
      (v0134plus text_flags) (inl (refl, refl)) text_flags-made

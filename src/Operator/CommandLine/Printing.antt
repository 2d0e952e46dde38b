-- ===== src/Operator/CommandLine/Printing.antt =====
-- cmd/operator/main.go: flags that set every variable of the command.
use conduit_operator.Prelude.{String, ◌≡◌, refl, Bool, true, false, Option, some, List, [], ◌∷◌}
use conduit_operator.Operator.CommandLine.{Options, parse_bool, set_flag, set_flags}

abbrev show_bool : Bool → String
show_bool true = "true"
show_bool false = "false"

-- Flags in the order of the names, each with its value.
unfoldable pub print_flags : {Z : Type 0} → Options Z → List (String × String)
print_flags o =
    ("enable-http2", show_bool o.enable_http2)
    ∷ ("health-probe-bind-address", o.probe_addr)
    ∷ ("instance-metadata", o.metadata_file)
    ∷ ("leader-elect", show_bool o.enable_leader_election)
    ∷ ("metrics-bind-address", o.metrics_addr)
    ∷ ("metrics-cert-key", o.metrics_cert_key)
    ∷ ("metrics-cert-name", o.metrics_cert_name)
    ∷ ("metrics-cert-path", o.metrics_cert_path)
    ∷ ("metrics-secure", show_bool o.secure_metrics)
    ∷ ("webhook-cert-key", o.webhook_cert_key)
    ∷ ("webhook-cert-name", o.webhook_cert_name)
    ∷ ("webhook-cert-path", o.webhook_cert_path)
    ∷ []

module _ {Z : Type 0} (bind : String → String → Z → Option Z) (o before : Options Z) where
  abbrev with_bools : Bool → Bool → Bool → Options Z
  with_bools http2 leader secure = record o {
    enable_http2 = http2;
    enable_leader_election = leader;
    secure_metrics = secure;
    logger = before.logger;
  }

  set_bools :
      (http2 leader secure : Bool)
      → set_flags bind (print_flags (with_bools http2 leader secure)) before
        ≡ some (with_bools http2 leader secure)
  unfolding set_flags set_flag print_flags parse_bool
  set_bools true true true = refl
  set_bools true true false = refl
  set_bools true false true = refl
  set_bools true false false = refl
  set_bools false true true = refl
  set_bools false true false = refl
  set_bools false false true = refl
  set_bools false false false = refl

  -- Flags that give every option of the operator's command by its name set these options, whatever
  -- was set before and whatever flags the logger has; only the logger's options stay as they were.
  pub set_flags-print_flags :
      set_flags bind (print_flags o) before ≡ some (record o { logger = before.logger })
  unfolding print_flags
  set_flags-print_flags = set_bools o.enable_http2 o.enable_leader_election o.secure_metrics

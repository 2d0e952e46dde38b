-- ===== src/Operator/CommandLine.antt =====
-- cmd/operator/main.go: the flags of the command.
pub mod Printing
use conduit_operator.Prelude.{
  String, Bool, true, false, Option, none, some, List, [], ◌∷◌, ◌==◌, ◌||◌, if◌then◌else◌,
}

-- `strconv.ParseBool`, which the package flag sets a Boolean with.
unfoldable pub parse_bool : String → Option Bool
parse_bool s =
    if s == "1" || s == "t" || s == "T" || s == "TRUE" || s == "true" || s == "True"
    then some true
    else if s == "0" || s == "f" || s == "F" || s == "FALSE" || s == "false" || s == "False"
    then some false
    else none

-- The variables of `main`; `logger` is zap's options, which the package zap binds flags of its own to.
pub record Options (Z : Type 0) : Type 0 where
  pub enable_http2 : Bool
  pub enable_leader_election : Bool
  pub metadata_file : String
  pub metrics_addr : String
  pub metrics_cert_path : String
  pub metrics_cert_name : String
  pub metrics_cert_key : String
  pub probe_addr : String
  pub secure_metrics : Bool
  pub webhook_cert_path : String
  pub webhook_cert_name : String
  pub webhook_cert_key : String
  pub logger : Z

module _ {Z : Type 0} where
  -- As the flags are declared.
  abbrev pub default_options : Z → Options Z
  default_options z = record {
    enable_http2 = false;
    enable_leader_election = false;
    metadata_file = "";
    metrics_addr = "0";
    metrics_cert_path = "";
    metrics_cert_name = "tls.crt";
    metrics_cert_key = "tls.key";
    probe_addr = ":8081";
    secure_metrics = true;
    webhook_cert_path = "";
    webhook_cert_name = "tls.crt";
    webhook_cert_key = "tls.key";
    logger = z;
  }

  abbrev pub with_bool : Option Bool → (Bool → Options Z) → Option (Options Z)
  with_bool none set = none
  with_bool (some b) set = some (set b)

  -- `bind` sets the flags of zap.
  module _ (bind : String → String → Z → Option Z) where
    abbrev pub with_logger : Options Z → Option Z → Option (Options Z)
    with_logger o none = none
    with_logger o (some z) = some (record o { logger = z })

    -- A flag of a name is set to a value.
    unfoldable pub set_flag : String → String → Options Z → Option (Options Z)
    set_flag name value o =
        if name == "leader-elect"
        then with_bool (parse_bool value) (λ b. record o { enable_leader_election = b })
        else if name == "enable-http2"
        then with_bool (parse_bool value) (λ b. record o { enable_http2 = b })
        else if name == "instance-metadata"
        then some (record o { metadata_file = value })
        else if name == "health-probe-bind-address"
        then some (record o { probe_addr = value })
        else if name == "metrics-bind-address"
        then some (record o { metrics_addr = value })
        else if name == "metrics-secure"
        then with_bool (parse_bool value) (λ b. record o { secure_metrics = b })
        else if name == "metrics-cert-path"
        then some (record o { metrics_cert_path = value })
        else if name == "metrics-cert-name"
        then some (record o { metrics_cert_name = value })
        else if name == "metrics-cert-key"
        then some (record o { metrics_cert_key = value })
        else if name == "webhook-cert-path"
        then some (record o { webhook_cert_path = value })
        else if name == "webhook-cert-name"
        then some (record o { webhook_cert_name = value })
        else if name == "webhook-cert-key"
        then some (record o { webhook_cert_key = value })
        else with_logger o (bind name value o.logger)

    -- `flag.Parse`, on the flags that it splits the arguments into: the first that is not known, or
    -- whose value does not parse, ends the command.
    unfoldable pub set_flags : List (String × String) → Options Z → Option (Options Z)
    set_flags [] o = some o
    set_flags ((name, value) ∷ flags) o = elim (set_flag name value o) [
      | none ↦ none
      | some set ↦ set_flags flags set
    ]

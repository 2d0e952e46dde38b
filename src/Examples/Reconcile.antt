-- ===== src/Examples/Reconcile.antt =====
-- The theorems on `Reconcile` in the cluster of one resource.
use conduit_operator.Prelude.{ℕ, ◌≡◌, refl, true, none, []}
use conduit_operator.Prelude.Result.{Result, ok, err}
use conduit_operator.Strings.Prefix.{trim_prefix}
use conduit_operator.Api.Condition.{is_true}
use conduit_operator.Api.Status.{get_condition}
use conduit_operator.Api.Types.{namespaced_name}
use conduit_operator.Config.{
  pipeline_config_yaml, pipeline_config, connector_configs, processor_configs, env_vars_from_secret,
  secret_env_vars, env_vars, connectors_env_vars,
}
use conduit_operator.Config.Registry.{schema_registry_config, registry_settings, value_or_secret}
use conduit_operator.Containers.{conduit_runtime_container}
use conduit_operator.Flags.{
  returns, for_version, match_rules, parse_version, flags_for, constraints,
}
use conduit_operator.Controller.Deployment.{
  create_or_update_deployment, apply_deployment, update_deployment, deployment_spec,
  deployment_running_status, get_replicas, deployment_env,
}
use conduit_operator.Controller.Objects.{
  create_or_update_config, create_or_update_secret, create_or_update_volume,
  create_or_update_service,
}
use conduit_operator.Controller.Run.{Run, done, panicked}
use conduit_operator.Controller.State.{State, create_or_update}
use conduit_operator.Controller.Cluster.{fetched}
use conduit_operator.Controller.Touches.{Sound, Summed}
use conduit_operator.Controller.Stages.{sees}
use conduit_operator.Controller.Stages.Objects.{is_bound}
use conduit_operator.Controller.Stages.Deployment.{IsRunning}
use conduit_operator.Controller.Reconcile.{
  StageResults, config_stage, secret_stage, volume_stage, deployment_stage, service_stage,
  status_stage, run_stages, stage_errors,
}
use conduit_operator.Controller.Reconcile.Told.{volume_answer}
use conduit_operator.Controller.Reconcile.Ready.{status_stage-Summed, run_stages_reaches_ready}
use conduit_operator.Controller.Reconcile.Safe.{stage_errors_of_ready}
use conduit_operator.Controller.Reconcile.Returns.{Returns, IsComplete, run_stages-Returns}
use conduit_operator.Examples.Cluster.{
  config_map, secret, deployment, all_objects, Shop, tidy, libraries, reconciler, to_run,
}
use conduit_operator.Examples.Versions.{small, current, parsed, small-IsDocumented, literal_IsRange}
use conduit_operator.Examples.Conditions.{two_WellFormed}

abbrev pub ticks : ℕ → ℕ → ℕ
ticks i k = k

abbrev pub start : State Shop
start = record {
  status = to_run.status;
  events = [];
  world = record { stored = fetched to_run; writes = 0 };
}

abbrev pub result : {A : Type 0} → A → Run A → A
result a panicked = a
result a (done b) = b

abbrev result_or : {A : Type 0} → A → Result A → A
result_or a (err e) = a
result_or a (ok b) = b

abbrev finished : StageResults Shop
finished =
    result
      (record {
        config = (start, none);
        secret = (start, none);
        volume = (start, none);
        deployment = (start, none);
        service = (start, none);
      })
      (run_stages tidy libraries reconciler ticks to_run start)

pub done-result : {A : Type 0} (a : A) (run : Run A) → Returns run → run ≡ done (result a run)
done-result a run (b, e) = rw e refl

pub to_run-IsComplete : IsComplete small to_run
to_run-IsComplete = record { running = true; runs = refl; version = current; parsed = parsed }

finishes : run_stages tidy libraries reconciler ticks to_run start ≡ done finished
finishes = done-result _ (run_stages tidy libraries reconciler ticks to_run start) (
    run_stages-Returns tidy libraries (λ r. r) small-IsDocumented literal_IsRange reconciler ticks
      to_run to_run-IsComplete start)

clean :
    (finished.config.1 ≡ none)
    × (finished.secret.1 ≡ none)
    × (finished.volume.1 ≡ none)
    × (finished.deployment.1 ≡ none)
    × (finished.service.1 ≡ none)
unfolding run_stages config_stage secret_stage volume_stage deployment_stage service_stage
    pipeline_config_yaml pipeline_config connector_configs processor_configs
    create_or_update_deployment apply_deployment update_deployment conduit_runtime_container
    for_version match_rules parse_version trim_prefix flags_for create_or_update_config
    create_or_update_secret create_or_update_volume create_or_update_service create_or_update
    schema_registry_config registry_settings value_or_secret
clean = (refl, refl, refl, refl, refl)

status_stage-Summed_example :
    let last = (status_stage tidy libraries reconciler ticks to_run finished.service.0).0 in
    Sound last.status × Summed last.status
status_stage-Summed_example =
    status_stage-Summed tidy libraries reconciler ticks to_run start finished two_WellFormed
      finishes

seen-IsRunning :
    IsRunning small constraints libraries.order libraries.merge reconciler.flags to_run
      (ok config_map)
      (ok secret)
      (tidy.deployment (namespaced_name to_run) finished.volume.0.world)
unfolding deployment_spec deployment_running_status get_replicas conduit_runtime_container
    for_version match_rules parse_version trim_prefix flags_for deployment_env env_vars_from_secret
    secret_env_vars env_vars connectors_env_vars
seen-IsRunning = record {
  config_map = config_map;
  reads_config_map = refl;
  secret_read = secret;
  reads_secret = refl;
  deployment = deployment;
  owner = none;
  save = _;
  reads = refl;
  container = _;
  makes = refl;
  sees = record { merged = _; merges = refl; runs = refl };
}

run_stages_reaches_ready_example : is_true (get_condition finished.service.0.status "Ready") ≡ true
run_stages_reaches_ready_example =
    let (a, b, c, d, e) = clean in
    run_stages_reaches_ready tidy libraries reconciler ticks to_run start finished two_WellFormed
      finishes seen-IsRunning refl a b c d e

finished_ready : is_true (get_condition finished.service.0.status "Ready") ≡ true
finished_ready =
    let (a, b, c, d, e) = clean in
    run_stages_reaches_ready tidy libraries reconciler ticks to_run start finished two_WellFormed
      finishes seen-IsRunning refl a b c d e

config_made :
    pipeline_config_yaml all_objects libraries.marshal to_run ≡ returns (ok "version: 2.2")
unfolding pipeline_config_yaml pipeline_config connector_configs processor_configs
config_made = refl

settings_made :
    schema_registry_config libraries.urls "confluent" all_objects to_run
    ≡ ok (result_or [] (schema_registry_config libraries.urls "confluent" all_objects to_run))
unfolding schema_registry_config registry_settings value_or_secret
settings_made = refl

stage_errors_of_ready_example :
    (stage_errors tidy libraries reconciler ticks to_run finished ≡ [])
    × (sees is_bound (volume_answer tidy libraries reconciler ticks to_run finished.secret.0)
        ≡ true)
stage_errors_of_ready_example =
    stage_errors_of_ready tidy libraries reconciler ticks to_run start finished two_WellFormed
      finishes finished_ready "version: 2.2"
      (result_or [] (schema_registry_config libraries.urls "confluent" all_objects to_run))
      config_map secret config_made settings_made refl refl

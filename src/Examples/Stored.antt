-- ===== src/Examples/Stored.antt =====
-- The theorem on the resource that a call of `Reconcile` leaves, at the server that stores it.
use conduit_operator.Prelude.{◌≡◌, refl, subst, true, none, [], some}
use conduit_operator.Prelude.Result.{ok}
use conduit_operator.Strings.Prefix.{trim_prefix}
use conduit_operator.Api.Condition.{is_true}
use conduit_operator.Api.Status.{get_condition}
use conduit_operator.Api.Types.{namespaced_name, Conduit, conduit_finalizer}
use conduit_operator.Config.{
  pipeline_config_yaml, pipeline_config, connector_configs, processor_configs, env_vars_from_secret,
  secret_env_vars, env_vars, connectors_env_vars,
}
use conduit_operator.Config.Registry.{schema_registry_config, registry_settings, value_or_secret}
use conduit_operator.Containers.{conduit_runtime_container}
use conduit_operator.Flags.{for_version, match_rules, parse_version, flags_for, constraints}
use conduit_operator.Controller.Deployment.{
  create_or_update_deployment, apply_deployment, update_deployment, deployment_spec,
  deployment_running_status, get_replicas, deployment_env,
}
use conduit_operator.Controller.Objects.{
  create_or_update_config, create_or_update_secret, create_or_update_volume,
  create_or_update_service, update_status,
}
use conduit_operator.Controller.Run.{Run, done}
use conduit_operator.Controller.State.{create_or_update}
use conduit_operator.Controller.Stages.Deployment.{IsRunning}
use conduit_operator.Controller.Reconcile.{
  StageResults, config_stage, secret_stage, volume_stage, deployment_stage, service_stage,
  status_stage, run_stages, reconcile, reconcile_stages,
}
use conduit_operator.Controller.Reconcile.Returns.{
  IsComplete, fetched_injective, run_stages-Returns, reconcile-Returns,
}
use conduit_operator.Examples.Cluster.{
  config_map, secret, deployment, Shop, libraries, reconciler, to_run,
}
use conduit_operator.Examples.Versions.{small, small-IsDocumented, literal_IsRange}
use conduit_operator.Examples.Conditions.{two_WellFormed}
use conduit_operator.Controller.Cluster.{Reconciled}
use conduit_operator.System.Ready.{reconcile_stores_ready}
use conduit_operator.Prelude.Lists.{contains}
use conduit_operator.Examples.Server.{serving, stored, serving-IsStatusStore}
use conduit_operator.Examples.Reconcile.{ticks, start, result, done-result, to_run-IsComplete}

abbrev served : StageResults Shop
served =
    result
      (record {
        config = (start, none);
        secret = (start, none);
        volume = (start, none);
        deployment = (start, none);
        service = (start, none);
      })
      (run_stages serving libraries reconciler ticks to_run start)

ends : run_stages serving libraries reconciler ticks to_run start ≡ done served
ends = done-result _ (run_stages serving libraries reconciler ticks to_run start) (
    run_stages-Returns serving libraries (λ r. r) small-IsDocumented literal_IsRange reconciler
      ticks to_run to_run-IsComplete start)

abbrev call : Run (Reconciled Shop)
call = reconcile serving libraries reconciler ticks (namespaced_name to_run) start.world

abbrev answered : Reconciled Shop
answered = result (record { world = start.world; events = []; requeue_after = 0; errors = [] }) call

call_ends : call ≡ done answered
call_ends = done-result _ call (
    reconcile-Returns serving libraries (λ r. r) small-IsDocumented literal_IsRange reconciler ticks
      (namespaced_name to_run) start.world
      (λ c e. subst (IsComplete small) (fetched_injective e) to_run-IsComplete))

no_errors : answered.errors ≡ []
unfolding reconcile reconcile_stages update_status contains run_stages config_stage secret_stage
    volume_stage deployment_stage service_stage status_stage pipeline_config_yaml pipeline_config
    connector_configs processor_configs create_or_update_deployment apply_deployment
    update_deployment conduit_runtime_container for_version match_rules parse_version trim_prefix
    flags_for create_or_update_config create_or_update_secret create_or_update_volume
    create_or_update_service create_or_update schema_registry_config registry_settings
    value_or_secret
no_errors = refl

final : contains to_run.meta.finalizers conduit_finalizer ≡ true
unfolding contains
final = refl

served-IsRunning :
    IsRunning small constraints libraries.order libraries.merge reconciler.flags to_run
      (ok config_map)
      (ok secret)
      (serving.deployment (namespaced_name to_run) served.volume.0.world)
unfolding deployment_spec deployment_running_status get_replicas conduit_runtime_container
    for_version match_rules parse_version trim_prefix flags_for deployment_env env_vars_from_secret
    secret_env_vars env_vars connectors_env_vars
served-IsRunning = record {
  config_map = config_map;
  reads_config_map = refl;
  secret_read = secret;
  reads_secret = refl;
  deployment = deployment;
  owner = none;
  save = _;
  reads = refl;
  container = _;
  makes = refl;
  sees = record { merged = _; merges = refl; runs = refl };
}

reconcile_stores_ready_example :
    (kept : Conduit) × (stored answered.world ≡ some kept)
    × (is_true (get_condition kept.status "Ready") ≡ true)
reconcile_stores_ready_example =
    reconcile_stores_ready serving libraries reconciler ticks to_run stored serving-IsStatusStore
      (namespaced_name to_run) start.world served answered two_WellFormed refl refl final ends
      served-IsRunning refl call_ends no_errors

-- ===== src/Examples/Deployment.antt =====
-- The theorems on the deployment at the shared resource.
use mathlib.Core.List.{Perm}
use conduit_operator.Prelude.{
  String, ◌≡◌, refl, ◌==◌, Option, none, some, List, [], ◌∷◌, ◌++◌, ◌⊎◌, if◌then◌else◌,
}
use conduit_operator.Prelude.Dict.{Dict, lookup}
use conduit_operator.Api.Types.{
  Conduit, ConduitInstanceMetadata, new_conduit_instance_metadata, namespaced_name,
}
use conduit_operator.Kube.{Secret, Service, Deployment, EnvVar}
use conduit_operator.Config.{
  env_vars, env_vars_from_secret, secret_env_vars, connectors_env_vars, settings_env_vars, env_var,
}
use conduit_operator.Controller.State.{State, created, create_or_update}
use conduit_operator.Controller.Objects.{mutate_service, create_or_update_service}
use conduit_operator.Controller.Deployment.{
  name_label, config_map_version, deployment_labels, deployment_annotations, deployment_env,
  create_or_update_deployment, apply_deployment, update_deployment,
}
use conduit_operator.Controller.Deployment.Labels.{IsMap, or_else, lookup-deployment_labels}
use conduit_operator.Controller.Deployment.Env.{
  InOrder, Shuffle, same, swap, keep, chain, IsOrder, deployment_env-perm,
}
use conduit_operator.Controller.Deployment.Reorder.{Distinct, deployment_env_of_ranges}
use conduit_operator.Controller.Saved.{seen, service_selects_pods}
use conduit_operator.Examples.Reconcile.{result}
use conduit_operator.Examples.Versions.{small, args}
use conduit_operator.Prelude.Result.{ok}
use conduit_operator.Controller.Run.{Run, done}
use conduit_operator.Containers.{conduit_runtime_container}
use conduit_operator.Flags.{for_version, match_rules, parse_version, flags_for}
use conduit_operator.Strings.Prefix.{trim_prefix}
use conduit_operator.Examples.Parts.{resource}
use conduit_operator.Examples.Cluster.{config_map, service, deployment, secret, libraries}

abbrev team : Dict String
team = ("team", "data") ∷ []

abbrev meta : ConduitInstanceMetadata
meta = record new_conduit_instance_metadata { labels = team; pod_annotations = team }

abbrev labelled : Conduit
labelled = record resource {
  meta = record resource.meta { labels = ("team", "ops") ∷ []; annotations = team };
}

one_key : (value : String) → IsMap (("team", value) ∷ [])
unfolding lookup
one_key value = (refl, tt)

lookup-deployment_labels_example :
    (lookup "team" (deployment_labels meta labelled) ≡ (
      if name_label == "team"
      then some "conduit-server-pipe"
      else or_else (lookup "team" (("team", "ops") ∷ [])) (lookup "team" team)))
    × (lookup "team" (deployment_annotations meta labelled config_map) ≡ (
        if config_map_version == "team"
        then some "7"
        else or_else (lookup "team" team) (lookup "team" team)))
lookup-deployment_labels_example =
    lookup-deployment_labels meta labelled config_map "team" (one_key "data") (one_key "ops")
      (one_key "data") (one_key "data")

abbrev no_deployment : State (Option Deployment)
no_deployment = record { status = resource.status; events = []; world = none }

abbrev no_service : State (Option Service)
no_service = record { status = resource.status; events = []; world = none }

-- The call of `CreateOrUpdate` for the deployment, which shows what it saves.
abbrev run : Run (State (Option Deployment) × Option String)
run =
    create_or_update_deployment libraries.show (λ k. k) libraries.merge small libraries.rules
      libraries.order meta args labelled (ok config_map) (ok secret)
      (seen deployment none (ok created)) no_deployment

abbrev made : State (Option Deployment) × Option String
made = result (no_deployment, none) run

abbrev pods : Deployment
pods = elim made.0.world [ none ↦ deployment | some d ↦ d ]

abbrev served : State (Option Service)
served = (create_or_update_service (λ k. k) labelled (seen service none (ok created)) no_service).0

abbrev selecting : Service
selecting = elim served.world [ none ↦ service | some svc ↦ svc ]

run_done : run ≡ done made
unfolding create_or_update_deployment apply_deployment update_deployment conduit_runtime_container
    for_version match_rules parse_version trim_prefix flags_for
run_done = refl

pods_saved : made.0.world ≡ some pods
unfolding create_or_update_deployment apply_deployment update_deployment conduit_runtime_container
    for_version match_rules parse_version trim_prefix flags_for create_or_update
pods_saved = refl

service_saved : served.world ≡ some selecting
unfolding create_or_update_service create_or_update
service_saved = refl

name_selected : lookup name_label selecting.selector ≡ some "conduit-server-pipe"
unfolding create_or_update_service create_or_update mutate_service lookup namespaced_name
name_selected = refl

service_selects_pods_example :
    (pods.spec.match_labels ≡ selecting.selector)
    × (lookup name_label pods.spec.labels ≡ some "conduit-server-pipe")
service_selects_pods_example =
    service_selects_pods libraries.show (λ k. k) libraries.merge labelled deployment pods none
      (ok created) no_deployment refl small libraries.rules libraries.order meta args
      (ok config_map) (ok secret) made (λ k. k) service selecting none (ok created) no_service
      name_label "conduit-server-pipe" run_done pods_saved refl service_saved name_selected

abbrev two_keys : Secret
two_keys = record secret { content = ("PASSWORD", "x") ∷ ("APIKEY", "y") ∷ [] }

-- A sort that takes the variables from the last to the first.
abbrev backwards : List EnvVar → List EnvVar
backwards [] = []
backwards (e ∷ es) = backwards es ++ e ∷ []

to_end : {A : Type 0} (x : A) (l : List A) → Shuffle (x ∷ l) (l ++ x ∷ [])
to_end x [] = same (x ∷ [])
to_end x (y ∷ l) = chain (swap x y l) (keep y (to_end x l))

appended :
    {A : Type 0} {l l' : List A} (x : A) → Shuffle l l' → Shuffle (l ++ x ∷ []) (l' ++ x ∷ [])
appended x (same l) = same (l ++ x ∷ [])
appended x (swap a b l) = swap a b (l ++ x ∷ [])
appended x (keep a r) = keep a (appended x r)
appended x (chain r r') = chain (appended x r) (appended x r')

backwards-IsOrder : IsOrder backwards
backwards-IsOrder [] = same []
backwards-IsOrder (e ∷ es) = chain (to_end e es) (appended e (backwards-IsOrder es))

deployment_env-perm_example :
    Perm
      (deployment_env backwards resource two_keys)
      (env_vars resource ++ env_vars_from_secret two_keys)
    × ((env_vars_from_secret two_keys ≡ []) ⊎ InOrder (deployment_env backwards resource two_keys))
deployment_env-perm_example = deployment_env-perm backwards resource two_keys backwards-IsOrder

abbrev other_range : Dict String
other_range = ("APIKEY", "y") ∷ ("PASSWORD", "x") ∷ []

names_differ : Distinct (env_vars resource ++ env_vars_from_secret two_keys)
unfolding env_vars env_vars_from_secret secret_env_vars connectors_env_vars settings_env_vars
    env_var
names_differ = ((refl, (refl, tt)), ((refl, tt), (tt, tt)))

deployment_env_of_ranges_example :
    deployment_env backwards resource two_keys
    ≡ deployment_env (λ es. es) resource (record two_keys { content = other_range })
deployment_env_of_ranges_example =
    deployment_env_of_ranges backwards (λ es. es) resource two_keys other_range backwards-IsOrder
      (λ es. same es) (swap ("PASSWORD", "x") ("APIKEY", "y") []) names_differ

-- ===== src/Controller/Objects.antt =====
-- internal/controller/conduit_controller.go: the stages of the config map, the secret, the volume
-- and the service, and the update of the status.
use conduit_operator.Prelude.{
  ℕ, String, ◌<>◌, ◌==◌, Bool, Option, none, some, [], ◌∷◌, if◌then◌else◌,
}
use conduit_operator.Prelude.Dict.{Dict}
use conduit_operator.Prelude.Result.{Result, ok, err}
use conduit_operator.Api.Condition.{condition_true, condition_false}
use conduit_operator.Api.Status.{condition_changed}
use conduit_operator.Api.Types.{
  Conduit, ConduitStatus, condition_conduit_config_ready, condition_conduit_secret_ready,
  condition_conduit_volume_ready, condition_conduit_service_ready, namespaced_name, errored_reason,
  updated_reason, vol_bound_reason,
}
use conduit_operator.Kube.{ConfigMap, Secret, PersistentVolumeClaim, Service}
use conduit_operator.Controller.State.{
  State, Answer, emit, normal, warning, set, create_or_update, after_build,
}

module _ {W : Type 0} where
  unfoldable pub mutate_config : (ℕ → ℕ) → String → ConfigMap → State W → ConfigMap × State W
  mutate_config now y cm s = (
    record cm { content = ("pipeline.yaml", y) ∷ [] },
    set now 0 condition_conduit_config_ready condition_true "ConfigReady"
        "Pipeline configuration created" s,
  )

  -- `yaml` is the result of `PipelineConfigYAML`.
  unfoldable pub create_or_update_config :
      (ℕ → ℕ) → Result String → Answer W ConfigMap → State W → State W × Option String
  create_or_update_config now yaml answer = after_build yaml (λ y.
      create_or_update now condition_conduit_config_ready "ConfigError" (mutate_config now y)
        answer)

  unfoldable pub mutate_secret : (ℕ → ℕ) → Dict String → Secret → State W → Secret × State W
  mutate_secret now content secret s = (
    record secret { content = content },
    set now 0 condition_conduit_secret_ready condition_true "SecretReady" "Conduit secret created"
        s,
  )

  -- `content` is the result of `SchemaRegistryConfig`.
  unfoldable pub create_or_update_secret :
      (ℕ → ℕ) → Result (Dict String) → Answer W Secret → State W → State W × Option String
  create_or_update_secret now content answer = after_build content (λ d.
      create_or_update now condition_conduit_secret_ready "ConduitSecretError" (mutate_secret now d)
        answer)

  unfoldable pub mutate_volume :
      (ℕ → ℕ) → PersistentVolumeClaim → State W → PersistentVolumeClaim × State W
  mutate_volume now pvc s = (
    pvc,
    if pvc.phase == "Bound"
        then set now 0 condition_conduit_volume_ready condition_true "VolumeReady" pvc.phase (
            if condition_changed s.status condition_conduit_volume_ready condition_true
            then emit normal vol_bound_reason s
            else s)
        else set now 0 condition_conduit_volume_ready condition_false "VolumeReady" pvc.phase s,
  )

  unfoldable pub create_or_update_volume :
      (ℕ → ℕ) → Answer W PersistentVolumeClaim → State W → State W × Option String
  create_or_update_volume now =
      create_or_update now condition_conduit_volume_ready "VolumeClaimError" (mutate_volume now)

  unfoldable pub mutate_service : (ℕ → ℕ) → String → Service → State W → Service × State W
  mutate_service now name service s = (
    record service {
      type = "ClusterIP";
      ports =
          record { name = "http"; protocol = "TCP"; port = 8080; target_port = 8080 }
          ∷ record { name = "grpc"; protocol = "TCP"; port = 8084; target_port = 8084 }
          ∷ [];
      selector = ("app.kubernetes.io/name", name) ∷ [];
    },
    set now 0 condition_conduit_service_ready condition_true "ServiceReady"
        ("Address http://"
          <> (service.cluster_ip <> (":8080 grpc://" <> (service.cluster_ip <> ":8084"))))
        s,
  )

  unfoldable pub create_or_update_service :
      (ℕ → ℕ) → Conduit → Answer W Service → State W → State W × Option String
  create_or_update_service now c =
      create_or_update now condition_conduit_service_ready "ServiceError"
        (mutate_service now (namespaced_name c).name)

  -- `latest` is the status as the cluster has it, `same` is `DeepEqual`, and `save` answers the update
  -- of the status.
  unfoldable pub update_status :
      (now generation : ℕ) (latest : Result ConduitStatus)
      → (same : ConduitStatus → ConduitStatus → Bool) → (save : ConduitStatus → W × Option String)
      → State W
      → State W × Option String
  update_status now generation (err e) same save s = (s, some e)
  update_status now generation (ok latest) same save s =
      if same latest s.status
      then (s, none)
      else let status = record s.status {
        updated_at = some now;
        observed_generation = generation;
      } in
        let (w, e) = save status in
        let after = record s { status = status; world = w } in
        elim e [
          | some e ↦ (emit warning errored_reason after, some e)
          | none ↦ (emit normal updated_reason after, none)
        ]

-- ===== src/Controller/Stages/Objects.antt =====
-- internal/controller/conduit_controller.go: the stages of the config map, the secret, the volume
-- and the service.
use conduit_operator.Prelude.{
  ℕ, String, ◌≡◌, refl, ap, ◌∙◌, ◌==◌, Bool, true, false, none, some, if◌then◌else◌, Bool-cases,
  inl, inr,
}
use conduit_operator.Prelude.Dict.{Dict}
use conduit_operator.Prelude.Result.{Result, ok, err}
use conduit_operator.Api.Status.{condition_changed}
use conduit_operator.Api.Types.{Conduit, namespaced_name}
use conduit_operator.Kube.{ConfigMap, Secret, PersistentVolumeClaim, Service}
use conduit_operator.Controller.State.{
  State, Answer, unread, found, emit, normal, set, create_or_update,
}
use conduit_operator.Controller.Objects.{
  mutate_config, create_or_update_config, mutate_secret, create_or_update_secret, mutate_volume,
  create_or_update_volume, mutate_service, create_or_update_service,
}
use conduit_operator.Controller.Touches.{Sound, Touches, Touches-refl, status_of}
use conduit_operator.Controller.Stages.{Tells, sees, verdict-met, set-Tells, create_or_update-Tells}
use conduit_operator.Api.Condition.{ConditionType}

-- The object is there to be changed.
abbrev pub is_read : {W A : Type 0} → Answer W A → Bool
is_read = sees (λ a. true)

abbrev pub is_bound : PersistentVolumeClaim → Bool
is_bound pvc = pvc.phase == "Bound"

module _ {W : Type 0} where
  -- An event before a condition is set changes nothing of the status.
  noted-Tells :
      (now : ℕ → ℕ) (b : Bool) (message : String) (s : State W)
      → Sound s.status
      → Tells "VolumeBound" true s (
        set now 0 "VolumeBound" "True" "VolumeReady" message
            (if b then emit normal "VolumeBound" s else s),
        none,
      )
  noted-Tells now true message s w =
      let h = set-Tells now "VolumeBound" refl 0 true "VolumeReady" message s w in
      record { touches = h.touches; tells = h.tells; summed = h.summed }
  noted-Tells now false message s w =
      set-Tells now "VolumeBound" refl 0 true "VolumeReady" message s w

  mutate_volume-Tells :
      (now : ℕ → ℕ) (pvc : PersistentVolumeClaim) (s : State W)
      → Sound s.status
      → Tells "VolumeBound" (is_bound pvc) s ((mutate_volume now pvc s).1, none)
  unfolding mutate_volume
  mutate_volume-Tells now pvc s w = elim (Bool-cases (is_bound pvc)) [
    | inl e ↦ rw e (noted-Tells now (condition_changed s.status "VolumeBound" "True") pvc.phase s w)
    | inr e ↦ rw e (set-Tells now "VolumeBound" refl 0 false "VolumeReady" pvc.phase s w)
  ]

  module _ (now : ℕ → ℕ) (s : State W) (w : Sound s.status) where
    -- From a status whose conditions are in order with one a type, with a configuration that was
    -- built, the stage of the config map changes no condition but ConfigReady and Ready:
    -- ConfigReady gets True where the stage has no error and the object could be read, else False,
    -- and Ready is true exactly where none of the five dependent conditions is false, unknown or
    -- missing; the conditions stay in order with one a type.
    pub create_or_update_config-Tells :
        (y : String) (answer : Answer W ConfigMap)
        → Tells "ConfigReady" (is_read answer) s (create_or_update_config now (ok y) answer s)
    unfolding create_or_update_config
    create_or_update_config-Tells y answer =
        create_or_update-Tells {W = W} now "ConfigReady" "ConfigError" refl (mutate_config now y)
          (λ a. true)
          (λ a s w.
            unfold mutate_config in
            set-Tells now "ConfigReady" refl 0 true "ConfigReady" "Pipeline configuration created" s
              w)
          answer s w

    -- The stage of the secret, with registry settings that were built.
    pub create_or_update_secret-Tells :
        (content : Dict String) (answer : Answer W Secret)
        → Tells "SecretReady" (is_read answer) s (create_or_update_secret now (ok content) answer s)
    unfolding create_or_update_secret
    create_or_update_secret-Tells content answer =
        create_or_update-Tells {W = W} now "SecretReady" "ConduitSecretError" refl
          (mutate_secret now content) (λ a. true)
          (λ a s w.
            unfold mutate_secret in
            set-Tells now "SecretReady" refl 0 true "SecretReady" "Conduit secret created" s w)
          answer s w

    -- From a status whose conditions are in order with one a type, the stage of the volume changes
    -- no condition but VolumeBound and Ready: VolumeBound gets True where the stage has no error,
    -- the claim was read and its phase is Bound, else False, and Ready is true exactly where none
    -- of the five dependent conditions is false, unknown or missing; the conditions stay in order
    -- with one a type.
    pub create_or_update_volume-Tells :
        (answer : Answer W PersistentVolumeClaim)
        → Tells "VolumeBound" (sees is_bound answer) s (create_or_update_volume now answer s)
    unfolding create_or_update_volume
    create_or_update_volume-Tells answer =
        create_or_update-Tells {W = W} now "VolumeBound" "VolumeClaimError" refl (mutate_volume now)
          is_bound (mutate_volume-Tells now) answer s w

    -- The stage of the service.
    pub create_or_update_service-Tells :
        (c : Conduit) (answer : Answer W Service)
        → Tells "ServiceReady" (is_read answer) s (create_or_update_service now c answer s)
    unfolding create_or_update_service
    create_or_update_service-Tells c answer =
        create_or_update-Tells {W = W} now "ServiceReady" "ServiceError" refl
          (mutate_service now (namespaced_name c).name) (λ a. true)
          (λ a s w.
            unfold mutate_service in set-Tells now "ServiceReady" refl 0 true "ServiceReady" _ s w)
          answer s w

  -- A stage that may end before it sets its condition sets that one only, and to True where it has no
  -- error.
  module _ (now : ℕ → ℕ) (s : State W) where
    read_of_none :
        {A : Type 0} (ct : ConditionType) (error_reason : String)
        (mutate : A → State W → A × State W) (answer : Answer W A)
        → (create_or_update now ct error_reason mutate answer s).1 ≡ none
        → is_read answer ≡ true
    unfolding create_or_update
    read_of_none ct error_reason mutate (unread e) h = cc
    read_of_none ct error_reason mutate (found a owner save) h = refl

    pub create_or_update_config-Touches :
        (yaml : Result String) (answer : Answer W ConfigMap)
        → Sound s.status
        → let out = create_or_update_config now yaml answer s in
          Touches "ConfigReady" s.status out.0.status
          × (out.1 ≡ none → status_of "ConfigReady" out.0.status ≡ some "True")
    unfolding create_or_update_config
    create_or_update_config-Touches (err e) answer w =
        (Touches-refl "ConfigReady" s.status w, λ h. absurd (cc h))
    create_or_update_config-Touches (ok y) answer w =
        let t = create_or_update_config-Tells now s w y answer in
        (
          t.touches,
          λ h.
              t.tells
              ∙ ap some (
                  verdict-met _ (is_read answer) h
                    (read_of_none "ConfigReady" "ConfigError" (mutate_config now y) answer h)),
        )

    pub create_or_update_secret-Touches :
        (content : Result (Dict String)) (answer : Answer W Secret)
        → Sound s.status
        → let out = create_or_update_secret now content answer s in
          Touches "SecretReady" s.status out.0.status
          × (out.1 ≡ none → status_of "SecretReady" out.0.status ≡ some "True")
    unfolding create_or_update_secret
    create_or_update_secret-Touches (err e) answer w =
        (Touches-refl "SecretReady" s.status w, λ h. absurd (cc h))
    create_or_update_secret-Touches (ok content) answer w =
        let t = create_or_update_secret-Tells now s w content answer in
        (
          t.touches,
          λ h.
              t.tells
              ∙ ap some (
                  verdict-met _ (is_read answer) h (
                    read_of_none "SecretReady" "ConduitSecretError" (mutate_secret now content)
                      answer h)),
        )

    pub service_of_none :
        (c : Conduit) (answer : Answer W Service)
        → (create_or_update_service now c answer s).1 ≡ none
        → is_read answer ≡ true
    unfolding create_or_update_service
    service_of_none c answer h =
        read_of_none "ServiceReady" "ServiceError" (mutate_service now (namespaced_name c).name)
          answer h

-- ===== src/Controller/State.antt =====
-- internal/controller/conduit_controller.go: what the stages share, the calls of `SetCondition`, the
-- events and `ctrlutil.CreateOrUpdate`.
--
-- `now k` is the k-th reading of the clock in a stage; each `SetCondition` takes two. An event is
-- kept by its type and its reason. The cluster is a world that only its own answers change.
use conduit_operator.Prelude.{ℕ, String, ◌+◌, Option, none, some, List, ◌∷◌}
use conduit_operator.Prelude.Result.{Result, ok, err}
use conduit_operator.Api.Condition.{ConditionType, ConditionStatus, condition_false}
use conduit_operator.Api.Status.{set_condition}
use conduit_operator.Api.Types.{ConduitStatus, errored_reason, updated_reason, created_reason}

pub data EventType : Type 0 where
  normal : EventType
  warning : EventType

pub record Event : Type 0 where
  pub type : EventType
  pub reason : String

-- The resource's status, the events so far, the last one first, and the cluster.
pub record State (W : Type 0) : Type 0 where
  pub status : ConduitStatus
  pub events : List Event
  pub world : W

-- The results of `CreateOrUpdate` that are not errors.
pub data Operation : Type 0 where
  unchanged : Operation
  updated : Operation
  created : Operation

-- What the cluster does in a call of `CreateOrUpdate`: the object cannot be read, or the call's
-- function gets the object as it is, `SetControllerReference` answers, and then the object is saved,
-- which leaves another cluster.
pub data Answer (W A : Type 0) : Type 0 where
  unread : String → Answer W A
  found : A → Option String → (A → W × Result Operation) → Answer W A

module _ {W : Type 0} where
  abbrev pub emit : EventType → String → State W → State W
  emit type reason s = record s { events = record { type = type; reason = reason } ∷ s.events }

  abbrev pub set :
      (ℕ → ℕ) → ℕ → ConditionType → ConditionStatus → String → String → State W → State W
  set now k ct status reason message s = record s {
    status = set_condition (now k) (now (k + 1)) s.status ct status reason message;
  }

  abbrev pub operation_event : Operation → State W → State W
  operation_event unchanged s = s
  operation_event updated s = emit normal updated_reason s
  operation_event created s = emit normal created_reason s

  -- An error before the call of `CreateOrUpdate` ends the stage.
  abbrev pub after_build :
      {A : Type 0}
      → Result A
      → (A → State W → State W × Option String)
      → State W
      → State W × Option String
  after_build (err e) rest s = (s, some e)
  after_build (ok a) rest s = rest a s

  module _ (now : ℕ → ℕ) (ct : ConditionType) (error_reason : String) where
    -- The branch of an error of `CreateOrUpdate`.
    abbrev pub fail : String → State W → State W × Option String
    fail e s = (set now 2 ct condition_false error_reason e (emit warning errored_reason s), some e)

    abbrev pub finish : Result Operation → State W → State W × Option String
    finish (ok op) s = (operation_event op s, none)
    finish (err e) s = fail e s

    -- `CreateOrUpdate` with the function `mutate`, which ends in `SetControllerReference`, and what
    -- the stage does with its result. The error of the stage is the second component.
    unfoldable pub create_or_update :
        {A : Type 0} → (A → State W → A × State W) → Answer W A → State W → State W × Option String
    create_or_update mutate (unread e) s = fail e s
    create_or_update mutate (found a (some e) save) s = fail e (mutate a s).1
    create_or_update mutate (found a none save) s =
        let (a', s') = mutate a s in
        let (w, result) = save a' in finish result (record s' { world = w })

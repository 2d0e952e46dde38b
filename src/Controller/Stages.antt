-- ===== src/Controller/Stages.antt =====
-- internal/controller/conduit_controller.go: what the stages leave in the status.
pub mod Objects
pub mod Updating
pub mod Deployment
use conduit_operator.Prelude.{
  ℕ, ◌+◌, String, ◌≡◌, refl, ap, ◌∙◌, ◌==◌, ◌&&◌, Bool, true, false, Option, none, some, arith,
  if◌then◌else◌, Option-cases, inl, inr,
}
use conduit_operator.Prelude.Lists.{all}
use conduit_operator.Prelude.Result.{Result, ok, err}
use conduit_operator.Api.Condition.{
  Condition, ConditionType, ConditionStatus, is_true, is_false, is_unknown, find,
}
use conduit_operator.Api.Condition.Setting.{merged}
use conduit_operator.Api.ConditionSet.Ready.{
  WellFormed, find-set_condition_self, find-set_condition_ne, merged_fields,
}
use conduit_operator.Api.Status.{set_condition, get_condition}
use conduit_operator.Api.Status.Laws.{set_condition_keeps_WellFormed, is_true-ready, is_met}
use conduit_operator.Api.Types.{ConduitStatus, conduit_conditions}
use conduit_operator.Controller.State.{
  State, Answer, unread, found, Operation, unchanged, updated, created, fail, finish, set,
  create_or_update,
}
use conduit_operator.Controller.Touches.{
  status_in, status_of, Sound, Summed, Touches, Touches-refl, Touches_trans, Summed-set_condition,
  Touches-set_condition, status_of-set_condition,
}

-- No error.
abbrev pub is_none : Option String → Bool
is_none none = true
is_none (some e) = false

abbrev pub verdict : Bool → ConditionStatus
verdict true = "True"
verdict false = "False"

pub verdict-met :
    (e : Option String) (b : Bool) → e ≡ none → b ≡ true → verdict (is_none e && b) ≡ "True"
verdict-met none true h g = refl
verdict-met none false h g = cc
verdict-met (some e) b h g = cc

-- What the call's function sees of the object is good.
abbrev pub sees : {W A : Type 0} → (A → Bool) → Answer W A → Bool
sees good (unread e) = false
sees good (found a owner save) = good a

-- A stage sets its condition only, beside `Ready`: to True where it has no error and `b` holds, else
-- to False; and `Ready` is true exactly where the five conditions are met.
pub record Tells {W : Type 0} (ct : ConditionType) (b : Bool) (s : State W)
    (result : State W × Option String) : Type 0 where
  pub touches : Touches ct s.status result.0.status
  pub tells : status_of ct result.0.status ≡ some (verdict (is_none result.1 && b))
  pub summed : Summed result.0.status

module _ {W : Type 0} (now : ℕ → ℕ) (ct : ConditionType) (ne : ("Ready" == ct) ≡ false) where
  pub set-Tells :
      (k : ℕ) (b : Bool) (reason message : String) (s : State W)
      → Sound s.status
      → Tells ct b s (set now k ct (verdict b) reason message s, none)
  set-Tells k b reason message s w = record {
    touches = Touches-set_condition (now k) (now (k + 1)) ct (verdict b) reason message s.status w;
    tells =
        status_of-set_condition (now k) (now (k + 1)) ct (verdict b) reason message s.status w ne;
    summed = Summed-set_condition (now k) (now (k + 1)) ct (verdict b) reason message s.status w;
  }

module _ {W : Type 0} (now : ℕ → ℕ) (ct : ConditionType) (error_reason : String)
    (ne : ("Ready" == ct) ≡ false) where
  pub fail-Tells :
      (b : Bool) (e : String) (s before : State W)
      → Touches ct before.status s.status
      → Tells ct b before (fail now ct error_reason e s)
  fail-Tells b e s before h = record {
    touches =
        Touches_trans ct h
          (Touches-set_condition (now 2) (now 3) ct "False" error_reason e s.status h.sound);
    tells = status_of-set_condition (now 2) (now 3) ct "False" error_reason e s.status h.sound ne;
    summed = Summed-set_condition (now 2) (now 3) ct "False" error_reason e s.status h.sound;
  }

  finish-Touches :
      (r : Result Operation) (s before : State W)
      → Touches ct before.status s.status
      → Touches ct before.status (finish now ct error_reason r s).0.status
  finish-Touches (err e) s before h = (fail-Tells true e s before h).touches
  finish-Touches (ok unchanged) s before h = h
  finish-Touches (ok updated) s before h = h
  finish-Touches (ok created) s before h = h

  finish_of_error :
      (r : Result Operation) (s before : State W) (e : String)
      → Touches ct before.status s.status
      → (finish now ct error_reason r s).1 ≡ some e
      → status_of ct (finish now ct error_reason r s).0.status ≡ some "False"
  finish_of_error (err m) s before e h r = (fail-Tells true m s before h).tells
  finish_of_error (ok unchanged) s before e h r = cc
  finish_of_error (ok updated) s before e h r = cc
  finish_of_error (ok created) s before e h r = cc

  finish_of_none :
      (r : Result Operation) (s : State W)
      → (finish now ct error_reason r s).1 ≡ none
      → (finish now ct error_reason r s).0.status ≡ s.status
  finish_of_none (err e) s h = cc
  finish_of_none (ok unchanged) s h = refl
  finish_of_none (ok updated) s h = refl
  finish_of_none (ok created) s h = refl

  finish-Tells :
      (b : Bool) (r : Result Operation) (s before : State W)
      → Tells ct b before (s, none)
      → Tells ct b before (finish now ct error_reason r s)
  finish-Tells b (err e) s before h = fail-Tells b e s before h.touches
  finish-Tells b (ok unchanged) s before h = record {
    touches = h.touches;
    tells = h.tells;
    summed = h.summed;
  }
  finish-Tells b (ok updated) s before h = record {
    touches = h.touches;
    tells = h.tells;
    summed = h.summed;
  }
  finish-Tells b (ok created) s before h = record {
    touches = h.touches;
    tells = h.tells;
    summed = h.summed;
  }

  module _ {A : Type 0} (mutate : A → State W → A × State W) (good : A → Bool)
      (keeps : (a : A) (s : State W)
        → Sound s.status
        → Tells ct (good a) s ((mutate a s).1, none)) where
    pub create_or_update-Tells :
        (answer : Answer W A) (s : State W)
        → Sound s.status
        → Tells ct (sees good answer) s (create_or_update now ct error_reason mutate answer s)
    unfolding create_or_update
    create_or_update-Tells (unread e) s w = fail-Tells false e s s (Touches-refl ct s.status w)
    create_or_update-Tells (found a (some e) save) s w =
        fail-Tells (good a) e (mutate a s).1 s (keeps a s w).touches
    create_or_update-Tells (found a none save) s w =
        let h = keeps a s w in
        let (w', r) = save (mutate a s).0 in
        finish-Tells (good a) r (record (mutate a s).1 { world = w' }) s
          (record { touches = h.touches; tells = h.tells; summed = h.summed })

  module _ {A : Type 0} (mutate : A → State W → A × State W) where
    pub create_or_update-Touches :
        (answer : Answer W A) (s : State W)
        → Sound s.status
        → ((a : A) → Touches ct s.status (mutate a s).1.status)
        → Touches ct s.status (create_or_update now ct error_reason mutate answer s).0.status
    unfolding create_or_update
    create_or_update-Touches (unread e) s w h =
        (fail-Tells true e s s (Touches-refl ct s.status w)).touches
    create_or_update-Touches (found a (some e) save) s w h =
        (fail-Tells true e (mutate a s).1 s (h a)).touches
    create_or_update-Touches (found a none save) s w h =
        let (w', r) = save (mutate a s).0 in
        finish-Touches r (record (mutate a s).1 { world = w' }) s (h a)

    -- Behind the call, a stage with an error has its condition False.
    pub create_or_update_of_error :
        (answer : Answer W A) (s : State W) (e : String)
        → Sound s.status
        → ((a : A) → Touches ct s.status (mutate a s).1.status)
        → (create_or_update now ct error_reason mutate answer s).1 ≡ some e
        → status_of ct (create_or_update now ct error_reason mutate answer s).0.status
          ≡ some "False"
    unfolding create_or_update
    create_or_update_of_error (unread m) s e w h r =
        (fail-Tells true m s s (Touches-refl ct s.status w)).tells
    create_or_update_of_error (found a (some m) save) s e w h r =
        (fail-Tells true m (mutate a s).1 s (h a)).tells
    create_or_update_of_error (found a none save) s e w h r =
        let (w', result) = save (mutate a s).0 in
        finish_of_error result (record (mutate a s).1 { world = w' }) s e (h a) r

    -- Without an error the status is the one that the call's function leaves.
    pub create_or_update_of_none :
        (a : A) (owner : Option String) (save : A → W × Result Operation) (s : State W)
        → (create_or_update now ct error_reason mutate (found a owner save) s).1 ≡ none
        → (create_or_update now ct error_reason mutate (found a owner save) s).0.status
          ≡ (mutate a s).1.status
    unfolding create_or_update
    create_or_update_of_none a (some e) save s h = cc
    create_or_update_of_none a none save s h =
        let (w', r) = save (mutate a s).0 in
        finish_of_none r (record (mutate a s).1 { world = w' }) h

-- ===== src/Examples/Stages.antt =====
-- The theorems on the stages at the shared resource.
use conduit_operator.Prelude.{ℕ, true, none, some, [], ◌∷◌}
use conduit_operator.Prelude.Result.{ok}
use conduit_operator.Api.Types.{Conduit}
use conduit_operator.Kube.{ConfigMap, PersistentVolumeClaim, DeploymentStatus}
use conduit_operator.Controller.State.{State, Answer, found, created, unchanged}
use conduit_operator.Controller.Objects.{create_or_update_config}
use conduit_operator.Controller.Stages.{Tells}
use conduit_operator.Controller.Stages.Objects.{is_read, create_or_update_config-Tells}
use conduit_operator.Examples.Parts.{resource}
use conduit_operator.Examples.Conditions.{two_WellFormed}

abbrev before : State ℕ
before = record { status = resource.status; events = []; world = 0 }

abbrev fresh : Answer ℕ ConfigMap
fresh =
    found
      (record {
        name = "conduit-server-pipe";
        namespace = "default";
        resource_version = "";
        content = [];
      })
      none (λ cm. (1, ok created))

abbrev bound : Answer ℕ PersistentVolumeClaim
bound =
    found
      (record {
        name = "conduit-server-pipe";
        namespace = "default";
        access_modes = "ReadWriteOnce" ∷ [];
        storage = "1Gi";
        phase = "Bound";
      })
      none (λ pvc. (0, ok unchanged))

create_or_update_config-Tells_example :
    Tells "ConfigReady"
      (is_read fresh)
      before
      (create_or_update_config (λ k. k) (ok "version: 2.2") fresh before)
create_or_update_config-Tells_example =
    create_or_update_config-Tells (λ k. k) before two_WellFormed "version: 2.2" fresh

abbrev one_ready : DeploymentStatus
one_ready = record { replicas = 1; ready_replicas = 1; unavailable_replicas = 0 }

abbrev running : Conduit
running = record resource { spec = record resource.spec { running = some true } }

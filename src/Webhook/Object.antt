-- ===== src/Webhook/Object.antt =====
-- `runtime.Object`, as the webhook's type assertions see it.
use conduit_operator.Prelude.{String}
use conduit_operator.Api.Types.{Conduit}

-- An object of another kind is known by the name of its type, as `%T` prints it.
pub data Object : Type 0 where
  conduit : Conduit → Object
  other : String → Object

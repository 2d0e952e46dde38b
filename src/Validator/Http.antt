-- ===== src/Validator/Http.antt =====
-- `HTTPClient` and net/http, as the validator calls them: a parameter of the model.
use conduit_operator.Prelude.{ℕ, String}
use conduit_operator.Prelude.Result.{Result}

-- `body` is what `io.ReadAll` returns.
pub record Response : Type 0 where
  pub status_code : ℕ
  pub body : Result String

-- `new_request` returns the message of the error of `http.NewRequestWithContext`, if there is one,
-- and `do` what the client answers to a GET of an address.
pub record Http : Type 0 where
  pub new_request : String → Result String
  pub do_request : String → Result Response
  pub show_status : ℕ → String

abbrev pub status_ok : ℕ
status_ok = 200

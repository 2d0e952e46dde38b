-- ===== src/Validator/FieldError.antt =====
-- `field.Error` of k8s.io/apimachinery: its kind, the names of its path, the value and the detail.
use conduit_operator.Prelude.{String, List, [], ◌∷◌, ◌++◌}

pub data ErrorType : Type 0 where
  required : ErrorType
  invalid : ErrorType
  internal : ErrorType

pub record FieldError : Type 0 where
  pub type : ErrorType
  pub path : List String
  pub bad_value : String
  pub detail : String

-- `fp.Child(name)`.
abbrev pub child : List String → String → List String
child fp name = fp ++ name ∷ []

abbrev pub required_error : List String → String → FieldError
required_error fp detail = record { type = required; path = fp; bad_value = ""; detail = detail }

abbrev pub invalid_error : List String → String → String → FieldError
invalid_error fp value detail = record {
  type = invalid;
  path = fp;
  bad_value = value;
  detail = detail;
}

abbrev pub internal_error : List String → String → FieldError
internal_error fp detail = record { type = internal; path = fp; bad_value = ""; detail = detail }

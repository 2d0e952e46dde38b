-- ===== src/Validator/Processor.antt =====
-- pkg/conduit/conduit_validator.go: `ValidateProcessor`, with the temporary file of the WASM.
--
-- The state is the files that the call has made and the plugin registry (`PluginRegistry`, another
-- repository's). Creating, filling and removing a file are the parameter `F`.
use conduit_operator.Prelude.{
  String, ◌<>◌, Bool, ◌==◌, Option, none, some, List, [], ◌∷◌, if◌then◌else◌, nat_eq,
}
use conduit_operator.Prelude.Result.{Result, ok, err}
use conduit_operator.Api.Types.{ConduitProcessor}
use conduit_operator.Validator.FieldError.{FieldError, child, required_error, internal_error}
use conduit_operator.Validator.Http.{Http, status_ok}

-- `os.CreateTemp` at the files there are; `io.Copy`, with the message of its error; whether
-- `os.Remove` succeeds, whose error is only logged.
pub record TempDir : Type 0 where
  pub create : List String → Result String
  pub copy : String → Result String → Option String
  pub can_remove : String → Bool

-- The answers of `Register`.
pub data Registered : Type 0 where
  registered : Registered
  already_registered : Registered
  failed : String → Registered

pub record Plugins : Type 1 where
  pub Registry : Type 0
  pub register : Registry → String → Registry × Registered

pub record Store (R : Type 0) : Type 0 where
  pub files : List String
  pub registry : R

unfoldable pub remove_file : String → List String → List String
remove_file f [] = []
remove_file f (g ∷ gs) = if g == f then gs else g ∷ remove_file f gs

unfoldable pub validate_processor_plugin : ConduitProcessor → List String → Option FieldError
validate_processor_plugin p fp =
    if p.plugin == ""
    then some (required_error (child fp "plugin") "plugin cannot be empty")
    else none

-- The file of the response's body, and the files after the call.
unfoldable pub save_wasm : TempDir → Result String → List String → List String × Result String
save_wasm F body files = elim (F.create files) [
  | err e ↦ (files, err e)
  | ok file ↦ elim (F.copy file body) [
    | some e ↦ (file ∷ files, err e)
    | none ↦ (file ∷ files, ok file)
  ]
]

-- Its cleanup function removes the file that it returns.
unfoldable pub plugin_wasm : Http → TempDir → String → List String → List String × Result String
unfolding save_wasm
plugin_wasm http F processor_url files = elim (http.new_request processor_url) [
  | err e ↦ (files, err e)
  | ok req ↦ elim (http.do_request req) [
    | err e ↦ (files, err e)
    | ok resp ↦ if nat_eq resp.status_code status_ok then save_wasm F resp.body files else (
      files,
      err (
          "non-sucessful status code while getting processor WASM, status code: "
          <> http.show_status resp.status_code),
    )
  ]
]

unfoldable pub cleanup : TempDir → String → List String → List String
unfolding remove_file
cleanup F file files = if F.can_remove file then remove_file file files else files

-- The error of `Register`, if it is one for the caller.
abbrev pub register_error : List String → Registered → Option FieldError
register_error fp registered = none
register_error fp already_registered = none
register_error fp (failed e) =
    some (internal_error (child fp "standalone") ("failed to register: " <> e))

module _ (P : Plugins) where
  -- The part behind the download; the cleanup runs when the call returns.
  unfoldable pub register_file :
      TempDir → List String → String → Store P.Registry → Store P.Registry × Option FieldError
  unfolding cleanup
  register_file F fp file s =
      let (reg, answer) = P.register s.registry file in
      (record { files = cleanup F file s.files; registry = reg }, register_error fp answer)

  -- With what the download returns.
  unfoldable pub after_download :
      TempDir
      → List String
      → Store P.Registry
      → List String × Result String
      → Store P.Registry × Option FieldError
  unfolding register_file
  after_download F fp s (files, ok file) = register_file F fp file (record s { files = files })
  after_download F fp s (files, err e) = (
    record s { files = files },
    some (internal_error (child fp "standalone") ("failed to save wasm to file: " <> e)),
  )

  unfoldable pub validate_standalone_processor :
      Http
      → TempDir
      → ConduitProcessor
      → List String
      → Store P.Registry
      → Store P.Registry × Option FieldError
  validate_standalone_processor http F p fp s =
      if p.processor_url == ""
      then (s, none)
      else after_download F fp s (plugin_wasm http F p.processor_url s.files)

  unfoldable pub validate_processor :
      Http
      → TempDir
      → ConduitProcessor
      → List String
      → Store P.Registry
      → Store P.Registry × Option FieldError
  validate_processor http F p fp s = elim (validate_processor_plugin p fp) [
    | some e ↦ (s, some e)
    | none ↦ validate_standalone_processor http F p fp s
  ]

-- ===== src/Validator/TempFiles.antt =====
-- pkg/conduit/conduit_validator.go: the temporary files of a check of a processor.
use conduit_operator.Prelude.{
  String, ◌≡◌, refl, Bool, true, false, ◌==◌, none, List, ◌∷◌, eq_refl, if◌then◌else◌, nat_eq,
  Bool-cases, Option-cases, inl, inr,
}
use conduit_operator.Prelude.Result.{Result, ok, err, Result-cases}
use conduit_operator.Api.Types.{ConduitProcessor}
use conduit_operator.Validator.Http.{Http, Response, status_ok}
use conduit_operator.Validator.Processor.{
  TempDir, Plugins, Store, remove_file, validate_processor_plugin, after_download, save_wasm,
  plugin_wasm, cleanup, register_file, validate_standalone_processor, validate_processor,
}

-- The copy of the body that the server answers for an address, if it answers, and the removal of a
-- file succeed.
pub record CanClean (http : Http) (F : TempDir) (url : String) : Type 0 where
  pub copies :
      (req : String) (resp : Response) (file : String)
      → http.new_request url ≡ ok req
      → http.do_request req ≡ ok resp
      → F.copy file resp.body ≡ none
  pub removes : (file : String) → F.can_remove file ≡ true

-- After a download there is the file that it returns, and else no new file.
abbrev Saves : List String → List String × Result String → Type 0
Saves files (after, ok file) = after ≡ file ∷ files
Saves files (after, err e) = after ≡ files

save_wasm-Saves :
    (F : TempDir) (body : Result String) (files : List String)
    → ((file : String) → F.copy file body ≡ none)
    → Saves files (save_wasm F body files)
unfolding save_wasm
save_wasm-Saves F body files copies = elim (Result-cases (F.create files)) [
  | inl (file, e) ↦ rw (e, save_wasm, copies file) refl
  | inr (m, e) ↦ rw (e, save_wasm) refl
]

if-Saves :
    (files : List String) (b : Bool) (x y : List String × Result String)
    → Saves files x
    → Saves files y
    → Saves files (if b then x else y)
if-Saves files true x y h g = h
if-Saves files false x y h g = g

plugin_wasm-Saves :
    (http : Http) (F : TempDir) (url : String) (files : List String)
    → CanClean http F url
    → Saves files (plugin_wasm http F url files)
unfolding plugin_wasm
plugin_wasm-Saves http F url files h = elim (Result-cases (http.new_request url)) [
  | inr (m, e) ↦ rw (e, plugin_wasm) refl
  | inl (req, e) ↦
      rw (e, plugin_wasm)
        (elim (Result-cases (http.do_request req)) [
          | inr (m, f) ↦ rw f refl
          | inl (resp, f) ↦ rw f (
              if-Saves files (nat_eq resp.status_code status_ok) _ _
                (save_wasm-Saves F resp.body files (λ file. h.copies req resp file e f)) refl)
        ])
]

cleanup-cons :
    (F : TempDir) (file : String) (files : List String)
    → ((f : String) → F.can_remove f ≡ true)
    → cleanup F file (file ∷ files) ≡ files
unfolding cleanup remove_file
cleanup-cons F file files h = rw (h file, eq_refl file)

module _ (P : Plugins) where
  after_download-files :
      (F : TempDir) (fp : List String) (s : Store P.Registry) (r : List String × Result String)
      → ((f : String) → F.can_remove f ≡ true)
      → Saves s.files r
      → (after_download P F fp s r).0.files ≡ s.files
  unfolding after_download register_file
  after_download-files F fp s (files, ok file) h g = rw g (cleanup-cons F file s.files h)
  after_download-files F fp s (files, err e) h g = g

  validate_standalone_processor-files :
      (http : Http) (F : TempDir) (p : ConduitProcessor) (fp : List String) (s : Store P.Registry)
      → CanClean http F p.processor_url
      → (validate_standalone_processor P http F p fp s).0.files ≡ s.files
  unfolding validate_standalone_processor
  validate_standalone_processor-files http F p fp s h = elim (Bool-cases (p.processor_url == "")) [
    | inl e ↦ rw e refl
    | inr e ↦ rw e (
        after_download-files F fp s (plugin_wasm http F p.processor_url s.files) h.removes
          (plugin_wasm-Saves http F p.processor_url s.files h))
  ]

  -- Where the copy of the body that the server answers for the processor's address, if it answers,
  -- and every removal of a file succeed, the temporary files after the check of a processor are
  -- those before it, whatever the status and the registry's answers.
  pub validate_processor-files :
      (http : Http) (F : TempDir) (p : ConduitProcessor) (fp : List String) (s : Store P.Registry)
      → CanClean http F p.processor_url
      → (validate_processor P http F p fp s).0.files ≡ s.files
  unfolding validate_processor
  validate_processor-files http F p fp s h = elim (Option-cases (validate_processor_plugin p fp)) [
    | inl e ↦ rw (e, validate_processor) (validate_standalone_processor-files http F p fp s h)
    | inr (m, e) ↦ rw (e, validate_processor) refl
  ]

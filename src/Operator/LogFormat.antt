-- ===== src/Operator/LogFormat.antt =====
-- cmd/operator/main.go: the log format that the servers get from the file of the metadata.
use conduit_operator.Prelude.{
  String, ◌≡◌, refl, ap, sym, ◌∙◌, Bool, true, false, some, none, List, ◌⊎◌, inl, inr, Option-cases,
  if◌then◌else◌, arith,
}
use conduit_operator.Prelude.Dict.{Dict}
use conduit_operator.Prelude.Result.{ok}
use conduit_operator.Strings.Prefix.{trim_prefix}
use conduit_operator.Semver.{Semver, Release, IsDocumented}
use conduit_operator.Api.Types.{
  ConduitInstanceMetadata, new_conduit_instance_metadata, conduit_log_format_text,
}
use conduit_operator.Controller.Reconcile.{new_conduit_reconciler}
use conduit_operator.Flags.{Args, new_flags, returns, for_version}
use conduit_operator.Flags.Supported.{IsRange, supported, for_version_lem}
use conduit_operator.Flags.Reading.{read_flags, meant, read_flags-for_version}
use conduit_operator.Operator.CommandLine.{Options}
use conduit_operator.Operator.{there, missing, made, Calls, read_metadata, instance_metadata}

supported_for_all :
    (a b : Args) (v : Release) (flags : List String)
    → supported a v ≡ some flags
    → supported b v ≡ none
    → some flags ≡ none
unfolding supported
supported_for_all a b v flags h g = ground arith

meant-log_format : (v : Release) (a : Args) → (meant v a).log_format ≡ a.log_format
meant-log_format v a = ground arith

module _ (S : Semver) (release : S.Version → Release) (d : IsDocumented S release)
    (rules : Dict String) (ver : String) (v : S.Version) (range : IsRange rules)
    (parsed : S.new_version (trim_prefix ver "v") ≡ ok v) where
  -- A version that has flags for some arguments has them for all.
  for_version_for_all :
      (a b : Args) (flags : List String)
      → for_version S rules a ver ≡ returns (ok flags)
      → (flags' : List String) × (for_version S rules b ver ≡ returns (ok flags'))
  for_version_for_all a b flags h =
      let k = sym (for_version_lem S release d rules a ver v range parsed) ∙ h in
      let k' = for_version_lem S release d rules b ver v range parsed in
      elim (Option-cases (supported b (release v))) [
        | inr (flags', e) ↦ (flags', k' ∙ rw e refl)
        | inl e ↦ elim (Option-cases (supported a (release v))) [
          | inl g ↦ absurd (cc (rw g at k))
          | inr (flags'', g) ↦ absurd (cc (supported_for_all a b (release v) flags'' g e))
        ]
      ]

  module _ (C : Calls) where
    -- What the file of a name holds: the defaults where it is missing, or its content over them.
    abbrev pub IsContent : String → ConduitInstanceMetadata → Type 0
    IsContent name file =
        ((C.stat name ≡ missing) × (file ≡ new_conduit_instance_metadata))
        ⊎ ((C.stat name ≡ there)
            × ((content : String) × (C.read_file name ≡ ok content)
                × (C.unmarshal content new_conduit_instance_metadata ≡ ok file)))

    read_metadata_of_content :
        (name : String) (file : ConduitInstanceMetadata)
        → IsContent name file
        → read_metadata C name ≡ ok file
    unfolding read_metadata
    read_metadata_of_content name file (inl (e, g)) = rw (e, read_metadata, g) refl
    read_metadata_of_content name file (inr (e, (content, g, k))) = rw (e, read_metadata, g) k

    abbrev with_format : Bool → ConduitInstanceMetadata → ConduitInstanceMetadata
    with_format dev meta =
        if dev then record meta { log_format = conduit_log_format_text } else meta

    log_format-with_format :
        (dev : Bool) (meta : ConduitInstanceMetadata)
        → (with_format dev meta).log_format
          ≡ (if dev then conduit_log_format_text else meta.log_format)
    log_format-with_format true meta = refl
    log_format-with_format false meta = refl

    -- Where the metadata's file is missing or holds metadata that can be read, the metadata of the
    -- instances are made, and for every version that parses and has flags, where the constraints
    -- mean what is documented, the reconciler with these metadata has flags, from which a server
    -- reads the log format ConduitLogFormatText in development, and otherwise the one of the file,
    -- or the default where the file is missing.
    pub servers_log_format :
        {Z : Type 0} (development : Z → Bool) (o : Options Z) (file : ConduitInstanceMetadata)
        (a : Args) (flags : List String)
        → IsContent o.metadata_file file
        → for_version S rules a ver ≡ returns (ok flags)
        → (meta : ConduitInstanceMetadata) × (instance_metadata C development o ≡ made meta)
          × (out : List String) × (for_version S rules (new_conduit_reconciler meta).flags ver
              ≡ returns (ok out))
          × ((read_flags out).log_format
              ≡ (if development o.logger then conduit_log_format_text else file.log_format))
    unfolding instance_metadata new_conduit_reconciler new_flags
    servers_log_format development o file a flags content has =
        let meta = with_format (development o.logger) file in
        let b = (new_conduit_reconciler meta).flags in
        let (out, k) = for_version_for_all a b flags has in
        (
          meta,
          rw (read_metadata_of_content o.metadata_file file content, instance_metadata) refl,
          out,
          k,
          ap (λ x. x.log_format)
                (read_flags-for_version S release d rules b ver v out range parsed k)
              ∙ meant-log_format (release v) b
              ∙ log_format-with_format (development o.logger) file,
        )

-- ===== src/Builder.antt =====
-- internal/controller/conduit_containers.go: `commandBuilder`, which collects builds by key, and the
-- two kinds of builds.
--
-- The mutex of the builder is left out: the operator uses each builder in one goroutine.
pub mod Keys
use conduit_operator.Prelude.{
  String, ◌<>◌, Bool, true, false, Option, none, some, List, [], ◌∷◌, ◌++◌, if◌then◌else◌,
}
use conduit_operator.Prelude.Dict.{Dict, lookup, insert}
use conduit_operator.Strings.Split.{join}
use conduit_operator.Strings.FilePath.{base, join_path}

abbrev pub builder_temp_path : String
builder_temp_path = "/tmp/connectors"

pub record Buildable (A : Type 0) : Type 0 where
  pub steps : A → List String
  pub key : A → String

-- `done` is none while the map is nil.
pub record CommandBuilder (A : Type 0) : Type 0 where
  pub done : Option (Dict Bool)
  pub builds : List A

pub record ConnectorBuild : Type 0 where
  pub name : String
  pub go_pkg : String
  pub tmp_dir : String
  pub target_dir : String
  pub ldflags : String

unfoldable pub connector_steps : ConnectorBuild → List String
connector_steps cb =
    ("mkdir -p " <> (cb.tmp_dir <> (" " <> cb.target_dir)))
    ∷ ("env CGO_ENABLED=0 GOBIN="
        <> (join_path (cb.tmp_dir ∷ cb.name ∷ [])
            <> (" " <> ("go install " <> (cb.ldflags <> (" " <> cb.go_pkg))))))
    ∷ ("install -D "
        <> (join_path (cb.tmp_dir ∷ cb.name ∷ "connector" ∷ [])
            <> (" " <> join_path (cb.target_dir ∷ cb.name ∷ []))))
    ∷ []

abbrev pub connector_key : ConnectorBuild → String
connector_key cb = cb.go_pkg

pub record ProcessorBuild : Type 0 where
  pub target_dir : String
  pub proc_url : String
  pub name : String

unfoldable pub processor_steps : ProcessorBuild → List String
processor_steps pb =
    ("wget -O " <> (pb.target_dir <> ("/" <> (base pb.proc_url <> (" " <> pb.proc_url))))) ∷ []

abbrev pub processor_key : ProcessorBuild → String
processor_key pb = pb.name

instance abbrev pub connector_buildable : Buildable ConnectorBuild
connector_buildable = record { steps = connector_steps; key = connector_key }

instance abbrev pub processor_buildable : Buildable ProcessorBuild
processor_buildable = record { steps = processor_steps; key = processor_key }

module _ {A : Type 0} where
  abbrev pub new_builder : CommandBuilder A
  new_builder = record { done = none; builds = [] }

  unfoldable pub is_empty : CommandBuilder A → Bool
  is_empty c = elim c.builds [ [] ↦ true | b ∷ bs ↦ false ]

-- The map, made if it is nil.
abbrev pub made : Option (Dict Bool) → Dict Bool
made none = []
made (some m) = m

module _ {A : Type 0} ⦃buildable : Buildable A⦄ where
  all_steps : List A → List String
  all_steps [] = []
  all_steps (build ∷ builds) = buildable.steps build ++ all_steps builds

  unfoldable pub render_script : CommandBuilder A → String
  unfolding all_steps join
  render_script c = join (all_steps c.builds) " && "

  unfoldable pub add_build : A → CommandBuilder A → CommandBuilder A
  add_build b c =
      let done = made c.done in
      elim (lookup (buildable.key b) done) [
        | some seen ↦ record c { done = some done }
        | none ↦ record c {
          builds = c.builds ++ b ∷ [];
          done = some (insert (buildable.key b) true done);
        }
      ]

  -- The calls of `addBuild` in a row.
  unfoldable pub add_builds : List A → CommandBuilder A → CommandBuilder A
  add_builds [] c = c
  add_builds (b ∷ bs) c = add_builds bs (add_build b c)

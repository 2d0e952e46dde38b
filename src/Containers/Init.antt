-- ===== src/Containers/Init.antt =====
-- internal/controller/conduit_containers.go: the builds that the init containers run.
use conduit_operator.Prelude.{
  String, ◌≡◌, refl, ◌∙◌, Bool, true, false, not, ◌==◌, some, List, [], ◌∷◌, ◌++◌, arith, eq_refl,
  if◌then◌else◌, Bool-cases, inl, inr,
}
use conduit_operator.Prelude.Lists.{any}
use conduit_operator.Api.Types.{ConduitConnector, ConduitProcessor}
use conduit_operator.Kube.{Container}
use conduit_operator.Builder.{
  Buildable, CommandBuilder, ConnectorBuild, ProcessorBuild, new_builder, add_build, add_builds,
  is_empty, connector_buildable, processor_buildable,
}
use conduit_operator.Builder.Keys.{first_build, UniqueKeys, add_builds_first}
use conduit_operator.Containers.{
  is_standalone, is_downloaded, connector_build, processor_build, scan_connectors, scan_processors,
  init_containers, conduit_init_containers,
}

-- The builds that the connectors ask for, in order.
abbrev pub connector_builds : List ConduitConnector → List ConnectorBuild
connector_builds [] = []
connector_builds (c ∷ cc) =
    let rest = connector_builds cc in if is_standalone c then connector_build c ∷ rest else rest

abbrev pub processor_builds : List ConduitProcessor → List ProcessorBuild
processor_builds [] = []
processor_builds (p ∷ pp) =
    let rest = processor_builds pp in if is_downloaded p then processor_build p ∷ rest else rest

-- The processors of the pipeline, then those of each connector.
abbrev pub all_processors : List ConduitConnector → List ConduitProcessor → List ConduitProcessor
all_processors [] cp = cp
all_processors (c ∷ cc) cp = all_processors cc (cp ++ c.processors)

scan_connectors_lem :
    (cc : List ConduitConnector) (b : CommandBuilder ConnectorBuild) (cp : List ConduitProcessor)
    → scan_connectors cc b cp ≡ (add_builds (connector_builds cc) b, all_processors cc cp)
unfolding scan_connectors add_builds
scan_connectors_lem [] b cp = refl
scan_connectors_lem (c ∷ cc) b cp = elim (Bool-cases (is_standalone c)) [
  | inl e ↦ rw (e, scan_connectors_lem cc (add_build (connector_build c) b) (cp ++ c.processors))
  | inr e ↦ rw (e, scan_connectors_lem cc b (cp ++ c.processors))
]

scan_processors_lem :
    (pp : List ConduitProcessor) (b : CommandBuilder ProcessorBuild)
    → scan_processors pp b ≡ add_builds (processor_builds pp) b
unfolding scan_processors add_builds
scan_processors_lem [] b = refl
scan_processors_lem (p ∷ pp) b = elim (Bool-cases (is_downloaded p)) [
  | inl e ↦ rw (e, scan_processors_lem pp (add_build (processor_build p) b))
  | inr e ↦ rw (e, scan_processors_lem pp b)
]

abbrev is_nil : {A : Type 0} → List A → Bool
is_nil [] = true
is_nil (x ∷ xs) = false

module _ (cc : List ConduitConnector) (cp : List ConduitProcessor) where
  -- In the builds behind the connectors' script no module is built twice, and the build of a
  -- module is that of the first standalone connector that names it.
  pub connector_builds_first :
      let builds = (scan_connectors cc new_builder cp).0.builds in
      UniqueKeys builds
      × ((k : String) → first_build k builds ≡ first_build k (connector_builds cc))
  connector_builds_first =
      rw (scan_connectors_lem cc new_builder cp) (add_builds_first (connector_builds cc))

  -- In the downloads behind the processors' script, over the processors of the pipeline and of
  -- every connector, none is under one plugin name twice, and each is the first under its name.
  pub processor_builds_first :
      let (builder, processors) = scan_connectors cc new_builder cp in
      let builds = (scan_processors processors new_builder).builds in
      UniqueKeys builds
      × ((k : String)
          → first_build k builds ≡ first_build k (processor_builds (all_processors cc cp)))
  processor_builds_first =
      rw
        (
          scan_connectors_lem cc new_builder cp,
          scan_processors_lem (all_processors cc cp) new_builder,
        )
        (add_builds_first (processor_builds (all_processors cc cp)))

module _ {A : Type 0} ⦃buildable : Buildable A⦄ where
  is_empty-false :
      (k : String) (c : CommandBuilder A) (b : A)
      → first_build k c.builds ≡ some b
      → is_empty c ≡ false
  unfolding is_empty first_build
  is_empty-false k c b e = ground arith

  is_empty-add_builds : (bs : List A) → is_empty (add_builds bs new_builder) ≡ is_nil bs
  is_empty-add_builds [] = unfold is_empty add_builds in refl
  is_empty-add_builds (b ∷ bs) =
      is_empty-false (buildable.key b) (add_builds (b ∷ bs) new_builder) b (
        (add_builds_first (b ∷ bs)).1 (buildable.key b)
        ∙ unfold first_build in rw (eq_refl (buildable.key b)))

connector_builds-any :
    (cc : List ConduitConnector) → not (is_nil (connector_builds cc)) ≡ any is_standalone cc
unfolding any
connector_builds-any [] = refl
connector_builds-any (c ∷ cc) = ground (arith, connector_builds-any cc)

processor_builds-any :
    (pp : List ConduitProcessor) → not (is_nil (processor_builds pp)) ≡ any is_downloaded pp
unfolding any
processor_builds-any [] = refl
processor_builds-any (p ∷ pp) = ground (arith, processor_builds-any pp)

abbrev pub runs : String → List Container → Bool
runs name = any (λ c. c.name == name)

runs-init_containers :
    (b : CommandBuilder ConnectorBuild) (p : CommandBuilder ProcessorBuild)
    → (runs "conduit-init" (init_containers b p) ≡ true)
      × (runs "conduit-init-connectors" (init_containers b p) ≡ not (is_empty b))
      × (runs "conduit-init-processors" (init_containers b p) ≡ not (is_empty p))
unfolding init_containers any
runs-init_containers b p = ground arith

-- The init container that makes the directories is always there, the one that builds connectors
-- exactly when some connector is standalone, and the one that downloads processors exactly when
-- some processor, of the pipeline or of a connector, is standalone and has an address.
pub conduit_init_containers_lem :
    (cc : List ConduitConnector) (cp : List ConduitProcessor)
    → let containers = conduit_init_containers cc cp in
      (runs "conduit-init" containers ≡ true)
      × (runs "conduit-init-connectors" containers ≡ any is_standalone cc)
      × (runs "conduit-init-processors" containers ≡ any is_downloaded (all_processors cc cp))
unfolding conduit_init_containers
conduit_init_containers_lem cc cp =
    rw
      (
        scan_connectors_lem cc new_builder cp,
        scan_processors_lem (all_processors cc cp) new_builder,
        ← connector_builds-any cc,
        ← processor_builds-any (all_processors cc cp),
        ← is_empty-add_builds (connector_builds cc),
        ← is_empty-add_builds (processor_builds (all_processors cc cp)),
      )
      (runs-init_containers (add_builds (connector_builds cc) new_builder)
        (add_builds (processor_builds (all_processors cc cp)) new_builder))

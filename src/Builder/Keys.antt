-- ===== src/Builder/Keys.antt =====
-- internal/controller/conduit_containers.go: the keys of the builds in a `commandBuilder`.
use conduit_operator.Prelude.{
  String, ◌≡◌, refl, ◌∙◌, true, Option, none, some, List, [], ◌∷◌, ◌++◌, ◌==◌, arith, eq_iff,
  if◌then◌else◌, Option-cases, inl, inr,
}
use conduit_operator.Prelude.Dict.{lookup, lookup-insert}
use conduit_operator.Builder.{Buildable, CommandBuilder, new_builder, made, add_build, add_builds}

module _ {A : Type 0} ⦃buildable : Buildable A⦄ where
  -- The first build of a key.
  unfoldable pub first_build : String → List A → Option A
  first_build k [] = none
  first_build k (b ∷ bs) = if buildable.key b == k then some b else first_build k bs

  abbrev pub UniqueKeys : List A → Type 0
  UniqueKeys [] = Unit
  UniqueKeys (b ∷ bs) = (first_build (buildable.key b) bs ≡ none) × UniqueKeys bs

  -- The first of two.
  abbrev pub or_else : Option A → Option A → Option A
  or_else none o = o
  or_else (some a) o = some a

  first_build-append :
      (k : String) (xs ys : List A)
      → first_build k (xs ++ ys) ≡ or_else (first_build k xs) (first_build k ys)
  unfolding first_build
  first_build-append k [] ys = refl
  first_build-append k (x ∷ xs) ys = ground (arith, first_build-append k xs ys)

  UniqueKeys-append_one :
      (bs : List A) (b : A)
      → UniqueKeys bs
      → first_build (buildable.key b) bs ≡ none
      → UniqueKeys (bs ++ b ∷ [])
  unfolding first_build
  UniqueKeys-append_one [] b h e = (refl, tt)
  UniqueKeys-append_one (x ∷ bs) b h e = ground (
    arith,
    UniqueKeys-append_one bs b,
    first_build-append (buildable.key x) bs (b ∷ []),
    eq_iff (buildable.key b) (buildable.key x),
    eq_iff (buildable.key x) (buildable.key b),
  )

  -- The map `done` holds exactly the keys of the builds, each of which is there once.
  pub record IsBuilder (c : CommandBuilder A) : Type 0 where
    pub unique : UniqueKeys c.builds
    pub tracked : (k : String) → lookup k (made c.done) ≡ none → first_build k c.builds ≡ none
    pub built : (k : String) → first_build k c.builds ≡ none → lookup k (made c.done) ≡ none

  new_builder-IsBuilder : IsBuilder new_builder
  unfolding lookup first_build
  new_builder-IsBuilder = record { unique = tt; tracked = λ k e. refl; built = λ k e. refl }

  add_build-IsBuilder : (b : A) (c : CommandBuilder A) → IsBuilder c → IsBuilder (add_build b c)
  unfolding add_build
  add_build-IsBuilder b c h = elim (Option-cases (lookup (buildable.key b) (made c.done))) [
    | inl e ↦
        rw (add_build, e)
          (record {
            unique = UniqueKeys-append_one c.builds b h.unique (h.tracked (buildable.key b) e);
            tracked = λ k f. rw first_build-append (
                unfold first_build in
                ground (arith, lookup-insert (buildable.key b) k true (made c.done), h.tracked k));
            built = λ k f.
                let g : or_else (first_build k c.builds) (first_build k (b ∷ [])) ≡ none =
                  rw first_build-append at f in
                unfold first_build in
                ground (arith, g, lookup-insert (buildable.key b) k true (made c.done), h.built k);
          })
    | inr (seen, e) ↦
        rw (add_build, e) (record { unique = h.unique; tracked = h.tracked; built = h.built })
  ]

  first_build-add_build :
      (b : A) (c : CommandBuilder A) (k : String)
      → IsBuilder c
      → first_build k (add_build b c).builds
        ≡ or_else (first_build k c.builds) (first_build k (b ∷ []))
  unfolding add_build
  first_build-add_build b c k h = elim (Option-cases (lookup (buildable.key b) (made c.done))) [
    | inl e ↦ rw (add_build, e) (first_build-append k c.builds (b ∷ []))
    | inr (seen, e) ↦
        rw (add_build, e)
          (unfold first_build in ground (arith, h.built k, eq_iff (buildable.key b) k, e))
  ]

  add_builds_lem :
      (bs : List A) (c : CommandBuilder A)
      → IsBuilder c
      → IsBuilder (add_builds bs c)
        × ((k : String)
            → first_build k (add_builds bs c).builds
              ≡ or_else (first_build k c.builds) (first_build k bs))
  unfolding add_builds
  add_builds_lem [] c h = (h, λ k. unfold first_build in ground arith)
  add_builds_lem (b ∷ bs) c h =
      let (g, found) = add_builds_lem bs (add_build b c) (add_build-IsBuilder b c h) in
      (g, λ k. found k ∙ rw (first_build-add_build b c k h) (unfold first_build in ground arith))

  -- After any calls of addBuild on a new builder no key is there twice, and the build under a key
  -- is the first one with that key among the calls.
  pub add_builds_first :
      (bs : List A)
      → UniqueKeys (add_builds bs new_builder).builds
        × ((k : String) → first_build k (add_builds bs new_builder).builds ≡ first_build k bs)
  add_builds_first bs =
      let (g, found) = add_builds_lem bs new_builder new_builder-IsBuilder in
      (g.unique, λ k. unfold first_build in found k)

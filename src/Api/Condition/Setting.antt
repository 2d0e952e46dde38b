-- ===== src/Api/Condition/Setting.antt =====
-- api/v1alpha/condition.go: lookups, order and types after `setCondition`.
use conduit_operator.Prelude.{
  ℕ, String, ◌≡◌, refl, true, false, not, ◌&&◌, Option, none, some, [], ◌∷◌, ◌++◌, ◌==◌, eq_iff,
  arith, if◌then◌else◌, Option-cases, inl, inr,
}
use mathlib.Core.List.{append-nil}
use conduit_operator.Api.Condition.{
  Condition, Conditions, ConditionType, ConditionStatus, cond_equals, update, should_create,
  set_condition, find, updated_cond,
}
use conduit_operator.Api.Condition.Sorting.{
  IsSorted, UniqueTypes, find-sort, sort-IsSorted, sort_of_IsSorted, sort-UniqueTypes,
}

-- The condition that a call leaves at its type: the old one where status, reason and message are the
-- same, else the new one.
abbrev pub merged :
    Option Condition → ℕ → ConditionType → ConditionStatus → String → String → Condition
merged old now ct status reason message =
    let u = updated_cond now ct status reason message in
    elim old [ none ↦ u | some c ↦ if cond_equals c status reason message then c else u ]

find-update :
    (u : Condition) (l : Conditions) (t : ConditionType)
    → find (update u l) t ≡ elim (find l t) [
      | none ↦ none
      | some c ↦
          some (if t == u.type && not (cond_equals c u.status u.reason u.message) then u else c)
    ]
unfolding find update
find-update u [] t = refl
find-update u (c ∷ l) t =
    ground (arith, find-update u l t, eq_iff c.type t, eq_iff c.type u.type, eq_iff t u.type)

find-append :
    (l m : Conditions) (t : ConditionType)
    → find (l ++ m) t ≡ elim (find l t) [ none ↦ find m t | some c ↦ some c ]
unfolding find
find-append [] m t = refl
find-append (c ∷ l) m t = ground (arith, find-append l m t)

should_create-find :
    (t : ConditionType) (l : Conditions)
    → should_create t l ≡ elim (find l t) [ none ↦ true | some c ↦ false ]
unfolding find should_create
should_create-find t [] = refl
should_create-find t (c ∷ l) = ground (arith, should_create-find t l)

UniqueTypes-update : (u : Condition) (l : Conditions) → UniqueTypes l → UniqueTypes (update u l)
unfolding update
UniqueTypes-update u [] h = tt
UniqueTypes-update u (c ∷ l) h = ground (
  arith,
  UniqueTypes-update u l,
  find-update u l u.type,
  find-update u l c.type,
  eq_iff c.type u.type,
)

UniqueTypes-append_one :
    (l : Conditions) (u : Condition)
    → UniqueTypes l
    → find l u.type ≡ none
    → UniqueTypes (l ++ u ∷ [])
unfolding find
UniqueTypes-append_one [] u h e = (refl, tt)
UniqueTypes-append_one (c ∷ l) u h e = ground (
  arith,
  UniqueTypes-append_one l u,
  find-append l (u ∷ []) c.type,
  eq_iff u.type c.type,
  eq_iff c.type u.type,
)

-- No condition of the type differs from the new one in more than its time.
abbrev Settled : Condition → Conditions → Type 0
Settled u [] = Unit
Settled u (c ∷ l) =
    (c.type ≡ u.type → cond_equals c u.status u.reason u.message ≡ true) × Settled u l

update_of_Settled : (u : Condition) (l : Conditions) → Settled u l → update u l ≡ l
unfolding update
update_of_Settled u [] h = refl
update_of_Settled u (c ∷ l) h = ground (arith, update_of_Settled u l h.1, h.0, eq_iff c.type u.type)

Settled-of_absent : (u : Condition) (l : Conditions) → find l u.type ≡ none → Settled u l
unfolding find
Settled-of_absent u [] e = tt
Settled-of_absent u (c ∷ l) e = ground (arith, Settled-of_absent u l, eq_iff c.type u.type)

Settled-of_find :
    (u c : Condition) (l : Conditions)
    → UniqueTypes l
    → find l u.type ≡ some c
    → cond_equals c u.status u.reason u.message ≡ true
    → Settled u l
unfolding find
Settled-of_find u c [] h e q = tt
Settled-of_find u c (d ∷ l) h e q =
    ground (arith, Settled-of_absent u l, Settled-of_find u c l, eq_iff d.type u.type)

module _ (now : ℕ) (l : Conditions) (ct : ConditionType) (status : ConditionStatus)
    (reason message : String) where
  -- After setCondition the lookup of its type gives the old condition where nothing but the time
  -- would change, else the new one with the time of the call; any other lookup is as before.
  pub find-set_condition :
      (t : ConditionType)
      → find (set_condition now l ct status reason message) t
        ≡ (if ct == t then some (merged (find l ct) now ct status reason message) else find l t)
  unfolding set_condition find
  find-set_condition t =
      rw (find-sort, find-append, find-update)
        (ground (arith, should_create-find ct l, eq_iff ct t, eq_iff t ct))

  pub set_condition-IsSorted : IsSorted (set_condition now l ct status reason message)
  unfolding set_condition
  set_condition-IsSorted = sort-IsSorted _

  pub set_condition-UniqueTypes :
      UniqueTypes l → UniqueTypes (set_condition now l ct status reason message)
  unfolding set_condition
  set_condition-UniqueTypes h = sort-UniqueTypes _ (elim (Option-cases (find l ct)) [
    | inl e ↦
        rw (should_create-find, e)
          (UniqueTypes-append_one _ _ (UniqueTypes-update _ l h) (rw find-update (ground arith)))
    | inr (c, e) ↦ rw (should_create-find, e, append-nil) (UniqueTypes-update _ l h)
  ])

  -- Where the list is in order, its types are unique and the condition of the type differs in
  -- nothing but the time, setCondition returns the list itself.
  pub set_condition_same :
      (c : Condition)
      → IsSorted l
      → UniqueTypes l
      → find l ct ≡ some c
      → cond_equals c status reason message ≡ true
      → set_condition now l ct status reason message ≡ l
  unfolding set_condition
  set_condition_same c sorted unique e same =
      let u = updated_cond now ct status reason message in
      rw
        (
          update_of_Settled u l (Settled-of_find u c l unique e same),
          should_create-find,
          e,
          append-nil,
        )
        (sort_of_IsSorted l sorted)

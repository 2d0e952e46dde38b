-- ===== src/Api/Condition/Sorting.antt =====
-- api/v1alpha/condition.go: the sort of the conditions by type.
use mathlib.Core.List.{Perm}
use mathlib.Core.List.Perm
use conduit_operator.Prelude.{
  ◌≡◌, refl, false, none, some, [], ◌∷◌, ◌==◌, eq_iff, arith, if◌then◌else◌, Bool-cases, inl, inr,
}
use conduit_operator.Strings.Order.{text_lt_asymm, text_lt_irrefl}
use conduit_operator.Api.Condition.{
  Condition, Conditions, ConditionType, less, insert_sorted, sort, find,
}

-- In order: no condition's type is before that of the one in front of it.
abbrev pub IsSorted : Conditions → Type 0
IsSorted [] = Unit
IsSorted (x ∷ []) = Unit
IsSorted (x ∷ y ∷ l) = (less y x ≡ false) × IsSorted (y ∷ l)

-- No two conditions have one type.
abbrev pub UniqueTypes : Conditions → Type 0
UniqueTypes [] = Unit
UniqueTypes (c ∷ cs) = (find cs c.type ≡ none) × UniqueTypes cs

type_eq_of_find :
    (l : Conditions) (t : ConditionType) (c : Condition) → find l t ≡ some c → c.type ≡ t
unfolding find
type_eq_of_find [] t c h = cc
type_eq_of_find (x ∷ l) t c h = ground (arith, type_eq_of_find l t c, eq_iff x.type t)

find-insert_sorted :
    (x : Condition) (l : Conditions) (t : ConditionType)
    → find (insert_sorted x l) t ≡ (if x.type == t then some x else find l t)
unfolding find insert_sorted less
find-insert_sorted x [] t = refl
find-insert_sorted x (y ∷ l) t =
    ground (arith, find-insert_sorted x l t, eq_iff x.type t, eq_iff y.type t, text_lt_irrefl t)

-- Sorting changes no lookup.
pub find-sort : (l : Conditions) (t : ConditionType) → find (sort l) t ≡ find l t
unfolding find sort
find-sort [] t = refl
find-sort (x ∷ l) t = ground (arith, find-insert_sorted x (sort l) t, find-sort l t)

IsSorted-insert_sorted :
    (x : Condition) (l : Conditions) → IsSorted l → IsSorted (insert_sorted x l)
unfolding insert_sorted less
IsSorted-insert_sorted x [] h = tt
IsSorted-insert_sorted x (y ∷ []) h = ground (arith, text_lt_asymm y.type x.type)
IsSorted-insert_sorted x (y ∷ z ∷ l) h =
    ground (arith, text_lt_asymm y.type x.type, IsSorted-insert_sorted x (z ∷ l))

pub sort-IsSorted : (l : Conditions) → IsSorted (sort l)
unfolding sort
sort-IsSorted [] = tt
sort-IsSorted (x ∷ l) = IsSorted-insert_sorted x (sort l) (sort-IsSorted l)

-- A list in order is left as it is.
pub sort_of_IsSorted : (l : Conditions) → IsSorted l → sort l ≡ l
unfolding sort insert_sorted
sort_of_IsSorted [] h = refl
sort_of_IsSorted (x ∷ []) h = refl
sort_of_IsSorted (x ∷ y ∷ l) h = rw (sort_of_IsSorted (y ∷ l) h.1) (ground arith)

UniqueTypes-insert_sorted :
    (x : Condition) (l : Conditions)
    → UniqueTypes l
    → find l x.type ≡ none
    → UniqueTypes (insert_sorted x l)
unfolding insert_sorted find less
UniqueTypes-insert_sorted x [] u h = (refl, tt)
UniqueTypes-insert_sorted x (y ∷ l) u h = ground (
  arith,
  find-insert_sorted x l y.type,
  UniqueTypes-insert_sorted x l,
  eq_iff x.type y.type,
  eq_iff y.type x.type,
)

pub sort-UniqueTypes : (l : Conditions) → UniqueTypes l → UniqueTypes (sort l)
unfolding sort
sort-UniqueTypes [] u = tt
sort-UniqueTypes (x ∷ l) u =
    UniqueTypes-insert_sorted x (sort l) (sort-UniqueTypes l u.1)
      (ground (arith, find-sort l x.type))

insert_sorted-perm : (x : Condition) (l : Conditions) → Perm (insert_sorted x l) (x ∷ l)
unfolding insert_sorted
insert_sorted-perm x [] = Perm.refl (x ∷ [])
insert_sorted-perm x (y ∷ l) = elim (Bool-cases (less y x)) [
  | inl p ↦ rw p (Perm.trans (Perm.cons y (insert_sorted-perm x l)) (Perm.swap x y l))
  | inr p ↦ rw p (Perm.refl (x ∷ y ∷ l))
]

-- Sorting only reorders.
pub sort-perm : (l : Conditions) → Perm (sort l) l
unfolding sort
sort-perm [] = Perm.refl []
sort-perm (x ∷ l) = Perm.trans (insert_sorted-perm x (sort l)) (Perm.cons x (sort-perm l))

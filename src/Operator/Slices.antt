-- ===== src/Operator/Slices.antt =====
-- The slices of Go and `append`, over a store of arrays that slices share.
use conduit_operator.Prelude.{ℕ, zero, suc, ◌+◌, List, [], ◌∷◌, ◌++◌, ltb, if◌then◌else◌}
use conduit_operator.Prelude.Lists.{length}

-- A slice is a view of the first items of an array; the nil slice has no capacity.
pub record Slice : Type 0 where
  pub at : ℕ
  pub len : ℕ
  pub cap : ℕ

abbrev pub nil : Slice
nil = record { at = 0; len = 0; cap = 0 }

module _ {A : Type 0} where
  abbrev pub prefix : ℕ → List A → List A
  prefix zero xs = []
  prefix (suc n) [] = []
  prefix (suc n) (x ∷ xs) = x ∷ prefix n xs

  -- An array of the store; one that is not there is empty.
  abbrev pub array : List (List A) → ℕ → List A
  array [] k = []
  array (a ∷ arrays) zero = a
  array (a ∷ arrays) (suc k) = array arrays k

  abbrev pub items : List (List A) → Slice → List A
  items arrays s = prefix s.len (array arrays s.at)

  -- A write at an index; the items that nobody wrote are behind the end.
  abbrev pub write_at : ℕ → A → List A → List A
  write_at k x [] = x ∷ []
  write_at zero x (y ∷ ys) = x ∷ ys
  write_at (suc k) x (y ∷ ys) = y ∷ write_at k x ys

  abbrev pub write_in : ℕ → ℕ → A → List (List A) → List (List A)
  write_in k i x [] = []
  write_in zero i x (a ∷ arrays) = write_at i x a ∷ arrays
  write_in (suc k) i x (a ∷ arrays) = a ∷ write_in k i x arrays

  -- `append` of an item: into the array where it has room for it, else into a copy, to whose length
  -- the run time adds a capacity of its own choice.
  abbrev pub append_item : (ℕ → ℕ) → A → List (List A) → Slice → List (List A) × Slice
  append_item room x arrays s =
      let n = suc s.len in
      if ltb s.len s.cap then (write_in s.at s.len x arrays, record s { len = n }) else (
        arrays ++ (items arrays s ++ x ∷ []) ∷ [],
        record { at = length arrays; len = n; cap = n + room n },
      )

-- ===== src/Strings/Prefix.antt =====
-- `strings.HasPrefix`, `CutPrefix`, `TrimPrefix` and `Contains`.
use Prim.Native.Char.{code}
use Prim.Native.String.{[], ◌∷◌}
use Prim.Native.String.append
use text.Mathlib.TextEquality.{Char-path}
use conduit_operator.Prelude.{
  String, ◌<>◌, ◌≡◌, refl, Bool, true, false, Option, none, some, ◌||◌, arith, nat_eq,
  if◌then◌else◌, Bool-cases, Option-cases, inl, inr,
}

-- The rest of a text behind a prefix, if it has the prefix.
unfoldable pub cut_prefix : String → String → Option String
cut_prefix s [] = some s
cut_prefix [] (d ∷ p) = none
cut_prefix (c ∷ s) (d ∷ p) = if nat_eq (code c) (code d) then cut_prefix s p else none

unfoldable pub has_prefix : String → String → Bool
unfolding cut_prefix
has_prefix s p = elim (cut_prefix s p) [ none ↦ false | some r ↦ true ]

unfoldable pub trim_prefix : String → String → String
unfolding cut_prefix
trim_prefix s p = elim (cut_prefix s p) [ none ↦ s | some r ↦ r ]

-- `strings.Contains(s, t)`: `t` stands somewhere in `s`.
unfoldable pub has_substring : String → String → Bool
unfolding has_prefix
has_substring [] t = has_prefix [] t
has_substring (c ∷ s) t = has_prefix (c ∷ s) t || has_substring s t

-- What `cut_prefix` returns is what stands behind the prefix.
pub cut_prefix_sound : (s p r : String) → cut_prefix s p ≡ some r → s ≡ p <> r
unfolding cut_prefix
cut_prefix_sound s [] r h = rw append.nil (cc)
cut_prefix_sound [] (d ∷ p) r h = cc
cut_prefix_sound (c ∷ s) (d ∷ p) r h =
    rw append.cons (elim (Bool-cases (nat_eq (code c) (code d))) [
      | inl e ↦ rw (Char-path c d (ground arith), cut_prefix_sound s p r (rw e at h))
      | inr e ↦ let k : none ≡ some r = rw e at h in cc k
    ])

pub cut_prefix-append : (p r : String) → cut_prefix (p <> r) p ≡ some r
unfolding cut_prefix
cut_prefix-append [] r = rw append.nil
cut_prefix-append (c ∷ p) r = rw append.cons (ground (arith, cut_prefix-append p r))

pub has_prefix-append : (p r : String) → has_prefix (p <> r) p ≡ true
unfolding has_prefix
has_prefix-append p r = rw (cut_prefix-append p r, has_prefix)

pub has_prefix-cases : (s p : String) → has_prefix s p ≡ true → (r : String) × (s ≡ p <> r)
unfolding has_prefix
has_prefix-cases s p h = elim (Option-cases (cut_prefix s p)) [
  | inl e ↦ let k : false ≡ true = rw (e, has_prefix) at h in cc k
  | inr (r, e) ↦ (r, cut_prefix_sound s p r e)
]

pub has_substring_empty : (s : String) → has_substring s "" ≡ true
unfolding has_substring
has_substring_empty [] = refl
has_substring_empty (c ∷ s) = refl

-- ===== src/Strings/Order.antt =====
-- The order of texts, byte by byte, as Go's `<` on strings and `strings.Compare` have it.
use Prim.Native.Char.{code}
use Prim.Native.Nat.{Ordering, compare as compare_ℕ}
use Prim.Native.String.{compare, then}
use Prim.Native.String.compare
use text.Mathlib.Text.{is_lt}
use conduit_operator.Prelude.{ℕ, String, ◌≡◌, refl, Bool, true, false, arith, sym, ◌==◌, eq_iff}

abbrev pub text_lt : String → String → Bool
text_lt s t = is_lt (compare s t)

abbrev pub flip : Ordering → Ordering
flip Ordering.lt = Ordering.gt
flip Ordering.eq = Ordering.eq
flip Ordering.gt = Ordering.lt

compare_ℕ-flip : (m n : ℕ) → compare_ℕ n m ≡ flip (compare_ℕ m n)
compare_ℕ-flip m n = ground arith

flip-then : (a b : Ordering) → flip (then a b) ≡ then (flip a) (flip b)
flip-then Ordering.lt b = refl
flip-then Ordering.eq b = refl
flip-then Ordering.gt b = refl

pub compare-flip : (s t : String) → compare t s ≡ flip (compare s t)
compare-flip String.[] String.[] = refl
compare-flip String.[] (String.◌∷◌ d t) = rw (compare.nil-cons, compare.cons-nil) refl
compare-flip (String.◌∷◌ c s) String.[] = rw (compare.nil-cons, compare.cons-nil) refl
compare-flip (String.◌∷◌ c s) (String.◌∷◌ d t) =
    rw
      (
        compare.cons-cons d c,
        compare.cons-cons c d,
        compare_ℕ-flip (code c) (code d),
        compare-flip s t,
      )
      (sym (flip-then (compare_ℕ (code c) (code d)) (compare s t)))

-- No text is before one that is before it.
pub text_lt_asymm : (s t : String) → text_lt s t ≡ true → text_lt t s ≡ false
text_lt_asymm s t h = ground (arith, compare-flip s t)

pub text_lt_irrefl : (s : String) → text_lt s s ≡ false
text_lt_irrefl s = ground (arith, compare-flip s s)

then-lt_trans :
    (a b c m n k : Ordering)
    → (a ≡ Ordering.lt → b ≡ Ordering.lt → c ≡ Ordering.lt)
    → (a ≡ Ordering.lt → b ≡ Ordering.eq → c ≡ Ordering.lt)
    → (a ≡ Ordering.eq → b ≡ Ordering.lt → c ≡ Ordering.lt)
    → (a ≡ Ordering.eq → b ≡ Ordering.eq → c ≡ Ordering.eq)
    → (m ≡ Ordering.lt → n ≡ Ordering.lt → k ≡ Ordering.lt)
    → then a m ≡ Ordering.lt
    → then b n ≡ Ordering.lt
    → then c k ≡ Ordering.lt
then-lt_trans a b c m n k h₁ h₂ h₃ h₄ h₅ p q = ground arith

compare-lt_trans :
    (s t u : String)
    → compare s t ≡ Ordering.lt
    → compare t u ≡ Ordering.lt
    → compare s u ≡ Ordering.lt
compare-lt_trans String.[] String.[] String.[] p q = p
compare-lt_trans String.[] (String.◌∷◌ d t) String.[] p q =
    let r : Ordering.gt ≡ Ordering.lt = rw (compare.cons-nil d t) at q in cc r
compare-lt_trans String.[] t (String.◌∷◌ e u) p q = rw compare.nil-cons
compare-lt_trans (String.◌∷◌ c s) String.[] u p q =
    let r : Ordering.gt ≡ Ordering.lt = rw (compare.cons-nil c s) at p in cc r
compare-lt_trans (String.◌∷◌ c s) (String.◌∷◌ d t) String.[] p q =
    let r : Ordering.gt ≡ Ordering.lt = rw (compare.cons-nil d t) at q in cc r
compare-lt_trans (String.◌∷◌ c s) (String.◌∷◌ d t) (String.◌∷◌ e u) p q =
    rw (compare.cons-cons c e s u) (
      then-lt_trans (compare_ℕ (code c) (code d)) (compare_ℕ (code d) (code e))
        (compare_ℕ (code c) (code e)) (compare s t) (compare t u) (compare s u) (ground arith)
        (ground arith) (ground arith) (ground arith) (compare-lt_trans s t u)
        (rw (compare.cons-cons c d s t) at p) (rw (compare.cons-cons d e t u) at q))

pub text_lt_trans : (s t u : String) → text_lt s t ≡ true → text_lt t u ≡ true → text_lt s u ≡ true
text_lt_trans s t u p q = ground (arith, compare-lt_trans s t u)

-- What is not before a text that is before another is before that one too, or is not apart.
pub lt_of_not_lt : (b y a : String) → text_lt y b ≡ false → text_lt y a ≡ true → text_lt b a ≡ true
lt_of_not_lt b y a p q = ground (arith, compare-flip y b, text_lt_trans b y a, eq_iff y b)

pub lt_of_ne : (a b : String) → (a == b) ≡ false → text_lt a b ≡ false → text_lt b a ≡ true
lt_of_ne a b p q = ground (arith, compare-flip a b)

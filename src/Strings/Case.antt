-- ===== src/Strings/Case.antt =====
-- `strings.ToLower`, `strings.ToUpper` and `strings.Trim(s, " ")`.
use Prim.Native.Char.{Char, char, code, nul, IsScalar}
use Prim.Native.String.{[], ◌∷◌}
use Prim.Native.String.append
use native.Mathlib.Decide.{dec_lt}
use mathlib.Core.Logic.{dite}
use text.Mathlib.TextEquality.{Char-path}
use conduit_operator.Prelude.{
  ℕ, String, ◌<>◌, ◌+◌, ◌-◌, ◌<◌, ◌≡◌, refl, ◌&&◌, ◌==◌, arith, leb, nat_eq, if◌then◌else◌,
}

scalar_below : (n : ℕ) → n < 55296 → IsScalar n
scalar_below n h = ground arith

-- The character with a given number.
unfoldable pub of_code : ℕ → Char
unfolding dec_lt scalar_below
of_code n = dite (dec_lt n 55296) (λ h. char n (scalar_below n h)) (λ _. nul)

pub code-of_code : (n : ℕ) → n < 55296 → code (of_code n) ≡ n
unfolding of_code
code-of_code n h = ground arith

unfoldable pub lower_char : Char → Char
unfolding of_code
lower_char c = if leb b'A' (code c) && leb (code c) b'Z' then of_code (code c + 32) else c

unfoldable pub upper_char : Char → Char
unfolding of_code
upper_char c = if leb b'a' (code c) && leb (code c) b'z' then of_code (code c - 32) else c

unfoldable pub to_lower : String → String
unfolding lower_char
to_lower [] = []
to_lower (c ∷ s) = lower_char c ∷ to_lower s

unfoldable pub to_upper : String → String
unfolding upper_char
to_upper [] = []
to_upper (c ∷ s) = upper_char c ∷ to_upper s

trim_left : String → String
trim_left [] = []
trim_left (c ∷ s) = let rest = trim_left s in if nat_eq (code c) b' ' then rest else c ∷ s

trim_right : String → String
trim_right [] = []
trim_right (c ∷ s) =
    let rest = trim_right s in if nat_eq (code c) b' ' && rest == "" then [] else c ∷ rest

-- `strings.Trim(s, " ")`.
unfoldable pub trim_spaces : String → String
unfolding trim_left trim_right
trim_spaces s = trim_right (trim_left s)

lower_char_idem : (c : Char) → code (lower_char (lower_char c)) ≡ code (lower_char c)
unfolding lower_char
lower_char_idem c = ground (arith, code-of_code (code c + 32))

pub to_lower_idem : (s : String) → to_lower (to_lower s) ≡ to_lower s
unfolding to_lower
to_lower_idem [] = refl
to_lower_idem (c ∷ s) =
    rw (Char-path (lower_char (lower_char c)) (lower_char c) (lower_char_idem c), to_lower_idem s)

pub to_lower-append : (s t : String) → to_lower (s <> t) ≡ to_lower s <> to_lower t
unfolding to_lower
to_lower-append [] t = rw (append.nil t, append.nil (to_lower t))
to_lower-append (c ∷ s) t =
    rw
      (append.cons c s t, append.cons (lower_char c) (to_lower s) (to_lower t), to_lower-append s t)

to_lower_test : to_lower " ConduitIO/Foo-1 " ≡ " conduitio/foo-1 "
unfolding to_lower
to_lower_test = refl

trim_spaces_test : trim_spaces "  a b " ≡ "a b"
unfolding trim_spaces
trim_spaces_test = refl

-- ===== src/Strings/Split.antt =====
-- `strings.Split(s, "/")` and `strings.Join`.
use Prim.Native.Char.{Char, code}
use Prim.Native.String.append
use conduit_operator.Prelude.{
  String, ◌<>◌, ◌≡◌, refl, List, [], ◌∷◌, Bool, false, true, ◌||◌, arith, nat_eq, if◌then◌else◌,
}

-- One more character in front of the first part.
abbrev to_first : Char → List String → List String
to_first c [] = String.◌∷◌ c String.[] ∷ []
to_first c (part ∷ parts) = String.◌∷◌ c part ∷ parts

-- `strings.Split(s, "/")`.
unfoldable pub split_path : String → List String
split_path String.[] = "" ∷ []
split_path (String.◌∷◌ c s) =
    let rest = split_path s in if nat_eq (code c) b'/' then "" ∷ rest else to_first c rest

-- `strings.Join(parts, sep)`.
unfoldable pub join : List String → String → String
join [] sep = ""
join (part ∷ []) sep = part
join (part ∷ next ∷ parts) sep = part <> (sep <> join (next ∷ parts) sep)

-- The text holds no slash.
abbrev pub has_slash : String → Bool
has_slash String.[] = false
has_slash (String.◌∷◌ c s) = if nat_eq (code c) b'/' then true else has_slash s

pub split_path_of_no_slash : (s : String) → has_slash s ≡ false → split_path s ≡ s ∷ []
unfolding split_path
split_path_of_no_slash String.[] h = refl
split_path_of_no_slash (String.◌∷◌ c s) h = ground (arith, split_path_of_no_slash s)

pub has_slash-append : (s t : String) → has_slash (s <> t) ≡ has_slash s || has_slash t
has_slash-append String.[] t = rw append.nil
has_slash-append (String.◌∷◌ c s) t = rw append.cons (ground (arith, has_slash-append s t))

split_path_test : split_path "github.com//a/" ≡ "github.com" ∷ "" ∷ "a" ∷ "" ∷ []
unfolding split_path
split_path_test = refl

join_test : join ("a" ∷ "b" ∷ "c" ∷ []) " && " ≡ "a && b && c"
unfolding join
join_test = refl

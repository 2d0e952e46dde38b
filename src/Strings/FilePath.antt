-- ===== src/Strings/FilePath.antt =====
-- `path.Clean`, `path.Join`, `filepath.Base` and `filepath.Dir` on slash-separated paths.
use Prim.Native.Char.{code}
use mathlib.Core.List.{foldl, reverse}
use conduit_operator.Prelude.{
  String, ◌<>◌, ◌==◌, ◌≡◌, refl, Bool, List, [], ◌∷◌, ◌||◌, ◌&&◌, not, nat_eq, if◌then◌else◌,
}
use conduit_operator.Strings.Prefix.{has_prefix}
use conduit_operator.Strings.Split.{split_path, join}

-- One part of a path onto the parts that are kept, the last one first.
clean_part : Bool → List String → String → List String
clean_part rooted [] part =
    if part == "" || part == "." then [] else if part == ".." && rooted then [] else part ∷ []
clean_part rooted (top ∷ kept) part =
    if part == "" || part == "."
    then top ∷ kept
    else if part == ".." && not (top == "..")
    then kept
    else part ∷ top ∷ kept

-- `path.Clean`: the shortest path with the same meaning.
unfoldable pub clean : String → String
unfolding clean_part has_prefix split_path join
clean p =
    let rooted = has_prefix p "/" in
    let rest = join (reverse (foldl (clean_part rooted) [] (split_path p))) "/" in
    if rooted then "/" <> rest else if rest == "" then "." else rest

non_empty : List String → List String
non_empty [] = []
non_empty (p ∷ ps) = let rest = non_empty ps in if p == "" then rest else p ∷ rest

-- `path.Join`: empty parts are ignored, and no part at all gives the empty path.
unfoldable pub join_path : List String → String
unfolding clean non_empty
join_path parts = let p = join (non_empty parts) "/" in if p == "" then "" else clean p

strip_slashes : String → String
strip_slashes String.[] = ""
strip_slashes (String.◌∷◌ c s) =
    let rest = strip_slashes s in
    if nat_eq (code c) b'/' && rest == "" then "" else String.◌∷◌ c rest

last_part : List String → String
last_part [] = ""
last_part (p ∷ []) = p
last_part (p ∷ q ∷ ps) = last_part (q ∷ ps)

-- `filepath.Base`: the last part of a path.
unfoldable pub base : String → String
unfolding strip_slashes last_part split_path
base p =
    if p == ""
    then "."
    else let stripped = strip_slashes p in
      if stripped == "" then "/" else last_part (split_path stripped)

-- The path up to its last slash, with it.
to_last_slash : String → String
to_last_slash String.[] = ""
to_last_slash (String.◌∷◌ c s) =
    let rest = to_last_slash s in
    if rest == "" then (if nat_eq (code c) b'/' then "/" else "") else String.◌∷◌ c rest

-- `filepath.Dir`: all but the last part.
unfoldable pub dir : String → String
unfolding to_last_slash clean
dir p = clean (to_last_slash p)

base_tests :
    (base "conduitio/conduit-connector-x" ≡ "conduit-connector-x")
    × (base "a/b//" ≡ "b")
    × (base "//" ≡ "/")
    × (base "" ≡ ".")
unfolding base
base_tests = (refl, refl, refl, refl)

dir_tests :
    (dir "/conduit.pipelines/pipeline.yaml" ≡ "/conduit.pipelines")
    × (dir "pipeline.yaml" ≡ ".")
    × (dir "/x" ≡ "/")
unfolding dir
dir_tests = (refl, refl, refl)

join_path_tests :
    (join_path ("/tmp/connectors" ∷ "x-1" ∷ "connector" ∷ []) ≡ "/tmp/connectors/x-1/connector")
    × (join_path ("/a" ∷ ".." ∷ "../b/." ∷ []) ≡ "/b")
    × (join_path ("" ∷ "" ∷ []) ≡ "")
unfolding join_path
join_path_tests = (refl, refl, refl)

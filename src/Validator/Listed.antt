-- ===== src/Validator/Listed.antt =====
-- pkg/conduit/conduit_validator.go: what the list of connectors holds, and the lookup in it.
use Prim.Native.String.append
use conduit_operator.Prelude.{
  String, ◌<>◌, ◌≡◌, refl, ap, ◌∙◌, Bool, true, false, ◌==◌, none, some, List, [], ◌∷◌, arith,
  eq_iff, if◌then◌else◌, nat_eq, Bool-cases, ◌⊎◌, inl, inr,
}
use conduit_operator.Prelude.Lists.{All, any, contains}
use conduit_operator.Prelude.Dict.{Dict, insert}
use conduit_operator.Prelude.Result.{Result, ok, err, ◌>>=◌}
use conduit_operator.Strings.Case.{to_lower, to_lower-append}
use conduit_operator.Strings.Prefix.{
  trim_prefix, cut_prefix, has_substring, has_substring_empty, has_prefix, has_prefix-append,
}
use conduit_operator.Strings.Split.{split_path, has_slash, split_path_of_no_slash, has_slash-append}
use conduit_operator.Plugin.{allowed_github_orgs, builtin_connectors}
use conduit_operator.Validator.Http.{Http, status_ok}
use conduit_operator.Validator.Listing.{
  PluginInfo, ConnectorInfo, add_parts, add_connector, add_connectors, connector_list, list_of,
  connector_url, format_parts, new_validator, format_plugin_name, first_containing,
  filter_connector,
}

-- A plugin of an allowed organization, under its own name.
abbrev pub IsAllowed : String × PluginInfo → Type 0
IsAllowed (k, p) = (p.name ≡ k) × (contains allowed_github_orgs (p.org <> "/") ≡ true)

All-insert :
    (k : String) (p : PluginInfo) (m : Dict PluginInfo)
    → IsAllowed (k, p)
    → All IsAllowed m
    → All IsAllowed (insert k p m)
unfolding insert
All-insert k p [] h hs = (h, tt)
All-insert k p ((j, q) ∷ m) h (g, hs) = elim (Bool-cases (j == k)) [
  | inl e ↦ rw e (h, hs)
  | inr e ↦ rw e (g, All-insert k p m h hs)
]

add_parts-IsAllowed :
    (c : ConnectorInfo) (parts : List String) (plugins : Dict PluginInfo)
    → All IsAllowed plugins
    → All IsAllowed (add_parts c parts plugins)
unfolding add_parts
add_parts-IsAllowed c (org ∷ name ∷ []) plugins h =
    elim (Bool-cases (contains allowed_github_orgs (org <> "/"))) [
      | inl e ↦ rw e (All-insert name _ plugins (refl, e) h)
      | inr e ↦ rw e h
    ]
add_parts-IsAllowed c [] plugins h = h
add_parts-IsAllowed c (org ∷ []) plugins h = h
add_parts-IsAllowed c (org ∷ name ∷ part ∷ parts) plugins h = h

add_connectors-IsAllowed :
    (cs : List ConnectorInfo) (plugins : Dict PluginInfo)
    → All IsAllowed plugins
    → All IsAllowed (add_connectors cs plugins)
unfolding add_connectors add_connector
add_connectors-IsAllowed [] plugins h = h
add_connectors-IsAllowed (c ∷ cs) plugins h =
    add_connectors-IsAllowed cs (add_connector c plugins)
      (add_parts-IsAllowed c (split_path (to_lower c.name)) plugins h)

abbrev Holds : Result (Dict PluginInfo) → Type 0
Holds (ok m) = All IsAllowed m
Holds (err e) = Unit

>>=-Holds {ℓ} :
    {A : Type ℓ} (m : Result A) (f : A → Result (Dict PluginInfo))
    → ((a : A) → Holds (f a))
    → Holds (m >>= f)
>>=-Holds (ok a) f h = h a
>>=-Holds (err e) f h = tt

if-Holds :
    (b : Bool) (x y : Result (Dict PluginInfo)) → Holds x → Holds y → Holds (if b then x else y)
if-Holds true x y h g = h
if-Holds false x y h g = g

connector_list-Holds :
    (http : Http) (unmarshal : String → Result (List ConnectorInfo))
    → Holds (connector_list http unmarshal)
unfolding connector_list
connector_list-Holds http unmarshal = >>=-Holds (http.new_request connector_url) _ (λ req.
    >>=-Holds (http.do_request req) _ (λ resp.
      if-Holds (nat_eq resp.status_code status_ok) _ _
        (>>=-Holds resp.body _
          (λ body. >>=-Holds (unmarshal body) _ (λ cs. add_connectors-IsAllowed cs [] tt)))
        tt))

list_of-IsAllowed : (r : Result (Dict PluginInfo)) → Holds r → All IsAllowed (list_of r)
list_of-IsAllowed (ok m) h = h
list_of-IsAllowed (err e) h = tt

-- Whatever the server answers, the list of the validator holds only plugins of the allowed
-- organizations, each under its own name.
pub new_validator-IsAllowed :
    (http : Http) (unmarshal : String → Result (List ConnectorInfo))
    → All IsAllowed (new_validator http unmarshal)
unfolding new_validator
new_validator-IsAllowed http unmarshal =
    list_of-IsAllowed (connector_list http unmarshal) (connector_list-Holds http unmarshal)

-- The plugin stands in the list.
abbrev pub Lists : Dict PluginInfo → PluginInfo → Type 0
Lists [] p = ⊥
Lists ((k, q) ∷ m) p = (q ≡ p) ⊎ Lists m p

first_containing-some :
    (n : String) (m : Dict PluginInfo) (p : PluginInfo)
    → first_containing n m ≡ some p
    → Lists m p × (has_substring p.name n ≡ true)
unfolding first_containing
first_containing-some n [] p h = cc
first_containing-some n ((k, q) ∷ m) p h = elim (Bool-cases (has_substring q.name n)) [
  | inl e ↦ let f : some q ≡ some p = rw e at h in (inl (cc f), cc (e, f))
  | inr e ↦
      let f : first_containing n m ≡ some p = rw e at h in
      let (l, g) = first_containing-some n m p f in (inr l, g)
]

first_containing-none :
    (n : String) (m : Dict PluginInfo)
    → first_containing n m ≡ none
    → All (λ (k, q). has_substring q.name n ≡ false) m
unfolding first_containing
first_containing-none n [] h = tt
first_containing-none n ((k, q) ∷ m) h = elim (Bool-cases (has_substring q.name n)) [
  | inl e ↦ let f : some q ≡ none = rw e at h in cc f
  | inr e ↦ (e, first_containing-none n m (rw e at h))
]

-- filterConnector finds a plugin of the list whose name contains the formatted name, or no plugin
-- of the list has such a name.
pub filter_connector_lem :
    (m : Dict PluginInfo) (n : String)
    → ((p : PluginInfo)
        → filter_connector m n ≡ some p
        → Lists m p × (has_substring p.name (format_plugin_name n) ≡ true))
      × (filter_connector m n ≡ none
          → All (λ (k, q). has_substring q.name (format_plugin_name n) ≡ false) m)
unfolding filter_connector
filter_connector_lem m n =
    (first_containing-some (format_plugin_name n) m, first_containing-none (format_plugin_name n) m)

to_lower_standalone : to_lower "standalone:" ≡ "standalone:"
unfolding to_lower
to_lower_standalone = refl

not_on_github : (t : String) → trim_prefix ("standalone:" <> t) "github.com/" ≡ "standalone:" <> t
unfolding trim_prefix cut_prefix
not_on_github t = rw append.cons

contains-has_prefix :
    (xs : List String) (x p : String)
    → any (λ s. has_prefix s p) xs ≡ false
    → has_prefix x p ≡ true
    → contains xs x ≡ false
unfolding contains any
contains-has_prefix [] x p h g = refl
contains-has_prefix (y ∷ ys) x p h g =
    ground
      (arith, contains-has_prefix ys x p, eq_iff y x, (λ (e : y ≡ x). ap (λ s. has_prefix s p) e))

no_builtin : any (λ s. has_prefix s "standalone:") builtin_connectors ≡ false
unfolding any has_prefix
no_builtin = refl

kept : (t : String) → trim_prefix ("standalone:" <> t) "builtin:" ≡ "standalone:" <> t
unfolding trim_prefix cut_prefix
kept t = rw append.cons

not_builtin : (t : String) → format_parts (("standalone:" <> t) ∷ []) ≡ ""
unfolding format_parts
not_builtin t = rw (
  kept t,
  contains-has_prefix builtin_connectors ("standalone:" <> t) "standalone:" no_builtin
      (has_prefix-append "standalone:" t),
)

format_plugin_name-standalone :
    (s : String) → has_slash (to_lower s) ≡ false → format_plugin_name ("standalone:" <> s) ≡ ""
unfolding format_plugin_name
format_plugin_name-standalone s h =
    rw
      (
        to_lower-append "standalone:" s,
        to_lower_standalone,
        not_on_github (to_lower s),
        split_path_of_no_slash ("standalone:" <> to_lower s)
            (has_slash-append "standalone:" (to_lower s) ∙ h),
      )
      (not_builtin (to_lower s))

-- A name standalone:<name> without a slash has no formatted name, so filterConnector takes it for
-- whichever plugin the range over the list comes to first.
pub filter_connector-standalone :
    (k : String) (p : PluginInfo) (m : Dict PluginInfo) (s : String)
    → has_slash (to_lower s) ≡ false
    → filter_connector ((k, p) ∷ m) ("standalone:" <> s) ≡ some p
unfolding filter_connector first_containing
filter_connector-standalone k p m s h =
    rw (format_plugin_name-standalone s h, has_substring_empty p.name)

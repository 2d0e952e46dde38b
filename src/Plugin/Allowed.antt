-- ===== src/Plugin/Allowed.antt =====
-- pkg/conduit/plugin.go: the accepted plugin names.
use conduit_operator.Prelude.{
  String, ◌<>◌, ◌==◌, ◌≡◌, refl, Bool, true, false, none, some, List, [], ◌∷◌, ◌⊎◌, ◌↔◌, inl, inr,
  arith, eq_iff, if◌then◌else◌, Bool-cases,
}
use conduit_operator.Prelude.Lists.{any, contains}
use conduit_operator.Strings.Case.{to_lower, trim_spaces}
use conduit_operator.Strings.Prefix.{has_prefix, trim_prefix, has_prefix-cases, has_prefix-append}
use conduit_operator.Strings.Quote.{quote}
use conduit_operator.Plugin.{
  allowed_github_orgs, forbidden_connectors, builtin_connectors, is_from_org, validate_plugin,
}

-- A name that stands in a list.
abbrev pub OneOf : List String → String → Type 0
OneOf [] s = ⊥
OneOf (x ∷ xs) s = (s ≡ x) ⊎ OneOf xs s

pub contains-OneOf : (xs : List String) (s : String) → contains xs s ≡ true → OneOf xs s
unfolding contains
contains-OneOf [] s h = cc
contains-OneOf (x ∷ xs) s h = ground (arith, eq_iff x s, contains-OneOf xs s)

-- A name behind one of the prefixes.
abbrev pub Below : List String → String → Type 0
Below [] s = ⊥
Below (org ∷ orgs) s =
    ((rest : String) × (s ≡ org <> rest))
    ⊎ ((rest : String) × (s ≡ ("github.com/" <> org) <> rest))
    ⊎ Below orgs s

Below-of_any : (orgs : List String) (s : String) → any (is_from_org s) orgs ≡ true → Below orgs s
unfolding any is_from_org
Below-of_any [] s h = cc
Below-of_any (org ∷ orgs) s h = elim (Bool-cases (has_prefix s org)) [
  | inl e ↦ inl (has_prefix-cases s org e)
  | inr e ↦ elim (Bool-cases (has_prefix s ("github.com/" <> org))) [
    | inl e' ↦ inr (inl (has_prefix-cases s ("github.com/" <> org) e'))
    | inr e' ↦ inr (inr (Below-of_any orgs s (rw (e, e') at h)))
  ]
]

any_of_Below : (orgs : List String) (s : String) → Below orgs s → any (is_from_org s) orgs ≡ true
unfolding any is_from_org
any_of_Below [] s h = absurd h
any_of_Below (org ∷ orgs) s (inl (rest, e)) = rw (e, has_prefix-append org rest)
any_of_Below (org ∷ orgs) s (inr (inl (rest, e))) =
    rw (e, has_prefix-append ("github.com/" <> org) rest) (ground arith)
any_of_Below (org ∷ orgs) s (inr (inr h)) = ground (arith, any_of_Below orgs s h)

contains_of_OneOf : (xs : List String) (s : String) → OneOf xs s → contains xs s ≡ true
unfolding contains
contains_of_OneOf [] s h = absurd h
contains_of_OneOf (x ∷ xs) s (inl e) = ground (arith, eq_iff x s)
contains_of_OneOf (x ∷ xs) s (inr h) = ground (arith, contains_of_OneOf xs s h)

any-eq-contains : (xs : List String) (s : String) → any (λ x. s == x) xs ≡ contains xs s
unfolding any contains
any-eq-contains [] s = refl
any-eq-contains (x ∷ xs) s = ground (arith, any-eq-contains xs s, eq_iff s x, eq_iff x s)

-- The three tests of the function, in their order.
accepts_iff :
    (builtin forbidden allowed : Bool) (e : String)
    → ((if builtin then none else if forbidden then some e else if allowed then none else some e)
        ≡ none)
      ↔ ((builtin ≡ true) ⊎ ((allowed ≡ true) × (forbidden ≡ false)))
accepts_iff builtin forbidden allowed e = ground arith

validate_plugin_tests :
    (name : String)
    → let t = to_lower (trim_spaces name) in
      (validate_plugin name ≡ none) ↔ (
        (contains builtin_connectors (trim_prefix t "builtin:") ≡ true)
        ⊎ ((any (is_from_org t) allowed_github_orgs ≡ true)
            × (any (λ fc. t == fc) forbidden_connectors ≡ false)))
unfolding validate_plugin
validate_plugin_tests name =
    let t = to_lower (trim_spaces name) in
    accepts_iff (contains builtin_connectors (trim_prefix t "builtin:"))
      (any (λ fc. t == fc) forbidden_connectors) (any (is_from_org t) allowed_github_orgs)
      ("plugin " <> (quote name <> " is not supported"))

not-OneOf_of_tests : (xs : List String) (s : String) → any (λ x. s == x) xs ≡ false → ¬ OneOf xs s
not-OneOf_of_tests xs s f o = cc (any-eq-contains xs s, contains_of_OneOf xs s o)

tests_of_not-OneOf : (xs : List String) (s : String) → ¬ OneOf xs s → any (λ x. s == x) xs ≡ false
tests_of_not-OneOf xs s n =
    rw (any-eq-contains xs s)
      (elim (Bool-cases (contains xs s)) [ inl e ↦ absurd (n (contains-OneOf xs s e)) | inr e ↦ e ])

-- ValidatePlugin accepts a name exactly when, in lower case and without the spaces around it, it
-- is a built-in connector with or without the prefix builtin:, or it starts with an allowed
-- organization, with or without github.com/ before it, and is not a forbidden connector.
pub validate_plugin_iff :
    (name : String)
    → let t = to_lower (trim_spaces name) in
      (validate_plugin name ≡ none) ↔ (
        OneOf builtin_connectors (trim_prefix t "builtin:")
        ⊎ (Below allowed_github_orgs t × ¬ OneOf forbidden_connectors t))
validate_plugin_iff name =
    let t = to_lower (trim_spaces name) in
    (
      λ h. elim ((validate_plugin_tests name).0 h) [
        | inl b ↦ inl (contains-OneOf builtin_connectors (trim_prefix t "builtin:") b)
        | inr (a, f) ↦
            inr (Below-of_any allowed_github_orgs t a, not-OneOf_of_tests forbidden_connectors t f)
      ],
      λ h. (validate_plugin_tests name).1 (elim h [
        | inl b ↦ inl (contains_of_OneOf builtin_connectors (trim_prefix t "builtin:") b)
        | inr (a, n) ↦
            inr (any_of_Below allowed_github_orgs t a, tests_of_not-OneOf forbidden_connectors t n)
      ]),
    )

-- ===== src/Controller/Deployment/Reorder.antt =====
-- internal/controller/conduit_controller.go: the environment of the deployment, for another order of
-- the range over the keys of the secret.
use conduit_operator.Prelude.{
  String, ◌≡◌, refl, ap, sym, ◌∙◌, eq_iff, ◌==◌, Bool, true, false, List, [], ◌∷◌, ◌++◌, arith,
  if◌then◌else◌, inl, inr,
}
use conduit_operator.Prelude.Lists.{All}
use conduit_operator.Prelude.Dict.{Dict}
use conduit_operator.Strings.Order.{text_lt_asymm, text_lt_trans, lt_of_not_lt, lt_of_ne}
use conduit_operator.Api.Types.{Conduit}
use conduit_operator.Kube.{EnvVar, Secret}
use conduit_operator.Config.{env_vars, env_vars_from_secret, secret_env_vars}
use conduit_operator.Controller.Deployment.Env.{
  nil-cases, Shuffle, same, swap, keep, chain, IsOrder,
}
use conduit_operator.Controller.Deployment.{insert_env, stable_sort, deployment_env}

swapped_head :
    (a b : EnvVar)
    → (a.name == b.name) ≡ false
    → insert_env a (insert_env b []) ≡ insert_env b (insert_env a [])
unfolding insert_env
swapped_head a b ne = ground (arith, lt_of_ne a.name b.name ne, text_lt_asymm a.name b.name)

insert_env_comm :
    (a b : EnvVar) (l : List EnvVar)
    → (a.name == b.name) ≡ false
    → insert_env a (insert_env b l) ≡ insert_env b (insert_env a l)
unfolding insert_env
insert_env_comm a b [] ne = swapped_head a b ne
insert_env_comm a b (y ∷ l) ne = ground (
  arith,
  insert_env_comm a b l ne,
  lt_of_ne a.name b.name ne,
  text_lt_asymm a.name b.name,
  lt_of_not_lt b.name y.name a.name,
  lt_of_not_lt a.name y.name b.name,
  text_lt_trans y.name a.name b.name,
  text_lt_trans y.name b.name a.name,
)

-- No two variables have one name.
abbrev pub Distinct : List EnvVar → Type 0
Distinct [] = Unit
Distinct (x ∷ l) = All (λ y. (x.name == y.name) ≡ false) l × Distinct l

All-shuffle : (P : EnvVar → Type 0) {l l' : List EnvVar} → Shuffle l l' → All P l → All P l'
All-shuffle P (same l) h = h
All-shuffle P (swap a b l) (h, (g, rest)) = (g, (h, rest))
All-shuffle P (keep a r) (h, rest) = (h, All-shuffle P r rest)
All-shuffle P (chain r r') h = All-shuffle P r' (All-shuffle P r h)

Distinct-shuffle : {l l' : List EnvVar} → Shuffle l l' → Distinct l → Distinct l'
Distinct-shuffle (same l) h = h
Distinct-shuffle (swap a b l) ((ne, h), (g, rest)) =
    ((ground (arith, eq_iff a.name b.name, eq_iff b.name a.name), g), (h, rest))
Distinct-shuffle (keep a r) (h, rest) = (All-shuffle _ r h, Distinct-shuffle r rest)
Distinct-shuffle (chain r r') h = Distinct-shuffle r' (Distinct-shuffle r h)

-- Where the names are distinct, the order that the sort starts from makes no difference.
stable_sort-shuffle :
    {l l' : List EnvVar} → Shuffle l l' → Distinct l → stable_sort l ≡ stable_sort l'
unfolding stable_sort
stable_sort-shuffle (same l) h = refl
stable_sort-shuffle (swap a b l) h = insert_env_comm a b (stable_sort l) h.0.0
stable_sort-shuffle (keep a r) h = ap (insert_env a) (stable_sort-shuffle r h.1)
stable_sort-shuffle (chain r r') h =
    stable_sort-shuffle r h ∙ stable_sort-shuffle r' (Distinct-shuffle r h)

secret_env_vars-shuffle :
    (name : String) {m m' : Dict String}
    → Shuffle m m'
    → Shuffle (secret_env_vars name m) (secret_env_vars name m')
unfolding secret_env_vars
secret_env_vars-shuffle name (same m) = same (secret_env_vars name m)
secret_env_vars-shuffle name (swap (k, v) (k', v') m) = swap _ _ (secret_env_vars name m)
secret_env_vars-shuffle name (keep (k, v) r) = keep _ (secret_env_vars-shuffle name r)
secret_env_vars-shuffle name (chain r r') =
    chain (secret_env_vars-shuffle name r) (secret_env_vars-shuffle name r')

append-shuffle :
    (pre : List EnvVar) {l l' : List EnvVar} → Shuffle l l' → Shuffle (pre ++ l) (pre ++ l')
append-shuffle [] r = r
append-shuffle (x ∷ pre) r = keep x (append-shuffle pre r)

abbrev is_nil : {A : Type 0} → List A → Bool
is_nil [] = true
is_nil (x ∷ xs) = false

is_nil-secret_env_vars :
    (name : String) {m m' : Dict String}
    → Shuffle m m'
    → is_nil (secret_env_vars name m) ≡ is_nil (secret_env_vars name m')
unfolding secret_env_vars
is_nil-secret_env_vars name (same m) = refl
is_nil-secret_env_vars name (swap (k, v) (k', v') m) = refl
is_nil-secret_env_vars name (keep (k, v) r) = refl
is_nil-secret_env_vars name (chain r r') =
    is_nil-secret_env_vars name r ∙ is_nil-secret_env_vars name r'

deployment_env_lem :
    (order : List EnvVar → List EnvVar) (c : Conduit) (secret : Secret)
    → deployment_env order c secret ≡ (
        if is_nil (env_vars_from_secret secret)
        then env_vars c
        else stable_sort (order (env_vars c ++ env_vars_from_secret secret)))
unfolding deployment_env
deployment_env_lem order c secret = elim (nil-cases (env_vars_from_secret secret)) [
  | inl e ↦ rw (e, deployment_env) refl
  | inr (v, vs, e) ↦ rw (e, deployment_env) refl
]

-- Where no two variables have one name, the environment of the deployment does not depend on the
-- order of the range over the secret's contents, nor on how the sort, which is not stable,
-- arranges equal elements.
pub deployment_env_of_ranges :
    (order order' : List EnvVar → List EnvVar) (c : Conduit) (secret : Secret)
    (content : Dict String)
    → IsOrder order
    → IsOrder order'
    → Shuffle secret.content content
    → Distinct (env_vars c ++ env_vars_from_secret secret)
    → deployment_env order c secret ≡ deployment_env order' c (record secret { content = content })
unfolding env_vars_from_secret
deployment_env_of_ranges order order' c secret content h h' r distinct =
    let vars = env_vars c ++ secret_env_vars secret.name secret.content in
    let vars' = env_vars c ++ secret_env_vars secret.name content in
    let moved : Shuffle vars vars' =
      append-shuffle (env_vars c) (secret_env_vars-shuffle secret.name r) in
    let sorted : stable_sort (order vars) ≡ stable_sort (order' vars') =
      sym (stable_sort-shuffle (h vars) distinct)
      ∙ stable_sort-shuffle moved distinct
      ∙ stable_sort-shuffle (h' vars') (Distinct-shuffle moved distinct) in
    deployment_env_lem order c secret
    ∙ (rw (is_nil-secret_env_vars secret.name r, sorted) refl
        ∙ sym (deployment_env_lem order' c (record secret { content = content })))

-- ===== src/Controller/Deployment/Env.antt =====
-- internal/controller/conduit_controller.go: the environment of the deployment.
use mathlib.Core.List.{Perm}
use mathlib.Core.List.Perm
use conduit_operator.Prelude.{
  ◌≡◌, refl, false, List, [], ◌∷◌, ◌++◌, arith, Bool-cases, inl, inr, ◌⊎◌,
}
use conduit_operator.Strings.Order.{text_lt, text_lt_asymm}
use conduit_operator.Api.Types.{Conduit}
use conduit_operator.Kube.{EnvVar, Secret}
use conduit_operator.Config.{env_vars, env_vars_from_secret}
use conduit_operator.Controller.Deployment.{insert_env, stable_sort, deployment_env}

-- No variable's name is before that of the one in front of it.
abbrev pub InOrder : List EnvVar → Type 0
InOrder [] = Unit
InOrder (x ∷ []) = Unit
InOrder (x ∷ y ∷ l) = (text_lt y.name x.name ≡ false) × InOrder (y ∷ l)

insert_env-InOrder : (x : EnvVar) (l : List EnvVar) → InOrder l → InOrder (insert_env x l)
unfolding insert_env
insert_env-InOrder x [] h = tt
insert_env-InOrder x (y ∷ []) h = ground (arith, text_lt_asymm y.name x.name)
insert_env-InOrder x (y ∷ z ∷ l) h =
    ground (arith, text_lt_asymm y.name x.name, insert_env-InOrder x (z ∷ l))

stable_sort-InOrder : (l : List EnvVar) → InOrder (stable_sort l)
unfolding stable_sort
stable_sort-InOrder [] = tt
stable_sort-InOrder (x ∷ l) = insert_env-InOrder x (stable_sort l) (stable_sort-InOrder l)

insert_env-perm : (x : EnvVar) (l : List EnvVar) → Perm (insert_env x l) (x ∷ l)
unfolding insert_env
insert_env-perm x [] = Perm.refl (x ∷ [])
insert_env-perm x (y ∷ l) = elim (Bool-cases (text_lt y.name x.name)) [
  | inl p ↦ rw p (Perm.trans (Perm.cons y (insert_env-perm x l)) (Perm.swap x y l))
  | inr p ↦ rw p (Perm.refl (x ∷ y ∷ l))
]

stable_sort-perm : (l : List EnvVar) → Perm (stable_sort l) l
unfolding stable_sort
stable_sort-perm [] = Perm.refl []
stable_sort-perm (x ∷ l) =
    Perm.trans (insert_env-perm x (stable_sort l)) (Perm.cons x (stable_sort-perm l))

append_nil : {A : Type 0} (l : List A) → l ++ [] ≡ l
append_nil [] = refl
append_nil (x ∷ l) = rw (append_nil l) refl

pub nil-cases : {A : Type 0} (l : List A) → (l ≡ []) ⊎ ((x : A) × (xs : List A) × (l ≡ x ∷ xs))
nil-cases [] = inl refl
nil-cases (x ∷ xs) = inr (x, xs, refl)

-- A list in another order.
pub data Shuffle {A : Type 0} : List A → List A → Type 0 where
  same : (l : List A) → Shuffle l l
  swap : (a b : A) (l : List A) → Shuffle (a ∷ b ∷ l) (b ∷ a ∷ l)
  keep : (a : A) {l l' : List A} → Shuffle l l' → Shuffle (a ∷ l) (a ∷ l')
  chain : {l l' l'' : List A} → Shuffle l l' → Shuffle l' l'' → Shuffle l l''

-- `order` is one in which the sort may take the variables.
abbrev pub IsOrder : (List EnvVar → List EnvVar) → Type 0
IsOrder order = (l : List EnvVar) → Shuffle l (order l)

Shuffle-perm : {A : Type 0} {l l' : List A} → Shuffle l l' → Perm l' l
Shuffle-perm (same l) = Perm.refl l
Shuffle-perm (swap a b l) = Perm.swap a b l
Shuffle-perm (keep a r) = Perm.cons a (Shuffle-perm r)
Shuffle-perm (chain r r') = Perm.trans (Shuffle-perm r') (Shuffle-perm r)

-- The environment of the deployment is made of the variables of the settings and those of the
-- secret, each as often as there, and where the secret has variables it is in the order of the
-- names, however the sort arranges equal elements.
pub deployment_env-perm :
    (order : List EnvVar → List EnvVar) (c : Conduit) (secret : Secret)
    → IsOrder order
    → Perm (deployment_env order c secret) (env_vars c ++ env_vars_from_secret secret)
      × ((env_vars_from_secret secret ≡ []) ⊎ InOrder (deployment_env order c secret))
unfolding deployment_env
deployment_env-perm order c secret h = elim (nil-cases (env_vars_from_secret secret)) [
  | inl e ↦ rw (e, deployment_env, append_nil (env_vars c)) (Perm.refl (env_vars c), inl refl)
  | inr (v, vs, e) ↦
      let taken = order (env_vars c ++ v ∷ vs) in
      rw (e, deployment_env)
        (
          Perm.trans (stable_sort-perm taken) (Shuffle-perm (h (env_vars c ++ v ∷ vs))),
          inr (stable_sort-InOrder taken),
        )
]

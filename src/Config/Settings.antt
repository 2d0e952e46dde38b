-- ===== src/Config/Settings.antt =====
-- internal/controller/conduit_config.go: the settings of the configuration and the environment.
use Prim.Native.Char.{Char, code}
use conduit_operator.Prelude.{
  String, ◌≡◌, refl, Bool, true, false, ◌==◌, Option, none, some, List, [], ◌∷◌, ◌++◌, arith,
  Bool-cases, if◌then◌else◌, ◌⊎◌, ◌↔◌, not, ◌&&◌, leb, ◌-◌, inl, inr,
}
use conduit_operator.Prelude.Lists.{All}
use conduit_operator.Prelude.Dict.{Dict, lookup, insert, lookup-insert}
use conduit_operator.Prelude.Result.{Result, ok, >>=-eq-ok}
use conduit_operator.Strings.Case.{upper_char, to_upper, of_code, code-of_code}
use conduit_operator.Api.Types.{Conduit, ConduitConnector, SettingsVar, SecretKeySelector}
use conduit_operator.Kube.{EnvVar}
use conduit_operator.Config.{
  Reader, is_env_char, replace_others, env_var_name, env_var, settings_env_vars,
  connectors_env_vars, env_vars, placeholder, setting_value, scan_settings, settings_with_env_vars,
}

-- The value under a name: that of the last setting with the name.
unfoldable pub last_value : Reader → String → List SettingsVar → Option (Result String)
last_value cl k [] = none
last_value cl k (v ∷ vs) = elim (last_value cl k vs) [
  | some r ↦ some r
  | none ↦ if v.name == k then some (setting_value cl v) else none
]

abbrev pub result_of : Option (Result String) → Option String → Option (Result String)
result_of none none = none
result_of none (some t) = some (ok t)
result_of (some r) o = some r

scan_settings-lookup :
    (cl : Reader) (s : List SettingsVar) (m n : Dict String) (k : String)
    → scan_settings cl s m ≡ ok n
    → result_of (last_value cl k s) (lookup k m) ≡ result_of none (lookup k n)
unfolding scan_settings last_value
scan_settings-lookup cl [] m n k h = ground arith
scan_settings-lookup cl (v ∷ vs) m n k h =
    let (val, e, f) =
      >>=-eq-ok (setting_value cl v) (λ val. scan_settings cl vs (insert v.name val m)) h in
    ground (
      arith,
      e,
      scan_settings-lookup cl vs (insert v.name val m) n k f,
      lookup-insert v.name k val m,
    )

-- Where the settings are built, a name has the value that the last setting of the name resolves
-- to, and no other name has a value.
pub settings_with_env_vars_lem :
    (cl : Reader) (s : List SettingsVar) (m : Dict String)
    → settings_with_env_vars cl s ≡ ok m
    → (k : String) → last_value cl k s ≡ result_of none (lookup k m)
unfolding lookup
settings_with_env_vars_lem cl s m h k = ground (arith, scan_settings-lookup cl s [] m k h)

-- Every setting resolves to a value.
abbrev pub Resolves : Reader → SettingsVar → Type 0
Resolves cl v = (val : String) × (setting_value cl v ≡ ok val)

-- Where every setting resolves to a value, the settings are built.
scan_settings-ok :
    (cl : Reader) (s : List SettingsVar) (m : Dict String)
    → All (Resolves cl) s
    → (n : Dict String) × (scan_settings cl s m ≡ ok n)
unfolding scan_settings
scan_settings-ok cl [] m h = (m, refl)
scan_settings-ok cl (v ∷ vs) m ((val, e), h) =
    let (n, f) = scan_settings-ok cl vs (insert v.name val m) h in (n, rw e f)

scan_settings-Resolves :
    (cl : Reader) (s : List SettingsVar) (m n : Dict String)
    → scan_settings cl s m ≡ ok n
    → All (Resolves cl) s
unfolding scan_settings
scan_settings-Resolves cl [] m n h = tt
scan_settings-Resolves cl (v ∷ vs) m n h =
    let (val, e, f) =
      >>=-eq-ok (setting_value cl v) (λ val. scan_settings cl vs (insert v.name val m)) h in
    ((val, e), scan_settings-Resolves cl vs (insert v.name val m) n f)

-- The settings are built exactly where every one of them resolves to a value.
pub settings_with_env_vars-ok :
    (cl : Reader) (s : List SettingsVar)
    → All (Resolves cl) s ↔ ((m : Dict String) × (settings_with_env_vars cl s ≡ ok m))
settings_with_env_vars-ok cl s =
    (scan_settings-ok cl s [], λ h. scan_settings-Resolves cl s [] h.0 h.1)

-- An environment variable stands in a list.
abbrev pub Carries : List EnvVar → EnvVar → Type 0
Carries [] e = ⊥
Carries (x ∷ xs) e = (x ≡ e) ⊎ Carries xs e

Carries-left : (xs ys : List EnvVar) (e : EnvVar) → Carries xs e → Carries (xs ++ ys) e
Carries-left [] ys e h = elim h [ ]
Carries-left (x ∷ xs) ys e (inl h) = inl h
Carries-left (x ∷ xs) ys e (inr h) = inr (Carries-left xs ys e h)

Carries-right : (xs ys : List EnvVar) (e : EnvVar) → Carries ys e → Carries (xs ++ ys) e
Carries-right [] ys e h = h
Carries-right (x ∷ xs) ys e h = inr (Carries-right xs ys e h)

-- A reference to a secret gets an environment variable for it, and, where no value is given beside
-- it, the text that conduit replaces by that variable.
abbrev pub IsCarried : Reader → List EnvVar → SettingsVar → Type 0
IsCarried cl vars v =
    (ref : SecretKeySelector)
    → v.secret_ref ≡ some ref
    → (name : String) × Carries vars (record { name = name; value_from = some ref })
      × (v.value ≡ "" → setting_value cl v ≡ ok (placeholder name))

env_var-IsCarried : (cl : Reader) (v : SettingsVar) → IsCarried cl (env_var v) v
unfolding env_var setting_value
env_var-IsCarried cl v ref e = (env_var_name ref.key, rw e (inl refl), λ f. rw (e, f))

IsCarried-append :
    (cl : Reader) (xs ys : List EnvVar) (v : SettingsVar)
    → IsCarried cl xs v ⊎ IsCarried cl ys v
    → IsCarried cl (xs ++ ys) v
IsCarried-append cl xs ys v (inl h) ref e =
    let (name, c, f) = h ref e in (name, Carries-left xs ys _ c, f)
IsCarried-append cl xs ys v (inr h) ref e =
    let (name, c, f) = h ref e in (name, Carries-right xs ys _ c, f)

All-mono {ℓ κ κ'} :
    {A : Type ℓ} (P : A → Type κ) (Q : A → Type κ') (xs : List A)
    → ((x : A) → P x → Q x)
    → All P xs
    → All Q xs
All-mono P Q [] f h = tt
All-mono P Q (x ∷ xs) f (h, hs) = (f x h, All-mono P Q xs f hs)

settings_env_vars-IsCarried :
    (cl : Reader) (s : List SettingsVar) → All (IsCarried cl (settings_env_vars s)) s
unfolding settings_env_vars
settings_env_vars-IsCarried cl [] = tt
settings_env_vars-IsCarried cl (v ∷ vs) = (
  IsCarried-append cl (env_var v) (settings_env_vars vs) v (inl (env_var-IsCarried cl v)),
  All-mono (IsCarried cl (settings_env_vars vs)) (IsCarried cl (env_var v ++ settings_env_vars vs))
      vs (λ x h. IsCarried-append cl (env_var v) (settings_env_vars vs) x (inr h))
      (settings_env_vars-IsCarried cl vs),
)

connectors_env_vars-AreCarried :
    (cl : Reader) (ccs : List ConduitConnector)
    → All (λ cc. All (IsCarried cl (connectors_env_vars ccs)) cc.settings) ccs
unfolding connectors_env_vars
connectors_env_vars-AreCarried cl [] = tt
connectors_env_vars-AreCarried cl (cc ∷ ccs) =
    let xs = settings_env_vars cc.settings in
    let ys = connectors_env_vars ccs in
    (
      All-mono (IsCarried cl xs) (IsCarried cl (xs ++ ys)) cc.settings
          (λ v h. IsCarried-append cl xs ys v (inl h)) (settings_env_vars-IsCarried cl cc.settings),
      All-mono (λ c. All (IsCarried cl ys) c.settings)
          (λ c. All (IsCarried cl (xs ++ ys)) c.settings) ccs
          (λ c h.
            All-mono (IsCarried cl ys) (IsCarried cl (xs ++ ys)) c.settings
              (λ v g. IsCarried-append cl xs ys v (inr g)) h)
          (connectors_env_vars-AreCarried cl ccs),
    )

-- For every setting of every connector of a Conduit that refers to a secret, EnvVars holds a
-- variable that is read from that secret's key; where the setting has no value of its own, its
-- value in the configuration is the placeholder of that variable's name.
pub env_vars-IsCarried :
    (cl : Reader) (c : Conduit)
    → All (λ cc. All (IsCarried cl (env_vars c)) cc.settings) c.spec.connectors
unfolding env_vars
env_vars-IsCarried cl c = connectors_env_vars-AreCarried cl c.spec.connectors

-- A text of capital letters, digits and underscores.
abbrev pub is_env_name : String → Bool
is_env_name String.[] = true
is_env_name (String.◌∷◌ c s) =
    is_env_char c && (not (leb b'a' (code c) && leb (code c) b'z') && is_env_name s)

abbrev is_lower : Char → Bool
is_lower c = leb b'a' (code c) && leb (code c) b'z'

upper_char-is_lower : (c : Char) → is_lower (upper_char c) ≡ false
unfolding upper_char
upper_char-is_lower c = ground (arith, code-of_code (code c - 32))

is_env_name-underscore :
    (s : String) → is_env_name s ≡ true → is_env_name (String.◌∷◌ (of_code b'_') s) ≡ true
unfolding of_code
is_env_name-underscore s h = h

is_env_name_of_char :
    (c : Char) (s : String)
    → is_env_char c ≡ true
    → is_lower c ≡ false
    → is_env_name s ≡ true
    → is_env_name (String.◌∷◌ c s) ≡ true
is_env_name_of_char c s e f h = rw (e, f, h)

is_env_name-env_var_name : (s : String) → is_env_name (replace_others (to_upper s)) ≡ true
unfolding replace_others to_upper
is_env_name-env_var_name String.[] = refl
is_env_name-env_var_name (String.◌∷◌ c s) =
    let rest = replace_others (to_upper s) in
    elim (Bool-cases (is_env_char (upper_char c))) [
      | inl e ↦ rw e (
          is_env_name_of_char (upper_char c) rest e (upper_char-is_lower c)
            (is_env_name-env_var_name s))
      | inr e ↦ rw e (is_env_name-underscore rest (is_env_name-env_var_name s))
    ]

env_var_name_of_is_env_name : (s : String) → is_env_name s ≡ true → replace_others (to_upper s) ≡ s
unfolding replace_others to_upper upper_char
env_var_name_of_is_env_name String.[] h = refl
env_var_name_of_is_env_name (String.◌∷◌ c s) h = ground (arith, env_var_name_of_is_env_name s)

-- The name of an environment variable holds capital letters, digits and underscores only, and a
-- name that is made of these is left as it is.
pub env_var_name_lem :
    (s : String)
    → (is_env_name (env_var_name s) ≡ true) × (is_env_name s ≡ true → env_var_name s ≡ s)
unfolding env_var_name
env_var_name_lem s = (is_env_name-env_var_name s, env_var_name_of_is_env_name s)

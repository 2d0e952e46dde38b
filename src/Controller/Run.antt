-- ===== src/Controller/Run.antt =====
-- A call that returns a value, or panics.
use conduit_operator.Prelude.{◌≡◌, refl}

pub data Run {ℓ} (A : Type ℓ) : Type ℓ where
  done : A → Run A
  panicked : Run A

infixl 5 ◌>>=◌
abbrev pub ◌>>=◌ {ℓ κ} : {A : Type ℓ} {B : Type κ} → Run A → (A → Run B) → Run B
panicked >>= rest = panicked
done a >>= rest = rest a

pub done_injective {ℓ} : {A : Type ℓ} {a b : A} → done a ≡ done b → a ≡ b
done_injective h = cc

pub not_panicked {ℓ} : {A : Type ℓ} {a : A} → panicked ≡ done a → ⊥
not_panicked h = cc

pub >>=-eq-done {ℓ κ} :
    {A : Type ℓ} {B : Type κ} (run : Run A) (rest : A → Run B) {out : B}
    → (run >>= rest) ≡ done out
    → (a : A) × (run ≡ done a) × (rest a ≡ done out)
>>=-eq-done panicked rest h = absurd (not_panicked h)
>>=-eq-done (done a) rest h = (a, refl, h)

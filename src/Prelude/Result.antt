-- ===== src/Prelude/Result.antt =====
-- A Go result `(value, error)`: an error is its message.
use Prim.Native.String.{String}
use mathlib.Core.Path.{◌≡◌, refl}
use mathlib.Core.Logic.{◌⊎◌, inl, inr}

pub data Result {ℓ} (A : Type ℓ) : Type ℓ where
  ok : A → Result A
  err : String → Result A

-- `fmt.Errorf("…%w", err)`: the error with a prefix, a value untouched.
abbrev pub wrap {ℓ} : {A : Type ℓ} → (String → String) → Result A → Result A
wrap f (ok a) = ok a
wrap f (err e) = err (f e)

infixl 5 ◌>>=◌
-- The rest of the function behind `if err != nil { return err }`.
abbrev pub ◌>>=◌ {ℓ κ} :
    {Value : Type ℓ} {Next : Type κ} → Result Value → (Value → Result Next) → Result Next
err message >>= rest = err message
ok value >>= rest = rest value

pub >>=-eq-ok {ℓ κ} :
    {Value : Type ℓ} {Next : Type κ} (r : Result Value) (next : Value → Result Next) {out : Next}
    → (r >>= next) ≡ ok out
    → (value : Value) × (r ≡ ok value) × (next value ≡ ok out)
>>=-eq-ok (err message) next e = cc
>>=-eq-ok (ok value) next e = (value, refl, e)

pub Result-cases {ℓ} :
    {A : Type ℓ} (r : Result A) → ((a : A) × (r ≡ ok a)) ⊎ ((e : String) × (r ≡ err e))
Result-cases (ok a) = inl (a, refl)
Result-cases (err e) = inr (e, refl)

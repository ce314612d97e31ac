-- ===== src/Prelude/Results.antt =====
-- A Go result `(value, error)`: the value where the error is nil, else the error alone.
use mathlib.Core.Path.{◌≡◌, refl}

pub data Result {ℓ} (E A : Type ℓ) : Type ℓ where
  err : (error : E) → Result E A
  ok : (value : A) → Result E A

module _ {ℓ} {E A B : Type ℓ} where
  infixl 5 ◌>>=◌ ◌>>◌
  -- `if err != nil { return err }`, and the rest of the function.
  abbrev pub ◌>>=◌ : Result E A → (A → Result E B) → Result E B
  err error >>= rest = err error
  ok value >>= rest = rest value

  abbrev pub ◌>>◌ : Result E A → Result E B → Result E B
  step >> rest = step >>= λ ignored. rest

  -- The value that a step of a successful run returned.
  pub >>=-eq-ok :
      (step : Result E A) (rest : A → Result E B) {result : B}
      → (step >>= rest) ≡ ok result
      → (value : A) × (step ≡ ok value) × (rest value ≡ ok result)
  >>=-eq-ok (err error) rest run = cc
  >>=-eq-ok (ok value) rest run = (value, refl, run)

  -- Two ways to go on may be exchanged where they agree at the value that the step returns.
  pub >>=_congr_at :
      (step : Result E A) {rest rest' : A → Result E B}
      → ((value : A) → step ≡ ok value → rest value ≡ rest' value)
      → (step >>= rest) ≡ (step >>= rest')
  >>=_congr_at (err error) agree = refl
  >>=_congr_at (ok value) agree = agree value refl

  -- They may be exchanged where they agree everywhere.
  pub >>=_congr :
      (step : Result E A) {rest rest' : A → Result E B}
      → ((value : A) → rest value ≡ rest' value)
      → (step >>= rest) ≡ (step >>= rest')
  >>=_congr (err error) agree = refl
  >>=_congr (ok value) agree = agree value

pub >>=_assoc {ℓ} :
    {E A B C : Type ℓ} (step : Result E A) (next : A → Result E B) (rest : B → Result E C)
    → ((step >>= next) >>= rest) ≡ (step >>= λ value. next value >>= rest)
>>=_assoc (err error) next rest = refl
>>=_assoc (ok value) next rest = refl

pub ok-injective {ℓ} : {E A : Type ℓ} {a b : A} → ◌≡◌ {A = Result E A} (ok a) (ok b) → a ≡ b
ok-injective h = cc

-- ===== src/Base/Results.antt =====
-- Python code that may raise returns a `Result`; code that also changes a state is an `Action`,
-- which keeps what was written before a raise.
use mathlib.Core.Path.{◌≡◌, refl, ap}
use mathlib.Core.Logic.{◌⊎◌, inl, inr}

-- The class of an exception. Of the message nothing is kept.
pub data Exc : Type 0 where
  hfsm_error transition_error registry_error self_iteration_error cancelled_error : Exc
  key_error type_error value_error attribute_error runtime_error not_implemented_error other : Exc

pub Exc-discrete : Discrete Exc
Exc-discrete = hlevel

pub data Result {ℓ} (A : Type ℓ) : Type ℓ where
  ok : A → Result A
  raise : Exc → Result A

abbrev pub Action {ℓ} : Type ℓ → Type ℓ → Type ℓ
Action S A = S → Result A × S

module _ {ℓ κ} {A : Type ℓ} {B : Type κ} where
  -- The rest of a function, after a call that may raise.
  abbrev pub then_do : Result A → (A → Result B) → Result B
  then_do (ok a) f = f a
  then_do (raise e) f = raise e

module _ {ℓ} {S A B : Type ℓ} where
  abbrev pub continue : Result A → (A → Action S B) → Action S B
  continue (ok a) f s = f a s
  continue (raise e) f s = (raise e, s)

  infixl 10 ◌>>=◌ ◌>>◌
  abbrev pub ◌>>=◌ : Action S A → (A → Action S B) → Action S B
  ◌>>=◌ m f s = let (r, s') = m s in continue r f s'

  abbrev pub ◌>>◌ : Action S A → Action S B → Action S B
  ◌>>◌ m n = m >>= λ _. n

module _ {ℓ} {S A : Type ℓ} where
  abbrev pub pure : A → Action S A
  pure a s = (ok a, s)

  abbrev pub fail : Exc → Action S A
  fail e s = (raise e, s)

pub Result-cases {ℓ} :
    {A : Type ℓ} (r : Result A) → ((a : A) × (r ≡ ok a)) ⊎ ((e : Exc) × (r ≡ raise e))
Result-cases (ok a) = inl (a, refl)
Result-cases (raise e) = inr (e, refl)

-- What a call of `>>=` that succeeds went through.
module _ {ℓ} {S A B : Type ℓ} where
  continue-eq-ok :
      (r : Result A) (f : A → Action S B) (s : S) (b : B)
      → (continue r f s).0 ≡ ok b
      → (a : A) × (r ≡ ok a) × ((f a s).0 ≡ ok b)
  continue-eq-ok (ok a) f s b h = (a, refl, h)
  continue-eq-ok (raise e) f s b h = cc

  pub >>=-eq-ok :
      (m : Action S A) (f : A → Action S B) (s : S) (b : B)
      → ((m >>= f) s).0 ≡ ok b
      → (a : A) × ((m s).0 ≡ ok a) × ((f a (m s).1).0 ≡ ok b)
  >>=-eq-ok m f s b h = continue-eq-ok (m s).0 f (m s).1 b h

  -- The rest of a function, once a call's result is known.
  pub >>=-eq :
      (m : Action S A) (f : A → Action S B) (s : S) (r : Result A) (s' : S)
      → m s ≡ (r, s')
      → (m >>= f) s ≡ continue r f s'
  >>=-eq m f s r s' e = ap (λ p. continue p.0 f p.1) e

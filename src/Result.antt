-- ===== src/Result.antt =====
-- How a call of the program ends: with a value, with a C++ exception, or in an abort.
use learn_vector_db.Prelude.{Option, none, some, ◌≡◌, refl, ◌⊎◌, inl, inr}

pub data Error : Type 0 where
  -- exceptions of the standard library
  invalid_argument out_of_range length_error : Error
  -- `std::runtime_error`, by the code itself or a library
  runtime_error : Error
  -- a failed `assert` or RAPIDJSON_ASSERT, or a read through a null pointer
  aborted : Error

pub data Result {ℓ} (A : Type ℓ) : Type ℓ where
  ok : A → Result A
  throw : Error → Result A

module _ {ℓ κ} {Before : Type ℓ} {After : Type κ} where
  infixl 5 ◌>>=◌ ◌>>◌
  -- The rest of the code runs where nothing was thrown.
  abbrev pub ◌>>=◌ : Result Before → (Before → Result After) → Result After
  throw error >>= rest = throw error
  ok value >>= rest = rest value

  abbrev pub ◌>>◌ : Result Before → Result After → Result After
  before >> after = before >>= λ _. after

-- A value that the code reads without a check, and an abort where there is none.
abbrev pub require {ℓ} : {A : Type ℓ} → Option A → Result A
require (some a) = ok a
require none = throw aborted

pub Result-cases {ℓ} :
    {A : Type ℓ} (r : Result A) → ((a : A) × (r ≡ ok a)) ⊎ ((e : Error) × (r ≡ throw e))
Result-cases (ok a) = inl (a, refl)
Result-cases (throw e) = inr (e, refl)

-- What holds of the value, if there is one.
abbrev pub Whenever {ℓ} : {A : Type ℓ} → (A → Type 0) → Result A → Type 0
Whenever P (ok a) = P a
Whenever P (throw e) = Unit

module _ {ℓ κ} {A : Type ℓ} {B : Type κ} where
  pub Whenever-bind :
      (P : A → Type 0) (Q : B → Type 0) (x : Result A) (f : A → Result B)
      → Whenever P x
      → ((a : A) → P a → Whenever Q (f a))
      → Whenever Q (x >>= f)
  Whenever-bind P Q (ok a) f h k = k a h
  Whenever-bind P Q (throw e) f h k = tt

  pub Whenever-after :
      (Q : B → Type 0) (x : Result A) (f : A → Result B)
      → ((a : A) → Whenever Q (f a))
      → Whenever Q (x >>= f)
  Whenever-after Q (ok a) f k = k a
  Whenever-after Q (throw e) f k = tt

-- ===== src/Exec.antt =====
-- A method that changes an object and may throw: what was changed before a throw stays changed.
pub mod Keeps
pub mod Fails
use learn_vector_db.Prelude.{Bool, true, false, Option, none, some, ◌≡◌, refl, if◌then◌else◌}
use learn_vector_db.Result.{Result, ok, throw, Error, aborted}

abbrev pub Exec {ℓ} : Type ℓ → Type ℓ → Type ℓ
Exec S A = S → S × Result A

module _ {ℓ} {S A : Type ℓ} where
  unfoldable pub pure : A → Exec S A
  pure a s = (s, ok a)

  unfoldable pub lift : Result A → Exec S A
  lift r s = (s, r)

  unfoldable pub gets : (S → A) → Exec S A
  gets f s = (s, ok (f s))

  -- A value that the code reads without a check.
  unfoldable pub need : Option A → Exec S A
  need (some a) s = (s, ok a)
  need none s = (s, throw aborted)

unfoldable pub modify : {S : Type 0} → (S → S) → Exec S Unit
modify f s = (f s, ok tt)

module _ {ℓ} {S A B : Type ℓ} where
  abbrev pub continue : Result A → (A → Exec S B) → Exec S B
  continue (ok a) f s = f a s
  continue (throw e) f s = (s, throw e)

  infixl 5 ◌>>=◌ ◌>>◌
  -- To open it is to open the actions above too.
  unfoldable pub ◌>>=◌ : Exec S A → (A → Exec S B) → Exec S B
  unfolding pure lift gets need
  ◌>>=◌ m f s = continue (m s).1 f (m s).0

  abbrev pub ◌>>◌ : Exec S A → Exec S B → Exec S B
  m >> n = m >>= λ _. n

-- ===== src/Exec/Fails.antt =====
-- Actions that never return.
use learn_vector_db.Prelude.{◌≡◌, ◌≢◌, refl}
use learn_vector_db.Result.{Result, Error, ok, throw}
use learn_vector_db.Exec.{Exec, lift, gets, continue, ◌>>=◌}

pub record Fails {S A : Type 0} (m : Exec S A) : Type 0 where
  pub never : (s : S) (a : A) → (m s).1 ≢ ok a

module _ {S A : Type 0} where
  pub Fails-throw : (e : Error) → Fails (lift {S = S} {A = A} (throw e))
  unfolding lift
  Fails-throw e = record { never = λ s a h. cc }

module _ {S A B : Type 0} where
  left_never :
      (r : Result A) (f : A → Exec S B) (s : S) (b : B)
      → ((a : A) → r ≢ ok a)
      → (continue r f s).1 ≢ ok b
  left_never (ok a) f s b h = λ _. h a refl
  left_never (throw e) f s b h = λ k. cc

  right_never :
      (r : Result A) (f : A → Exec S B) (s : S) (b : B)
      → ((a : A) → Fails (f a))
      → (continue r f s).1 ≢ ok b
  right_never (ok a) f s b h = (h a).never s b
  right_never (throw e) f s b h = λ k. cc

  pub Fails-left : (m : Exec S A) (f : A → Exec S B) → Fails m → Fails (m >>= f)
  unfolding ◌>>=◌
  Fails-left m f h = record { never = λ s b. left_never (m s).1 f (m s).0 b (h.never s) }

  pub Fails-right : (m : Exec S A) (f : A → Exec S B) → ((a : A) → Fails (f a)) → Fails (m >>= f)
  unfolding ◌>>=◌
  Fails-right m f h = record { never = λ s b. right_never (m s).1 f (m s).0 b h }

  pub gets-bind : (g : S → A) (f : A → Exec S B) (s : S) → (gets g >>= f) s ≡ f (g s) s
  unfolding ◌>>=◌
  gets-bind g f s = refl

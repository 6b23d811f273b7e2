-- ===== src/Exec/Keeps.antt =====
-- What an action leaves true of the state, whether it returns or throws.
use learn_vector_db.Prelude.{Bool, true, false, Option, none, some, if◌then◌else◌}
use learn_vector_db.Result.{Result, ok, throw}
use learn_vector_db.Exec.{Exec, pure, lift, gets, need, modify, continue, ◌>>=◌}

pub record Keeps {S A : Type 0} (P : S → Type 0) (m : Exec S A) : Type 0 where
  pub hold : (s : S) → P s → P (m s).0

module _ {S A : Type 0} {P : S → Type 0} where
  pub Keeps-pure : (a : A) → Keeps P (pure a)
  unfolding pure
  Keeps-pure a = record { hold = λ s h. h }

  pub Keeps-lift : (r : Result A) → Keeps P (lift r)
  unfolding lift
  Keeps-lift r = record { hold = λ s h. h }

  pub Keeps-gets : (f : S → A) → Keeps P (gets f)
  unfolding gets
  Keeps-gets f = record { hold = λ s h. h }

  pub Keeps-need : (o : Option A) → Keeps P (need o)
  unfolding need
  Keeps-need none = record { hold = λ s h. h }
  Keeps-need (some a) = record { hold = λ s h. h }

  pub Keeps-if : (b : Bool) (m n : Exec S A) → Keeps P m → Keeps P n → Keeps P (if b then m else n)
  Keeps-if true m n km kn = km
  Keeps-if false m n km kn = kn

module _ {S A B : Type 0} {P : S → Type 0} where
  continue-hold :
      (r : Result A) (f : A → Exec S B) (s : S)
      → ((a : A) → Keeps P (f a))
      → P s
      → P (continue r f s).0
  continue-hold (ok a) f s kf h = (kf a).hold s h
  continue-hold (throw e) f s kf h = h

  pub Keeps-bind :
      (before : Exec S A) (rest : A → Exec S B)
      → Keeps P before
      → ((value : A) → Keeps P (rest value))
      → Keeps P (before >>= rest)
  unfolding ◌>>=◌
  Keeps-bind before rest kept keeps = record {
    hold = λ s h. continue-hold (before s).1 rest (before s).0 keeps (kept.hold s h);
  }

-- `Q` where the action returned, and `P` where it threw.
abbrev pub Outcome : {S A : Type 0} → (S → Type 0) → (S → Type 0) → S × Result A → Type 0
Outcome P Q (s, ok a) = Q s
Outcome P Q (s, throw e) = P s

-- From `P` the action comes to `Q`, or throws and leaves `P`.
pub record Ends {S A : Type 0} (P Q : S → Type 0) (m : Exec S A) : Type 0 where
  pub finish : (s : S) → P s → Outcome P Q (m s)

module _ {S : Type 0} {P Q : S → Type 0} where
  pub Ends-modify : (f : S → S) → ((s : S) → P s → Q (f s)) → Ends P Q (modify f)
  unfolding modify
  Ends-modify f h = record { finish = h }

module _ {S A B : Type 0} {P Q : S → Type 0} where
  continue-finish :
      (r : Result A) (f : A → Exec S B) (s : S)
      → ((a : A) → Ends P Q (f a))
      → P s
      → Outcome P Q (continue r f s)
  continue-finish (ok a) f s kf h = (kf a).finish s h
  continue-finish (throw e) f s kf h = h

  pub Ends-bind :
      (m : Exec S A) (f : A → Exec S B)
      → Keeps P m
      → ((a : A) → Ends P Q (f a))
      → Ends P Q (m >>= f)
  unfolding ◌>>=◌
  Ends-bind m f km kf = record {
    finish = λ s h. continue-finish (m s).1 f (m s).0 kf (km.hold s h);
  }

-- Where the action returns, `P` before it gives `Q` after it.
pub record Reaches {S A : Type 0} (P Q : S → Type 0) (m : Exec S A) : Type 0 where
  pub reach : (s : S) → P s → Outcome (λ _. Unit) Q (m s)

module _ {S A B : Type 0} {P Q : S → Type 0} where
  continue-reach :
      (r : Result A) (f : A → Exec S B) (s : S)
      → ((a : A) → Reaches P Q (f a))
      → P s
      → Outcome (λ _. Unit) Q (continue r f s)
  continue-reach (ok a) f s kf h = (kf a).reach s h
  continue-reach (throw e) f s kf h = tt

  pub Reaches-bind :
      (m : Exec S A) (f : A → Exec S B)
      → Keeps P m
      → ((a : A) → Reaches P Q (f a))
      → Reaches P Q (m >>= f)
  unfolding ◌>>=◌
  Reaches-bind m f km kf = record {
    reach = λ s h. continue-reach (m s).1 f (m s).0 kf (km.hold s h);
  }

kept_outcome : {S B : Type 0} (Q : S → Type 0) (x : S × Result B) → Q x.0 → Outcome (λ _. Unit) Q x
kept_outcome Q (s, ok b) h = h
kept_outcome Q (s, throw e) h = tt

module _ {S A B : Type 0} where
  then_reach :
      (Q : S → Type 0) (x : S × Result A) (f : A → Exec S B)
      → ((a : A) → Keeps Q (f a))
      → Outcome (λ _. Unit) Q x
      → Outcome (λ _. Unit) Q (continue x.1 f x.0)
  then_reach Q (s, ok a) f kf h = kept_outcome Q (f a s) ((kf a).hold s h)
  then_reach Q (s, throw e) f kf h = tt

  pub Reaches-then :
      {P Q : S → Type 0} (m : Exec S A) (f : A → Exec S B)
      → Reaches P Q m
      → ((a : A) → Keeps Q (f a))
      → Reaches P Q (m >>= f)
  unfolding ◌>>=◌
  Reaches-then {Q = Q} m f rm kf = record { reach = λ s h. then_reach Q (m s) f kf (rm.reach s h) }

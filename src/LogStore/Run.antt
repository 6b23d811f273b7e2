-- ===== src/LogStore/Run.antt =====
-- A map of consecutive indices to the entries of a list: the shape of `logs_` behind its dummy.
use mathlib.Core.List.{append-nil}
use learn_vector_db.Prelude.{
  ℕ, zero, suc, ◌+◌, ◌≤◌, ◌<◌, none, some, List, [], ◌∷◌, ◌++◌, length, take, drop, get_elem?, ◌≡◌,
  refl, ap, ◌∙◌, arith, nat_key,
}
use learn_vector_db.StdMap.{StdMap, find, insert, erase, erase_from_lower_bound}

module _ {ℓ} {A : Type ℓ} where
  unfoldable pub run : ℕ → List A → StdMap ℕ A
  run i [] = []
  run i (e ∷ es) = (i, e) ∷ run (suc i) es

module _ {ℓ} {A : Type ℓ} where
  pub length-run : (i : ℕ) (es : List A) → length (run i es) ≡ length es
  unfolding run
  length-run i [] = refl
  length-run i (e ∷ es) = ap suc (length-run (suc i) es)

  pub find-run_below : (k i : ℕ) (es : List A) → k < i → find k (run i es) ≡ none
  unfolding run find
  find-run_below k i [] h = refl
  find-run_below k i (e ∷ es) h = ground (arith, find-run_below k (suc i) es)

  pub find-run : (i k : ℕ) (es : List A) → find (i + k) (run i es) ≡ get_elem? es k
  unfolding run find
  find-run i k [] = refl
  find-run i zero (e ∷ es) = ground arith
  find-run i (suc k) (e ∷ es) =
      let next : suc i + k ≡ i + suc k = omega arith in ground (arith, find-run (suc i) k es, next)

  pub insert-run :
      (i k : ℕ) (e : A) (es : List A)
      → k ≡ i + length es
      → insert k e (run i es) ≡ run i (es ++ e ∷ [])
  unfolding run insert
  insert-run i k e [] h = ground arith
  insert-run i k e (x ∷ es) h = ground (arith, insert-run (suc i) k e es)

  -- The list with `new` from position `k` on.
  abbrev pub overwrite : ℕ → List A → List A → List A
  overwrite k new es = take k es ++ (new ++ drop (length new) (drop k es))

  drop-nil : (n : ℕ) → drop {A = A} n [] ≡ []
  drop-nil zero = refl
  drop-nil (suc n) = refl

  pub overwrite-nil : (k : ℕ) (es : List A) → overwrite k [] es ≡ es
  overwrite-nil zero es = refl
  overwrite-nil (suc k) [] = refl
  overwrite-nil (suc k) (x ∷ es) = ap (◌∷◌ x) (overwrite-nil k es)

  -- The first new element, and then the others.
  pub overwrite-cons :
      (k : ℕ) (e : A) (new es : List A)
      → k ≤ length es
      → overwrite (suc k) new (overwrite k (e ∷ []) es) ≡ overwrite k (e ∷ new) es
  overwrite-cons zero e new [] h = ap (λ xs. e ∷ (new ++ xs)) (drop-nil (length new))
  overwrite-cons zero e new (x ∷ es) h = refl
  overwrite-cons (suc k) e new [] h = ground (arith, h)
  overwrite-cons (suc k) e new (x ∷ es) h =
      ap (◌∷◌ x) (overwrite-cons k e new es (omega (arith, h)))

  pub length-overwrite :
      (k : ℕ) (e : A) (es : List A) → k ≤ length es → suc k ≤ length (overwrite k (e ∷ []) es)
  length-overwrite zero e es h = omega arith
  length-overwrite (suc k) e [] h = ground (arith, h)
  length-overwrite (suc k) e (x ∷ es) h = omega (arith, length-overwrite k e es (omega (arith, h)))

  pub overwrite-all : (new : List A) → overwrite 0 new [] ≡ new
  overwrite-all new = ap (λ xs. new ++ xs) (drop-nil (length new)) ∙ append-nil new

  pub overwrite-run :
      (i k : ℕ) (e : A) (es : List A)
      → k ≤ length es
      → insert (i + k) e (run i es) ≡ run i (overwrite k (e ∷ []) es)
  unfolding run insert
  overwrite-run i zero e [] h = ground arith
  overwrite-run i (suc k) e [] h = ground (arith, h)
  overwrite-run i zero e (x ∷ es) h = ground arith
  overwrite-run i (suc k) e (x ∷ es) h =
      let next : suc i + k ≡ i + suc k = omega arith in
      ground (arith, overwrite-run (suc i) k e es (omega (arith, h)), next)

  pub erase_from_lower_bound-run :
      (i n : ℕ) (es : List A) → erase_from_lower_bound (i + n) (run i es) ≡ run i (take n es)
  unfolding run erase_from_lower_bound
  erase_from_lower_bound-run i zero [] = refl
  erase_from_lower_bound-run i (suc n) [] = refl
  erase_from_lower_bound-run i zero (x ∷ es) = ground arith
  erase_from_lower_bound-run i (suc n) (x ∷ es) =
      let next : suc i + n ≡ i + suc n = omega arith in
      ground (arith, erase_from_lower_bound-run (suc i) n es, next)

  erase-run_below : (k i : ℕ) (es : List A) → k < i → erase k (run i es) ≡ run i es
  unfolding run erase
  erase-run_below k i [] h = refl
  erase-run_below k i (e ∷ es) h = ground (arith, erase-run_below k (suc i) es)

  pub run-nil : (i j : ℕ) → run {A = A} i [] ≡ run j []
  unfolding run
  run-nil i j = refl

  pub erase-run_nil : (k i j : ℕ) → erase k (run {A = A} i []) ≡ run j []
  unfolding run erase
  erase-run_nil k i j = refl

  pub erase-run : (i : ℕ) (e : A) (es : List A) → erase i (run i (e ∷ es)) ≡ run (suc i) es
  unfolding run erase
  erase-run i e es = ground (arith, erase-run_below i (suc i) es)

  -- The entries behind the dummy of index 0.
  pub find-behind :
      (k i : ℕ) (d : A) (es : List A) → 0 < k → find k ((0, d) ∷ run i es) ≡ find k (run i es)
  unfolding find
  find-behind k i d es h = ground arith

  pub find-front : (i : ℕ) (d : A) (es : List A) → find 0 ((0, d) ∷ run i es) ≡ some d
  unfolding find
  find-front i d es = refl

  pub insert-behind :
      (k : ℕ) (e d : A) (m : StdMap ℕ A) → 0 < k → insert k e ((0, d) ∷ m) ≡ (0, d) ∷ insert k e m
  unfolding insert
  insert-behind k e d m h = ground arith

  pub erase_from_lower_bound-behind :
      (k : ℕ) (d : A) (m : StdMap ℕ A)
      → 0 < k
      → erase_from_lower_bound k ((0, d) ∷ m) ≡ (0, d) ∷ erase_from_lower_bound k m
  unfolding erase_from_lower_bound
  erase_from_lower_bound-behind k d m h = ground arith

  pub erase-behind :
      (k : ℕ) (d : A) (m : StdMap ℕ A) → 0 < k → erase k ((0, d) ∷ m) ≡ (0, d) ∷ erase k m
  unfolding erase
  erase-behind k d m h = ground arith

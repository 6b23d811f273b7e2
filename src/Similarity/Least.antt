-- ===== src/Similarity/Least.antt =====
-- The pairs that `find_top_k_similar_vectors` finds, against all pairs in the order of the vectors.
use mathlib.Core.List.{append-nil, Perm, perm_middle}
use mathlib.Core.List.Perm
use mathlib.Core.Path.{subst}
use learn_vector_db.Prelude.{
  ℕ, ◌+◌, true, false, List, [], ◌∷◌, ◌++◌, take, ◌≡◌, refl, sym, ap, ◌∙◌, arith, Bool-cases, inl,
  inr,
}
use learn_vector_db.Result.{Result, ok, throw, ◌>>=◌, Result-cases}
use learn_vector_db.Json.{ℤ}
use learn_vector_db.Similarity.{
  MetricType, Floats, as_size, Pair, compute_similarity, pair_less, push,
  find_top_k_similar_vectors,
}
use learn_vector_db.Similarity.TopK.{all_pairs, find_top_k-all_pairs}

-- The order of `float` without NaN.
pub record FloatLaws (f : Floats) : Type 0 where
  pub less_asym : (a b : f.Float) → f.less a b ≡ true → f.less b a ≡ false
  pub less_chain : (a b c : f.Float) → f.less b a ≡ false → f.less c b ≡ false → f.less c a ≡ false

module _ (f : Floats) where
  -- Each vector with its similarity, in the order of the vectors.
  unfoldable pub scored :
      List f.Float → ℕ → MetricType → List (List f.Float) → Result (List (Pair f))
  scored target i metric [] = ok []
  scored target i metric (v ∷ vs) = do
    similarity ← compute_similarity f target v metric
    rest ← scored target (i + 1) metric vs
    ok ((similarity, i) ∷ rest)

  -- No pair of the list is less similar than `x`.
  abbrev pub AllFrom : Pair f → List (Pair f) → Type 0
  AllFrom x [] = Unit
  AllFrom x (y ∷ q) = (f.less y.0 x.0 ≡ false) × AllFrom x q

  abbrev pub Ascending : List (Pair f) → Type 0
  Ascending [] = Unit
  Ascending (x ∷ q) = AllFrom x q × Ascending q

  -- The first `k` of the pairs in ascending order, or the throw.
  abbrev pub FindsLeast : ℕ → Result (List (Pair f)) → Result (List (Pair f)) → Type 0
  FindsLeast k (throw e) found = found ≡ throw e
  FindsLeast k (ok ps) found =
      (sorted : List (Pair f)) × Perm ps sorted × Ascending sorted × (found ≡ ok (take k sorted))

  push_all : List (Pair f) → List (Pair f) → List (Pair f)
  push_all [] q = q
  push_all (p ∷ ps) q = push_all ps (push f p q)

  all_pairs_lem :
      (target : List f.Float) (i : ℕ) (metric : MetricType) (vs : List (List f.Float))
      (q : List (Pair f))
      → all_pairs f target i metric vs q ≡ (scored target i metric vs >>= λ ps. ok (push_all ps q))
  unfolding all_pairs scored push_all
  all_pairs_lem target i metric [] q = refl
  all_pairs_lem target i metric (v ∷ vs) q =
      elim (Result-cases (compute_similarity f target v metric)) [
        | inr (e, bad) ↦ rw bad refl
        | inl (s, good) ↦ rw good (
            all_pairs_lem target (i + 1) metric vs (push f (s, i) q)
            ∙ (elim (Result-cases (scored target (i + 1) metric vs)) [
              | inr (e, bad) ↦ rw bad refl
              | inl (ps, got) ↦ rw got refl
            ]))
      ]

  push-Perm : (x : Pair f) (q : List (Pair f)) → Perm (x ∷ q) (push f x q)
  unfolding push
  push-Perm x [] = Perm.refl (x ∷ [])
  push-Perm x (y ∷ q) = elim (Bool-cases (pair_less f x y)) [
    | inl less ↦ rw less (Perm.refl (x ∷ y ∷ q))
    | inr more ↦ rw more (Perm.trans (Perm.swap y x q) (Perm.cons y (push-Perm x q)))
  ]

  push_all-Perm : (ps q : List (Pair f)) → Perm (ps ++ q) (push_all ps q)
  unfolding push_all
  push_all-Perm [] q = Perm.refl q
  push_all-Perm (p ∷ ps) q =
      Perm.trans (Perm.symm (perm_middle ps q))
        (Perm.trans (Perm.append_left ps (push-Perm p q)) (push_all-Perm ps (push f p q)))

  module _ (laws : FloatLaws f) where
    AllFrom-weaken :
        (x y : Pair f) (q : List (Pair f)) → f.less y.0 x.0 ≡ false → AllFrom y q → AllFrom x q
    AllFrom-weaken x y [] h k = tt
    AllFrom-weaken x y (z ∷ q) h k = (laws.less_chain x.0 y.0 z.0 h k.0, AllFrom-weaken x y q h k.1)

    AllFrom-push :
        (y x : Pair f) (q : List (Pair f))
        → f.less x.0 y.0 ≡ false
        → AllFrom y q
        → AllFrom y (push f x q)
    unfolding push
    AllFrom-push y x [] h k = (h, tt)
    AllFrom-push y x (z ∷ q) h k = elim (Bool-cases (pair_less f x z)) [
      | inl less ↦ rw less (h, k)
      | inr more ↦ rw more (k.0, AllFrom-push y x q h k.1)
    ]

    before : (x y : Pair f) → pair_less f x y ≡ true → f.less y.0 x.0 ≡ false
    unfolding pair_less
    before (s, i) (t, j) h = elim (Bool-cases (f.less s t)) [
      | inl less ↦ laws.less_asym s t less
      | inr more ↦ ground (arith, more, h)
    ]

    behind : (x y : Pair f) → pair_less f x y ≡ false → f.less x.0 y.0 ≡ false
    unfolding pair_less
    behind (s, i) (t, j) h = ground (arith, h)

    push-Ascending : (x : Pair f) (q : List (Pair f)) → Ascending q → Ascending (push f x q)
    unfolding push
    push-Ascending x [] h = (tt, tt)
    push-Ascending x (y ∷ q) h = elim (Bool-cases (pair_less f x y)) [
      | inl less ↦ rw less ((before x y less, AllFrom-weaken x y q (before x y less) h.0), h)
      | inr more ↦ rw more (AllFrom-push y x q (behind x y more) h.0, push-Ascending x q h.1)
    ]

    push_all-Ascending : (ps q : List (Pair f)) → Ascending q → Ascending (push_all ps q)
    unfolding push_all
    push_all-Ascending [] q h = h
    push_all-Ascending (p ∷ ps) q h = push_all-Ascending ps (push f p q) (push-Ascending p q h)

    found-FindsLeast :
        (k : ℕ) (r : Result (List (Pair f)))
        → FindsLeast k r ((r >>= λ ps. ok (push_all ps [])) >>= λ ps. ok (take k ps))
    found-FindsLeast k (throw e) = refl
    found-FindsLeast k (ok ps) = (
      push_all ps [],
      subst (λ xs. Perm xs (push_all ps [])) (append-nil ps) (push_all-Perm ps []),
      push_all-Ascending ps [] tt,
      refl,
    )

    -- If the similarity of each vector can be computed, the pairs found are the first `k` of a list
    -- that has each vector's pair of its similarity and its index and ascends by similarity: those of
    -- `k` least similar vectors, the least similar first. A throw of one similarity is the result. A
    -- negative `k` counts as the size that it converts to. No similarity is NaN.
    pub find_top_k_lem :
        (target : List f.Float) (vectors : List (List f.Float)) (k : ℤ) (metric : MetricType)
        → FindsLeast
            (as_size k)
            (scored target 0 metric vectors)
            (find_top_k_similar_vectors f target vectors k metric)
    find_top_k_lem target vectors k metric =
        subst (FindsLeast (as_size k) (scored target 0 metric vectors))
          (sym (
            find_top_k-all_pairs f target vectors k metric
            ∙ ap (λ r. r >>= λ ps. ok (take (as_size k) ps))
                (all_pairs_lem target 0 metric vectors [])))
          (found-FindsLeast (as_size k) (scored target 0 metric vectors))

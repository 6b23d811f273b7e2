-- ===== src/Similarity/TopK.antt =====
-- The queue of at most `k` pairs of `find_top_k_similar_vectors`, against one that keeps every pair.
use mathlib.Core.List.{append-nil}
use learn_vector_db.Prelude.{
  ℕ, zero, suc, ◌+◌, ◌≤◌, some, List, [], ◌∷◌, ◌++◌, length, take, ltb, if◌then◌else◌, ◌≡◌, refl,
  sym, ap, ◌∙◌, arith, Bool-cases, inl, inr,
}
use learn_vector_db.Result.{Result, ok, throw, ◌>>=◌, Result-cases}
use learn_vector_db.Json.{ℤ}
use learn_vector_db.Similarity.{
  MetricType, Floats, as_size, Pair, compute_similarity, pair_less, push, pop, top, search_loop,
  drain, reverse_onto, find_top_k_similar_vectors,
}

module _ (f : Floats) where
  -- The loop with a queue that keeps every pair.
  unfoldable pub all_pairs :
      List f.Float → ℕ → MetricType → List (List f.Float) → List (Pair f) → Result (List (Pair f))
  all_pairs target i metric [] ps = ok ps
  all_pairs target i metric (v ∷ vs) ps = do
    similarity ← compute_similarity f target v metric
    all_pairs target (i + 1) metric vs (push f (similarity, i) ps)

  length-push : (x : Pair f) (q : List (Pair f)) → length (push f x q) ≡ suc (length q)
  unfolding push
  length-push x [] = refl
  length-push x (y ∷ q) = ground (arith, length-push x q)

  take-take : (m n : ℕ) (q : List (Pair f)) → m ≤ n → take m (take n q) ≡ take m q
  take-take zero n q h = ground arith
  take-take (suc m) zero q h = elim h [ ]
  take-take (suc m) (suc n) [] h = refl
  take-take (suc m) (suc n) (x ∷ q) h = ap (◌∷◌ x) (take-take m n q (omega (arith, h)))

  take-cons : (k : ℕ) (y : Pair f) (q : List (Pair f)) → take k (y ∷ take k q) ≡ take k (y ∷ q)
  take-cons zero y q = refl
  take-cons (suc k) y q = ap (◌∷◌ y) (take-take k (suc k) q (omega arith))

  -- What is not among the first `k` makes no difference to them.
  take-push :
      (k : ℕ) (x : Pair f) (q : List (Pair f)) → take k (push f x (take k q)) ≡ take k (push f x q)
  unfolding push
  take-push zero x q = ground arith
  take-push (suc k) x [] = refl
  take-push (suc k) x (y ∷ q) = elim (Bool-cases (pair_less f x y)) [
    | inl less ↦ rw less (ap (◌∷◌ x) (take-cons k y q))
    | inr more ↦ rw more (ap (◌∷◌ y) (take-push k x q))
  ]

  pop-take : (k : ℕ) (q : List (Pair f)) → length q ≡ suc k → pop f q ≡ take k q
  unfolding pop
  pop-take k [] h = ground (arith, h)
  pop-take zero (x ∷ []) h = refl
  pop-take (suc k) (x ∷ []) h = ground (arith, h)
  pop-take zero (x ∷ y ∷ q) h = ground (arith, h)
  pop-take (suc k) (x ∷ y ∷ q) h = ap (◌∷◌ x) (pop-take k (y ∷ q) (omega (arith, h)))

  take_short : (k : ℕ) (q : List (Pair f)) → length q ≤ k → take k q ≡ q
  take_short zero [] h = refl
  take_short zero (x ∷ q) h = elim h [ ]
  take_short (suc k) [] h = refl
  take_short (suc k) (x ∷ q) h = ap (◌∷◌ x) (take_short k q (omega (arith, h)))

  length-take_bound : (k : ℕ) (q : List (Pair f)) → length (take k q) ≤ k
  length-take_bound zero q = ground arith
  length-take_bound (suc k) [] = omega arith
  length-take_bound (suc k) (x ∷ q) = omega (arith, length-take_bound k q)

  -- A pair that comes into a queue of at most `k` pairs.
  enter :
      (k : ℕ) (q : List (Pair f))
      → length q ≤ suc k
      → (if ltb k (length q) then pop f q else q) ≡ take k q
  enter k q h = elim (Bool-cases (ltb k (length q))) [
    | inl long ↦ rw long (pop-take k q (ground (arith, h, long)))
    | inr short ↦ rw short (sym (take_short k q (ground (arith, short))))
  ]

  search_loop-all_pairs :
      (target : List f.Float) (k i : ℕ) (metric : MetricType) (vs : List (List f.Float))
      (q : List (Pair f))
      → search_loop f target k i metric vs (take k q)
        ≡ (all_pairs target i metric vs q >>= λ ps. ok (take k ps))
  unfolding search_loop all_pairs
  search_loop-all_pairs target k i metric [] q = refl
  search_loop-all_pairs target k i metric (v ∷ vs) q =
      elim (Result-cases (compute_similarity f target v metric)) [
        | inr (e, bad) ↦ rw bad refl
        | inl (s, good) ↦ rw good (
            ap (search_loop f target k (i + 1) metric vs) (
              enter k (push f (s, i) (take k q))
                (omega (arith, length-push (s, i) (take k q), length-take_bound k q))
              ∙ take-push k (s, i) q)
            ∙ search_loop-all_pairs target k (i + 1) metric vs (push f (s, i) q))
      ]

  split_last :
      (x : Pair f) (q done : List (Pair f))
      → (y : Pair f) × (top f (x ∷ q) ≡ some y)
        × (pop f (x ∷ q) ++ y ∷ done ≡ (x ∷ q) ++ done)
        × (length (pop f (x ∷ q)) ≡ length q)
  unfolding top pop
  split_last x [] done = (x, refl, refl, refl)
  split_last x (z ∷ q) done =
      let (y, t, p, n) = split_last z q done in (y, t, ap (◌∷◌ x) p, ap suc n)

  -- The queue is emptied from its end, and turned around.
  reverse-drain :
      (n : ℕ) (q done : List (Pair f))
      → length q ≡ n
      → reverse_onto f (drain f n q) done ≡ q ++ done
  unfolding drain reverse_onto
  reverse-drain zero [] done h = refl
  reverse-drain zero (x ∷ q) done h = ground (arith, h)
  reverse-drain (suc n) [] done h = ground (arith, h)
  reverse-drain (suc n) (x ∷ q) done h =
      let (y, t, p, m) = split_last x q done in
      rw (t, drain) (reverse-drain n (pop f (x ∷ q)) (y ∷ done) (omega (arith, m, h)) ∙ p)

  emptied :
      (k : ℕ) (r : Result (List (Pair f)))
      → ((r >>= λ ps. ok (take k ps)) >>= λ pq. ok (reverse_onto f (drain f (length pq) pq) []))
        ≡ (r >>= λ ps. ok (take k ps))
  emptied k (throw e) = refl
  emptied k (ok ps) =
      ap ok (reverse-drain (length (take k ps)) (take k ps) [] refl ∙ append-nil (take k ps))

  -- The queue of at most `k` pairs finds the first `k` of the queue that keeps all.
  pub find_top_k-all_pairs :
      (target : List f.Float) (vectors : List (List f.Float)) (k : ℤ) (metric : MetricType)
      → find_top_k_similar_vectors f target vectors k metric
        ≡ (all_pairs target 0 metric vectors [] >>= λ ps. ok (take (as_size k) ps))
  unfolding find_top_k_similar_vectors
  find_top_k-all_pairs target vectors k metric =
      ap
        (λ q. search_loop f target (as_size k) 0 metric vectors q >>= λ pq.
          ok (reverse_onto f (drain f (length pq) pq) []))
        (sym (take_short (as_size k) [] (omega arith)))
      ∙ ap (λ r. r >>= λ pq. ok (reverse_onto f (drain f (length pq) pq) []))
          (search_loop-all_pairs target (as_size k) 0 metric vectors [])
      ∙ emptied (as_size k) (all_pairs target 0 metric vectors [])

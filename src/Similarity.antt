-- ===== src/Similarity.antt =====
-- `VectorSimilarity` of in_mem_vector_similarity.h, which no other part uses. The arithmetic of
-- `float` is a parameter. `std::priority_queue` is the list of its pairs in ascending order, so that
-- its top stands last. A read behind the end of a vector is the result `aborted`. The throw of
-- `compute_similarity` is not modelled: the enumeration has no other value.
pub mod TopK
pub mod Least
use learn_vector_db.Prelude.{
  ℕ, zero, suc, ◌+◌, ◌-◌, ◌^◌, Bool, true, false, not, ◌&&◌, ◌||◌, Option, none, some, List, [],
  ◌∷◌, length, ltb, if◌then◌else◌,
}
use learn_vector_db.Result.{Result, ok, throw, aborted, ◌>>=◌}
use learn_vector_db.Json.{ℤ, pos, negsuc}

pub data MetricType : Type 0 where
  cosine dot_product euclidean : MetricType

pub record Floats : Type 1 where
  pub Float : Type 0
  pub zero_float : Float
  pub add : Float → Float → Float
  pub subtract : Float → Float → Float
  pub multiply : Float → Float → Float
  pub negate : Float → Float
  pub sqrt : Float → Float
  -- `dot / (sqrt(denom_a) * sqrt(denom_b))`
  pub over_roots : Float → Float → Float → Float
  pub less : Float → Float → Bool

-- The size that the `int` is compared as.
unfoldable pub as_size : ℤ → ℕ
as_size (pos k) = k
as_size (negsuc n) = 2 ^ 64 - (n + 1)

module _ (f : Floats) where
  open f use {Float}

  abbrev pub Pair : Type 0
  Pair = Float × ℕ

  -- The loop of `cosine_similarity`: `dot`, `denom_a` and `denom_b`.
  unfoldable pub cosine_sums :
      List Float → List Float → Float → Float → Float → Result (Float × Float × Float)
  cosine_sums [] ys dot a b = ok (dot, a, b)
  cosine_sums (x ∷ xs) [] dot a b = throw aborted
  cosine_sums (x ∷ xs) (y ∷ ys) dot a b =
      cosine_sums xs ys (f.add dot (f.multiply x y)) (f.add a (f.multiply x x))
        (f.add b (f.multiply y y))

  unfoldable pub cosine_similarity : List Float → List Float → Result Float
  cosine_similarity v1 v2 = do
    (dot, denom_a, denom_b) ← cosine_sums v1 v2 f.zero_float f.zero_float f.zero_float
    ok (f.over_roots dot denom_a denom_b)

  unfoldable pub dot_sum : List Float → List Float → Float → Result Float
  dot_sum [] ys sum = ok sum
  dot_sum (x ∷ xs) [] sum = throw aborted
  dot_sum (x ∷ xs) (y ∷ ys) sum = dot_sum xs ys (f.add sum (f.multiply x y))

  unfoldable pub distance_sum : List Float → List Float → Float → Result Float
  distance_sum [] ys sum = ok sum
  distance_sum (x ∷ xs) [] sum = throw aborted
  distance_sum (x ∷ xs) (y ∷ ys) sum =
      distance_sum xs ys (f.add sum (f.multiply (f.subtract x y) (f.subtract x y)))

  unfoldable pub euclidean_distance : List Float → List Float → Result Float
  euclidean_distance v1 v2 = do sum ← distance_sum v1 v2 f.zero_float; ok (f.sqrt sum)

  unfoldable pub compute_similarity : List Float → List Float → MetricType → Result Float
  compute_similarity v1 v2 cosine = cosine_similarity v1 v2
  compute_similarity v1 v2 dot_product = dot_sum v1 v2 f.zero_float
  compute_similarity v1 v2 euclidean = do d ← euclidean_distance v1 v2; ok (f.negate d)

  -- `operator<` of the pairs.
  unfoldable pub pair_less : Pair → Pair → Bool
  pair_less (s, i) (t, j) = f.less s t || (not (f.less t s) && ltb i j)

  unfoldable pub push : Pair → List Pair → List Pair
  push x [] = x ∷ []
  push x (y ∷ q) = let rest = push x q in if pair_less x y then x ∷ y ∷ q else y ∷ rest

  unfoldable pub pop : List Pair → List Pair
  pop [] = []
  pop (x ∷ []) = []
  pop (x ∷ y ∷ q) = x ∷ pop (y ∷ q)

  unfoldable pub top : List Pair → Option Pair
  top [] = none
  top (x ∷ []) = some x
  top (x ∷ y ∷ q) = top (y ∷ q)

  -- The loop over the vectors, from index `i` on.
  unfoldable pub search_loop :
      List Float → ℕ → ℕ → MetricType → List (List Float) → List Pair → Result (List Pair)
  search_loop target k i metric [] pq = ok pq
  search_loop target k i metric (v ∷ vs) pq = do
    similarity ← compute_similarity target v metric
    let pq' = push (similarity, i) pq
    search_loop target k (i + 1) metric vs (if ltb k (length pq') then pop pq' else pq')

  -- The loop that empties the queue, in rounds.
  unfoldable pub drain : ℕ → List Pair → List Pair
  drain zero pq = []
  drain (suc rounds) pq = elim (top pq) [ none ↦ [] | some x ↦ x ∷ drain rounds (pop pq) ]

  -- `std::reverse`
  unfoldable pub reverse_onto : List Pair → List Pair → List Pair
  reverse_onto [] done = done
  reverse_onto (x ∷ xs) done = reverse_onto xs (x ∷ done)

  unfoldable pub find_top_k_similar_vectors :
      List Float → List (List Float) → ℤ → MetricType → Result (List Pair)
  find_top_k_similar_vectors target vectors k metric = do
    pq ← search_loop target (as_size k) 0 metric vectors []
    ok (reverse_onto (drain (length pq) pq) [])

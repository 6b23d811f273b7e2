-- ===== src/Tests/Similarities.antt =====
-- The theorem on the similarity of vectors, with natural numbers for the arithmetic.
use learn_vector_db.Prelude.{ℕ, ◌+◌, ◌-◌, ◌*◌, List, [], ◌∷◌, ltb, ◌≡◌, refl, arith}
use learn_vector_db.Result.{ok}
use learn_vector_db.Json.{pos}
use learn_vector_db.Similarity.{
  Floats, dot_product, compute_similarity, pair_less, push, find_top_k_similar_vectors, as_size,
  dot_sum, search_loop, pop, top, drain, reverse_onto,
}
use learn_vector_db.Similarity.Least.{FloatLaws, FindsLeast, scored, find_top_k_lem}

abbrev naturals : Floats
naturals = record {
  Float = ℕ;
  zero_float = 0;
  add = λ a b. a + b;
  subtract = λ a b. a - b;
  multiply = λ a b. a * b;
  negate = λ a. 1000 - a;
  sqrt = λ a. a;
  over_roots = λ a b c. a;
  less = ltb;
}

abbrev vectors : List (List ℕ)
vectors = (5 ∷ []) ∷ (1 ∷ []) ∷ (9 ∷ []) ∷ (3 ∷ []) ∷ []

naturals_laws : FloatLaws naturals
naturals_laws = record {
  less_asym = λ a b h. ground (arith, h);
  less_chain = λ a b c h k. ground (arith, h, k);
}

-- Of the products 10, 2, 18 and 6 the two least are found, in the order of their size.
find_top_k_example :
    FindsLeast naturals 2
      (ok ((10, 0) ∷ (2, 1) ∷ (18, 2) ∷ (6, 3) ∷ []))
      (find_top_k_similar_vectors naturals (2 ∷ []) vectors (pos 2) dot_product)
unfolding as_size scored compute_similarity dot_sum
find_top_k_example = find_top_k_lem naturals naturals_laws (2 ∷ []) vectors (pos 2) dot_product

two_least :
    find_top_k_similar_vectors naturals (2 ∷ []) vectors (pos 2) dot_product
    ≡ ok ((2, 1) ∷ (6, 3) ∷ [])
unfolding find_top_k_similar_vectors as_size search_loop compute_similarity dot_sum push pop top
    pair_less drain reverse_onto
two_least = refl

-- ===== src/StdMap.antt =====
-- `std::map` as the list of its pairs in the order of the keys: `find`, `operator[]` with an
-- assignment, `erase`, `lower_bound` and `upper_bound`, as the program uses them.
pub mod Ordered
use learn_vector_db.Prelude.{
  ◌≡◌, refl, Option, none, some, List, [], ◌∷◌, arith, Key, nat_key, if◌then◌else◌,
}

abbrev pub StdMap {ℓ κ} : Type ℓ → Type κ → Type (ℓ ⊔ κ)
StdMap K V = List (K × V)

module _ {ℓ κ} {K : Type ℓ} {V : Type κ} ⦃key : Key K⦄ where
  unfoldable pub find : K → StdMap K V → Option V
  find k [] = none
  find k ((j, v) ∷ m) = if key.beq j k then some v else find k m

  -- `m[k] = v`
  unfoldable pub insert : K → V → StdMap K V → StdMap K V
  insert k v [] = (k, v) ∷ []
  insert k v ((j, w) ∷ m) =
      if key.beq j k
      then (k, v) ∷ m
      else if key.less k j
      then (k, v) ∷ (j, w) ∷ m
      else (j, w) ∷ insert k v m

  unfoldable pub erase : K → StdMap K V → StdMap K V
  erase k [] = []
  erase k ((j, w) ∷ m) = if key.beq j k then erase k m else (j, w) ∷ erase k m

  -- `while (itr != end()) itr = erase(itr)` from `lower_bound(k)` on: what stays is below `k`.
  unfoldable pub erase_from_lower_bound : K → StdMap K V → StdMap K V
  erase_from_lower_bound k [] = []
  erase_from_lower_bound k ((j, w) ∷ m) =
      if key.less j k then (j, w) ∷ erase_from_lower_bound k m else []

  -- The pair at `upper_bound(k)`: the first whose key is above `k`, if there is one.
  unfoldable pub upper_bound : K → StdMap K V → Option (K × V)
  upper_bound k [] = none
  upper_bound k ((j, w) ∷ m) = if key.less k j then some (j, w) else upper_bound k m

  pub find-insert :
      (k j : K) (v : V) (m : StdMap K V)
      → find j (insert k v m) ≡ (if key.beq k j then some v else find j m)
  unfolding find insert
  find-insert k j v [] = refl
  find-insert k j v ((i, w) ∷ m) =
      ground (arith, key.beq_iff k j, key.beq_iff i k, key.beq_iff i j, find-insert k j v m)

  pub find-erase :
      (k j : K) (m : StdMap K V) → find j (erase k m) ≡ (if key.beq k j then none else find j m)
  unfolding find erase
  find-erase k j [] = ground arith
  find-erase k j ((i, w) ∷ m) =
      ground (arith, key.beq_iff k j, key.beq_iff i k, key.beq_iff i j, find-erase k j m)

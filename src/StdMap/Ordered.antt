-- ===== src/StdMap/Ordered.antt =====
-- A map whose keys ascend, as `std::map` keeps them.
use mathlib.Core.Path.{subst}
use learn_vector_db.Prelude.{
  true, false, none, some, [], ◌∷◌, ◌++◌, Bytes, bytes_less, bytes_eq, bytes_key, Key, ◌≡◌, refl,
  arith, Bool-cases, inl, inr,
}
use learn_vector_db.Json.{ℤ, pos, negsuc, int_eq, int_less, int_key}
use learn_vector_db.StdMap.{StdMap, find, insert}

-- The order of the keys is total.
pub record KeyOrder {ℓ} (K : Type ℓ) ⦃key : Key K⦄ : Type ℓ where
  pub less_trans : (a b c : K) → key.less a b ≡ true → key.less b c ≡ true → key.less a c ≡ true
  pub less_apart : (a b : K) → key.less a b ≡ true → (key.beq a b ≡ false) × (key.less b a ≡ false)
  pub less_total : (a b : K) → key.beq a b ≡ false → key.less a b ≡ false → key.less b a ≡ true

bytes_less_trans :
    (a b c : Bytes) → bytes_less a b ≡ true → bytes_less b c ≡ true → bytes_less a c ≡ true
unfolding bytes_less
bytes_less_trans [] [] [] h k = ground arith
bytes_less_trans [] (y ∷ b) [] h k = ground arith
bytes_less_trans [] b (z ∷ c) h k = ground arith
bytes_less_trans (x ∷ a) [] c h k = ground arith
bytes_less_trans (x ∷ a) (y ∷ b) [] h k = ground arith
bytes_less_trans (x ∷ a) (y ∷ b) (z ∷ c) h k = ground (arith, bytes_less_trans a b c)

bytes_less_total :
    (a b : Bytes) → bytes_eq a b ≡ false → bytes_less a b ≡ false → bytes_less b a ≡ true
unfolding bytes_less bytes_eq
bytes_less_total [] [] h k = ground arith
bytes_less_total [] (y ∷ b) h k = ground arith
bytes_less_total (x ∷ a) [] h k = ground arith
bytes_less_total (x ∷ a) (y ∷ b) h k = ground (arith, bytes_less_total a b)

bytes_less_apart :
    (a b : Bytes) → bytes_less a b ≡ true → (bytes_eq a b ≡ false) × (bytes_less b a ≡ false)
unfolding bytes_less bytes_eq
bytes_less_apart [] [] h = ground arith
bytes_less_apart [] (y ∷ b) h = ground arith
bytes_less_apart (x ∷ a) [] h = ground arith
bytes_less_apart (x ∷ a) (y ∷ b) h = ground (arith, bytes_less_apart a b)

pub bytes_order : KeyOrder Bytes
bytes_order = record {
  less_trans = bytes_less_trans;
  less_apart = bytes_less_apart;
  less_total = bytes_less_total;
}

int_less_trans : (a b c : ℤ) → int_less a b ≡ true → int_less b c ≡ true → int_less a c ≡ true
unfolding int_less
int_less_trans (pos a) (pos b) (pos c) h k = ground arith
int_less_trans (pos a) (pos b) (negsuc c) h k = ground arith
int_less_trans (pos a) (negsuc b) c h k = ground arith
int_less_trans (negsuc a) (pos b) (pos c) h k = ground arith
int_less_trans (negsuc a) (pos b) (negsuc c) h k = ground arith
int_less_trans (negsuc a) (negsuc b) (pos c) h k = ground arith
int_less_trans (negsuc a) (negsuc b) (negsuc c) h k = ground arith

int_less_total : (a b : ℤ) → int_eq a b ≡ false → int_less a b ≡ false → int_less b a ≡ true
unfolding int_less int_eq
int_less_total (pos a) (pos b) h k = ground arith
int_less_total (pos a) (negsuc b) h k = ground arith
int_less_total (negsuc a) (pos b) h k = ground arith
int_less_total (negsuc a) (negsuc b) h k = ground arith

int_less_apart : (a b : ℤ) → int_less a b ≡ true → (int_eq a b ≡ false) × (int_less b a ≡ false)
unfolding int_less int_eq
int_less_apart (pos a) (pos b) h = ground arith
int_less_apart (pos a) (negsuc b) h = ground arith
int_less_apart (negsuc a) (pos b) h = ground arith
int_less_apart (negsuc a) (negsuc b) h = ground arith

pub int_order : KeyOrder ℤ
int_order = record {
  less_trans = int_less_trans;
  less_apart = int_less_apart;
  less_total = int_less_total;
}

apart {ℓ} : {K : Type ℓ} ⦃key : Key K⦄ (k j : K) → key.beq j k ≡ false → key.beq k j ≡ false
apart ⦃key⦄ k j h = ground (arith, key.beq_iff k j, key.beq_iff j k)

module _ {ℓ κ} {K : Type ℓ} {V : Type κ} ⦃key : Key K⦄ where
  -- Every key of the map is above `k`, or below it.
  abbrev pub KeysAbove : K → StdMap K V → Type 0
  KeysAbove k [] = Unit
  KeysAbove k ((j, v) ∷ m) = (key.less k j ≡ true) × KeysAbove k m

  abbrev pub KeysBelow : K → StdMap K V → Type 0
  KeysBelow k [] = Unit
  KeysBelow k ((j, v) ∷ m) = (key.less j k ≡ true) × KeysBelow k m

  abbrev pub IsOrdered : StdMap K V → Type 0
  IsOrdered [] = Unit
  IsOrdered ((j, v) ∷ m) = KeysAbove j m × IsOrdered m

  module _ (order : KeyOrder K) where
    KeysAbove-trans :
        (a b : K) (m : StdMap K V) → key.less a b ≡ true → KeysAbove b m → KeysAbove a m
    KeysAbove-trans a b [] h above = tt
    KeysAbove-trans a b ((j, v) ∷ m) h above =
        (order.less_trans a b j h above.0, KeysAbove-trans a b m h above.1)

    KeysAbove-insert :
        (a k : K) (v : V) (m : StdMap K V)
        → key.less a k ≡ true
        → KeysAbove a m
        → KeysAbove a (insert k v m)
    unfolding insert
    KeysAbove-insert a k v [] h above = (h, tt)
    KeysAbove-insert a k v ((j, w) ∷ m) h above = ground (arith, KeysAbove-insert a k v m h above.1)

    pub insert-IsOrdered : (k : K) (v : V) (m : StdMap K V) → IsOrdered m → IsOrdered (insert k v m)
    unfolding insert
    insert-IsOrdered k v [] h = (tt, tt)
    insert-IsOrdered k v ((j, w) ∷ m) h = elim (Bool-cases (key.beq j k)) [
      | inl same ↦ rw same (subst (λ i. KeysAbove i m) ((key.beq_iff j k).0 same) h.0, h.1)
      | inr other ↦ elim (Bool-cases (key.less k j)) [
        | inl before ↦ rw other (rw before ((before, KeysAbove-trans k j m before h.0), h))
        | inr behind ↦ rw other (
            rw behind (
              KeysAbove-insert j k v m (order.less_total k j (apart k j other) behind) h.0,
              insert-IsOrdered k v m h.1,
            ))
      ]
    ]

    pub insert_last :
        (k : K) (v : V) (m : StdMap K V) → KeysBelow k m → insert k v m ≡ m ++ (k, v) ∷ []
    unfolding insert
    insert_last k v [] h = refl
    insert_last k v ((j, w) ∷ m) h = ground (arith, order.less_apart j k h.0, insert_last k v m h.1)

    pub insert_replace :
        (k : K) (v w : V) (m : StdMap K V)
        → KeysBelow k m
        → insert k w (m ++ (k, v) ∷ []) ≡ m ++ (k, w) ∷ []
    unfolding insert
    insert_replace k v w [] h = ground (arith, key.beq_iff k k)
    insert_replace k v w ((j, u) ∷ m) h =
        ground (arith, order.less_apart j k h.0, insert_replace k v w m h.1)

    pub find_below : (k : K) (m : StdMap K V) → KeysBelow k m → find k m ≡ none
    unfolding find
    find_below k [] h = refl
    find_below k ((j, w) ∷ m) h = ground (arith, order.less_apart j k h.0, find_below k m h.1)

    pub find_last :
        (k : K) (v : V) (m : StdMap K V) → KeysBelow k m → find k (m ++ (k, v) ∷ []) ≡ some v
    unfolding find
    find_last k v [] h = ground (arith, key.beq_iff k k)
    find_last k v ((j, w) ∷ m) h = ground (arith, order.less_apart j k h.0, find_last k v m h.1)

  -- Every key of the first map is below every key of the second.
  abbrev pub AllBelow : StdMap K V → StdMap K V → Type 0
  AllBelow front [] = Unit
  AllBelow front ((k, v) ∷ m) = KeysBelow k front × AllBelow front m

  pub AllBelow-nil : (m : StdMap K V) → AllBelow [] m
  AllBelow-nil [] = tt
  AllBelow-nil ((k, v) ∷ m) = (tt, AllBelow-nil m)

  KeysBelow-last :
      (k j : K) (w : V) (front : StdMap K V)
      → key.less j k ≡ true
      → KeysBelow k front
      → KeysBelow k (front ++ (j, w) ∷ [])
  KeysBelow-last k j w [] h below = (h, tt)
  KeysBelow-last k j w ((i, u) ∷ front) h below = (below.0, KeysBelow-last k j w front h below.1)

  -- The next pair goes from the second map to the end of the first.
  pub AllBelow-next :
      (j : K) (w : V) (front m : StdMap K V)
      → KeysAbove j m
      → AllBelow front m
      → AllBelow (front ++ (j, w) ∷ []) m
  AllBelow-next j w front [] above below = tt
  AllBelow-next j w front ((k, v) ∷ m) above below =
      (KeysBelow-last k j w front above.0 below.0, AllBelow-next j w front m above.1 below.1)

  -- Every pair of the second map is what the first one has under its key.
  abbrev pub AllFound : StdMap K V → StdMap K V → Type (ℓ ⊔ κ)
  AllFound whole [] = Unit
  AllFound whole ((k, v) ∷ m) = (find k whole ≡ some v) × AllFound whole m

  module _ (order : KeyOrder K) where
    AllFound-behind :
        (j : K) (w : V) (whole m : StdMap K V)
        → KeysAbove j m
        → AllFound whole m
        → AllFound ((j, w) ∷ whole) m
    unfolding find
    AllFound-behind j w whole [] above found = tt
    AllFound-behind j w whole ((k, v) ∷ m) above found = (
      ground (arith, order.less_apart j k above.0, found.0),
      AllFound-behind j w whole m above.1 found.1,
    )

    pub IsOrdered-AllFound : (m : StdMap K V) → IsOrdered m → AllFound m m
    unfolding find
    IsOrdered-AllFound [] h = tt
    IsOrdered-AllFound ((k, v) ∷ m) h =
        (ground (arith, key.beq_iff k k), AllFound-behind k v m m h.0 (IsOrdered-AllFound m h.1))

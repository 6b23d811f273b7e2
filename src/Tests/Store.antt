-- ===== src/Tests/Store.antt =====
-- A database as a list of pairs in the order of their keys, and its laws.
use learn_vector_db.Prelude.{
  true, false, Option, none, some, [], ◌∷◌, Bytes, bytes_eq, bytes_eq_iff, bytes_eq_sound,
  bytes_less, bytes_key, ◌≡◌, refl, sym, ap, ◌∙◌, arith, Bool-cases, inl, inr,
}
use learn_vector_db.StdMap.{StdMap, find, insert, find-insert}
use learn_vector_db.StdMap.Ordered.{bytes_order}
use learn_vector_db.ScalarStorage.{RocksDb, RocksLaws, Above, Ascending, drop_below}

pub record Sorted : Type 0 where
  pub pairs : StdMap Bytes Bytes
  pub ascending : Ascending pairs

Above-trans : (a b : Bytes) (m : StdMap Bytes Bytes) → bytes_less a b ≡ true → Above b m → Above a m
Above-trans a b [] h above = tt
Above-trans a b (e ∷ m) h above =
    (bytes_order.less_trans a b e.0 h above.0, Above-trans a b m h above.1)

Above-insert :
    (a k v : Bytes) (m : StdMap Bytes Bytes)
    → bytes_less a k ≡ true
    → Above a m
    → Above a (insert k v m)
unfolding insert
Above-insert a k v [] h above = (h, tt)
Above-insert a k v (e ∷ m) h above = ground (arith, Above-insert a k v m h above.1)

differ : (k j : Bytes) → bytes_eq j k ≡ false → bytes_eq k j ≡ false
differ k j h = ground (arith, bytes_eq_iff k j, bytes_eq_iff j k)

pub Ascending-insert :
    (k v : Bytes) (m : StdMap Bytes Bytes) → Ascending m → Ascending (insert k v m)
unfolding insert
Ascending-insert k v [] h = (tt, tt)
Ascending-insert k v (e ∷ m) h = elim (Bool-cases (bytes_eq e.0 k)) [
  | inl same ↦ rw same ((rw (bytes_eq_sound e.0 k same) at h.0), h.1)
  | inr other ↦ elim (Bool-cases (bytes_less k e.0)) [
    | inl before ↦ rw other (rw before ((before, Above-trans k e.0 m before h.0), h))
    | inr behind ↦ rw other (
        rw behind (
          Above-insert e.0 k v m (bytes_order.less_total k e.0 (differ k e.0 other) behind) h.0,
          Ascending-insert k v m h.1,
        ))
  ]
]

abbrev pub sorted_rocks : RocksDb
sorted_rocks = record {
  Db = Sorted;
  get = λ key db. find key db.pairs;
  put = λ key value db. some (record {
    pairs = insert key value db.pairs;
    ascending = Ascending-insert key value db.pairs db.ascending;
  });
  seek_to_first = λ db. db.pairs;
  seek = λ p db. drop_below p db.pairs;
}

some_injective {ℓ} : {A : Type ℓ} {a b : A} → some a ≡ some b → a ≡ b
some_injective {A} {a} h = ap (λ (o : Option A). elim o [ none ↦ a | some x ↦ x ]) h

pub sorted_rocks_laws : RocksLaws sorted_rocks
sorted_rocks_laws = record {
  get-put = λ key value db db' j stored.
      ap (λ (d : Sorted). find j d.pairs) (sym (some_injective stored))
      ∙ find-insert key j value db.pairs;
  ascending = λ db. db.ascending;
  seek_lem = λ p db. refl;
}

abbrev pub empty_store : Sorted
empty_store = record { pairs = []; ascending = tt }

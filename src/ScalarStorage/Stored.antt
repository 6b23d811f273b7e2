-- ===== src/ScalarStorage/Stored.antt =====
-- What is read back from the scalar storage.
use learn_vector_db.Prelude.{
  ℕ, none, some, [], ◌∷◌, Bytes, bytes_eq, bytes_eq_iff, ◌==◌, if◌then◌else◌, ◌≡◌, refl, arith, ap,
  ◌∙◌, sym, Option-cases, inl, inr,
}
use learn_vector_db.Decimal.{to_string, scan}
use learn_vector_db.Decimal.RoundTrip.{scan-to_string}
use learn_vector_db.Json.{Json, c_str}
use learn_vector_db.ScalarStorage.{RocksDb, RocksLaws, insert_scalar, get_scalar}

to_string_injective : (m n : ℕ) → to_string m ≡ to_string n → m ≡ n
to_string_injective m n h = sym (scan-to_string m) ∙ ap (scan 0) h ∙ scan-to_string n

pub to_string_eq : (m n : ℕ) → bytes_eq (to_string m) (to_string n) ≡ (m == n)
to_string_eq m n = ground (
  arith,
  bytes_eq_iff (to_string m) (to_string n),
  to_string_injective m n,
  λ (e : m ≡ n). ap to_string e,
)

c_str-c_str : (s : Bytes) → c_str (c_str s) ≡ c_str s
unfolding c_str
c_str-c_str [] = refl
c_str-c_str (c ∷ s) = ground (arith, c_str-c_str s)

-- After a document was stored, its identifier reads as what the document parses to when it is
-- written, and every other identifier reads as before; where the database refuses the write, all
-- read as before.
pub get_scalar-insert_scalar :
    (k : RocksDb) (laws : RocksLaws k) (j : Json) (id i : ℕ) (document : j.Value) (db : k.Db)
    → get_scalar k j i (insert_scalar k j id document db)
      ≡ elim (k.put (to_string id) (c_str (j.write document)) db) [
        | none ↦ get_scalar k j i db
        | some _ ↦ if id == i then j.parse (c_str (j.write document)) else get_scalar k j i db
      ]
unfolding get_scalar insert_scalar
get_scalar-insert_scalar k laws j id i document db =
    elim (Option-cases (k.put (to_string id) (c_str (j.write document)) db)) [
      | inl refused ↦ ground arith
      | inr (db', stored) ↦ ground (
        arith,
        laws.get-put (to_string id) (c_str (j.write document)) db db' (to_string i) stored,
        to_string_eq id i,
        c_str-c_str (j.write document),
      )
    ]

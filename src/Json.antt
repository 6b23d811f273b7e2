-- ===== src/Json.antt =====
-- The rapidjson documents that the program reads and builds. The library is not part of the
-- repository, so its values and its accessors are a parameter; an accessor that asserts the kind of
-- its value gives `none` where the assertion fails.
use learn_vector_db.Prelude.{
  ℕ, Bool, true, false, Option, List, [], ◌∷◌, Bytes, Key, ◌≡◌, ◌==◌, ltb, ◌↔◌, arith,
  if◌then◌else◌,
}

-- `negsuc n` is -(n + 1).
pub data ℤ : Type 0 where
  pos : ℕ → ℤ
  negsuc : ℕ → ℤ

unfoldable pub int_eq : ℤ → ℤ → Bool
int_eq (pos a) (pos b) = a == b
int_eq (pos a) (negsuc b) = false
int_eq (negsuc a) (pos b) = false
int_eq (negsuc a) (negsuc b) = a == b

unfoldable pub int_less : ℤ → ℤ → Bool
int_less (pos a) (pos b) = ltb a b
int_less (pos a) (negsuc b) = false
int_less (negsuc a) (pos b) = true
int_less (negsuc a) (negsuc b) = ltb b a

pub int_eq_iff : (a b : ℤ) → (int_eq a b ≡ true) ↔ (a ≡ b)
unfolding int_eq
int_eq_iff (pos a) (pos b) = ground arith
int_eq_iff (pos a) (negsuc b) = ground arith
int_eq_iff (negsuc a) (pos b) = ground arith
int_eq_iff (negsuc a) (negsuc b) = ground arith

instance abbrev pub int_key : Key ℤ
int_key = record { beq = int_eq; less = int_less; beq_iff = int_eq_iff }

pub record Json : Type 1 where
  pub Value : Type 0
  pub Float : Type 0
  -- `Document::Parse`; a text that does not parse gives the null value
  pub parse : Bytes → Value
  -- `Accept` with a `Writer`
  pub write : Value → Bytes
  pub null : Value
  pub is_null : Value → Bool
  pub is_object : Value → Bool
  pub is_string : Value → Bool
  pub is_int : Value → Bool
  -- `FindMember`, which `HasMember` and `operator[]` go by
  pub member : Value → Bytes → Option Value
  pub members : Value → List (Bytes × Value)
  pub get_string : Value → Option Bytes
  pub get_array : Value → Option (List Value)
  pub get_int : Value → Option ℤ
  pub get_int64 : Value → Option ℤ
  pub get_uint64 : Value → Option ℕ
  pub get_float : Value → Option Float
  -- `SetObject` and `AddMember`, `PushBack`, and the scalars
  pub object : List (Bytes × Value) → Value
  pub array : List Value → Value
  pub int : ℤ → Value
  pub uint64 : ℕ → Value
  pub float : Float → Value
  pub string : Bytes → Value
  pub bool : Bool → Value

-- `c_str()`: the text up to its first NUL.
unfoldable pub c_str : Bytes → Bytes
c_str [] = []
c_str (c ∷ s) = if c == 0 then [] else c ∷ c_str s

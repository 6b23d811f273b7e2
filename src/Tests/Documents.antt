-- ===== src/Tests/Documents.antt =====
-- JSON with a notation of its own for texts: the first byte is the member `id`, the others are the
-- member `vectors`.
use learn_vector_db.Prelude.{
  ℕ, Bool, true, false, Option, none, some, List, [], ◌∷◌, ◌++◌, Bytes, codes, bytes_eq,
  if◌then◌else◌,
}
use learn_vector_db.Json.{Json, ℤ, pos, negsuc}

mutual
  pub data Value : Type 0 where
    absent_value : Value
    number : ℤ → Value
    text : Bytes → Value
    truth : Bool → Value
    sequence : Values → Value
    structure : Members → Value

  pub data Values : Type 0 where
    no_values : Values
    next_value : Value → Values → Values

  pub data Members : Type 0 where
    no_members : Members
    next_member : Bytes → Value → Members → Members

abbrev pub values_of : List Value → Values
values_of [] = no_values
values_of (v ∷ vs) = next_value v (values_of vs)

abbrev pub list_of : Values → List Value
list_of no_values = []
list_of (next_value v vs) = v ∷ list_of vs

abbrev pub members_of : List (Bytes × Value) → Members
members_of [] = no_members
members_of ((name, v) ∷ ms) = next_member name v (members_of ms)

abbrev pub pairs_of : Members → List (Bytes × Value)
pairs_of no_members = []
pairs_of (next_member name v ms) = (name, v) ∷ pairs_of ms

abbrev pub find_member : Bytes → List (Bytes × Value) → Option Value
find_member name [] = none
find_member name ((n, v) ∷ ms) = if bytes_eq n name then some v else find_member name ms

abbrev vector_of : Bytes → Values
vector_of [] = no_values
vector_of (c ∷ s) = next_value (number (pos c)) (vector_of s)

abbrev pub parse_text : Bytes → Value
parse_text [] = absent_value
parse_text (c ∷ s) =
    structure
      (members_of ((codes "id", number (pos c)) ∷ (codes "vectors", sequence (vector_of s)) ∷ []))

abbrev mutual
  pub write_value : Value → Bytes
  write_value absent_value = []
  write_value (number (pos n)) = n ∷ []
  write_value (number (negsuc n)) = n ∷ []
  write_value (text s) = s
  write_value (truth b) = []
  write_value (sequence vs) = write_values vs
  write_value (structure ms) = write_members ms

  write_values : Values → Bytes
  write_values no_values = []
  write_values (next_value v vs) = write_value v ++ write_values vs

  write_members : Members → Bytes
  write_members no_members = []
  write_members (next_member name v ms) = write_value v ++ write_members ms

abbrev pub members_of_value : Value → List (Bytes × Value)
members_of_value (structure ms) = pairs_of ms
members_of_value absent_value = []
members_of_value (number _) = []
members_of_value (text _) = []
members_of_value (truth _) = []
members_of_value (sequence _) = []

abbrev pub int_of : Value → Option ℤ
int_of (number n) = some n
int_of absent_value = none
int_of (structure ms) = none
int_of (text _) = none
int_of (truth _) = none
int_of (sequence _) = none

abbrev pub natural_of : Value → Option ℕ
natural_of (number (pos n)) = some n
natural_of (number (negsuc n)) = none
natural_of absent_value = none
natural_of (structure ms) = none
natural_of (text _) = none
natural_of (truth _) = none
natural_of (sequence _) = none

abbrev pub is_null_value : Value → Bool
is_null_value absent_value = true
is_null_value (number _) = false
is_null_value (text _) = false
is_null_value (truth _) = false
is_null_value (sequence _) = false
is_null_value (structure _) = false

abbrev pub is_structure : Value → Bool
is_structure (structure _) = true
is_structure absent_value = false
is_structure (number _) = false
is_structure (text _) = false
is_structure (truth _) = false
is_structure (sequence _) = false

abbrev pub is_text : Value → Bool
is_text (text _) = true
is_text absent_value = false
is_text (number _) = false
is_text (structure _) = false
is_text (truth _) = false
is_text (sequence _) = false

abbrev pub is_number : Value → Bool
is_number (number _) = true
is_number absent_value = false
is_number (text _) = false
is_number (structure _) = false
is_number (truth _) = false
is_number (sequence _) = false

abbrev pub text_of : Value → Option Bytes
text_of (text s) = some s
text_of absent_value = none
text_of (number _) = none
text_of (structure _) = none
text_of (truth _) = none
text_of (sequence _) = none

abbrev pub array_of : Value → Option (List Value)
array_of (sequence vs) = some (list_of vs)
array_of absent_value = none
array_of (number _) = none
array_of (structure _) = none
array_of (truth _) = none
array_of (text _) = none

abbrev pub small_json : Json
small_json = record {
  Value = Value;
  Float = ℕ;
  parse = parse_text;
  write = write_value;
  null = absent_value;
  is_null = is_null_value;
  is_object = is_structure;
  is_string = is_text;
  is_int = is_number;
  member = λ v name. find_member name (members_of_value v);
  members = members_of_value;
  get_string = text_of;
  get_array = array_of;
  get_int = int_of;
  get_int64 = int_of;
  get_uint64 = natural_of;
  get_float = natural_of;
  object = λ ms. structure (members_of ms);
  array = λ vs. sequence (values_of vs);
  int = number;
  uint64 = λ n. number (pos n);
  float = λ n. number (pos n);
  string = text;
  bool = truth;
}

-- ===== src/HttpServer/Scalars.antt =====
-- `getScalarHandler` of http_server.cpp, with the parameters that it reads by `std::strtoul`.
use learn_vector_db.Prelude.{
  ℕ, ◌-◌, ◌%◌, ◌^◌, Bool, true, false, not, ◌||◌, Option, none, some, [], ◌∷◌, map, Bytes, codes,
  null, ◌==◌, ltb, if◌then◌else◌, ◌≡◌, refl,
}
use learn_vector_db.Exec.{pure}
use learn_vector_db.Decimal.{max_u64, is_digit, scan, skip_space}
use learn_vector_db.Json.{c_str}
use learn_vector_db.ScalarStorage.{ScalarKvPage, scan_page}
use learn_vector_db.IndexFactory.{Libraries}
use learn_vector_db.RaftStuff.{RaftServer}
use learn_vector_db.HttpServer.{Response, Handler, error_response, success_response}

unfoldable pub behind_digits : Bytes → Bytes
behind_digits [] = []
behind_digits (c ∷ s) = if is_digit c then behind_digits s else c ∷ s

unfoldable pub magnitude : Bool → Bytes → Option (ℕ × Bytes)
magnitude negative [] = none
magnitude negative (c ∷ s) =
    if is_digit c
    then (let v = scan 0 (c ∷ s) in
        some (
          (if ltb max_u64 v then max_u64 else if negative then (2 ^ 64 - v) % 2 ^ 64 else v),
          behind_digits s,
        ))
    else none

unfoldable pub after_sign : Bytes → Option (ℕ × Bytes)
after_sign [] = none
after_sign (c ∷ s) =
    if c == b'-'
    then magnitude true s
    else if c == b'+'
    then magnitude false s
    else magnitude false (c ∷ s)

-- `std::strtoul` in base 10: the number and the text behind it; `none` where `end_ptr` stays at the
-- start of the text.
unfoldable pub strtoul : Bytes → Option (ℕ × Bytes)
unfolding scan skip_space behind_digits magnitude after_sign
strtoul s = after_sign (skip_space s)

-- A parameter with its default and its largest value; `none` is the answer 400.
unfoldable pub count_param : ℕ → ℕ → Bytes → Option ℕ
count_param default largest text = if null text then some default else elim (strtoul (c_str text)) [
  | none ↦ none
  | some (v, rest) ↦ if not (null rest) || (v == 0 || ltb largest v) then none else some v
]

module _ (l : Libraries) (r : RaftServer) where
  open l use {json, rocks}

  unfoldable pub item_object : Bytes × Bytes → json.Value
  item_object (key, value) =
      let data_doc = json.parse (c_str value) in
      json.object (
        (codes "key", json.string (c_str key))
        ∷ (codes "data", if json.is_object data_doc then data_doc else json.null)
        ∷ [])

  unfoldable pub page_response : ℕ → ℕ → ScalarKvPage → Response
  page_response page_num page_size page = success_response l r (
      (codes "items", json.array (map item_object page.items))
      ∷ (codes "hasMore", json.bool page.has_more)
      ∷ (codes "pageNum", json.uint64 page_num)
      ∷ (codes "pageSize", json.uint64 page_size)
      ∷ [])

  unfoldable pub get_scalar_handler : Bytes → Bytes → Bytes → Bytes → Handler l r
  get_scalar_handler key_prefix key_upper page_num_str page_size_str n =
      elim (count_param 1 1000000 page_num_str) [
        | none ↦ pure (error_response l r (codes "Invalid page_num parameter")) n
        | some page_num ↦ elim (count_param 100 1000 page_size_str) [
          | none ↦ pure (error_response l r (codes "Invalid page_size parameter")) n
          | some page_size ↦
              pure
                (page_response page_num page_size
                  (scan_page rocks key_prefix key_upper page_num page_size n.database.scalars))
                n
        ]
      ]

strtoul_signs : strtoul (codes " -1x") ≡ some (18446744073709551615, codes "x")
unfolding strtoul
strtoul_signs = refl

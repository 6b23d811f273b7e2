-- ===== src/HttpServer/Params.antt =====
-- The parameters of `getScalarHandler`, and the page that it answers with.
use learn_vector_db.Prelude.{
  ℕ, zero, suc, ◌+◌, ◌-◌, ◌*◌, ◌^◌, ◌<◌, ◌≤◌, not, ◌||◌, ◌&&◌, none, some, List, Bytes, null, ◌==◌,
  ltb, if◌then◌else◌, ◌≡◌, arith, sym, ap, ◌∙◌, take, drop, Bool-cases, Option-cases, keep,
  bytes_less,
}
use learn_vector_db.Json.{c_str}
use learn_vector_db.Result.{ok}
use learn_vector_db.Exec.{pure}
use learn_vector_db.ScalarStorage.{RocksLaws, scan_page}
use learn_vector_db.ScalarStorage.Page.{scan_page_lem}
use learn_vector_db.ScalarStorage.Range.{begins, range-keep}
use learn_vector_db.IndexFactory.{Libraries}
use learn_vector_db.RaftStuff.{RaftServer, Node}
use learn_vector_db.HttpServer.Scalars.{page_response, get_scalar_handler, strtoul, count_param}

in_bounds :
    (largest v : ℕ) (rest : Bytes) (x : ℕ)
    → (if not (null rest) || (v == 0 || ltb largest v) then none else some v) ≡ some x
    → (0 < x) × (x ≤ largest)
in_bounds largest v rest x h = ground arith

-- A parameter that the handler takes lies between 1 and the largest value, if the default does.
pub count_param_bounds :
    (default largest x : ℕ) (text : Bytes)
    → 0 < default
    → default ≤ largest
    → count_param default largest text ≡ some x
    → (0 < x) × (x ≤ largest)
unfolding count_param
count_param_bounds default largest x text low high h =
    ground (arith, Bool-cases (null text), Option-cases (strtoul (c_str text)))

product_le : (a b c : ℕ) → b ≤ c → a * b ≤ a * c
product_le zero b c h = omega arith
product_le (suc a) b c h =
    let left : suc a * b ≡ a * b + b = omega arith in
    let right : suc a * c ≡ a * c + c = omega arith in
    omega (arith, product_le a b c h, left, right)

product_fits : (n page_size : ℕ) → n < 1000000 → page_size ≤ 1000 → n * page_size < 2 ^ 64
product_fits n page_size low small = omega (arith, product_le n page_size 1000 small)

module _ (l : Libraries) (r : RaftServer) (laws : RocksLaws l.rocks) where
  open l use {rocks}

  handler_page :
      (p u ps zs : Bytes) (page_num page_size : ℕ) (n : Node l r)
      → count_param 1 1000000 ps ≡ some page_num
      → count_param 100 1000 zs ≡ some page_size
      → get_scalar_handler l r p u ps zs n ≡ (
        n,
        ok (
            page_response l r page_num page_size
              (scan_page rocks p u page_num page_size n.database.scalars)),
      )
  unfolding get_scalar_handler pure
  handler_page p u ps zs page_num page_size n h k = rw (h, get_scalar_handler) (rw k)

  page_lem :
      (p u : Bytes) (page_num page_size : ℕ) (db : rocks.Db)
      → 0 < page_num
      → page_num ≤ 1000000
      → 0 < page_size
      → page_size ≤ 1000
      → (let all : List (Bytes × Bytes) =
            keep
              (λ e. begins p e.0 && not (not (null u) && bytes_less u e.0))
              (rocks.seek_to_first db) in
          scan_page rocks p u page_num page_size db ≡ record {
            items = take page_size (drop ((page_num - 1) * page_size) all);
            has_more = not (null (drop (page_num * page_size) all));
          })
  page_lem p u zero page_size db low high some_size small = elim low [ ]
  page_lem p u (suc n) page_size db low high some_size small =
      let fits : n * page_size < 2 ^ 64 = product_fits n page_size (omega arith) small in
      let before : suc n - 1 ≡ n = omega arith in
      let next : n * page_size + page_size ≡ suc n * page_size = omega arith in
      let number : n + 1 ≡ suc n = omega arith in
      ap (λ x. scan_page rocks p u x page_size db) (sym number)
      ∙ scan_page_lem rocks p u db n page_size some_size fits
      ∙ rw before (rw next (rw (range-keep rocks laws p u db)))

  -- Where both parameters are taken, the handler answers with the page of that number: of all pairs
  -- of the database whose keys have the prefix and are not above the bound, in the order of the keys,
  -- those behind the pages before it, as many as the page size says, and whether there are more.
  pub get_scalar_handler_lem :
      (key_prefix key_upper page_num_str page_size_str : Bytes) (page_num page_size : ℕ)
      (n : Node l r)
      → count_param 1 1000000 page_num_str ≡ some page_num
      → count_param 100 1000 page_size_str ≡ some page_size
      → (let all : List (Bytes × Bytes) =
            keep
              (λ e. begins key_prefix e.0 && not (not (null key_upper) && bytes_less key_upper e.0))
              (rocks.seek_to_first n.database.scalars) in
          get_scalar_handler l r key_prefix key_upper page_num_str page_size_str n ≡ (
            n,
            ok (
                page_response l r page_num page_size (record {
                  items = take page_size (drop ((page_num - 1) * page_size) all);
                  has_more = not (null (drop (page_num * page_size) all));
                })),
          ))
  get_scalar_handler_lem p u ps zs page_num page_size n h k =
      let num : (0 < page_num) × (page_num ≤ 1000000) =
        count_param_bounds 1 1000000 page_num ps (omega arith) (omega arith) h in
      let size : (0 < page_size) × (page_size ≤ 1000) =
        count_param_bounds 100 1000 page_size zs (omega arith) (omega arith) k in
      handler_page p u ps zs page_num page_size n h k
      ∙ ap (λ x. (n, ok (page_response l r page_num page_size x)))
          (page_lem p u page_num page_size n.database.scalars num.0 num.1 size.0 size.1)

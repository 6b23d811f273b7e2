-- ===== src/HttpServer/Quiet.antt =====
-- What the handlers keep of the database, if searches and insertions keep it. Only the handler of
-- snapshots changes a database in another way.
use mathlib.Core.Path.{subst}
use learn_vector_db.Prelude.{sym, ℕ, not, List, Bytes, ◌≡◌, arith, Bool-cases, inl, inr}
use learn_vector_db.Exec.{Exec, pure, modify}
use learn_vector_db.Exec.Keeps.{
  Keeps, Keeps-pure, Keeps-lift, Keeps-gets, Keeps-need, Keeps-if, Keeps-bind,
}
use learn_vector_db.Json.{ℤ, c_str}
use learn_vector_db.IndexFactory.{Libraries, IndexType, flat, hnsw, filter, unknown}
use learn_vector_db.Database.{Database, Method, insert_new}
use learn_vector_db.Database.Search
use learn_vector_db.RaftStuff.{
  RaftServer, Node, in_database, append_entries, add_srv, enable_election_timeout, is_leader,
}
use learn_vector_db.HttpServer.{CheckType, Handler, is_request_valid}
use learn_vector_db.HttpServer.Documents.{
  checked, search_known, insert_known, query_known, search_handler, insert_handler, upsert_handler,
  query_handler,
}
use learn_vector_db.HttpServer.Cluster.{
  set_leader_handler, add_follower_known, add_follower_handler, list_node_handler, get_node_handler,
}
use learn_vector_db.HttpServer.Scalars.{get_scalar_handler}

pub Keeps-modify :
    {S : Type 0} {P : S → Type 0} (f : S → S) → ((s : S) → P s → P (f s)) → Keeps P (modify f)
unfolding modify
Keeps-modify f h = record { hold = h }

module _ (l : Libraries) (r : RaftServer) (P : Database l → Type 0) where
  -- The database of a node keeps `P`.
  abbrev pub Quiet : {A : Type 0} → Exec (Node l r) A → Type 0
  Quiet m = Keeps (λ (n : Node l r). P n.database) m

  pub in_database-Quiet : {A : Type 0} (m : Method l A) → Keeps P m → Quiet (in_database l r m)
  unfolding in_database
  in_database-Quiet m h = record { hold = λ n k. h.hold n.database k }

-- Searches and insertions keep `P`.
pub record IsQuiet (l : Libraries) (P : Database l → Type 0) : Type 0 where
  pub searches : (request : l.json.Value) → Keeps P (Search.search l request)
  pub inserts :
      (type : IndexType) (vector : List l.json.Float) (id : ℕ)
      → Keeps P (insert_new l type vector id)

module _ (l : Libraries) (r : RaftServer) (P : Database l → Type 0) (quiet : IsQuiet l P) where
  open l use {json}

  checked-Quiet :
      (check_type : CheckType) (missing body : Bytes) (handle : json.Value → Handler l r)
      → ((request : json.Value) → Quiet l r P (handle request))
      → Quiet l r P (checked l r check_type missing body handle)
  unfolding checked
  checked-Quiet check_type missing body handle h =
      let request : json.Value = json.parse (c_str body) in
      Keeps-if (not (json.is_object request)) _ _ (Keeps-pure _)
        (Keeps-if (not (is_request_valid l r request check_type)) _ _ (Keeps-pure _) (h request))

  search_known-Quiet :
      (request : json.Value) (type : IndexType) → Quiet l r P (search_known l r request type)
  unfolding search_known
  search_known-Quiet request flat =
      Keeps-bind _ _ (in_database-Quiet l r P _ (quiet.searches request)) (λ _. Keeps-pure _)
  search_known-Quiet request hnsw =
      Keeps-bind _ _ (in_database-Quiet l r P _ (quiet.searches request)) (λ _. Keeps-pure _)
  search_known-Quiet request filter =
      Keeps-bind _ _ (in_database-Quiet l r P _ (quiet.searches request)) (λ _. Keeps-pure _)
  search_known-Quiet request unknown = Keeps-pure _

  insert_known-Quiet :
      (vector : List json.Float) (label : ℕ) (type : IndexType)
      → Quiet l r P (insert_known l r vector label type)
  unfolding insert_known
  insert_known-Quiet vector label flat =
      Keeps-bind _ _ (in_database-Quiet l r P _ (quiet.inserts flat vector label))
        (λ _. Keeps-pure _)
  insert_known-Quiet vector label hnsw =
      Keeps-bind _ _ (in_database-Quiet l r P _ (quiet.inserts hnsw vector label))
        (λ _. Keeps-pure _)
  insert_known-Quiet vector label filter =
      Keeps-bind _ _ (in_database-Quiet l r P _ (quiet.inserts filter vector label))
        (λ _. Keeps-pure _)
  insert_known-Quiet vector label unknown = Keeps-pure _

  pub search_handler-Quiet : (body : Bytes) → Quiet l r P (search_handler l r body)
  unfolding search_handler
  search_handler-Quiet body = checked-Quiet _ _ body _ (λ request.
      Keeps-bind _ _ (Keeps-lift _) (λ _.
        Keeps-bind _ _ (Keeps-need _)
          (λ _. Keeps-bind _ _ (Keeps-need _) (λ _. search_known-Quiet request _))))

  pub insert_handler-Quiet : (body : Bytes) → Quiet l r P (insert_handler l r body)
  unfolding insert_handler
  insert_handler-Quiet body = checked-Quiet _ _ body _ (λ request.
      Keeps-bind _ _ (Keeps-lift _) (λ vector.
        Keeps-bind _ _ (Keeps-need _)
          (λ _. Keeps-bind _ _ (Keeps-need _) (λ label. insert_known-Quiet vector label _))))

  append_entries-database :
      (body : Bytes) (n : Node l r) → (append_entries l r body n).0.database ≡ n.database
  unfolding append_entries
  append_entries-database body n = ground arith

  pub upsert_handler-Quiet : (body : Bytes) → Quiet l r P (upsert_handler l r body)
  unfolding upsert_handler
  upsert_handler-Quiet body = checked-Quiet _ _ body _ (λ request.
      Keeps-bind _ _ (Keeps-need _) (λ _. Keeps-bind _ _ (Keeps-need _) (λ _.
        Keeps-bind _ _ (Keeps-modify _ (λ n h. subst P (sym (append_entries-database body n)) h))
          (λ _. Keeps-pure _))))

  pub query_handler-Quiet : (body : Bytes) → Quiet l r P (query_handler l r body)
  unfolding query_handler query_known
  query_handler-Quiet body =
      Keeps-if (not (json.is_object (json.parse (c_str body)))) _ _ (Keeps-pure _) (
        Keeps-bind _ _ (Keeps-need _) (λ _.
          Keeps-bind _ _ (Keeps-need _) (λ _. Keeps-bind _ _ (Keeps-gets _) (λ _. Keeps-pure _))))

  set_timeout-database :
      (low high : ℤ) (n : Node l r) → (enable_election_timeout l r low high n).database ≡ n.database
  unfolding enable_election_timeout
  set_timeout-database low high n = ground arith

  pub set_leader_handler-Quiet : Quiet l r P (set_leader_handler l r)
  unfolding set_leader_handler
  set_leader_handler-Quiet =
      Keeps-bind _ _ (Keeps-modify _ (λ n h. subst P (sym (set_timeout-database _ _ n)) h))
        (λ _. Keeps-pure _)

  add_srv-Quiet : (srv_id : ℤ) (endpoint : Bytes) → Quiet l r P (add_srv l r srv_id endpoint)
  unfolding add_srv
  add_srv-Quiet srv_id endpoint =
      Keeps-bind _ _ (Keeps-gets _)
        (λ _. Keeps-bind _ _ (Keeps-need _) (λ _. Keeps-modify _ (λ n h. h)))

  add_follower_known-Quiet : (request : json.Value) → Quiet l r P (add_follower_known l r request)
  unfolding add_follower_known
  add_follower_known-Quiet request = Keeps-bind _ _ (Keeps-need _) (λ _.
      Keeps-bind _ _ (Keeps-need _) (λ _. Keeps-bind _ _ (Keeps-need _) (λ _.
        Keeps-bind _ _ (Keeps-need _)
          (λ _. Keeps-bind _ _ (add_srv-Quiet _ _) (λ _. Keeps-pure _)))))

  pub add_follower_handler-Quiet : (body : Bytes) → Quiet l r P (add_follower_handler l r body)
  unfolding add_follower_handler pure
  add_follower_handler-Quiet body = record {
    hold = λ n h. elim (Bool-cases (not (json.is_object (json.parse (c_str body))))) [
      | inl bad ↦ rw bad h
      | inr object ↦ rw object (elim (Bool-cases (not (is_leader l r n))) [
        | inl follower ↦ rw follower h
        | inr leader ↦ rw leader ((add_follower_known-Quiet (json.parse (c_str body))).hold n h)
      ])
    ];
  }

  pub list_node_handler-Quiet : Quiet l r P (list_node_handler l r)
  unfolding list_node_handler
  list_node_handler-Quiet = Keeps-bind _ _ (Keeps-gets _) (λ _. Keeps-pure _)

  pub get_node_handler-Quiet : Quiet l r P (get_node_handler l r)
  unfolding get_node_handler
  get_node_handler-Quiet = Keeps-bind _ _ (Keeps-gets _) (λ _. Keeps-pure _)

  pub get_scalar_handler-Quiet : (a b c d : Bytes) → Quiet l r P (get_scalar_handler l r a b c d)
  unfolding get_scalar_handler pure
  get_scalar_handler-Quiet a b c d = record { hold = λ n h. ground (arith, h) }

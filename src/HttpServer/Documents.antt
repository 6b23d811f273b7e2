-- ===== src/HttpServer/Documents.antt =====
-- The handlers of `HttpServer` for documents: searchHandler, insertHandler, upsertHandler,
-- queryHandler and snapshotHandler.
use learn_vector_db.Prelude.{ℕ, Bool, not, List, [], ◌∷◌, Bytes, codes, null, if◌then◌else◌}
use learn_vector_db.Exec.{pure, lift, gets, need, modify, ◌>>=◌, ◌>>◌}
use learn_vector_db.Json.{ℤ, negsuc, int_eq, c_str}
use learn_vector_db.IndexFactory.{Libraries, IndexType, unknown}
use learn_vector_db.Database.{
  at, request_id, request_k, read_vectors, get_index_type_from_request, insert_new, query,
  take_snapshot,
}
use learn_vector_db.Database.Search
use learn_vector_db.RaftStuff.{RaftServer, Node, in_database, append_entries}
use learn_vector_db.HttpServer.{
  CheckType, search, insert, upsert, Handler, is_request_valid, error_response, success_response,
  response_vectors, response_distances,
}

abbrev pub invalid_json : Bytes
invalid_json = codes "Invalid JSON request"

abbrev pub invalid_index_type : Bytes
invalid_index_type = codes "Invalid indexType parameter in the request"

module _ (l : Libraries) (r : RaftServer) where
  open l use {json}

  -- The two tests that the handlers of documents begin with.
  unfoldable pub checked : CheckType → Bytes → Bytes → (json.Value → Handler l r) → Handler l r
  checked check_type missing body handle =
      let request = json.parse (c_str body) in
      if not (json.is_object request)
      then pure (error_response l r invalid_json)
      else if not (is_request_valid l r request check_type)
      then pure (error_response l r missing)
      else handle request

  -- The loop over the results: those whose identifier is not -1.
  unfoldable pub valid_results : List ℤ → List json.Float → List json.Value × List json.Value
  valid_results [] distances = ([], [])
  valid_results (id ∷ ids) [] = ([], [])
  valid_results (id ∷ ids) (distance ∷ distances) =
      let (vs, ds) = valid_results ids distances in
      if int_eq id (negsuc 0) then (vs, ds) else (json.int id ∷ vs, json.float distance ∷ ds)

  unfoldable pub result_members : List json.Value × List json.Value → List (Bytes × json.Value)
  result_members (vectors, distances) =
      if null vectors
      then []
      else (response_vectors, json.array vectors) ∷ (response_distances, json.array distances) ∷ []

  unfoldable pub search_known : json.Value → IndexType → Handler l r
  search_known request unknown = pure (error_response l r invalid_index_type)
  search_known request type = do
    results ← in_database l r (Search.search l request)
    pure (success_response l r (result_members (valid_results results.0 results.1)))

  unfoldable pub search_handler : Bytes → Handler l r
  search_handler body =
      checked search (codes "Missing vectors or k parameter in the request") body λ request. do
        lift (read_vectors l request)
        k_value ← need (at l request request_k)
        need (json.get_int k_value)
        search_known request (get_index_type_from_request l request)

  unfoldable pub insert_known : List json.Float → ℕ → IndexType → Handler l r
  insert_known vector label unknown = pure (error_response l r invalid_index_type)
  insert_known vector label type = do
    in_database l r (insert_new l type vector label)
    pure (success_response l r [])

  -- The message names the parameter k, as the source does.
  unfoldable pub insert_handler : Bytes → Handler l r
  insert_handler body =
      checked insert (codes "Missing vectors or k parameter in the request") body λ request. do
        vector ← lift (read_vectors l request)
        id_value ← need (at l request request_id)
        label ← need (json.get_uint64 id_value)
        insert_known vector label (get_index_type_from_request l request)

  -- What `appendEntries` returns is not looked at.
  unfoldable pub upsert_handler : Bytes → Handler l r
  upsert_handler body =
      checked upsert (codes "Missing vectors or id parameter in the request") body λ request. do
        id_value ← need (at l request request_id)
        need (json.get_uint64 id_value)
        modify (λ n. (append_entries l r body n).0)
        pure (success_response l r [])

  unfoldable pub query_known : json.Value → Handler l r
  query_known request = do
    id_value ← need (at l request request_id)
    id ← need (json.get_uint64 id_value)
    document ← gets (λ (n : Node l r). query l id n.database)
    pure (success_response l r (if json.is_null document then [] else json.members document))

  unfoldable pub query_handler : Bytes → Handler l r
  query_handler body =
      let request = json.parse (c_str body) in
      if not (json.is_object request)
      then pure (error_response l r invalid_json)
      else query_known request

  -- `writable`: whether snapshots_MaxLogID could be opened.
  unfoldable pub snapshot_handler : Bool → Handler l r
  snapshot_handler writable = do
    modify (λ (n : Node l r). record n { database = take_snapshot l writable n.database })
    pure (success_response l r [])

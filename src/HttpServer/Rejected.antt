-- ===== src/HttpServer/Rejected.antt =====
-- A handler that answers 400 has changed nothing.
use learn_vector_db.Prelude.{
  ℕ, Bool, true, false, not, Option, none, some, List, Bytes, if◌then◌else◌, ◌≡◌, refl, ◌∙◌, sym,
}
use mathlib.Core.Bool.{false≢true}
use learn_vector_db.Result.{Result, ok, throw}
use learn_vector_db.Exec.{Exec, pure, lift, gets, need, continue, ◌>>=◌}
use learn_vector_db.Json.{c_str}
use learn_vector_db.IndexFactory.{Libraries, IndexType, flat, hnsw, filter, unknown}
use learn_vector_db.RaftStuff.{RaftServer, Node}
use learn_vector_db.HttpServer.{
  CheckType, Response, Handler, set_json_response, error_response, success_response,
  is_request_valid,
}
use learn_vector_db.HttpServer.Documents.{
  invalid_json, checked, search_known, search_handler, insert_known, insert_handler, upsert_handler,
  query_known, query_handler,
}

abbrev pub is_rejected : Result Response → Bool
is_rejected (throw e) = false
is_rejected (ok response) = elim response.status [ none ↦ false | some _ ↦ true ]

-- The state after an action: the old one if its answer sets a status.
record Harmless {S : Type 0} (m : Exec S Response) : Type 0 where
  harmless : (s : S) → is_rejected (m s).1 ≡ true → (m s).0 ≡ s

-- The action leaves the state as it is.
record Reads {S A : Type 0} (m : Exec S A) : Type 0 where
  reads : (s : S) → (m s).0 ≡ s

module _ {S : Type 0} where
  Harmless-pure : (response : Response) → Harmless {S = S} (pure response)
  unfolding pure
  Harmless-pure response = record { harmless = λ s h. refl }

  Harmless-if :
      (b : Bool) (m n : Exec S Response) → Harmless m → Harmless n → Harmless (if b then m else n)
  Harmless-if true m n hm hn = hm
  Harmless-if false m n hm hn = hn

  Reads-lift : {A : Type 0} (x : Result A) → Reads {S = S} (lift x)
  unfolding lift
  Reads-lift x = record { reads = λ s. refl }

  Reads-gets : {A : Type 0} (f : S → A) → Reads {S = S} (gets f)
  unfolding gets
  Reads-gets f = record { reads = λ s. refl }

  Reads-need : {A : Type 0} (x : Option A) → Reads {S = S} (need x)
  unfolding need
  Reads-need none = record { reads = λ s. refl }
  Reads-need (some a) = record { reads = λ s. refl }

module _ {S A : Type 0} where
  continue-Harmless :
      (x : Result A) (f : A → Exec S Response) (s : S)
      → ((a : A) → Harmless (f a))
      → is_rejected (continue x f s).1 ≡ true
      → (continue x f s).0 ≡ s
  continue-Harmless (ok a) f s hf h = (hf a).harmless s h
  continue-Harmless (throw e) f s hf h = refl

  Harmless-bind :
      (m : Exec S A) (f : A → Exec S Response)
      → Reads m
      → ((a : A) → Harmless (f a))
      → Harmless (m >>= f)
  unfolding ◌>>=◌
  Harmless-bind m f hm hf = record {
    harmless = λ s h. continue-Harmless (m s).1 f (m s).0 hf h ∙ hm.reads s;
  }

  continue-success :
      (x : Result A) (f : A → Response) (s : S)
      → ((a : A) → (f a).status ≡ none)
      → is_rejected (continue x (λ a. pure (f a)) s).1 ≡ false
  unfolding pure
  continue-success (ok a) f s h = rw (h a)
  continue-success (throw e) f s h = refl

  -- An action of any kind with a response that sets no status behind it.
  Harmless-success :
      (m : Exec S A) (f : A → Response)
      → ((a : A) → (f a).status ≡ none)
      → Harmless (m >>= λ a. pure (f a))
  unfolding ◌>>=◌
  Harmless-success m f h = record {
    harmless = λ s bad. elim (false≢true (sym (continue-success (m s).1 f (m s).0 h) ∙ bad)) [ ];
  }

module _ (l : Libraries) (r : RaftServer) where
  open l use {json}

  success_status : (added : List (Bytes × json.Value)) → (success_response l r added).status ≡ none
  unfolding success_response set_json_response
  success_status added = refl

  checked-Harmless :
      (check_type : CheckType) (missing body : Bytes) (handle : json.Value → Handler l r)
      → ((request : json.Value) → Harmless (handle request))
      → Harmless (checked l r check_type missing body handle)
  unfolding checked
  checked-Harmless check_type missing body handle h =
      let request : json.Value = json.parse (c_str body) in
      Harmless-if (not (json.is_object request)) (pure (error_response l r invalid_json)) _
        (Harmless-pure _)
        (Harmless-if (not (is_request_valid l r request check_type))
          (pure (error_response l r missing)) _ (Harmless-pure _) (h request))

  search_known-Harmless :
      (request : json.Value) (type : IndexType) → Harmless (search_known l r request type)
  unfolding search_known
  search_known-Harmless request flat = Harmless-success _ _ (λ a. success_status _)
  search_known-Harmless request hnsw = Harmless-success _ _ (λ a. success_status _)
  search_known-Harmless request filter = Harmless-success _ _ (λ a. success_status _)
  search_known-Harmless request unknown = Harmless-pure _

  insert_known-Harmless :
      (vector : List json.Float) (label : ℕ) (type : IndexType)
      → Harmless (insert_known l r vector label type)
  unfolding insert_known
  insert_known-Harmless vector label flat = Harmless-success _ _ (λ a. success_status _)
  insert_known-Harmless vector label hnsw = Harmless-success _ _ (λ a. success_status _)
  insert_known-Harmless vector label filter = Harmless-success _ _ (λ a. success_status _)
  insert_known-Harmless vector label unknown = Harmless-pure _

  search-Harmless : (body : Bytes) → Harmless (search_handler l r body)
  unfolding search_handler
  search-Harmless body = checked-Harmless _ _ body _ (λ request.
      Harmless-bind _ _ (Reads-lift _) (λ vector.
        Harmless-bind _ _ (Reads-need _)
          (λ k_value. Harmless-bind _ _ (Reads-need _) (λ k. search_known-Harmless request _))))

  insert-Harmless : (body : Bytes) → Harmless (insert_handler l r body)
  unfolding insert_handler
  insert-Harmless body = checked-Harmless _ _ body _ (λ request.
      Harmless-bind _ _ (Reads-lift _) (λ vector. Harmless-bind _ _ (Reads-need _) (λ id_value.
        Harmless-bind _ _ (Reads-need _) (λ label. insert_known-Harmless vector label _))))

  upsert-Harmless : (body : Bytes) → Harmless (upsert_handler l r body)
  unfolding upsert_handler
  upsert-Harmless body = checked-Harmless _ _ body _ (λ request.
      Harmless-bind _ _ (Reads-need _) (λ id_value.
        Harmless-bind _ _ (Reads-need _) (λ label. Harmless-success _ _ (λ a. success_status _))))

  query-Harmless : (body : Bytes) → Harmless (query_handler l r body)
  unfolding query_handler query_known
  query-Harmless body =
      Harmless-if (not (json.is_object (json.parse (c_str body))))
        (pure (error_response l r invalid_json)) _ (Harmless-pure _)
        (Harmless-bind _ _ (Reads-need _) (λ id_value.
          Harmless-bind _ _ (Reads-need _) (λ id. Harmless-success _ _ (λ a. success_status _))))

  -- The handlers of documents.
  pub data Request : Type 0 where
    search_request insert_request upsert_request query_request : Request

  unfoldable pub handle : Request → Bytes → Handler l r
  handle search_request = search_handler l r
  handle insert_request = insert_handler l r
  handle upsert_request = upsert_handler l r
  handle query_request = query_handler l r

  -- Whatever the request, a handler of documents that answers with a status of its own, 400, leaves
  -- the database, the indexes and the raft server as they were.
  pub handle-rejected :
      (request : Request) (body : Bytes) (n : Node l r)
      → is_rejected (handle request body n).1 ≡ true
      → (handle request body n).0 ≡ n
  unfolding handle
  handle-rejected search_request body n h = (search-Harmless body).harmless n h
  handle-rejected insert_request body n h = (insert-Harmless body).harmless n h
  handle-rejected upsert_request body n h = (upsert-Harmless body).harmless n h
  handle-rejected query_request body n h = (query-Harmless body).harmless n h

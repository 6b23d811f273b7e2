-- ===== src/HttpServer.antt =====
-- `HttpServer` of http_server.h and http_server.cpp: what the handlers share, the tests of a request
-- and the two ways to answer. The server of httplib is a parameter only in that it calls the handler
-- of a route with the request; `start` only calls it. The children hold the handlers and the routes.
pub mod Documents
pub mod Cluster
pub mod Scalars
pub mod Rejected
pub mod Followers
pub mod Params
pub mod Routes
pub mod Quiet
pub mod Served
pub mod Logged
use learn_vector_db.Prelude.{
  ℕ, Bool, true, false, ◌&&◌, ◌||◌, not, Option, none, some, List, [], ◌∷◌, ◌++◌, Bytes, codes,
  if◌then◌else◌, ◌≡◌,
}
use learn_vector_db.Exec.{Exec, pure}
use learn_vector_db.Json.{ℤ, pos, negsuc, c_str}
use learn_vector_db.IndexFactory.{Libraries}
use learn_vector_db.Database.{request_vectors, request_k, request_id, request_index_type}
use learn_vector_db.RaftStuff.{RaftServer, Node}

-- constants.h
abbrev pub response_vectors : Bytes
response_vectors = codes "vectors"

abbrev pub response_distances : Bytes
response_distances = codes "distances"

abbrev pub response_retcode : Bytes
response_retcode = codes "retCode"

abbrev pub response_error_msg : Bytes
response_error_msg = codes "errorMsg"

abbrev pub retcode_success : ℤ
retcode_success = pos 0

abbrev pub retcode_error : ℤ
retcode_error = negsuc 0

pub data CheckType : Type 0 where
  search insert upsert : CheckType

-- The response of httplib: the status, where the handler sets one, and the content.
pub record Response : Type 0 where
  pub status : Option ℕ
  pub content : Bytes

module _ (l : Libraries) (r : RaftServer) where
  open l use {json}

  -- A handler with the process's objects. One that throws or aborts gives no response of its own.
  abbrev pub Handler : Type 0
  Handler = Exec (Node l r) Response

  unfoldable pub has_member : json.Value → Bytes → Bool
  has_member value name = elim (json.member value name) [ none ↦ false | some _ ↦ true ]

  -- `!HasMember(REQUEST_INDEX_TYPE) || json_request[REQUEST_INDEX_TYPE].IsString()`.
  unfoldable pub index_type_valid : json.Value → Bool
  index_type_valid request = elim (json.member request request_index_type) [
    | none ↦ true
    | some v ↦ json.is_string v
  ]

  unfoldable pub is_request_valid : json.Value → CheckType → Bool
  is_request_valid request search =
      has_member request request_vectors && has_member request request_k && index_type_valid request
  is_request_valid request insert =
      has_member request request_vectors
      && has_member request request_id
      && index_type_valid request
  is_request_valid request upsert =
      has_member request request_vectors
      && has_member request request_id
      && index_type_valid request

  unfoldable pub set_json_response : Option ℕ → json.Value → Response
  set_json_response status json_response = record {
    status = status;
    content = c_str (json.write json_response);
  }

  -- `res.status = 400` and `setErrorJsonResponse` with RESPONSE_RETCODE_ERROR.
  unfoldable pub error_response : Bytes → Response
  error_response error_msg = set_json_response (some 400) (
      json.object (
        (response_retcode, json.int retcode_error)
        ∷ (response_error_msg, json.string (c_str error_msg))
        ∷ []))

  -- The response of a handler that ends well, with what it added before the return code.
  unfoldable pub success_response : List (Bytes × json.Value) → Response
  success_response added =
      set_json_response none
        (json.object (added ++ (response_retcode, json.int retcode_success) ∷ []))

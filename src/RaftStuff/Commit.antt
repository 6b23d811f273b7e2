-- ===== src/RaftStuff/Commit.antt =====
-- What the entry of a request does when it is committed.
use learn_vector_db.Prelude.{
  ℕ, false, some, Bytes, ◌++◌, length, drop, ltb, ◌≡◌, refl, sym, ap, ◌∙◌, arith, length-append,
  drop-append,
}
use learn_vector_db.Result.{Result, ok, throw}
use learn_vector_db.Exec.{pure, modify, continue, ◌>>=◌}
use learn_vector_db.Json.{c_str}
use learn_vector_db.IndexFactory.{Libraries}
use learn_vector_db.Database.{Database, upsert, get_index_type_from_request, request_id}
use learn_vector_db.RaftStuff.{
  RaftServer, Node, content_of, entry_buffer, commit, commit_document, in_database,
}

-- The length takes four bytes.
abbrev pub FourBytes : RaftServer → Type 0
FourBytes r = (n : ℕ) → length (r.put_length n) ≡ 4

module _ (l : Libraries) (r : RaftServer) where
  open l use {json}

  content_of-entry_buffer :
      FourBytes r → (entry : Bytes) → content_of l r (entry_buffer l r entry) ≡ some entry
  unfolding content_of entry_buffer
  content_of-entry_buffer four entry =
      let long : ltb (length (r.put_length (length entry) ++ entry)) 4 ≡ false =
        ground (arith, length-append (r.put_length (length entry)) entry, four (length entry)) in
      let rest : drop 4 (r.put_length (length entry) ++ entry) ≡ entry =
        ap (λ n. drop n (r.put_length (length entry) ++ entry)) (sym (four (length entry)))
        ∙ drop-append (r.put_length (length entry)) entry in
      rw long (rw rest)

  in_database-lem :
      (log_idx : ℕ) (x : Database l × Result Unit) (n : Node l r)
      → continue x.1 (λ _. pure log_idx) (record n { database = x.0 })
        ≡ (record n { database = x.0 }, elim x.1 [ ok _ ↦ ok log_idx | throw e ↦ throw e ])
  unfolding pure
  in_database-lem log_idx (db, ok a) n = refl
  in_database-lem log_idx (db, throw e) n = refl

  commit-content :
      (log_idx : ℕ) (data' content : Bytes) (n : Node l r)
      → content_of l r data' ≡ some content
      → commit l r log_idx data' n ≡ commit_document l r log_idx (json.parse (c_str content)) n
  unfolding commit
  commit-content log_idx data' content n h = rw (h, commit)

  pub commit_document_lem :
      (log_idx id : ℕ) (request id_value : json.Value) (n : Node l r)
      → json.member request request_id ≡ some id_value
      → json.get_uint64 id_value ≡ some id
      → (let after : Database l × Result Unit =
            upsert l id request (get_index_type_from_request l request) n.database in
          commit_document l r log_idx request n ≡ (
            record n { database = after.0; last_committed_idx = log_idx },
            elim after.1 [ ok _ ↦ ok log_idx | throw e ↦ throw e ],
          ))
  unfolding commit_document in_database modify ◌>>=◌
  commit_document_lem log_idx id request id_value n h k = rw h (
      rw k (
        in_database-lem log_idx
          (upsert l id request (get_index_type_from_request l request) n.database)
          (record n { last_committed_idx = log_idx })))

  -- Committing the buffer that `appendEntries` built from the body of a request with an identifier
  -- runs `upsert` with the document of that body, and nothing else but the note of the index, also
  -- where the `upsert` throws; the result is the index.
  pub commit-entry_buffer :
      FourBytes r
      → (log_idx id : ℕ) (body : Bytes) (id_value : json.Value) (n : Node l r)
      → json.member (json.parse (c_str body)) request_id ≡ some id_value
      → json.get_uint64 id_value ≡ some id
      → (let request : json.Value = json.parse (c_str body) in
          let after : Database l × Result Unit =
            upsert l id request (get_index_type_from_request l request) n.database in
          commit l r log_idx (entry_buffer l r body) n ≡ (
            record n { database = after.0; last_committed_idx = log_idx },
            elim after.1 [ ok _ ↦ ok log_idx | throw e ↦ throw e ],
          ))
  commit-entry_buffer four log_idx id body id_value n h k =
      commit-content log_idx (entry_buffer l r body) body n (content_of-entry_buffer four body)
      ∙ commit_document_lem log_idx id (json.parse (c_str body)) id_value n h k

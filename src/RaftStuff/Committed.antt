-- ===== src/RaftStuff/Committed.antt =====
-- What a committed entry does to the database.
use learn_vector_db.Prelude.{
  ℕ, Option, none, some, Bytes, ◌≡◌, refl, sym, ap, ◌∙◌, Option-cases, inl, inr,
}
use learn_vector_db.Result.{Result}
use learn_vector_db.Exec.{lift, need, modify, pure, ◌>>=◌}
use learn_vector_db.Json.{c_str}
use learn_vector_db.IndexFactory.{Libraries}
use learn_vector_db.Database.{Database, at, request_id}
use learn_vector_db.Database.Stored.{label_of, stored_under}
use learn_vector_db.RaftStuff.{RaftServer, Node, content_of, commit, commit_document, in_database}
use learn_vector_db.RaftStuff.Commit.{commit_document_lem}

module _ (l : Libraries) (rs : RaftServer) where
  open l use {json}

  abbrev pub commits : Option Bytes → Database l → Database l
  commits none db = db
  commits (some content) db =
      let document = json.parse (c_str content) in stored_under l (label_of l document) document db

  commit_document-database :
      (index : ℕ) (document : json.Value) (n : Node l rs)
      → (commit_document l rs index document n).0.database
        ≡ stored_under l (label_of l document) document n.database
  unfolding commit_document in_database need modify ◌>>=◌ pure
  commit_document-database index document n = elim (Option-cases (at l document request_id)) [
    | inl missing ↦ rw (missing, commit_document, label_of) refl
    | inr (id_value, found) ↦ elim (Option-cases (json.get_uint64 id_value)) [
      | inl no_number ↦ rw (found, no_number, commit_document, label_of) refl
      | inr (id, number) ↦
          let label : label_of l document ≡ some id = rw (found, label_of) number in
          ap (λ (x : Node l rs × Result ℕ). x.0.database)
            (commit_document_lem l rs index id document id_value n found number)
          ∙ ap (λ o. stored_under l o document n.database) (sym label)
    ]
  ]

  pub commit-database :
      (index : ℕ) (text : Bytes) (n : Node l rs)
      → (commit l rs index text n).0.database ≡ commits (content_of l rs text) n.database
  unfolding lift commit
  commit-database index text n = elim (Option-cases (content_of l rs text)) [
    | inl short ↦ rw (short, commit) refl
    | inr (content, found) ↦
        rw (found, commit) (commit_document-database index (json.parse (c_str content)) n)
  ]

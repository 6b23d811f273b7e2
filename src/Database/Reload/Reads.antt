-- ===== src/Database/Reload/Reads.antt =====
-- What a query reads after a reload.
use learn_vector_db.Prelude.{
  ℕ, Bool, false, ◌&&◌, Option, none, some, List, [], ◌∷◌, Bytes, ◌==◌, ltb, if◌then◌else◌, ◌≡◌,
  refl, sym, ap, ◌∙◌, Bool-cases, Option-cases, inl, inr,
}
use learn_vector_db.Result.{ok}
use learn_vector_db.Json.{c_str}
use learn_vector_db.Decimal.{to_string}
use learn_vector_db.Wal.{lines}
use learn_vector_db.Wal.Lines.{LogEntry, AllLines, log_text}
use learn_vector_db.ScalarStorage.{RocksDb, RocksLaws, get_scalar}
use learn_vector_db.ScalarStorage.Stored.{get_scalar-insert_scalar}
use learn_vector_db.IndexFactory.{Libraries}
use learn_vector_db.Database.{Database, query, at, request_id}
use learn_vector_db.Database.Stored.{label_of}
use learn_vector_db.Database.Reload.{reload_database}
use learn_vector_db.Database.Reload.Log.{document_of}
use learn_vector_db.Database.Reload.Rebuilt.{stored, rebuilt, reload_database-scalars}

-- No write is refused.
pub record Takes (k : RocksDb) : Type 0 where
  pub taken : (key value : Bytes) (db : k.Db) → k.Db
  pub put_taken : (key value : Bytes) (db : k.Db) → k.put key value db ≡ some (taken key value db)

module _ (l : Libraries) where
  open l use {json, rocks}

  abbrev has_label : ℕ → Option ℕ → Bool
  has_label i none = false
  has_label i (some id) = id == i

  -- The last document under the identifier among the entries behind identifier `n`.
  unfoldable pub last_document : ℕ → ℕ → List LogEntry → Option json.Value
  last_document n i [] = none
  last_document n i (e ∷ es) = elim (last_document n i es) [
    | some document ↦ some document
    | none ↦
        if ltb n e.log_id && has_label i (label_of l (document_of l e))
        then some (document_of l e)
        else none
  ]

  -- What the document reads as, or what was there without one.
  abbrev pub read_as : Option json.Value → json.Value → json.Value
  read_as none before = before
  read_as (some document) before = json.parse (c_str (json.write document))

  module _ (laws : RocksLaws rocks) (takes : Takes rocks) (i : ℕ) where
    read-stored :
        (document : json.Value) (s : rocks.Db)
        → get_scalar rocks json i (stored l document s)
          ≡ read_as
              (if has_label i (label_of l document) then some document else none)
              (get_scalar rocks json i s)
    unfolding stored
    read-stored document s = elim (Option-cases (at l document request_id)) [
      | inl missing ↦ rw (missing, stored, label_of) refl
      | inr (id_value, found) ↦ elim (Option-cases (json.get_uint64 id_value)) [
        | inl no_number ↦ rw (found, no_number, stored, label_of) refl
        | inr (id, number) ↦
            let key : Bytes = to_string id in
            let value : Bytes = c_str (json.write document) in
            rw (found, number, stored, label_of)
              (get_scalar-insert_scalar rocks laws json id i document s
                ∙ rw (takes.put_taken key value s) (elim (Bool-cases (id == i)) [
                  | inl same ↦ rw same refl
                  | inr other ↦ rw other refl
                ]))
      ]
    ]

    -- The document of the entry, if it is behind `n` and under the identifier.
    abbrev first_document : ℕ → LogEntry → Option json.Value
    first_document n e =
        if ltb n e.log_id && has_label i (label_of l (document_of l e))
        then some (document_of l e)
        else none

    read-first :
        (n : ℕ) (e : LogEntry) (s : rocks.Db)
        → get_scalar rocks json i (if ltb n e.log_id then stored l (document_of l e) s else s)
          ≡ read_as (first_document n e) (get_scalar rocks json i s)
    read-first n e s = elim (Bool-cases (ltb n e.log_id)) [
      | inl new ↦ rw new (read-stored (document_of l e) s)
      | inr old ↦ rw old refl
    ]

    read_as_later :
        (later first : Option json.Value) (before : json.Value)
        → read_as later (read_as first before)
          ≡ read_as (elim later [ some document ↦ some document | none ↦ first ]) before
    read_as_later none first before = refl
    read_as_later (some document) first before = refl

    read-rebuilt :
        (n : ℕ) (es : List LogEntry) (s : rocks.Db)
        → get_scalar rocks json i (rebuilt l n es s)
          ≡ read_as (last_document n i es) (get_scalar rocks json i s)
    unfolding rebuilt last_document
    read-rebuilt n [] s = refl
    read-rebuilt n (e ∷ es) s =
        read-rebuilt n es (if ltb n e.log_id then stored l (document_of l e) s else s)
        ∙ ap (read_as (last_document n i es)) (read-first n e s)
        ∙ read_as_later (last_document n i es) (first_document n e) (get_scalar rocks json i s)

    -- After a reload of a log of whole lines that returns, an identifier reads as the last document
    -- under it in the entries behind the snapshot, and as before where they have none, if the database
    -- refuses no write.
    pub query-reload_database :
        (es : List LogEntry) (db db' : Database l)
        → AllLines es
        → db.persistence.unread ≡ lines (log_text es)
        → reload_database l db ≡ some (db', ok tt)
        → query l i db'
          ≡ read_as (last_document db.persistence.last_snapshot_id i es) (query l i db)
    unfolding query
    query-reload_database es db db' h u returned =
        ap (get_scalar rocks json i) (reload_database-scalars l es db db' h u returned)
        ∙ read-rebuilt db.persistence.last_snapshot_id es db.scalars

    read_as_again :
        (document : Option json.Value) (before : json.Value)
        → read_as document (read_as document before) ≡ read_as document before
    read_as_again none before = refl
    read_as_again (some document) before = refl

    -- A second process that reloads the same entries on top of the documents that the first reload
    -- left reads what the first one read, if both reloads return and the database refuses no write: a
    -- snapshot identifier that was not moved does not change a document.
    pub query-reload_twice :
        (es : List LogEntry) (db db' again again' : Database l)
        → AllLines es
        → db.persistence.unread ≡ lines (log_text es)
        → reload_database l db ≡ some (db', ok tt)
        → again.scalars ≡ db'.scalars
        → again.persistence.last_snapshot_id ≡ db.persistence.last_snapshot_id
        → again.persistence.unread ≡ lines (log_text es)
        → reload_database l again ≡ some (again', ok tt)
        → query l i again' ≡ query l i db'
    unfolding query
    query-reload_twice es db db' again again' h u returned same_scalars same_id u' returned' =
        let document = last_document db.persistence.last_snapshot_id i es in
        let first = query-reload_database es db db' h u returned in
        query-reload_database es again again' h u' returned'
        ∙ ap (λ n. read_as (last_document n i es) (query l i again)) same_id
        ∙ ap (λ s. read_as document (get_scalar rocks json i s)) same_scalars
        ∙ ap (read_as document) first
        ∙ read_as_again document (query l i db)
        ∙ sym first

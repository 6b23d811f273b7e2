-- ===== src/HttpServer/Logged.antt =====
-- What a routed request does to the write-ahead log.
use learn_vector_db.Prelude.{
  ℕ, Bool, true, some, List, codes, bytes_eq, bytes_eq_sound, if◌then◌else◌, ◌≡◌, refl, ◌∙◌, inl,
  inr, arith, Bool-cases,
}
use learn_vector_db.Exec.{modify, pure, ◌>>=◌}
use learn_vector_db.IndexFactory.{Libraries, IndexType}
use learn_vector_db.Wal.{Persistence, save_last_snapshot_id}
use learn_vector_db.Database.{Database, take_snapshot, insert_new}
use learn_vector_db.Database.Searched.{search-Keeps}
use learn_vector_db.Database.Upsert.{insert_new-Keeps}
use learn_vector_db.RaftStuff.{RaftServer, Node}
use learn_vector_db.HttpServer.Documents.{snapshot_handler}
use learn_vector_db.HttpServer.Routes.{
  HttpMethod, get, post, other, HttpRequest, route, route_of, post_route, serve_request,
}
use learn_vector_db.HttpServer.Quiet.{IsQuiet}
use learn_vector_db.HttpServer.Served.{asks_snapshot, serve_request-Keeps}

-- What a snapshot does to the write-ahead log.
unfoldable pub snapped : Bool → Persistence → Persistence
snapped writable p = save_last_snapshot_id writable (record p { last_snapshot_id = p.increase_id })

module _ (l : Libraries) (r : RaftServer) (writable : Bool) where
  module _ (p : Persistence) where
    insert_new-persistence :
        (type : IndexType) (vector : List l.json.Float) (id : ℕ) (db : Database l)
        → (insert_new l type vector id db).0.persistence ≡ db.persistence
    insert_new-persistence type vector id db =
        ((insert_new-Keeps l type vector id).hold db
          (record { same_scalars = refl; same_persistence = refl })).same_persistence

    same-IsQuiet : IsQuiet l (λ db. db.persistence ≡ p)
    same-IsQuiet = record {
      searches = search-Keeps l (λ db. db.persistence ≡ p) (λ db index h. h);
      inserts =
          λ type vector id. record { hold = λ db h. insert_new-persistence type vector id db ∙ h };
    }

  snapshot_request :
      (m : HttpMethod) (q : HttpRequest)
      → asks_snapshot m q.path ≡ true
      → route_of l r m writable q ≡ some (snapshot_handler l r writable)
  unfolding post_route bytes_eq
  snapshot_request post q h = rw (bytes_eq_sound q.path (codes "/admin/snapshot") h) refl
  snapshot_request get q h = ground (arith, h)
  snapshot_request other q h = ground (arith, h)

  snapshot_handler-persistence :
      (n : Node l r)
      → (snapshot_handler l r writable n).0.database.persistence
        ≡ snapped writable n.database.persistence
  unfolding snapshot_handler take_snapshot snapped modify pure save_last_snapshot_id ◌>>=◌
  snapshot_handler-persistence n = refl

  -- A request POST /admin/snapshot leaves the write-ahead log as a snapshot does: the identifier of
  -- the process is noted as the snapshot's, in the file too where that can be written, and nothing
  -- else changes. Any other request leaves the log, its identifiers and the file as they were.
  pub serve_request-persistence :
      (n : Node l r) (q : HttpRequest)
      → (serve_request l r writable q n).database.persistence ≡ (
          if asks_snapshot q.method q.path
          then snapped writable n.database.persistence
          else n.database.persistence)
  unfolding serve_request route
  serve_request-persistence n q = elim (Bool-cases (asks_snapshot q.method q.path)) [
    | inl asked ↦ rw asked (
        rw (snapshot_request q.method q asked, serve_request, route)
          (snapshot_handler-persistence n))
    | inr quiet ↦ rw quiet (
        serve_request-Keeps l r (λ db. db.persistence ≡ n.database.persistence)
          (same-IsQuiet n.database.persistence) writable q n
          (λ asked. absurd (ground (arith, asked, quiet))) refl)
  ]

-- ===== src/HttpServer/Served.antt =====
-- What a routed request keeps of the database.
use learn_vector_db.Prelude.{
  Bool, true, false, Option, none, some, Bytes, codes, bytes_eq, if◌then◌else◌, ◌≡◌, refl,
}
use learn_vector_db.Exec.Keeps.{Keeps-bind, Keeps-pure}
use learn_vector_db.IndexFactory.{Libraries}
use learn_vector_db.RaftStuff.{RaftServer, Node}
use learn_vector_db.Database.{Database, take_snapshot}
use learn_vector_db.HttpServer.{Handler}
use learn_vector_db.HttpServer.Documents.{snapshot_handler}
use learn_vector_db.HttpServer.Routes.{
  HttpMethod, get, post, other, HttpRequest, route, route_of, post_route, get_route, serve_request,
}
use learn_vector_db.HttpServer.Quiet.{
  Quiet, IsQuiet, Keeps-modify, search_handler-Quiet, insert_handler-Quiet, upsert_handler-Quiet,
  query_handler-Quiet, set_leader_handler-Quiet, add_follower_handler-Quiet,
  list_node_handler-Quiet, get_node_handler-Quiet, get_scalar_handler-Quiet,
}

-- Whether a request asks for a snapshot.
abbrev pub asks_snapshot : HttpMethod → Bytes → Bool
asks_snapshot post path = bytes_eq path (codes "/admin/snapshot")
asks_snapshot get path = false
asks_snapshot other path = false

module _ (l : Libraries) (r : RaftServer) (P : Database l → Type 0) (quiet : IsQuiet l P)
    (writable : Bool) where
  abbrev pub SnapshotsKeep : Type 0
  SnapshotsKeep = (db : Database l) → P db → P (take_snapshot l writable db)

  abbrev AllQuiet : Option (Handler l r) → Type 0
  AllQuiet none = Unit
  AllQuiet (some handle) = Quiet l r P handle

  AllQuiet-if :
      (b : Bool) (x y : Option (Handler l r))
      → AllQuiet x
      → AllQuiet y
      → AllQuiet (if b then x else y)
  AllQuiet-if true x y h k = h
  AllQuiet-if false x y h k = k

  AllQuiet-when :
      (b : Bool) (x y : Option (Handler l r))
      → (b ≡ true → AllQuiet x)
      → AllQuiet y
      → AllQuiet (if b then x else y)
  AllQuiet-when true x y h k = h refl
  AllQuiet-when false x y h k = k

  snapshot_handler-Quiet : SnapshotsKeep → Quiet l r P (snapshot_handler l r writable)
  unfolding snapshot_handler
  snapshot_handler-Quiet snapshots =
      Keeps-bind _ _ (Keeps-modify _ (λ n h. snapshots n.database h)) (λ _. Keeps-pure _)

  post_route-AllQuiet :
      (path body : Bytes)
      → (bytes_eq path (codes "/admin/snapshot") ≡ true → SnapshotsKeep)
      → AllQuiet (post_route l r writable path body)
  unfolding post_route
  post_route-AllQuiet path body snapshots =
      AllQuiet-if (bytes_eq path (codes "/search")) _ _ (search_handler-Quiet l r P quiet body) (
        AllQuiet-if (bytes_eq path (codes "/insert")) _ _ (insert_handler-Quiet l r P quiet body) (
          AllQuiet-if (bytes_eq path (codes "/upsert")) _ _ (upsert_handler-Quiet l r P quiet body)
            (AllQuiet-if (bytes_eq path (codes "/query")) _ _ (query_handler-Quiet l r P quiet body)
              (AllQuiet-when (bytes_eq path (codes "/admin/snapshot")) _ _
                (λ asked. snapshot_handler-Quiet (snapshots asked))
                (AllQuiet-if (bytes_eq path (codes "/admin/setLeader")) _ _
                  (set_leader_handler-Quiet l r P quiet)
                  (AllQuiet-if (bytes_eq path (codes "/admin/addFollower")) _ _
                    (add_follower_handler-Quiet l r P quiet body) tt))))))

  get_route-AllQuiet : (path : Bytes) (param : Bytes → Bytes) → AllQuiet (get_route l r path param)
  unfolding get_route
  get_route-AllQuiet path param =
      AllQuiet-if (bytes_eq path (codes "/admin/listNode")) _ _
        (list_node_handler-Quiet l r P quiet)
        (AllQuiet-if (bytes_eq path (codes "/admin/getNode")) _ _
          (get_node_handler-Quiet l r P quiet)
          (AllQuiet-if (bytes_eq path (codes "/admin/getScalar")) _ _
            (get_scalar_handler-Quiet l r P quiet _ _ _ _) tt))

  route_of-AllQuiet :
      (m : HttpMethod) (q : HttpRequest)
      → (asks_snapshot m q.path ≡ true → SnapshotsKeep)
      → AllQuiet (route_of l r m writable q)
  route_of-AllQuiet post q snapshots = post_route-AllQuiet q.path q.body snapshots
  route_of-AllQuiet get q snapshots = get_route-AllQuiet q.path q.param
  route_of-AllQuiet other q snapshots = tt

  served :
      (n : Node l r) (x : Option (Handler l r))
      → AllQuiet x
      → P n.database
      → (let after : Node l r = elim x [ none ↦ n | some handle ↦ (handle n).0 ] in
          P after.database)
  served n none h k = k
  served n (some handle) h k = h.hold n k

  -- A request keeps of the database what searches and insertions keep and, where it asks for a
  -- snapshot, snapshots.
  pub serve_request-Keeps :
      (q : HttpRequest) (n : Node l r)
      → (asks_snapshot q.method q.path ≡ true → SnapshotsKeep)
      → P n.database
      → P (serve_request l r writable q n).database
  unfolding serve_request route
  serve_request-Keeps q n snapshots =
      served n (route_of l r q.method writable q) (route_of-AllQuiet q.method q snapshots)

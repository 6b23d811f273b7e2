-- ===== src/Database/Matches.antt =====
-- The bitmap of a filter, against the stored documents.
use learn_vector_db.FilterIndex.{Index as FilterMap}
use learn_vector_db.Database.{Database}
use learn_vector_db.Database.Exact.{Exact}
use learn_vector_db.Database.Ordered.{Ordered}

-- ===== src/Wal/ReadBack.antt =====
-- What the reader of the log gets back of a line that was written to it.
use mathlib.Core.List.{append_assoc}
use learn_vector_db.Prelude.{
  ℕ, ◌≤◌, true, some, [], ◌∷◌, ◌++◌, Bytes, ◌==◌, ltb, if◌then◌else◌, ◌≡◌, refl, arith, ◌∙◌, ap,
}
use learn_vector_db.Result.{ok}
use learn_vector_db.Decimal.{to_string, max_u64}
use learn_vector_db.Decimal.RoundTrip.{absent, absent-append, absent-to_string, stoull-to_string}
use learn_vector_db.Json.{Json, c_str}
use learn_vector_db.Wal.{
  Persistence, lines, split, next_field, fields, see_id, read_lines, wal_line, bar, newline,
}

-- The text up to its first `|`.
unfoldable pub before_bar : Bytes → Bytes
before_bar [] = []
before_bar (c ∷ s) = if c == bar then [] else c ∷ before_bar s

pub lines-append :
    (s rest : Bytes) → absent newline s ≡ true → lines (s ++ (newline ∷ rest)) ≡ s ∷ lines rest
unfolding lines absent
lines-append [] rest h = refl
lines-append (c ∷ s) rest h = ground (arith, lines-append s rest)

split_found :
    (d : ℕ) (s rest : Bytes) → absent d s ≡ true → split d (s ++ (d ∷ rest)) ≡ (s, some rest)
unfolding split absent
split_found d [] rest h = ground arith
split_found d (c ∷ s) rest h = ground (arith, split_found d s rest)

split-before_bar : (s : Bytes) → (split bar s).0 ≡ before_bar s
unfolding split before_bar
split-before_bar [] = refl
split-before_bar (c ∷ s) = ground (arith, split-before_bar s)

pub next_field_found :
    (d : ℕ) (old s rest : Bytes)
    → absent d s ≡ true
    → next_field d old (record { rest = s ++ (d ∷ rest); good = true })
      ≡ (s, record { rest = rest; good = true })
unfolding next_field
next_field_found d old s rest h = ground (arith, split_found d s rest h)

next_field-before_bar :
    (old s : Bytes) → (next_field bar old (record { rest = s; good = true })).0 ≡ before_bar s
unfolding next_field
next_field-before_bar old s = ground (arith, split-before_bar s)

-- A line without its end.
pub line_text : ℕ → Bytes → Bytes → Bytes → Bytes
line_text id version op text = to_string id ++ (bar ∷ (version ++ (bar ∷ (op ++ (bar ∷ text)))))

wal_line_append :
    (id : ℕ) (version op text rest : Bytes)
    → wal_line id version op text ++ rest ≡ line_text id version op text ++ (newline ∷ rest)
unfolding wal_line line_text
wal_line_append id version op text rest = simp append_assoc

-- What a writer of the log has to respect for its line to be one line of four fields.
pub record IsLine (id : ℕ) (version op text : Bytes) : Type 0 where
  pub fits : id ≤ max_u64
  pub version_bar : absent bar version ≡ true
  pub version_newline : absent newline version ≡ true
  pub op_bar : absent bar op ≡ true
  pub op_newline : absent newline op ≡ true
  pub text_newline : absent newline text ≡ true

module _ (id : ℕ) (version op text : Bytes) (clean : IsLine id version op text) where
  line_text-absent : absent newline (line_text id version op text) ≡ true
  unfolding line_text
  line_text-absent = absent-append newline (to_string id) _ (absent-to_string newline id refl) (
      absent-append newline (bar ∷ []) _ (unfold absent in refl) (
        absent-append newline version _ clean.version_newline (
          absent-append newline (bar ∷ []) _ (unfold absent in refl) (
            absent-append newline op _ clean.op_newline
              (absent-append newline (bar ∷ []) _ (unfold absent in refl) clean.text_newline)))))

  fields-line_text :
      (old : Bytes)
      → fields old (line_text id version op text) ≡ record {
        log_id_str = to_string id;
        version = version;
        operation_type = op;
        json_data_str = before_bar text;
      }
  unfolding fields line_text
  fields-line_text old = simp (
    next_field_found bar [] (to_string id) _ (absent-to_string bar id refl),
    next_field_found bar [] version _ clean.version_bar,
    next_field_found bar old op text clean.op_bar,
    next_field-before_bar,
  )

  pub lines-wal_line :
      (rest : Bytes)
      → lines (wal_line id version op text ++ rest) ≡ line_text id version op text ∷ lines rest
  lines-wal_line rest =
      ap lines (wal_line_append id version op text rest)
      ∙ lines-append (line_text id version op text) rest line_text-absent

  -- One line of the log: it is skipped if the snapshot holds it, and else gives its operation and
  -- its text up to the first `|`.
  pub read_lines-wal_line :
      (j : Json) (rest : Bytes) (p : Persistence) (old : Bytes) (document : j.Value)
      → read_lines j (lines (wal_line id version op text ++ rest)) p old document ≡ (
          if ltb p.last_snapshot_id id
          then ok (record {
            state = record (see_id id p) { unread = lines rest };
            operation = op;
            document = j.parse (c_str (before_bar text));
          })
          else read_lines j (lines rest) (see_id id p) op document)
  unfolding read_lines
  read_lines-wal_line j rest p old document = rw (lines-wal_line rest) (
      rw (fields-line_text old)
        (rw (stoull-to_string id clean.fits) (unfold see_id in ground arith)))

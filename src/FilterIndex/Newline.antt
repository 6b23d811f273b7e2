-- ===== src/FilterIndex/Newline.antt =====
-- A bitmap with a newline in its bytes, in the text form of the index.
use mathlib.Core.List.{append_assoc}
use learn_vector_db.Prelude.{true, [], ◌∷◌, ◌++◌, Bytes, bytes_key, ◌≡◌, refl, ap, ◌∙◌}
use learn_vector_db.Result.{throw, invalid_argument}
use learn_vector_db.Decimal.RoundTrip.{absent, absent-append}
use learn_vector_db.Json.{ℤ, int_key}
use learn_vector_db.StdMap.{insert}
use learn_vector_db.Wal.{bar, newline, lines}
use learn_vector_db.Wal.ReadBack.{lines-append}
use learn_vector_db.FilterIndex.{
  Roaring, Index, ValueMap, print_long, serialize_values, serialize_int_field_filter, load_lines,
  deserialize_int_field_filter, values_of,
}
use learn_vector_db.FilterIndex.Saved.{FitsLong, load_line_lem, absent-print_long, two_lines}
use learn_vector_db.FilterIndex.RoundTrip.{AllSavable, Savable, load_entry}

module _ (b : Roaring) where
  serialize_values-append :
      (name : Bytes) (xs ys : ValueMap b)
      → serialize_values b name (xs ++ ys)
        ≡ serialize_values b name xs ++ serialize_values b name ys
  unfolding serialize_values
  serialize_values-append name [] ys = refl
  serialize_values-append name ((v, bitmap) ∷ xs) ys =
      simp (serialize_values-append name xs ys, append_assoc)

  serialize-append :
      (xs ys : Index b)
      → serialize_int_field_filter b (xs ++ ys)
        ≡ serialize_int_field_filter b xs ++ serialize_int_field_filter b ys
  unfolding serialize_int_field_filter
  serialize-append [] ys = refl
  serialize-append ((name, values) ∷ xs) ys = simp (serialize-append xs ys, append_assoc)

  -- What can be saved is read, whatever follows.
  load_values :
      (name : Bytes) (values : ValueMap b) (rest : Bytes) (m : Index b)
      → absent bar name ≡ true
      → absent newline name ≡ true
      → AllSavable b values
      → (m' : Index b) × (load_lines b (lines (serialize_values b name values ++ rest)) m
          ≡ load_lines b (lines rest) m')
  unfolding serialize_values
  load_values name [] rest m h k s = (m, refl)
  load_values name ((v, bitmap) ∷ values) rest m h k s =
      let more = serialize_values b name values ++ rest in
      let text : serialize_values b name ((v, bitmap) ∷ values) ++ rest
          ≡ name ++ (bar ∷ (print_long v ++ (bar ∷ (b.serialize bitmap ++ (newline ∷ more))))) =
        simp append_assoc in
      let (m', read) =
        load_values name values rest (insert name (insert v bitmap (values_of b name m)) m) h k
          s.1 in
      (
        m',
        ap (λ t. load_lines b (lines t) m) text ∙ load_entry b name h k v bitmap more m s.0 ∙ read,
      )

  load_front :
      (front : Index b) (rest : Bytes) (m : Index b)
      → Savable b front
      → (m' : Index b) × (load_lines b (lines (serialize_int_field_filter b front ++ rest)) m
          ≡ load_lines b (lines rest) m')
  unfolding serialize_int_field_filter
  load_front [] rest m s = (m, refl)
  load_front ((name, values) ∷ front) rest m (h, k, s, t) =
      let more = serialize_int_field_filter b front ++ rest in
      let (m1, first) = load_values name values more m h k s in
      let (m2, others) = load_front front rest m1 t in
      (
        m2,
        ap (λ x. load_lines b (lines x) m)
              (append_assoc (serialize_values b name values) (serialize_int_field_filter b front)
                rest)
            ∙ first
            ∙ others,
      )

  -- The bitmap is the first thing of the text.
  breaks_here :
      (name : Bytes) (v : ℤ) (bitmap : b.Bitmap) (tail : Bytes) (m : Index b)
      (before behind : Bytes)
      → b.serialize bitmap ≡ before ++ (newline ∷ behind)
      → absent newline before ≡ true
      → absent newline behind ≡ true
      → absent bar behind ≡ true
      → absent bar name ≡ true
      → absent newline name ≡ true
      → FitsLong v
      → load_lines b
          (lines
            (name ++ (bar ∷ (print_long v ++ (bar ∷ (b.serialize bitmap ++ (newline ∷ tail)))))))
          m
        ≡ throw invalid_argument
  breaks_here name v bitmap tail m before behind bytes h1 h2 h3 h4 h5 fits =
      let line = name ++ (bar ∷ (print_long v ++ (bar ∷ before))) in
      let clean : absent newline line ≡ true = absent-append newline name _ h5 (
        absent-append newline (bar ∷ []) _ (unfold absent in refl) (
          absent-append newline (print_long v) _ (absent-print_long newline v refl refl)
            (absent-append newline (bar ∷ []) before (unfold absent in refl) h1))) in
      let text : name ++ (bar ∷ (print_long v ++ (bar ∷ (b.serialize bitmap ++ (newline ∷ tail)))))
          ≡ line ++ (newline ∷ (behind ++ (newline ∷ tail))) =
        rw bytes (simp append_assoc) in
      rw text (
        rw (lines-append line (behind ++ (newline ∷ tail)) clean) (
          rw (lines-append behind tail h2) (
            two_lines b line behind (lines tail) m _ (load_line_lem b name v before m h4 fits) h3)))

  -- A bitmap of any field and value, whose bytes hold a newline and no `|` or newline behind it, is
  -- written over two lines; the reader throws at the second one, whatever follows, so that the index
  -- cannot be loaded. The fields and values before it are such that they can be saved.
  pub newline_breaks :
      (front : Index b) (name : Bytes) (earlier : ValueMap b) (v : ℤ) (bitmap : b.Bitmap)
      (later : ValueMap b) (rest m : Index b) (before behind : Bytes)
      → Savable b front
      → AllSavable b earlier
      → b.serialize bitmap ≡ before ++ (newline ∷ behind)
      → absent newline before ≡ true
      → absent newline behind ≡ true
      → absent bar behind ≡ true
      → absent bar name ≡ true
      → absent newline name ≡ true
      → FitsLong v
      → deserialize_int_field_filter b
          (serialize_int_field_filter b
            (front ++ ((name, earlier ++ ((v, bitmap) ∷ later)) ∷ rest)))
          m
        ≡ throw invalid_argument
  unfolding deserialize_int_field_filter serialize_values
  newline_breaks front name earlier v bitmap later rest m before behind s t bytes h1 h2 h3 h4 h5
        fits =
      let tail = serialize_values b name later ++ serialize_int_field_filter b rest in
      let here =
        name ++ (bar ∷ (print_long v ++ (bar ∷ (b.serialize bitmap ++ (newline ∷ tail))))) in
      let text : serialize_int_field_filter b
            (front ++ ((name, earlier ++ ((v, bitmap) ∷ later)) ∷ rest))
          ≡ serialize_int_field_filter b front ++ (serialize_values b name earlier ++ here) =
        serialize-append front ((name, earlier ++ ((v, bitmap) ∷ later)) ∷ rest)
        ∙ ap (λ x. serialize_int_field_filter b front ++ x)
            (unfold serialize_int_field_filter in
              rw (serialize_values-append name earlier ((v, bitmap) ∷ later), serialize_values)
                (simp append_assoc)) in
      let (m1, first) = load_front front (serialize_values b name earlier ++ here) m s in
      let (m2, second) = load_values name earlier here m1 h4 h5 t in
      ap (λ x. load_lines b (lines x) m) text
      ∙ first
      ∙ second
      ∙ breaks_here name v bitmap tail m2 before behind bytes h1 h2 h3 h4 h5 fits

-- ===== src/FilterIndex/RoundTrip.antt =====
-- A saved index that is loaded again.
use mathlib.Core.List.{append_assoc, append-nil}
use learn_vector_db.Prelude.{true, [], ◌∷◌, ◌++◌, Bytes, bytes_key, ◌≡◌, refl, sym, ap, ◌∙◌, arith}
use learn_vector_db.Result.{ok}
use learn_vector_db.Decimal.RoundTrip.{absent, absent-append}
use learn_vector_db.Json.{ℤ, int_key}
use learn_vector_db.StdMap.{insert}
use learn_vector_db.StdMap.Ordered.{
  IsOrdered, KeysBelow, AllBelow, AllBelow-nil, AllBelow-next, insert_last, insert_replace,
  find_below, find_last, bytes_order, int_order,
}
use learn_vector_db.Wal.{bar, newline, lines}
use learn_vector_db.Wal.ReadBack.{lines-append}
use learn_vector_db.FilterIndex.{
  Roaring, Index, ValueMap, print_long, serialize_values, serialize_int_field_filter, load_line,
  load_lines, deserialize_int_field_filter, values_of,
}
use learn_vector_db.FilterIndex.Saved.{FitsLong, load_line_lem, absent-print_long}
use learn_vector_db.FilterIndex.Ordered.{WellFormed, WellValued, AllValued}

module _ (b : Roaring) where
  -- A value that fits a `long`, with a bitmap that reads back and is written without a newline.
  pub record IsSavable (v : ℤ) (bitmap : b.Bitmap) : Type 0 where
    pub fits : FitsLong v
    pub one_line : absent newline (b.serialize bitmap) ≡ true
    pub reads_back : b.deserialize (b.serialize bitmap) ≡ bitmap

  abbrev pub AllSavable : ValueMap b → Type 0
  AllSavable [] = Unit
  AllSavable ((v, bitmap) ∷ values) = IsSavable v bitmap × AllSavable values

  -- No field has a bar or a newline in its name.
  abbrev pub Savable : Index b → Type 0
  Savable [] = Unit
  Savable ((name, values) ∷ m) =
      (absent bar name ≡ true) × (absent newline name ≡ true) × AllSavable values × Savable m

  module _ (name : Bytes) (clean_bar : absent bar name ≡ true)
      (clean_newline : absent newline name ≡ true) where
    -- One line is read and the others follow.
    pub load_entry :
        (v : ℤ) (bitmap : b.Bitmap) (rest : Bytes) (m : Index b)
        → IsSavable v bitmap
        → load_lines b
            (lines
              (name ++ (bar ∷ (print_long v ++ (bar ∷ (b.serialize bitmap ++ (newline ∷ rest)))))))
            m
          ≡ load_lines b (lines rest) (insert name (insert v bitmap (values_of b name m)) m)
    unfolding load_lines
    load_entry v bitmap rest m s =
        let line = name ++ (bar ∷ (print_long v ++ (bar ∷ b.serialize bitmap))) in
        let clean : absent newline line ≡ true = absent-append newline name _ clean_newline (
          absent-append newline (bar ∷ []) _ (unfold absent in refl) (
            absent-append newline (print_long v) _ (absent-print_long newline v refl refl)
              (absent-append newline (bar ∷ []) _ (unfold absent in refl) s.one_line))) in
        let text : name
              ++ (bar ∷ (print_long v ++ (bar ∷ (b.serialize bitmap ++ (newline ∷ rest)))))
            ≡ line ++ (newline ∷ rest) =
          simp append_assoc in
        let read : load_line b line m ≡ ok (insert name (insert v bitmap (values_of b name m)) m) =
          load_line_lem b name v (b.serialize bitmap) m clean_bar s.fits
          ∙ ap (λ x. ok (insert name (insert v x (values_of b name m)) m)) s.reads_back in
        rw text (rw (lines-append line rest clean) (rw read))

    -- The other values of a field whose first values are loaded.
    load_more :
        (values front : ValueMap b) (rest : Bytes) (done : Index b)
        → KeysBelow name done
        → AllBelow front values
        → IsOrdered values
        → AllSavable values
        → load_lines b (lines (serialize_values b name values ++ rest)) (done ++ (name, front) ∷ [])
          ≡ load_lines b (lines rest) (done ++ (name, front ++ values) ∷ [])
    unfolding serialize_values
    load_more [] front rest done below behind ordered s =
        ap (λ vs. load_lines b (lines rest) (done ++ (name, vs) ∷ [])) (sym (append-nil front))
    load_more ((v, bitmap) ∷ values) front rest done below behind ordered s =
        let here = done ++ (name, front) ∷ [] in
        let more = serialize_values b name values ++ rest in
        let text : serialize_values b name ((v, bitmap) ∷ values) ++ rest
            ≡ name ++ (bar ∷ (print_long v ++ (bar ∷ (b.serialize bitmap ++ (newline ∷ more))))) =
          simp append_assoc in
        let now : values_of b name here ≡ front =
          rw (find_last bytes_order name front done below, values_of) refl in
        let next : insert name (insert v bitmap (values_of b name here)) here
            ≡ done ++ (name, front ++ (v, bitmap) ∷ []) ∷ [] =
          ap (λ vs. insert name (insert v bitmap vs) here) now
          ∙ ap (λ vs. insert name vs here) (insert_last int_order v bitmap front behind.0)
          ∙ insert_replace bytes_order name front (front ++ (v, bitmap) ∷ []) done below in
        ap (λ t. load_lines b (lines t) here) text
        ∙ load_entry v bitmap more here s.0
        ∙ ap (load_lines b (lines more)) next
        ∙ load_more values (front ++ (v, bitmap) ∷ []) rest done below
            (AllBelow-next v bitmap front values ordered.0 behind.1) ordered.1 s.1
        ∙ ap (λ vs. load_lines b (lines rest) (done ++ (name, vs) ∷ []))
            (append_assoc front ((v, bitmap) ∷ []) values)

    load_field :
        (values : ValueMap b) (rest : Bytes) (done : Index b)
        → KeysBelow name done
        → WellValued b values
        → AllSavable values
        → load_lines b (lines (serialize_values b name values ++ rest)) done
          ≡ load_lines b (lines rest) (done ++ (name, values) ∷ [])
    unfolding serialize_values insert
    load_field [] rest done below w s = ground (arith, w.some_value)
    load_field ((v, bitmap) ∷ values) rest done below w s =
        let more = serialize_values b name values ++ rest in
        let text : serialize_values b name ((v, bitmap) ∷ values) ++ rest
            ≡ name ++ (bar ∷ (print_long v ++ (bar ∷ (b.serialize bitmap ++ (newline ∷ more))))) =
          simp append_assoc in
        let none_yet : values_of b name done ≡ [] =
          rw (find_below bytes_order name done below, values_of) refl in
        let next : insert name (insert v bitmap (values_of b name done)) done
            ≡ done ++ (name, (v, bitmap) ∷ []) ∷ [] =
          ap (λ vs. insert name (insert v bitmap vs) done) none_yet
          ∙ insert_last bytes_order name ((v, bitmap) ∷ []) done below in
        ap (λ t. load_lines b (lines t) done) text
        ∙ load_entry v bitmap more done s.0
        ∙ ap (load_lines b (lines more)) next
        ∙ load_more values ((v, bitmap) ∷ []) rest done below
            (AllBelow-next v bitmap [] values w.ordered.0 (AllBelow-nil values)) w.ordered.1 s.1

  load_fields :
      (m done : Index b)
      → AllBelow done m
      → IsOrdered m
      → AllValued b m
      → Savable m
      → load_lines b (lines (serialize_int_field_filter b m)) done ≡ ok (done ++ m)
  unfolding serialize_int_field_filter lines load_lines
  load_fields [] done below ordered valued s = ap ok (sym (append-nil done))
  load_fields ((name, values) ∷ m) done below ordered valued s =
      let (clean_bar, clean_newline, values_savable, rest_savable) = s in
      load_field name clean_bar clean_newline values (serialize_int_field_filter b m) done below.0
        valued.0 values_savable
      ∙ load_fields m (done ++ (name, values) ∷ [])
          (AllBelow-next name values done m ordered.0 below.1) ordered.1 valued.1 rest_savable
      ∙ ap ok (append_assoc done ((name, values) ∷ []) m)

  -- A saved index that is loaded into an empty one is what it was, if its maps are as the operations
  -- keep them, no field has a bar or a newline in its name, and every bitmap reads back and is written
  -- without a newline.
  pub deserialize-serialize :
      (m : Index b)
      → WellFormed b m
      → Savable m
      → deserialize_int_field_filter b (serialize_int_field_filter b m) [] ≡ ok m
  unfolding deserialize_int_field_filter
  deserialize-serialize m w s = load_fields m [] (AllBelow-nil m) w.ordered w.valued s

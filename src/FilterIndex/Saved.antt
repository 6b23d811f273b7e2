-- ===== src/FilterIndex/Saved.antt =====
-- The text form of the index: a bitmap is written as raw bytes into a text of lines.
use learn_vector_db.Prelude.{
  ℕ, ◌+◌, ◌^◌, ◌<◌, Bool, true, false, none, List, [], ◌∷◌, ◌++◌, Bytes, bytes_key, ◌==◌, leb, ◌≡◌,
  refl, ◌∙◌, ap, arith, &&-eq-true,
}
use learn_vector_db.Result.{ok, throw, invalid_argument}
use learn_vector_db.Decimal.{is_digit, scan, skip_space}
use learn_vector_db.Decimal.RoundTrip.{absent, absent-to_string, scan-to_string, to_string_head}
use learn_vector_db.Json.{ℤ, pos, negsuc, int_key}
use learn_vector_db.StdMap.{insert}
use learn_vector_db.Wal.{bar, next_field, split}
use learn_vector_db.Wal.ReadBack.{next_field_found}
use learn_vector_db.FilterIndex.{
  Roaring, Index, print_long, long_of, stol, long_digits, load_line, load_lines, values_of,
}

-- The integers that a `long` holds.
abbrev pub FitsLong : ℤ → Type 0
FitsLong (pos n) = n < 2 ^ 63
FitsLong (negsuc n) = n < 2 ^ 63

long_digits_lem :
    (negative : Bool) (c : ℕ) (s : Bytes)
    → is_digit c ≡ true
    → long_digits negative (c ∷ s) ≡ long_of negative (scan 0 (c ∷ s))
unfolding long_digits
long_digits_lem negative c s h = rw h

stol_digits :
    (c : ℕ) (s : Bytes) → is_digit c ≡ true → stol (c ∷ s) ≡ long_of false (scan 0 (c ∷ s))
unfolding stol skip_space
stol_digits c s h = ground (arith, &&-eq-true (leb b'0' c) (leb c b'9') h)

stol_minus :
    (c : ℕ) (s : Bytes) → is_digit c ≡ true → stol (b'-' ∷ c ∷ s) ≡ long_of true (scan 0 (c ∷ s))
unfolding stol skip_space
stol_minus c s h = ground (arith, &&-eq-true (leb b'0' c) (leb c b'9') h)

-- A `long` that was written in decimal is read back.
pub stol-print_long : (v : ℤ) → FitsLong v → stol (print_long v) ≡ ok v
unfolding print_long
stol-print_long (pos n) h =
    let (c, s, shape, digit) = to_string_head n in
    let value : scan 0 (c ∷ s) ≡ n = rw (← shape) (scan-to_string n) in
    rw shape (stol_digits c s digit ∙ ap (long_of false) value ∙ ground arith)
stol-print_long (negsuc n) h =
    let (c, s, shape, digit) = to_string_head (n + 1) in
    let value : scan 0 (c ∷ s) ≡ n + 1 = rw (← shape) (scan-to_string (n + 1)) in
    rw shape (stol_minus c s digit ∙ ap (long_of true) value ∙ ground arith)

pub absent-print_long :
    (c : ℕ) (v : ℤ) → is_digit c ≡ false → (c == b'-') ≡ false → absent c (print_long v) ≡ true
unfolding print_long absent
absent-print_long c (pos n) h k = absent-to_string c n h
absent-print_long c (negsuc n) h k = ground (arith, absent-to_string c (n + 1) h)

split_missing : (d : ℕ) (s : Bytes) → absent d s ≡ true → split d s ≡ (s, none)
unfolding split absent
split_missing d [] h = refl
split_missing d (c ∷ s) h = ground (arith, split_missing d s)

next_field_end :
    (old s : Bytes)
    → absent bar s ≡ true
    → next_field bar old (record { rest = s; good = true })
      ≡ (s, record { rest = []; good = false })
unfolding next_field
next_field_end old s h = ground (arith, split_missing bar s h)

next_field_over :
    (old s : Bytes)
    → next_field bar old (record { rest = s; good = false })
      ≡ (old, record { rest = s; good = false })
unfolding next_field
next_field_over old s = refl

module _ (b : Roaring) where
  pub load_line_lem :
      (name : Bytes) (v : ℤ) (text : Bytes) (m : Index b)
      → absent bar name ≡ true
      → FitsLong v
      → load_line b (name ++ (bar ∷ (print_long v ++ (bar ∷ text)))) m
        ≡ ok (insert name (insert v (b.deserialize text) (values_of b name m)) m)
  unfolding load_line
  load_line_lem name v text m clean fits = simp (
    next_field_found bar [] name _ clean,
    next_field_found bar [] (print_long v) text (absent-print_long bar v refl refl),
    stol-print_long v fits,
  )

  load_line_broken :
      (line : Bytes) (m : Index b)
      → absent bar line ≡ true
      → load_line b line m ≡ throw invalid_argument
  unfolding load_line
  load_line_broken line m clean =
      simp (next_field_end [] line clean, next_field_over) (unfold stol skip_space in refl)

  -- A line that is read, and one behind it without a bar.
  pub two_lines :
      (line behind : Bytes) (more : List Bytes) (m m' : Index b)
      → load_line b line m ≡ ok m'
      → absent bar behind ≡ true
      → load_lines b (line ∷ behind ∷ more) m ≡ throw invalid_argument
  unfolding load_lines
  two_lines line behind more m m' first h = rw first (rw (load_line_broken behind m' h))

-- ===== src/ScalarStorage/Range.antt =====
-- The scan meets every key in its range: in the order of the keys, those with a prefix stand
-- together, from the position that `Seek` of the prefix gives on.
use mathlib.Core.Path.{fun_ext}
use learn_vector_db.Prelude.{
  Bool, true, false, not, ◌&&◌, ◌||◌, List, [], ◌∷◌, Bytes, bytes_eq, bytes_less, length, take,
  keep, take_while, null, ltb, ◌==◌, ◌≡◌, refl, sym, arith, Bool-cases, inl, inr, ap, ◌∙◌,
}
use learn_vector_db.ScalarStorage.{
  RocksDb, RocksLaws, Above, Ascending, drop_below, key_in_range, first_pairs,
}
use learn_vector_db.ScalarStorage.Page.{range, in_front}

-- `k` begins with `p`.
unfoldable pub begins : Bytes → Bytes → Bool
begins [] k = true
begins (c ∷ p) [] = false
begins (c ∷ p) (d ∷ k) = c == d && begins p k

-- The guard of `key_in_range` on the prefix.
abbrev off_prefix : Bytes → Bytes → Bool
off_prefix p k = not (null p) && (ltb (length k) (length p) || not (bytes_eq (take (length p) k) p))

compare-begins :
    (p k : Bytes)
    → (ltb (length k) (length p) || not (bytes_eq (take (length p) k) p)) ≡ not (begins p k)
unfolding begins bytes_eq
compare-begins [] k = ground arith
compare-begins (c ∷ p) [] = ground arith
compare-begins (c ∷ p) (d ∷ k) = ground (arith, compare-begins p k)

off_prefix_lem : (p k : Bytes) → off_prefix p k ≡ not (begins p k)
off_prefix_lem [] k = unfold begins in refl
off_prefix_lem (c ∷ p) k = compare-begins (c ∷ p) k

-- The order of the bytes, as the scan uses it.
less-not-begins : (p k : Bytes) → bytes_less k p ≡ true → begins p k ≡ false
unfolding bytes_less begins
less-not-begins [] [] h = ground arith
less-not-begins [] (d ∷ k) h = ground arith
less-not-begins (c ∷ p) [] h = refl
less-not-begins (c ∷ p) (d ∷ k) h = ground (arith, less-not-begins p k)

begins_between :
    (p a b : Bytes)
    → bytes_less a p ≡ false
    → bytes_less a b ≡ true
    → begins p b ≡ true
    → begins p a ≡ true
unfolding bytes_less begins
begins_between [] a b h k l = refl
begins_between (c ∷ p) [] b h k l = ground arith
begins_between (c ∷ p) (x ∷ a) [] h k l = ground arith
begins_between (c ∷ p) (x ∷ a) (y ∷ b) h k l = ground (arith, begins_between p a b)

less_trans : (a b u : Bytes) → bytes_less a b ≡ true → bytes_less u a ≡ true → bytes_less u b ≡ true
unfolding bytes_less
less_trans [] [] u h k = ground arith
less_trans [] (y ∷ b) [] h k = ground arith
less_trans [] (y ∷ b) (z ∷ u) h k = ground arith
less_trans (x ∷ a) [] u h k = ground arith
less_trans (x ∷ a) (y ∷ b) [] h k = refl
less_trans (x ∷ a) (y ∷ b) (z ∷ u) h k = ground (arith, less_trans a b u)

not_less_trans :
    (p a b : Bytes) → bytes_less a p ≡ false → bytes_less a b ≡ true → bytes_less b p ≡ false
unfolding bytes_less
not_less_trans [] a [] h k = refl
not_less_trans [] a (y ∷ b) h k = refl
not_less_trans (c ∷ p) [] b h k = ground arith
not_less_trans (c ∷ p) (x ∷ a) [] h k = ground arith
not_less_trans (c ∷ p) (x ∷ a) (y ∷ b) h k = ground (arith, not_less_trans p a b)

module _ (p u : Bytes) where
  abbrev inside : Bytes → Bool
  inside = key_in_range p u

  inside_lem : (k : Bytes) → inside k ≡ (begins p k && not (not (null u) && bytes_less u k))
  unfolding key_in_range
  inside_lem k = ground (arith, off_prefix_lem p k)

  -- Behind a key that is out of the range, and not below the prefix, no key is in it.
  out_then_out :
      (a b : Bytes)
      → bytes_less a p ≡ false
      → bytes_less a b ≡ true
      → inside a ≡ false
      → inside b ≡ false
  out_then_out a b h k l =
      ground (arith, inside_lem a, inside_lem b, begins_between p a b h k, less_trans a b u k)

  below_out : (k : Bytes) → bytes_less k p ≡ true → inside k ≡ false
  below_out k h = ground (arith, inside_lem k, less-not-begins p k h)

  none_left :
      (a : Bytes) (es : List (Bytes × Bytes))
      → bytes_less a p ≡ false
      → inside a ≡ false
      → Above a es
      → keep (λ e. inside e.0) es ≡ []
  unfolding keep
  none_left a [] h k l = refl
  none_left a (e ∷ es) h k l = rw (out_then_out a e.0 h l.0 k) (none_left a es h k l.1)

  front-keep :
      (a : Bytes) (es : List (Bytes × Bytes))
      → bytes_less a p ≡ false
      → Above a es
      → Ascending es
      → in_front inside es ≡ keep (λ e. inside e.0) es
  unfolding keep take_while
  front-keep a [] h k l = refl
  front-keep a (e ∷ es) h k l = elim (Bool-cases (inside e.0)) [
    | inl here ↦ rw here (ap (◌∷◌ e) (front-keep e.0 es (not_less_trans p a e.0 h k.0) l.0 l.1))
    | inr out ↦ rw out (sym (none_left e.0 es (not_less_trans p a e.0 h k.0) out l.0))
  ]

  front-head :
      (e : Bytes × Bytes) (es : List (Bytes × Bytes))
      → bytes_less e.0 p ≡ false
      → Above e.0 es
      → Ascending es
      → in_front inside (e ∷ es) ≡ keep (λ e. inside e.0) (e ∷ es)
  unfolding keep take_while
  front-head e es h k l = elim (Bool-cases (inside e.0)) [
    | inl here ↦ rw here (ap (◌∷◌ e) (front-keep e.0 es h k l))
    | inr out ↦ rw out (sym (none_left e.0 es h out k))
  ]

  front-drop_below :
      (es : List (Bytes × Bytes))
      → Ascending es
      → in_front inside (drop_below p es) ≡ keep (λ e. inside e.0) es
  unfolding drop_below
  front-drop_below [] h = unfold take_while keep in refl
  front-drop_below (e ∷ es) h = elim (Bool-cases (bytes_less e.0 p)) [
    | inl below ↦ rw below (front-drop_below es h.1 ∙ skip_lem e es (below_out e.0 below))
    | inr from ↦ rw from (front-head e es from h.0 h.1)
  ]
    where
      skip_lem :
          (e : Bytes × Bytes) (es : List (Bytes × Bytes))
          → inside e.0 ≡ false
          → keep (λ e. inside e.0) es ≡ keep (λ e. inside e.0) (e ∷ es)
      skip_lem e es out = unfold keep in rw out

drop_below-nil : (es : List (Bytes × Bytes)) → drop_below [] es ≡ es
unfolding drop_below
drop_below-nil [] = refl
drop_below-nil (([], v) ∷ es) = unfold bytes_less in refl
drop_below-nil ((c ∷ k, v) ∷ es) = unfold bytes_less in refl

-- The pairs that a scan of the range pages through are those of the whole database whose keys have
-- the prefix and are not above the bound, in the order of the keys.
pub range-keep :
    (k : RocksDb) (laws : RocksLaws k) (key_prefix key_upper : Bytes) (db : k.Db)
    → range k key_prefix key_upper db
      ≡ keep
          (λ e. begins key_prefix e.0 && not (not (null key_upper) && bytes_less key_upper e.0))
          (k.seek_to_first db)
range-keep k laws p u db =
    ap (in_front (key_in_range p u)) (start p)
    ∙ front-drop_below p u (k.seek_to_first db) (laws.ascending db)
    ∙ ap (λ (f : Bytes → Bool). keep (λ e. f e.0) (k.seek_to_first db)) (fun_ext (inside_lem p u))
  where
    start : (p : Bytes) → first_pairs k p db ≡ drop_below p (k.seek_to_first db)
    start [] = unfold first_pairs in sym (drop_below-nil (k.seek_to_first db))
    start (c ∷ p) = unfold first_pairs in laws.seek_lem (c ∷ p) db

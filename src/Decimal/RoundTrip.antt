-- ===== src/Decimal/RoundTrip.antt =====
-- `stoull` reads back what `to_string` writes, and what `to_string` writes is digits.
use mathlib.Core.WellFounded.{Acc}
use mathlib.Core.Logic.{dif_pos, dif_neg}
use native.Mathlib.Bridge.{le_prop}
use native.Mathlib.Decide.{dec_lt}
use learn_vector_db.Prelude.{
  ℕ, ◌+◌, ◌/◌, ◌%◌, ◌<◌, ◌≤◌, [], ◌∷◌, ◌++◌, Bool, true, false, not, ◌&&◌, arith, leb, ◌==◌,
  &&-eq-true, Bytes, ◌≡◌, refl, ap, ◌∙◌,
}
use learn_vector_db.Result.{ok}
use learn_vector_db.Decimal.{to_string, stoull, emit, scan, is_digit, lt_wf, tenth, max_u64}

-- No byte of the text is `b`.
unfoldable pub absent : ℕ → Bytes → Bool
absent b [] = true
absent b (c ∷ s) = not (c == b) && absent b s

pub absent-append :
    (b : ℕ) (s t : Bytes) → absent b s ≡ true → absent b t ≡ true → absent b (s ++ t) ≡ true
unfolding absent
absent-append b [] t h k = k
absent-append b (c ∷ s) t h k = ground (arith, absent-append b s t)

scan-emit : (n : ℕ) (w : Acc ◌<◌ n) (out : Bytes) → scan 0 (emit n w out) ≡ scan n out
unfolding scan emit
scan-emit n (Acc.intro _ smaller) out =
    grind
      (arith, λ (p : n / 10 < n). scan-emit (n / 10) (smaller (n / 10) p) ((b'0' + n % 10) ∷ out))

absent-emit :
    (b n : ℕ) (w : Acc ◌<◌ n) (out : Bytes)
    → is_digit b ≡ false
    → absent b (emit n w out) ≡ absent b out
unfolding absent emit
absent-emit b n (Acc.intro _ smaller) out h = grind (
  arith,
  λ (p : n / 10 < n). absent-emit b (n / 10) (smaller (n / 10) p) ((b'0' + n % 10) ∷ out) h,
)

emit_head :
    (n : ℕ) (w : Acc ◌<◌ n) (out : Bytes)
    → (c : ℕ) × (s : Bytes) × (emit n w out ≡ c ∷ s) × (is_digit c ≡ true)
unfolding emit
emit_head n (Acc.intro _ smaller) out = elim (dec_lt 9 n) [
  | yes p ↦
      rw (dif_pos (dec_lt 9 n) le_prop p)
        (emit_head (n / 10) (smaller (n / 10) (tenth n p)) ((b'0' + n % 10) ∷ out))
  | no q ↦ rw (dif_neg (dec_lt 9 n) q) (b'0' + n, out, refl, ground arith)
]

-- The text is not empty, and its first byte is a digit.
pub to_string_head : (n : ℕ) → (c : ℕ) × (s : Bytes) × (to_string n ≡ c ∷ s) × (is_digit c ≡ true)
unfolding to_string
to_string_head n = emit_head n (lt_wf.apply n) []

pub scan-to_string : (n : ℕ) → scan 0 (to_string n) ≡ n
unfolding to_string scan
scan-to_string n = scan-emit n (lt_wf.apply n) []

pub absent-to_string : (b n : ℕ) → is_digit b ≡ false → absent b (to_string n) ≡ true
unfolding to_string absent
absent-to_string b n h = absent-emit b n (lt_wf.apply n) [] h

stoull_digits :
    (c : ℕ) (s : Bytes)
    → is_digit c ≡ true
    → scan 0 (c ∷ s) ≤ max_u64
    → stoull (c ∷ s) ≡ ok (scan 0 (c ∷ s))
unfolding stoull
stoull_digits c s h k = ground (arith, &&-eq-true (leb b'0' c) (leb c b'9') h)

-- A number below 2 ^ 64 that was written in decimal is read back.
pub stoull-to_string : (n : ℕ) → n ≤ max_u64 → stoull (to_string n) ≡ ok n
stoull-to_string n h =
    let (c, s, shape, digit) = to_string_head n in
    let value : scan 0 (c ∷ s) ≡ n = rw (← shape) (scan-to_string n) in
    rw shape (stoull_digits c s digit (rw value h) ∙ ap ok value)

-- ===== src/Decimal.antt =====
-- `std::to_string`, `std::stoull` and `std::ostream << uint64_t` over bytes, as the write-ahead log,
-- the scalar storage and the filter index use them.
pub mod RoundTrip
use mathlib.Core.Logic.{dite}
use mathlib.Core.WellFounded.{Acc, WellFounded}
use native.Mathlib.Decide.{dec_lt}
use learn_vector_db.Prelude.{
  ℕ, zero, suc, ◌+◌, ◌-◌, ◌*◌, ◌/◌, ◌%◌, ◌^◌, ◌<◌, List, [], ◌∷◌, ◌||◌, ◌&&◌, Bool, true, false,
  arith, ltb, leb, ◌==◌, if◌then◌else◌, Bytes, codes, ◌≡◌, refl,
}
use learn_vector_db.Result.{Result, ok, throw, invalid_argument, out_of_range}

abbrev pub max_u64 : ℕ
max_u64 = 2 ^ 64 - 1

acc_lt : (k n : ℕ) → n < k → Acc ◌<◌ n
acc_lt zero n h = elim h [ ]
acc_lt (suc k) n h = Acc.intro n (λ m lt. acc_lt k m (omega arith))

lt_wf : WellFounded ◌<◌
unfolding acc_lt
lt_wf = record { apply = λ n. acc_lt (suc n) n (omega arith) }

pub tenth : (n : ℕ) → 9 < n → n / 10 < n
tenth n h = omega arith

-- The digits of `n` in front of `out`.
emit : (n : ℕ) → Acc ◌<◌ n → Bytes → Bytes
emit n (Acc.intro _ smaller) out =
    dite (dec_lt 9 n) (λ h. emit (n / 10) (smaller (n / 10) (tenth n h)) ((b'0' + n % 10) ∷ out))
      (λ _. (b'0' + n) ∷ out)

unfoldable pub to_string : ℕ → Bytes
unfolding emit lt_wf acc_lt dec_lt
to_string n = emit n (lt_wf.apply n) []

abbrev pub is_digit : ℕ → Bool
is_digit c = leb b'0' c && leb c b'9'

-- `isspace` of the C locale.
abbrev pub is_space : ℕ → Bool
is_space c = c == b' ' || (leb 9 c && leb c 13)

-- The number that the leading digits spell, from `n` on.
unfoldable pub scan : ℕ → Bytes → ℕ
scan n [] = n
scan n (c ∷ s) = if is_digit c then scan (n * 10 + (c - b'0')) s else n

unfoldable pub skip_space : Bytes → Bytes
skip_space [] = []
skip_space (c ∷ s) = if is_space c then skip_space s else c ∷ s

unfoldable pub magnitude : Bool → Bytes → Result ℕ
magnitude negative [] = throw invalid_argument
magnitude negative (c ∷ s) =
    if is_digit c
    then (let v = scan 0 (c ∷ s) in
        if ltb max_u64 v
        then throw out_of_range
        else ok (if negative then (2 ^ 64 - v) % 2 ^ 64 else v))
    else throw invalid_argument

unfoldable pub after_sign : Bytes → Result ℕ
after_sign [] = throw invalid_argument
after_sign (c ∷ s) =
    if c == b'-'
    then magnitude true s
    else if c == b'+'
    then magnitude false s
    else magnitude false (c ∷ s)

unfoldable pub stoull : Bytes → Result ℕ
unfolding scan skip_space magnitude after_sign
stoull s = after_sign (skip_space s)

to_string_large : to_string 18446744073709551615 ≡ codes "18446744073709551615"
unfolding to_string
to_string_large = refl

stoull_signs : stoull (codes "  -1x") ≡ ok 18446744073709551615
unfolding stoull
stoull_signs = refl

stoull_invalid : stoull (codes "}") ≡ throw invalid_argument
unfolding stoull
stoull_invalid = refl

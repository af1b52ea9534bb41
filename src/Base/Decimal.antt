-- ===== src/Base/Decimal.antt =====
-- Decimal text of an int64, which strconv.ParseInt reads back.
use Prim.Native.Nat.{ℕ, zero, suc, ◌+◌, ◌-◌, ◌*◌, ◌/◌, ◌%◌, ◌<◌}
use mathlib.Core.Path.{◌≡◌, refl, ap, ◌∙◌}
use mathlib.Core.Logic.{inl, inr}
use mathlib.Core.Bool.{false}
use mathlib.Core.Option.{Option, none, some}
use mathlib.Core.List.{[], ◌∷◌, ◌++◌}
use native.Mathlib.Omega.{arith}
use order_book_vibranium.Base.Tests.{ltb, ◌==◌, if◌then◌else◌, Bool-cases}
use order_book_vibranium.Base.Int64.{Int64, pos, negsuc, half_range}
use order_book_vibranium.Base.Bytes.{
  Bytes, is_digit, is_empty, read_digits, read_decimal, in_range, parse_int,
}

-- The digits of `n`, for which `suc n` rounds are enough.
abbrev digits_on : ℕ → ℕ → Bytes
digits_on zero n = []
digits_on (suc k) n =
    if ltb n 10 then (n + b'0') ∷ [] else digits_on k (n / 10) ++ (n % 10 + b'0') ∷ []

abbrev pub show_ℕ : ℕ → Bytes
show_ℕ n = digits_on (suc n) n

abbrev pub show_int : Int64 → Bytes
show_int (pos n) = show_ℕ n
show_int (negsuc n) = b'-' ∷ show_ℕ (suc n)

abbrev pub IsInt64 : Int64 → Type 0
IsInt64 (pos n) = n < half_range
IsInt64 (negsuc n) = n < half_range

read_digits-append :
    (m n : ℕ) (s : Bytes) (d : ℕ)
    → d < 10
    → read_digits m s ≡ some n
    → read_digits m (s ++ (d + b'0') ∷ []) ≡ some (10 * n + d)
read_digits-append m n [] d lt h = ground arith
read_digits-append m n (c ∷ s) d lt h = elim (Bool-cases (is_digit c)) [
  | inl e ↦ rw e (read_digits-append (10 * m + (c - b'0')) n s d lt (rw e at h))
  | inr e ↦ absurd (let z : none ≡ some n = rw e at h in cc z)
]

read_digits-digits_on : (k n : ℕ) → n < k → read_digits 0 (digits_on k n) ≡ some n
read_digits-digits_on zero n lt = absurd (omega arith)
read_digits-digits_on (suc k) n lt = elim (Bool-cases (ltb n 10)) [
  | inl e ↦ rw e (ground arith)
  | inr e ↦
      let smaller : n / 10 < k = ground (arith, lt, e) in
      let rest =
        read_digits-append 0 (n / 10) (digits_on k (n / 10)) (n % 10) (omega arith)
          (read_digits-digits_on k (n / 10) smaller) in
      rw e (rest ∙ ap some (omega arith))
]

-- A text with a digit in front.
data IsDigits : Bytes → Type 0 where
  digits : {d : ℕ} {s : Bytes} → d < 10 → IsDigits ((d + b'0') ∷ s)

IsDigits-append : {s : Bytes} (t : Bytes) → IsDigits s → IsDigits (s ++ t)
IsDigits-append t (digits lt) = digits lt

digits_on-IsDigits : (k n : ℕ) → n < k → IsDigits (digits_on k n)
digits_on-IsDigits zero n lt = absurd (omega arith)
digits_on-IsDigits (suc k) n lt = elim (Bool-cases (ltb n 10)) [
  | inl e ↦ rw e (digits {d = n} (ground arith))
  | inr e ↦
      let smaller : n / 10 < k = ground (arith, lt, e) in
      rw e (IsDigits-append _ (digits_on-IsDigits k (n / 10) smaller))
]

parse_digits :
    (s : Bytes) (n : ℕ) → IsDigits s → read_digits 0 s ≡ some n → parse_int s ≡ in_range n 0
unfolding parse_int
parse_digits _ n (digits {d} {s} lt) h =
    let not_plus : (d + b'0' == b'+') ≡ false = ground arith in
    let not_minus : (d + b'0' == b'-') ≡ false = ground arith in
    rw (not_plus, not_minus)
      (ap (λ (r : Option ℕ). elim r [ none ↦ none | some m ↦ in_range m 0 ]) h)

read_decimal-digits : (s : Bytes) → IsDigits s → read_decimal s ≡ read_digits 0 s
read_decimal-digits _ (digits lt) = refl

read_shown : (n : ℕ) → read_decimal (show_ℕ n) ≡ some n
read_shown n =
    read_decimal-digits (show_ℕ n) (digits_on-IsDigits (suc n) n (omega arith))
    ∙ read_digits-digits_on (suc n) n (omega arith)

-- ParseInt reads back the decimal text of every int64.
pub parse_int-show_int : (n : Int64) → IsInt64 n → parse_int (show_int n) ≡ some n
unfolding parse_int
parse_int-show_int (pos n) lt =
    parse_digits (show_ℕ n) n (digits_on-IsDigits (suc n) n (omega arith))
      (read_digits-digits_on (suc n) n (omega arith))
    ∙ ground (arith, lt)
parse_int-show_int (negsuc n) lt =
    ap (λ (r : Option ℕ). elim r [ none ↦ none | some m ↦ in_range 0 m ]) (read_shown (suc n))
    ∙ ground (arith, lt)

parse_int-some : (s : Bytes) (n : Int64) → parse_int s ≡ some n → is_empty s ≡ false
unfolding parse_int
parse_int-some [] n e = absurd (cc e)
parse_int-some (c ∷ s) n e = refl

pub show_int-filled : (n : Int64) → IsInt64 n → is_empty (show_int n) ≡ false
show_int-filled n r = parse_int-some (show_int n) n (parse_int-show_int n r)

-- ===== src/Base/Bytes.antt =====
-- Go strings as lists of bytes: literals in ASCII, prefixes, and decimal digits.
use Prim.Native.Char.{code}
use Prim.Native.String.{String}
use Prim.Native.Nat.{ℕ, ◌+◌, ◌-◌, ◌*◌}
use mathlib.Core.Bool.{Bool, true, false, ◌&&◌}
use mathlib.Core.Option.{Option, none, some}
use mathlib.Core.List.{List, [], ◌∷◌}
use order_book_vibranium.Base.Tests.{ltb, leb, ◌==◌, if◌then◌else◌}
use order_book_vibranium.Base.Int64.{Int64, sub_ℕ, half_range}

abbrev pub Bytes : Type 0
Bytes = List ℕ

-- The bytes of a literal in ASCII.
abbrev pub bytes : String → Bytes
bytes String.[] = []
bytes (String.◌∷◌ c s) = code c ∷ bytes s

-- `s == ""`
abbrev pub is_empty : Bytes → Bool
is_empty [] = true
is_empty (c ∷ s) = false

-- strings.CutPrefix
abbrev pub cut_prefix : Bytes → Bytes → Option Bytes
cut_prefix [] s = some s
cut_prefix (p ∷ ps) [] = none
cut_prefix (p ∷ ps) (c ∷ s) = if p == c then cut_prefix ps s else none

abbrev pub is_digit : ℕ → Bool
is_digit c = leb b'0' c && leb c b'9'

-- The number that the digits go on to write after `n`; none, if there is another byte.
abbrev pub read_digits : ℕ → Bytes → Option ℕ
read_digits n [] = some n
read_digits n (c ∷ s) = if is_digit c then read_digits (10 * n + (c - b'0')) s else none

-- A number in decimal, of at least one digit.
abbrev pub read_decimal : Bytes → Option ℕ
read_decimal [] = none
read_decimal (c ∷ s) = read_digits 0 (c ∷ s)

abbrev pub in_range : ℕ → ℕ → Option Int64
in_range p n = if ltb p half_range && leb n half_range then some (sub_ℕ p n) else none

abbrev pub read_positive : Bytes → Option Int64
read_positive s = elim (read_decimal s) [ none ↦ none | some n ↦ in_range n 0 ]

abbrev pub read_negative : Bytes → Option Int64
read_negative s = elim (read_decimal s) [ none ↦ none | some n ↦ in_range 0 n ]

-- strconv.ParseInt in base 10 and 64 bits: a sign or none, then digits; none is an error.
unfoldable pub parse_int : Bytes → Option Int64
parse_int [] = none
parse_int (c ∷ s) =
    if c == b'+'
    then read_positive s
    else if c == b'-'
    then read_negative s
    else read_positive (c ∷ s)

-- ===== src/Base/Int64.antt =====
-- Go's int64: a signed integer whose operations wrap around at 64 bits, written out, and the
-- values that they have where nothing overflows. `quot` is Go's `/`, which truncates toward zero.
use Prim.Native.Nat.{ℕ, suc, ◌+◌, ◌-◌, ◌*◌, ◌/◌, ◌%◌, ◌≤◌, ◌<◌}
use mathlib.Core.Path.{◌≡◌, refl}
use mathlib.Core.Logic.{◌↔◌}
use mathlib.Core.Bool.{Bool, true}
use native.Mathlib.Omega.{arith}
use order_book_vibranium.Base.Tests.{ltb, leb, ◌==◌, if◌then◌else◌}

-- `negsuc n` is -(n + 1).
pub data Int64 : Type 0 where
  pos : ℕ → Int64
  negsuc : ℕ → Int64

abbrev pub pos_part : Int64 → ℕ
pos_part (pos n) = n
pos_part (negsuc n) = 0

abbrev pub neg_part : Int64 → ℕ
neg_part (pos n) = 0
neg_part (negsuc n) = suc n

-- 2 ^ 63 and 2 ^ 64
abbrev pub half_range : ℕ
half_range = 9223372036854775808

abbrev pub full_range : ℕ
full_range = 18446744073709551616

abbrev pub max_int64 : Int64
max_int64 = pos 9223372036854775807

-- The integer p - n, with no bound.
abbrev pub sub_ℕ : ℕ → ℕ → Int64
sub_ℕ p n = if leb n p then pos (p - n) else negsuc (n - p - 1)

-- The int64 with a given bit pattern.
abbrev pub of_bits : ℕ → Int64
of_bits b = if ltb b half_range then pos b else negsuc (full_range - 1 - b)

-- The int64 that is p - n modulo 2 ^ 64.
unfoldable pub wrap : ℕ → ℕ → Int64
wrap p n = of_bits ((p + (full_range - n % full_range)) % full_range)

unfoldable pub add : Int64 → Int64 → Int64
unfolding wrap
add a b = wrap (pos_part a + pos_part b) (neg_part a + neg_part b)

unfoldable pub sub : Int64 → Int64 → Int64
unfolding wrap
sub a b = wrap (pos_part a + neg_part b) (neg_part a + pos_part b)

unfoldable pub mul : Int64 → Int64 → Int64
unfolding wrap
mul a b =
    wrap (pos_part a * pos_part b + neg_part a * neg_part b)
      (pos_part a * neg_part b + neg_part a * pos_part b)

-- A division by zero panics in Go; it is 0 here, and the definitions that divide exclude it by a test.
unfoldable pub quot : Int64 → Int64 → Int64
unfolding wrap
quot (pos a) (pos b) = pos (a / b)
quot (pos a) (negsuc b) = wrap 0 (a / suc b)
quot (negsuc a) (pos b) = wrap 0 (suc a / b)
quot (negsuc a) (negsuc b) = wrap (suc a / suc b) 0

abbrev pub lt : Int64 → Int64 → Bool
lt a b = ltb (pos_part a + neg_part b) (pos_part b + neg_part a)

abbrev pub le : Int64 → Int64 → Bool
le a b = leb (pos_part a + neg_part b) (pos_part b + neg_part a)

abbrev pub eq : Int64 → Int64 → Bool
eq a b = (pos_part a + neg_part b) == (pos_part b + neg_part a)

pub eq_iff : (a b : Int64) → (eq a b ≡ true) ↔ (a ≡ b)
eq_iff a b = ground arith

pub wrap_lem : (p n : ℕ) → p < n + half_range → n ≤ p + half_range → wrap p n ≡ sub_ℕ p n
unfolding wrap
wrap_lem p n h k = ground arith

-- A value that is zero or more.
abbrev pub IsNat : Int64 → Type 0
IsNat a = neg_part a ≡ 0

-- Where nothing overflows, the operations on values that are zero or more are those of ℕ.
module _ (a b : Int64) (ha : IsNat a) (hb : IsNat b) where
  pub add_nat : pos_part a + pos_part b < half_range → add a b ≡ pos (pos_part a + pos_part b)
  unfolding add
  add_nat h = ground (arith, wrap_lem (pos_part a + pos_part b) (neg_part a + neg_part b))

  pub sub_nat :
      pos_part b ≤ pos_part a → pos_part a < half_range → sub a b ≡ pos (pos_part a - pos_part b)
  unfolding sub
  sub_nat h k = ground (arith, wrap_lem (pos_part a + neg_part b) (neg_part a + pos_part b))

  -- A difference may be negative; two numbers below 2 ^ 63 never make it overflow.
  pub sub_signed :
      pos_part a < half_range → pos_part b < half_range → sub a b ≡ sub_ℕ (pos_part a) (pos_part b)
  unfolding sub
  sub_signed h k = ground (arith, wrap_lem (pos_part a + neg_part b) (neg_part a + pos_part b))

pub mul_pos : (a b : ℕ) → a * b < half_range → mul (pos a) (pos b) ≡ pos (a * b)
unfolding mul
mul_pos a b h = grind (arith, wrap_lem)

pub mul_nat :
    (a b : Int64)
    → IsNat a
    → IsNat b
    → pos_part a * pos_part b < half_range
    → mul a b ≡ pos (pos_part a * pos_part b)
mul_nat (pos a) (pos b) ha hb h = mul_pos a b h
mul_nat (negsuc a) _ ha hb h = absurd (omega arith)
mul_nat (pos a) (negsuc b) ha hb h = absurd (omega arith)

pub quot_nat : (a b : Int64) → IsNat a → IsNat b → quot a b ≡ pos (pos_part a / pos_part b)
unfolding quot
quot_nat (pos a) (pos b) ha hb = refl
quot_nat (negsuc a) _ ha hb = absurd (omega arith)
quot_nat (pos a) (negsuc b) ha hb = absurd (omega arith)

pub pos-pos_part : (a : Int64) → IsNat a → pos (pos_part a) ≡ a
pos-pos_part (pos a) h = refl
pos-pos_part (negsuc a) h = absurd (omega arith)

-- ===== src/Base/Bits.antt =====
-- Go's int64 modulo 2 ^ 64: sums and differences that wrap around add up all the same.
use Prim.Native.Nat.{ℕ, ◌+◌, ◌-◌, ◌%◌, ◌<◌}
use mathlib.Core.Path.{◌≡◌, ap}
use native.Mathlib.Omega.{arith}
use order_book_vibranium.Base.Int64.{Int64, pos_part, neg_part, full_range, of_bits, wrap, add, sub}

-- The bit pattern of an int64.
unfoldable pub bits : Int64 → ℕ
bits a = (pos_part a + (full_range - neg_part a % full_range)) % full_range

bits-of_bits : (b : ℕ) → b < full_range → bits (of_bits b) ≡ b
unfolding bits
bits-of_bits b h = ground arith

bits-wrap : (p n : ℕ) → bits (wrap p n) ≡ (p + (full_range - n % full_range)) % full_range
unfolding wrap
bits-wrap p n = bits-of_bits ((p + (full_range - n % full_range)) % full_range) (omega arith)

pub bits-add : (a b : Int64) → bits (add a b) ≡ (bits a + bits b) % full_range
unfolding add
bits-add a b =
    let e = bits-wrap (pos_part a + pos_part b) (neg_part a + neg_part b) in
    unfold bits in omega (arith, e)

pub bits-sub : (a b : Int64) → (bits (sub a b) + bits b) % full_range ≡ bits a
unfolding sub
bits-sub a b =
    let e = bits-wrap (pos_part a + neg_part b) (neg_part a + pos_part b) in
    unfold bits in omega (arith, e)

-- A sum is known by its bit pattern.
pub add-eq_of_bits :
    (a b c d : Int64)
    → (bits a + bits b) % full_range ≡ (bits c + bits d) % full_range
    → add a b ≡ add c d
unfolding add wrap bits
add-eq_of_bits a b c d h = ap of_bits (omega (arith, h))

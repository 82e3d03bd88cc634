-- ===== src/Base/Integers.antt =====
-- Signed integers over the native numbers, as far as durations and time stamps need them.
use Prim.Native.Nat.{ℕ, zero, suc, ◌+◌, ◌-◌, ◌%◌, ◌^◌}
use mathlib.Core.Bool.{Bool, false}
use graphx_docker.Base.Tests.{ltb, leb, if◌then◌else◌}
use Prim.Native.Nat.{◌<◌}
use mathlib.Core.Path.{◌≡◌, sym, ap, ◌∙◌}
use native.Mathlib.Omega.{arith}

-- `negsuc n` is -(n + 1).
pub data ℤ : Type 0 where
  pos negsuc : ℕ → ℤ

abbrev pub negate : ℕ → ℤ
negate zero = pos 0
negate (suc n) = negsuc n

-- a - b
abbrev pub difference : ℕ → ℕ → ℤ
difference a b = if leb b a then pos (a - b) else negsuc (b - a - 1)

infixl 30 ◌+ℤ◌
abbrev pub ◌+ℤ◌ : ℤ → ℤ → ℤ
pos a +ℤ pos b = pos (a + b)
pos a +ℤ negsuc b = difference a (suc b)
negsuc a +ℤ pos b = difference b (suc a)
negsuc a +ℤ negsuc b = negsuc (suc (a + b))

-- Whether an integer is greater than a number.
abbrev pub exceeds : ℤ → ℕ → Bool
exceeds (pos n) bound = ltb bound n
exceeds (negsuc n) bound = false

-- The bits of an integer in two's complement on 64 bits, and the integer that 64 bits stand for.
abbrev pub bits64 : ℤ → ℕ
bits64 (pos n) = n % 2 ^ 64
bits64 (negsuc n) = 2 ^ 64 - 1 - n % 2 ^ 64

unfoldable pub signed64 : ℕ → ℤ
signed64 w = if ltb w (2 ^ 63) then pos w else negsuc (2 ^ 64 - w - 1)

-- A result on `std::int64_t`, where an overflow wraps around.
abbrev pub int64 : ℤ → ℤ
int64 a = signed64 (bits64 a)

pub signed64-pos : (w : ℕ) → w < 2 ^ 63 → signed64 w ≡ pos w
unfolding signed64
signed64-pos w h = ground (arith, h)

bits64-signed64 : (w : ℕ) → w < 2 ^ 64 → bits64 (signed64 w) ≡ w
unfolding signed64
bits64-signed64 w h = ground (arith, h)

bits64-small : (a : ℤ) → bits64 a < 2 ^ 64
bits64-small a = grind arith

bits64-difference : (a b : ℕ) → (bits64 (difference a b) + b) % 2 ^ 64 ≡ a % 2 ^ 64
bits64-difference a b = ground arith

bits64-add : (a b : ℤ) → bits64 (a +ℤ b) ≡ (bits64 a + bits64 b) % 2 ^ 64
bits64-add (pos a) (pos b) = omega arith
bits64-add (pos a) (negsuc b) = ground arith
bits64-add (negsuc a) (pos b) = ground arith
bits64-add (negsuc a) (negsuc b) = omega arith

-- Adding to a result that has wrapped around is adding to the exact one.
pub int64-add : (a b : ℤ) → int64 (int64 a +ℤ b) ≡ int64 (a +ℤ b)
int64-add a b = ap signed64 (
    bits64-add (int64 a) b
    ∙ ap (λ w. (w + bits64 b) % 2 ^ 64) (bits64-signed64 (bits64 a) (bits64-small a))
    ∙ sym (bits64-add a b))

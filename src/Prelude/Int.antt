-- ===== src/Prelude/Int.antt =====
-- The machine's integers: `size_t` as a number with its wrap-around written out, and `ssize_t`.
use Prim.Native.Nat.{ℕ, ◌-◌, ◌%◌, ◌^◌, ◌<◌}
use mathlib.Core.Path.{◌≡◌}
use mathlib.Core.Bool.{Bool, true, false}
use native.Mathlib.Omega.{arith}
use mochi_warabi.Prelude.Tests.{ltb, if◌then◌else◌}

-- 2 ^ 64. The numeral stays behind this name, so that proofs do not compute with it.
unfoldable pub word : ℕ
word = 2 ^ 64

-- The value of an unsigned 64-bit expression.
unfoldable pub wrap : ℕ → ℕ
wrap n = n % word

pub wrap_small : (n : ℕ) → n < word → wrap n ≡ n
unfolding wrap word
wrap_small n h = omega arith

pub wrap_lt : (n : ℕ) → wrap n < word
unfolding wrap word
wrap_lt n = omega arith

-- `negsuc n` is -(n + 1).
pub data ℤ : Type 0 where
  pos : ℕ → ℤ
  negsuc : ℕ → ℤ

abbrev pub is_neg : ℤ → Bool
is_neg (pos n) = false
is_neg (negsuc n) = true

-- The position that a non-negative number denotes.
abbrev pub to_nat : ℤ → ℕ
to_nat (pos n) = n
to_nat (negsuc n) = 0

-- `static_cast<ssize_t>` of a `uint64_t`.
unfoldable pub to_ssize : ℕ → ℤ
unfolding word
to_ssize n = if ltb n (2 ^ 63) then pos n else negsuc (word - 1 - n)

pub to_ssize_small : (n : ℕ) → n < 2 ^ 63 → to_ssize n ≡ pos n
unfolding to_ssize
to_ssize_small n h = ground arith

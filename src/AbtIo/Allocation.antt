-- ===== src/AbtIo/Allocation.antt =====
-- How src/AbtIOBackend.cpp hands out ranges of its file.
use Prim.Native.Nat.{bit_and}
use native.Mathlib.Nat.{mul-mod_right, div-add-mod, mod-lt}
use mochi_warabi.Prelude.{
  ℕ, ◌+◌, ◌-◌, ◌*◌, ◌/◌, ◌%◌, ◌^◌, ◌<◌, ◌≤◌, ◌≡◌, length, arith, wrap, word, wrap_small,
}
use mochi_warabi.Prelude.Bits.{bit_and-le, bit_and-mask, pow_pos}
use mochi_warabi.Run.{undef}
use mochi_warabi.Bytes.{Bytes, load}
use mochi_warabi.RwLock.{readers_left}
use mochi_warabi.AbtIo.Region.{AbtIo, AbtIoTarget, Memalign}
use mochi_warabi.AbtIo.{align_up, create}

multiple_below : (y m : ℕ) → y - y % m ≡ m * (y / m)
multiple_below y m = omega (arith, div-add-mod y m)

-- For an alignment that is a power of two, and where the sum does not overflow, the aligned size is
-- the least multiple of the alignment that is not below the size.
pub align_up_lem :
    (x k : ℕ)
    → x + 2 ^ k < word
    → (x ≤ align_up x (2 ^ k)) × (align_up x (2 ^ k) < x + 2 ^ k) × (align_up x (2 ^ k) % 2 ^ k ≡ 0)
unfolding align_up
align_up_lem x k h =
    let p : 0 < 2 ^ k = pow_pos k in
    let w = wrap_small (x + (2 ^ k - 1)) (omega arith) in
    let y = x + (2 ^ k - 1) in
    let r = mod-lt y p in
    let b : bit_and y (2 ^ k - 1) ≡ y % 2 ^ k = bit_and-mask k y in
    let e : y - y % 2 ^ k ≡ 2 ^ k * (y / 2 ^ k) = multiple_below y (2 ^ k) in
    rw (w, b) (omega arith, omega arith, rw e (mul-mod_right (2 ^ k) (y / 2 ^ k)))

-- For any alignment whatever it is not below the size, so that a region has room for its bytes.
pub le-align_up : (x a : ℕ) → 0 < a → x + a < word → x ≤ align_up x a
unfolding align_up
le-align_up x a z h =
    omega (arith, wrap_small (x + (a - 1)) (omega arith), bit_and-le (wrap (x + (a - 1))) (a - 1))

module _ (A : AbtIo) where
  open A use {File}

  -- A size that is not a multiple of the alignment: the block of zeros that is written is as long as
  -- the size, and the write reads the aligned size from it.
  pub create_overreads :
      (t : AbtIoTarget File) (size k : ℕ) (zero_block : Bytes)
      → t.lock ≡ readers_left k
      → A.memalign t.alignment size ≡ Memalign.block zero_block
      → length zero_block ≡ size
      → size < align_up size t.alignment
      → create A t size ≡ undef
  unfolding create load
  create_overreads t size k b u m l h = rw (u, m) (ground arith)

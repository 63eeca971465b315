-- ===== src/Bytes.antt =====
-- Buffers of bytes, and `std::memcpy` from and to a place in one. A copy that leaves its buffer is
-- undefined behaviour.
pub mod Laws
use mochi_warabi.Prelude.{ℕ, ◌+◌, ◌≡◌, List, ◌++◌, take, drop, length, leb, if◌then◌else◌}
use mochi_warabi.Run.{Run, done, undef}

abbrev pub Bytes : Type 0
Bytes = List ℕ

-- The `n` bytes at `off`.
unfoldable pub slice : Bytes → ℕ → ℕ → Bytes
slice b off n = take n (drop off b)

-- `b` with `d` written over it at `off`.
unfoldable pub patch : Bytes → ℕ → Bytes → Bytes
patch b off d = take off b ++ (d ++ drop (off + length d) b)

unfoldable pub load : Bytes → ℕ → ℕ → Run Bytes
load b off n = if leb (off + n) (length b) then done (slice b off n) else undef

unfoldable pub store : Bytes → ℕ → Bytes → Run Bytes
store b off d = if leb (off + length d) (length b) then done (patch b off d) else undef

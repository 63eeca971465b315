-- ===== src/BufferWrapper.antt =====
-- src/BufferWrapper.hpp: a buffer that may own its memory. Blocks are numbered in the order in which
-- `new char[n]` gives them; `delete[]` of a block that is not allocated is undefined.
pub mod Ownership
use mochi_warabi.Prelude.{ℕ, suc, Bool, true, false, if◌then◌else◌, ◌==◌}
use mochi_warabi.Run.{Run, done, undef, ◌>>=◌}

pub record Blocks : Type 0 where
  pub next : ℕ
  pub allocated : ℕ → Bool

pub record BufferWrapper : Type 0 where
  pub block : ℕ
  pub size : ℕ
  pub owned : Bool

abbrev pub new_block : Blocks → Blocks
new_block m = record {
  next = suc m.next;
  allocated = λ i. if i == m.next then true else m.allocated i;
}

abbrev pub delete_block : Blocks → ℕ → Run Blocks
delete_block m b =
    if m.allocated b
    then done (record m { allocated = λ i. if i == b then false else m.allocated i })
    else undef

-- `if(m_owned) delete[] m_data;`, which the destructor is.
unfoldable pub drop_owned : Blocks → BufferWrapper → Run Blocks
drop_owned m w = if w.owned then delete_block m w.block else done m

-- `load` does the same with the size that it reads.
unfoldable pub allocate : Blocks → BufferWrapper → ℕ → Run (BufferWrapper × Blocks)
unfolding drop_owned
allocate m w size = do
  m' ← drop_owned m w
  if size == 0
      then done (record w { size = size }, m')
      else done (record { block = m.next; size = size; owned = true }, new_block m')

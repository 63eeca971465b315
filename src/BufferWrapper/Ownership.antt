-- ===== src/BufferWrapper/Ownership.antt =====
-- What becomes of the block of a buffer of src/BufferWrapper.hpp.
use mochi_warabi.Prelude.{ℕ, suc, ◌≡◌, ◌<◌, refl, true, false, if◌then◌else◌, ◌==◌, arith}
use mochi_warabi.Run.{done, undef, ◌>>=◌}
use mochi_warabi.BufferWrapper.{Blocks, BufferWrapper, new_block, drop_owned, allocate}

-- The buffer owns an allocated block.
pub record Owns (m : Blocks) (w : BufferWrapper) : Type 0 where
  pub owned : w.owned ≡ true
  pub live : m.allocated w.block ≡ true
  pub older : w.block < m.next

eq_self : (n : ℕ) → (n == n) ≡ true
eq_self n = ground arith

suc_ne_zero : (n : ℕ) → (suc n == 0) ≡ false
suc_ne_zero n = ground arith

lt_ne : (a b : ℕ) → a < b → (a == b) ≡ false
lt_ne a b h = ground arith

-- A buffer that owns a block, and is given another size and then destroyed: if the size is not 0, the
-- block of the first size and that of the second are both freed, and a third block `i` is as it was.
pub drop_owned-allocate :
    (m : Blocks) (w : BufferWrapper) (n i : ℕ)
    → Owns m w
    → i < m.next
    → (i == w.block) ≡ false
    → (w' : BufferWrapper) × (m' : Blocks) × (m'' : Blocks) × (allocate m w (suc n) ≡ done (w', m'))
      × Owns m' w'
      × (drop_owned m' w' ≡ done m'')
      × (m''.allocated w.block ≡ false)
      × (m''.allocated w'.block ≡ false)
      × (m''.allocated i ≡ m.allocated i)
unfolding drop_owned allocate
drop_owned-allocate m w n i o h ne =
    let freed : Blocks = record m {
      allocated = λ j. if j == w.block then false else m.allocated j;
    } in
    let w' : BufferWrapper = record { block = m.next; size = suc n; owned = true } in
    let m' = new_block freed in
    (
      w',
      m',
      record m' { allocated = λ j. if j == m.next then false else m'.allocated j },
      rw (o.owned, o.live) (rw (suc_ne_zero n) refl),
      record { owned = refl; live = rw (eq_self m.next) refl; older = omega arith },
      rw (eq_self m.next) refl,
      rw (lt_ne w.block m.next o.older) (rw (eq_self w.block) refl),
      rw (eq_self m.next) refl,
      rw (lt_ne i m.next h) (rw ne refl),
    )

-- If the size is 0, the block is freed twice: the destructor is undefined.
pub drop_owned-allocate_zero :
    (m : Blocks) (w : BufferWrapper)
    → Owns m w
    → (allocate m w 0 >>= λ a. drop_owned a.1 a.0) ≡ undef
unfolding drop_owned allocate
drop_owned-allocate_zero m w o = rw (o.owned, o.live) (rw (eq_self w.block) refl)

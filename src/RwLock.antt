-- ===== src/RwLock.antt =====
-- The `thallium::rwlock` that guards a target against migration. Waiting for a lock that the run
-- itself cannot release is `stuck`; releasing one that is not held is undefined.
use mochi_warabi.Prelude.{ℕ, suc, ◌≡◌, arith, ◌-◌, Bool, true, false, ltb, ◌||◌, if◌then◌else◌}
use mochi_warabi.Run.{Run, done, stuck, undef}

pub record RwLock : Type 0 where
  pub readers : ℕ
  pub writer : Bool

abbrev pub free_lock : RwLock
free_lock = record { readers = 0; writer = false }

-- Held by a writer.
abbrev pub written_lock : RwLock
written_lock = record { readers = 0; writer = true }

abbrev pub rdlock : RwLock → Run RwLock
rdlock l = if l.writer then stuck else done (record l { readers = suc l.readers })

abbrev pub wrlock : RwLock → Run RwLock
wrlock l = if l.writer || ltb 0 l.readers then stuck else done (record l { writer = true })

abbrev pub unlock : RwLock → Run RwLock
unlock l =
    if l.writer
    then done (record l { writer = false })
    else if ltb 0 l.readers
    then done (record l { readers = l.readers - 1 })
    else undef

abbrev pub one_reader : ℕ → RwLock
one_reader k = record { readers = suc k; writer = false }

abbrev pub readers_left : ℕ → RwLock
readers_left k = record { readers = k; writer = false }

pub unlock-one_reader : (k : ℕ) → unlock (one_reader k) ≡ done (readers_left k)
unlock-one_reader k = ground arith

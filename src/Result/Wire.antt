-- ===== src/Result/Wire.antt =====
-- The serialization of include/warabi/Result.hpp, and what a result that crosses the network does.
use mochi_warabi.Prelude.{◌≡◌, true, false, List, ◌++◌, some, arith, if◌then◌else◌}
use mochi_warabi.Result.{
  Result, BoolResult, Item, value_or_throw, check, check_bool, save, restore, save_bool,
  restore_bool,
}

-- Whatever the result `r` and the object `d` that it is read into, the archive of `r` followed by
-- anything reads back as a result that fails or succeeds as `r` does, with the value or the error
-- text of `r`, and leaves what follows unread.
pub restore-save {ℓ} :
    {A : Type ℓ} (d r : Result A) (rest : List (Item A))
    → (r' : Result A) × (restore d (save r ++ rest) ≡ some (r', rest))
      × (value_or_throw r' ≡ value_or_throw r)
      × (check r' ≡ check r)
unfolding restore save value_or_throw check
restore-save d r rest = (
  if r.success
      then record d { success = true; value = r.value }
      else record d { success = false; error = r.error },
  ground arith,
  ground arith,
  ground arith,
)

-- The same of a `Result<bool>`.
pub restore_bool-save_bool :
    (d r : BoolResult) (rest : List (Item (Unit {0})))
    → (r' : BoolResult) × (restore_bool d (save_bool r ++ rest) ≡ some (r', rest))
      × (check_bool r' ≡ check_bool r)
      × (r'.success ≡ r.success)
unfolding restore_bool save_bool check_bool
restore_bool-save_bool d r rest = (
  if r.success then record d { success = true } else record d { success = false; error = r.error },
  ground arith,
  ground arith,
  ground arith,
)

-- ===== src/Result.antt =====
-- include/warabi/Result.hpp and include/warabi/Exception.hpp: the object that carries the result of
-- a request, and its serialization. The three members are kept apart, as in the class: a default
-- constructed result is a success, and a failed one still holds some value.
pub mod Wire
use mochi_warabi.Prelude.{
  ◌≡◌, String, Bool, true, false, List, [], ◌∷◌, Option, none, some, if◌then◌else◌,
}
use mochi_warabi.Run.{Run, done, raise, ◌>>=◌}

pub record Result {ℓ} (A : Type ℓ) : Type ℓ where
  pub success : Bool
  pub error : String
  pub value : A

-- `Result<bool>`, whose value is its success.
pub record BoolResult : Type 0 where
  pub success : Bool
  pub error : String

module _ {ℓ} {A : Type ℓ} where
  -- A default constructed result, once `result.value() = a`.
  abbrev pub succeed : A → Result A
  succeed a = record { success = true; error = ""; value = a }

  -- `result.success() = false; result.error() = e` on a default constructed result of value `a`.
  abbrev pub fail : String → A → Result A
  fail e a = record { success = false; error = e; value = a }

  unfoldable pub check : Result A → Run (Unit {0})
  check r = if r.success then done tt else raise r.error

  unfoldable pub value_or_throw : Result A → Run A
  value_or_throw r = if r.success then done r.value else raise r.error

abbrev pub success_bool : BoolResult
success_bool = record { success = true; error = "" }

abbrev pub fail_bool : String → BoolResult
fail_bool e = record { success = false; error = e }

unfoldable pub check_bool : BoolResult → Run (Unit {0})
check_bool r = if r.success then done tt else raise r.error

-- What an archive holds, in the order in which it was written.
pub data Item {ℓ} (A : Type ℓ) : Type ℓ where
  flag : Bool → Item A
  text : String → Item A
  payload : A → Item A

module _ {ℓ} {A : Type ℓ} where
  -- `serialize` with an output archive.
  unfoldable pub save : Result A → List (Item A)
  save r = flag r.success ∷ (if r.success then payload r.value else text r.error) ∷ []

  -- `serialize` with an input archive, into a result that exists already. `none` is an archive
  -- that does not hold what is read.
  unfoldable pub restore : Result A → List (Item A) → Option (Result A × List (Item A))
  restore r (flag true ∷ payload a ∷ rest) = some (record r { success = true; value = a }, rest)
  restore r (flag false ∷ text e ∷ rest) = some (record r { success = false; error = e }, rest)
  restore r _ = none

unfoldable pub save_bool : BoolResult → List (Item (Unit {0}))
save_bool r = flag r.success ∷ (if r.success then [] else text r.error ∷ [])

unfoldable pub restore_bool :
    BoolResult → List (Item (Unit {0})) → Option (BoolResult × List (Item (Unit {0})))
restore_bool r (flag true ∷ rest) = some (record r { success = true }, rest)
restore_bool r (flag false ∷ text e ∷ rest) = some (record r { success = false; error = e }, rest)
restore_bool r _ = none

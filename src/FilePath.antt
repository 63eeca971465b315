-- ===== src/FilePath.antt =====
-- The file names of the migration handles (src/AbtIOBackend.hpp, src/PmemBackend.hpp) and of
-- `afterMigrationCallback` (src/ProviderImpl.hpp), over the bytes of the name.
pub mod Rejoin
use mochi_warabi.Prelude.{
  ℕ, ◌≡◌, Bool, true, false, Option, none, some, List, [], ◌∷◌, ◌++◌, ◌==◌, if◌then◌else◌,
}

-- `find_last_of("/")`, as what stands before and after it.
unfoldable pub split_last : List ℕ → Option (List ℕ × List ℕ)
split_last [] = none
split_last (c ∷ cs) = elim (split_last cs) [
  | some (before, after) ↦ some (c ∷ before, after)
  | none ↦ if c == b'/' then some ([], cs) else none
]

-- `getRoot`
unfoldable pub get_root : List ℕ → List ℕ
unfolding split_last
get_root filename = elim (split_last filename) [ some (before, after) ↦ before | none ↦ [] ]

-- `getFiles`
unfoldable pub get_files : List ℕ → List (List ℕ)
unfolding split_last
get_files filename = elim (split_last filename) [
  | some (before, after) ↦ after ∷ []
  | none ↦ filename ∷ []
]

unfoldable pub ends_in_slash : List ℕ → Bool
ends_in_slash [] = false
ends_in_slash (c ∷ []) = c == b'/'
ends_in_slash (c ∷ d ∷ cs) = ends_in_slash (d ∷ cs)

-- `if(root_str.empty() || root_str.back() != '/') root_str += "/";`
unfoldable pub with_slash : List ℕ → List ℕ
unfolding ends_in_slash
with_slash root = if ends_in_slash root then root else root ++ b'/' ∷ []

-- `filename = root_str + filename` for each file of the fileset.
unfoldable pub place_files : List ℕ → List (List ℕ) → List (List ℕ)
unfolding with_slash
place_files root [] = []
place_files root (f ∷ fs) = (with_slash root ++ f) ∷ place_files root fs

-- ===== src/FilePath/Rejoin.antt =====
-- Where a migrated file is looked for.
use mathlib.Core.List.{append_assoc}
use mochi_warabi.Prelude.{
  ℕ, ◌≡◌, ◌≢◌, refl, ap, ◌∙◌, false, none, some, List, [], ◌∷◌, ◌++◌, ==_iff, Option-cases, inl,
  inr, arith,
}
use mochi_warabi.FilePath.{split_last, get_root, get_files, ends_in_slash, with_slash, place_files}

split_last-joins :
    (cs before after : List ℕ) → split_last cs ≡ some (before, after) → before ++ b'/' ∷ after ≡ cs
unfolding split_last
split_last-joins [] before after h = absurd (cc)
split_last-joins (c ∷ cs) before after h = elim (Option-cases (split_last cs)) [
  | inl e ↦ ground (arith, ==_iff c b'/')
  | inr ((b, a), e) ↦ ground (arith, split_last-joins cs b a e)
]

with_slash-get_root :
    (before after : List ℕ)
    → ends_in_slash before ≡ false
    → with_slash before ++ after ≡ before ++ b'/' ∷ after
unfolding with_slash
with_slash-get_root before after h = rw h (append_assoc before (b'/' ∷ []) after)

get_parts :
    (filename before after : List ℕ)
    → split_last filename ≡ some (before, after)
    → (get_root filename ≡ before) × (get_files filename ≡ after ∷ [])
unfolding get_root get_files
get_parts filename before after e = (rw (e, get_root) refl, rw (e, get_files) refl)

get_parts_none :
    (filename : List ℕ)
    → split_last filename ≡ none
    → (get_root filename ≡ []) × (get_files filename ≡ filename ∷ [])
unfolding get_root get_files
get_parts_none filename e = (rw (e, get_root) refl, rw (e, get_files) refl)

-- A target file whose name has a slash, and whose directory does not itself end in one, is found
-- where it was: the root and the file name that the migration handle gives, put together as the
-- receiving side does, are the name.
pub place_files-get_files :
    (filename : List ℕ)
    → split_last filename ≢ none
    → ends_in_slash (get_root filename) ≡ false
    → place_files (get_root filename) (get_files filename) ≡ filename ∷ []
unfolding place_files
place_files-get_files filename h s = elim (Option-cases (split_last filename)) [
  | inl e ↦ absurd (h e)
  | inr ((b, a), e) ↦
      let (root, files) = get_parts filename b a e in
      let s' : ends_in_slash b ≡ false = rw root at s in
      rw root (
        rw files (
          ap (λ (f : List ℕ). f ∷ [])
            (with_slash-get_root b a s' ∙ split_last-joins filename b a e)))
]

-- A name without a slash is placed under "/", not in the working directory that it names.
pub place_files_relative :
    (filename : List ℕ)
    → split_last filename ≡ none
    → place_files (get_root filename) (get_files filename) ≡ (b'/' ∷ filename) ∷ []
unfolding place_files with_slash ends_in_slash
place_files_relative filename e =
    let (root, files) = get_parts_none filename e in rw root (rw files refl)

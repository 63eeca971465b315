-- ===== src/RegionId/RoundTrip.antt =====
-- Putting two integers into a region id, and reading them from it.
use native.Mathlib.Nat.{pow-suc}
use mochi_warabi.Prelude.{
  ℕ, zero, suc, ◌/◌, ◌^◌, ◌<◌, ◌≡◌, refl, ap, ◌∙◌, [], ◌∷◌, ◌++◌, take, drop, length, arith, pos,
  to_ssize, to_ssize_small, word,
}
use mochi_warabi.Bytes.{Bytes}
use mochi_warabi.RegionId.{
  le_bytes, le_value, words_to_region_id, index_size_to_region_id, region_id_to_index,
  offset_size_to_region_id, region_id_to_offset_size,
}

length-le_bytes : (k x : ℕ) → length (le_bytes k x) ≡ k
unfolding le_bytes
length-le_bytes zero x = refl
length-le_bytes (suc k) x = ap suc (length-le_bytes k (x / 256))

le_value-le_bytes : (k x : ℕ) → x < 256 ^ k → le_value (le_bytes k x) ≡ x
unfolding le_bytes le_value
le_value-le_bytes zero x h = omega arith
le_value-le_bytes (suc k) x h =
    omega (arith, le_value-le_bytes k (x / 256) (omega (arith, pow-suc 256 k)))

take_prefix : (xs ys : Bytes) (k : ℕ) → length xs ≡ k → take k (xs ++ ys) ≡ xs
take_prefix [] ys zero h = refl
take_prefix [] ys (suc k) h = absurd (omega arith)
take_prefix (x ∷ xs) ys zero h = absurd (omega arith)
take_prefix (x ∷ xs) ys (suc k) h = ap (◌∷◌ x) (take_prefix xs ys k (omega arith))

drop_prefix : (xs ys : Bytes) (k : ℕ) → length xs ≡ k → drop k (xs ++ ys) ≡ ys
drop_prefix [] ys zero h = refl
drop_prefix [] ys (suc k) h = absurd (omega arith)
drop_prefix (x ∷ xs) ys zero h = absurd (omega arith)
drop_prefix (x ∷ xs) ys (suc k) h = drop_prefix xs ys k (omega arith)

take_whole : (xs : Bytes) (k : ℕ) → length xs ≡ k → take k xs ≡ xs
take_whole [] zero h = refl
take_whole [] (suc k) h = refl
take_whole (x ∷ xs) zero h = absurd (omega arith)
take_whole (x ∷ xs) (suc k) h = ap (◌∷◌ x) (take_whole xs k (omega arith))

first_word : (a b : ℕ) → a < word → le_value (take 8 (words_to_region_id a b)) ≡ a
unfolding words_to_region_id word
first_word a b h =
    ap le_value (take_prefix (le_bytes 8 a) (le_bytes 8 b) 8 (length-le_bytes 8 a))
    ∙ le_value-le_bytes 8 a h

second_word : (a b : ℕ) → b < word → le_value (take 8 (drop 8 (words_to_region_id a b))) ≡ b
unfolding words_to_region_id word
second_word a b h =
    ap (λ (r : Bytes). le_value (take 8 r))
      (drop_prefix (le_bytes 8 a) (le_bytes 8 b) 8 (length-le_bytes 8 a))
    ∙ ap le_value (take_whole (le_bytes 8 b) 8 (length-le_bytes 8 b))
    ∙ le_value-le_bytes 8 b h

-- A region id has 16 bytes.
pub length-words_to_region_id : (a b : ℕ) → length (words_to_region_id a b) ≡ 16
unfolding words_to_region_id
length-words_to_region_id a b = refl

-- The memory backend finds the index that it stored, for every index below 2 ^ 63.
pub index-index_size_to_region_id :
    (index size : ℕ)
    → index < 2 ^ 63
    → region_id_to_index (index_size_to_region_id index size) ≡ pos index
index-index_size_to_region_id index size h =
    unfold region_id_to_index index_size_to_region_id in
    (ap to_ssize (first_word index size (unfold word in omega arith)) ∙ to_ssize_small index h)

-- The ABT-IO backend reads from an id the offset and the size that it stored, whatever two 64-bit
-- values these are.
pub offset_size-offset_size_to_region_id :
    (offset size : ℕ)
    → offset < word
    → size < word
    → region_id_to_offset_size (offset_size_to_region_id offset size) ≡ (offset, size)
offset_size-offset_size_to_region_id offset size h k =
    unfold region_id_to_offset_size offset_size_to_region_id in
    λ i. (first_word offset size h i, second_word offset size k i)

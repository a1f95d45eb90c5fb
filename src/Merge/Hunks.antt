-- ===== src/Merge/Hunks.antt =====
-- `Hunk`, `compute_hunks`, `hunks_overlap` and the line loop of `apply_two_hunk_sets` of
-- src/merge/mod.rs. `none` is the panic of a slice whose range is out of order or out of bounds.
pub mod Bounds
pub mod Rebuild
pub mod Overlap
pub mod Panic
use vai.Common.{
  ℕ, zero, suc, Option, none, some, Bool, true, false, not, ◌&&◌, ◌||◌, List, [], ◌∷◌, ◌++◌,
  Equality, length, slice, keep, any, is_empty, ltb, nat_eq, if◌then◌else◌,
}
use vai.Common.Partial.{◌>>=◌}
use vai.Common.Sort.{sort_by_key}
use vai.Merge.Lcs.{lcs_indices}

pub record Hunk (A : Type 0) : Type 0 where
  pub base_start : ℕ
  pub base_end : ℕ
  pub new_lines : List A

abbrev pub is_change : {A : Type 0} → Hunk A → Bool
is_change h = ltb h.base_start h.base_end || not (is_empty h.new_lines)

module _ {A : Type 0} (base modified : List A) where
  -- The `for` loop over the pairs and the trailing change, from `base_pos` and `mod_pos` on.
  unfoldable pub hunk_loop : ℕ → ℕ → List (ℕ × ℕ) → Option (List (Hunk A))
  hunk_loop base_pos mod_pos [] =
      if ltb base_pos (length base) || ltb mod_pos (length modified)
      then (do
        new_lines ← slice mod_pos (length modified) modified
        some (record { base_start = base_pos; base_end = length base; new_lines = new_lines } ∷ []))
      else some []
  hunk_loop base_pos mod_pos ((bi, mi) ∷ pairs) =
      let rest = hunk_loop (suc bi) (suc mi) pairs in
      if ltb base_pos bi || ltb mod_pos mi
      then (do
        new_lines ← slice mod_pos mi modified
        hunks ← rest
        some (record { base_start = base_pos; base_end = bi; new_lines = new_lines } ∷ hunks))
      else rest

module _ {A : Type 0} ⦃e : Equality A⦄ where
  unfoldable pub compute_hunks : List A → List A → Option (List (Hunk A))
  compute_hunks base modified = do
    hunks ← hunk_loop base modified 0 0 (lcs_indices base modified)
    some (keep is_change hunks)

module _ {A : Type 0} where
  -- Two ranges that are not empty overlap as ranges do; two insertions overlap at one position.
  unfoldable pub overlaps : Hunk A → Hunk A → Bool
  overlaps a b =
      if ltb a.base_start a.base_end && ltb b.base_start b.base_end
      then ltb a.base_start b.base_end && ltb b.base_start a.base_end
      else nat_eq a.base_start a.base_end
        && nat_eq b.base_start b.base_end
        && nat_eq a.base_start b.base_start
        && not (is_empty a.new_lines)
        && not (is_empty b.new_lines)

  unfoldable pub hunks_overlap : List (Hunk A) → List (Hunk A) → Bool
  unfolding overlaps
  hunks_overlap a b = any (λ ha. any (overlaps ha) b) a

  -- The loop that writes the merged lines, from base line `pos` on.
  unfoldable pub apply_loop : List A → ℕ → List (Hunk A) → Option (List A)
  apply_loop base pos [] = slice pos (length base) base
  apply_loop base pos (h ∷ hs) =
      let rest = apply_loop base (if ltb pos h.base_end then h.base_end else pos) hs in
      do kept ← slice pos h.base_start base; more ← rest; some (kept ++ (h.new_lines ++ more))

  -- All hunks in the order of `sort_by_key(|h| h.base_start)`, then the loop.
  unfoldable pub merge_lines : List A → List (Hunk A) → List (Hunk A) → Option (List A)
  merge_lines base head_hunks ws_hunks =
      apply_loop base 0 (sort_by_key (λ h. h.base_start) (head_hunks ++ ws_hunks))

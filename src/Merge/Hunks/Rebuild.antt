-- ===== src/Merge/Hunks/Rebuild.antt =====
-- `compute_hunks` of src/merge/mod.rs describes the modified lines completely.
use vai.Common.{ℕ, suc, ◌≡◌, refl, ap, some, List, [], ◌∷◌, Equality, keep, arith}
use vai.Merge.Lcs.{lcs_indices}
use vai.Merge.Lcs.Optimal.{Matched-lcs_indices}
use vai.Merge.Hunks.{Hunk, is_change, compute_hunks, apply_loop}
use vai.Merge.Hunks.Bounds.{
  Separated, Separated-InOrder, hunks_of, hunk_loop-Matched, hunks_of-Separated, patched-hunks_of,
  apply_loop-InOrder,
}

module _ {A : Type 0} where
  keep-Separated :
      (base : List A) (p : ℕ) (hs : List (Hunk A)) → Separated base p hs → keep is_change hs ≡ hs
  keep-Separated base p [] s = refl
  keep-Separated base p (h ∷ hs) s =
      rw s.3 (ap (λ l. h ∷ l) (keep-Separated base (suc h.base_end) hs s.4))

module _ {A : Type 0} ⦃e : Equality A⦄ (base modified : List A) where
  pub hunks : List (Hunk A)
  hunks = hunks_of base modified 0 0 (lcs_indices base modified)

  pub hunks-Separated : Separated base 0 hunks
  unfolding hunks
  hunks-Separated = hunks_of-Separated base modified 0 0 _ (Matched-lcs_indices base modified)

  pub compute_hunks-some : compute_hunks base modified ≡ some hunks
  unfolding compute_hunks hunks
  compute_hunks-some =
      rw (hunk_loop-Matched base modified 0 0 _ (Matched-lcs_indices base modified))
        (ap some (keep-Separated base 0 _ hunks-Separated))

  -- For any two files, `compute_hunks` returns without a panic; its hunks are in order, inside the base,
  -- each a change, with an unchanged line between two of them; and writing them into the base gives
  -- exactly the modified lines.
  pub compute_hunks-rebuilds :
      (hs : List (Hunk A)) × (compute_hunks base modified ≡ some hs)
      × Separated base 0 hs
      × (apply_loop base 0 hs ≡ some modified)
  compute_hunks-rebuilds = (
    hunks,
    compute_hunks-some,
    hunks-Separated,
    rw
        (apply_loop-InOrder base 0 hunks
          (Separated-InOrder base 0 hunks (omega arith) hunks-Separated))
        (ap some (
          unfold hunks in
          patched-hunks_of base modified 0 0 _ (Matched-lcs_indices base modified))),
  )

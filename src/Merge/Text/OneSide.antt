-- ===== src/Merge/Text/OneSide.antt =====
-- A side whose lines are those of the base leaves the other side as it is, byte for byte.
use vai.Common.{
  ℕ, zero, suc, ◌≤◌, some, false, List, [], ◌∷◌, ◌≡◌, ◌≢◌, refl, ◌∙◌, arith, Equality, length, drop,
  sym, slice-rest, ap,
}
use vai.Merge.Lcs.{lcs_walk, lcs_indices, lcs_table}
use vai.Merge.Lcs.Optimal.{drop-suc}
use vai.Merge.Hunks.{Hunk, hunk_loop, compute_hunks, hunks_overlap, apply_loop}
use vai.Merge.Hunks.Rebuild.{hunks, compute_hunks-some, compute_hunks-rebuilds}
use vai.Merge.Text.{Line, line_equality, split_lines, apply_two_hunk_sets, try_textual}

module _ {A : Type 0} where
  drop-nil_inv : (p : ℕ) (xs : List A) → drop p xs ≡ [] → length xs ≤ p
  drop-nil_inv zero [] h = omega arith
  drop-nil_inv zero (x ∷ xs) h = cc
  drop-nil_inv (suc p) [] h = omega arith
  drop-nil_inv (suc p) (x ∷ xs) h = omega (arith, drop-nil_inv p xs h)

module _ {A : Type 0} ⦃e : Equality A⦄ where
  hunk_loop-same :
      (base : List A) (dp : List (List ℕ)) (p : ℕ) (ls : List A)
      → drop p base ≡ ls
      → hunk_loop base base p p (lcs_walk dp p p ls ls) ≡ some []
  unfolding hunk_loop lcs_walk
  hunk_loop-same base dp p [] h = let l = drop-nil_inv p base h in ground arith
  hunk_loop-same base dp p (x ∷ xs) h =
      rw ((e.eqb_iff x x).1 refl)
        (ground (arith, hunk_loop-same base dp (suc p) xs (drop-suc p base x xs h)))

  compute_hunks-same : (base : List A) → compute_hunks base base ≡ some []
  unfolding compute_hunks lcs_indices
  compute_hunks-same [] = unfold hunk_loop in refl
  compute_hunks-same (x ∷ xs) =
      rw (hunk_loop-same (x ∷ xs) (lcs_table (x ∷ xs) (x ∷ xs)) 0 (x ∷ xs) refl)

  -- No hunk means no change.
  compute_hunks-nil :
      (base modified : List A) → compute_hunks base modified ≡ some [] → base ≡ modified
  unfolding apply_loop
  compute_hunks-nil base modified h =
      let (hs, found, apart, rebuilt) = compute_hunks-rebuilds base modified in
      let none_found : hs ≡ [] = cc (found, h) in
      let copied : apply_loop base 0 [] ≡ some modified = rw none_found at rebuilt in
      cc (copied, slice-rest 0 base (omega arith))

hunks_overlap-nil : (hs : List (Hunk Line)) → hunks_overlap hs [] ≡ false
unfolding hunks_overlap
hunks_overlap-nil [] = refl
hunks_overlap-nil (h ∷ hs) = hunks_overlap-nil hs

head_only :
    (base : List Line) (head workspace : List ℕ) (hs : List (Hunk Line))
    → hs ≢ []
    → apply_two_hunk_sets base head workspace hs [] ≡ some head
unfolding apply_two_hunk_sets
head_only base head workspace [] h = absurd (h refl)
head_only base head workspace (x ∷ hs) h = refl

-- Where HEAD's file has the lines of the base, level 1 returns the workspace's file byte for byte.
pub head_unchanged :
    (base head workspace : List ℕ)
    → split_lines head ≡ split_lines base
    → try_textual base head workspace ≡ some (some workspace)
unfolding try_textual
head_unchanged base head workspace same = rw same (
    rw (compute_hunks-same (split_lines base)) (
      rw (compute_hunks-some (split_lines base) (split_lines workspace))
        (unfold hunks_overlap apply_two_hunk_sets in refl)))

-- Where the workspace's file has the lines of the base and HEAD's has not, level 1 returns HEAD's file
-- byte for byte.
pub workspace_unchanged :
    (base head workspace : List ℕ)
    → split_lines workspace ≡ split_lines base
    → split_lines head ≢ split_lines base
    → try_textual base head workspace ≡ some (some head)
unfolding try_textual
workspace_unchanged base head workspace same differ =
    let found = compute_hunks-some (split_lines base) (split_lines head) in
    rw same (
      rw (compute_hunks-same (split_lines base)) (
        rw found (
          rw hunks_overlap-nil (
            rw (
              head_only (split_lines base) head workspace
                (hunks (split_lines base) (split_lines head))
                (λ e. differ (
                  sym (
                    compute_hunks-nil (split_lines base) (split_lines head)
                      (found ∙ ap some e)))))))))

-- ===== src/Merge/Lcs.antt =====
-- `lcs_indices` of src/merge/mod.rs: the table of the longest common subsequence and its walk.
-- The walk holds `a[i..]` and `b[j..]` beside the indices i and j; the table is read by index.
pub mod Table
pub mod Optimal
use vai.Common.{
  ℕ, suc, ◌+◌, max, List, [], ◌∷◌, true, false, Equality, ◌==◌, get_or, tail, leb, if◌then◌else◌,
}

-- `dp[i][j]`.
abbrev pub cell : List (List ℕ) → ℕ → ℕ → ℕ
cell dp i j = get_or (get_or dp i []) j 0

module _ {ℓ} {A : Type ℓ} where
  pub zero_row : List A → List ℕ
  zero_row [] = 0 ∷ []
  zero_row (y ∷ ys) = 0 ∷ zero_row ys

module _ {ℓ} {A : Type ℓ} ⦃e : Equality A⦄ where
  -- Row i of the table from row i + 1: the cells j = 0 .. n, filled from the right.
  pub lcs_row : A → List A → List ℕ → List ℕ
  lcs_row x [] next = 0 ∷ []
  lcs_row x (y ∷ ys) next =
      let rest = lcs_row x ys (tail next) in
      (if x == y then 1 + get_or next 1 0 else max (get_or next 0 0) (get_or rest 0 0)) ∷ rest

  unfoldable pub lcs_table : List A → List A → List (List ℕ)
  unfolding lcs_row zero_row
  lcs_table [] b = zero_row b ∷ []
  lcs_table (x ∷ xs) b = let rest = lcs_table xs b in lcs_row x b (get_or rest 0 []) ∷ rest

  -- The `while i < m && j < n` loop.
  unfoldable pub lcs_walk : List (List ℕ) → ℕ → ℕ → List A → List A → List (ℕ × ℕ)
  lcs_walk dp i j [] bs = []
  lcs_walk dp i j (x ∷ xs) [] = []
  lcs_walk dp i j (x ∷ xs) (y ∷ ys) =
      let both = (i, j) ∷ lcs_walk dp (suc i) (suc j) xs ys in
      let skip_a = lcs_walk dp (suc i) j xs (y ∷ ys) in
      let skip_b = lcs_walk dp i (suc j) (x ∷ xs) ys in
      if x == y
      then both
      else if leb (cell dp i (suc j)) (cell dp (suc i) j)
      then skip_a
      else skip_b

  unfoldable pub lcs_indices : List A → List A → List (ℕ × ℕ)
  lcs_indices [] b = []
  lcs_indices (x ∷ xs) [] = []
  lcs_indices (x ∷ xs) (y ∷ ys) = lcs_walk (lcs_table (x ∷ xs) (y ∷ ys)) 0 0 (x ∷ xs) (y ∷ ys)

-- ===== src/Merge/Lcs/Table.antt =====
-- The table of `lcs_indices` holds what its comment says: dp[i][j] is the length of the longest
-- common subsequence of a[i..] and b[j..], given by its usual recursion.
use vai.Common.{
  ℕ, zero, suc, ◌+◌, max, ◌≡◌, refl, sym, List, [], ◌∷◌, Equality, ◌==◌, get_or, drop,
  if◌then◌else◌, ap,
}
use vai.Merge.Lcs.{cell, zero_row, lcs_row, lcs_table}

module _ {ℓ} {A : Type ℓ} ⦃e : Equality A⦄ where
  unfoldable pub lcs_len : List A → List A → ℕ
  lcs_len [] bs = 0
  lcs_len (x ∷ xs) [] = 0
  lcs_len (x ∷ xs) (y ∷ ys) =
      if x == y then 1 + lcs_len xs ys else max (lcs_len xs (y ∷ ys)) (lcs_len (x ∷ xs) ys)

  -- A full row, by the recursion.
  lens : List A → List A → List ℕ
  lens ls [] = lcs_len ls [] ∷ []
  lens ls (y ∷ ys) = lcs_len ls (y ∷ ys) ∷ lens ls ys

  lens-head : (ls bs : List A) → get_or (lens ls bs) 0 0 ≡ lcs_len ls bs
  unfolding lens
  lens-head ls [] = refl
  lens-head ls (y ∷ ys) = refl

  zero_row-lens : (bs : List A) → zero_row bs ≡ lens [] bs
  unfolding zero_row lens lcs_len
  zero_row-lens [] = refl
  zero_row-lens (y ∷ ys) = ap (λ l. 0 ∷ l) (zero_row-lens ys)

  lcs_row-lens : (x : A) (xs bs : List A) → lcs_row x bs (lens xs bs) ≡ lens (x ∷ xs) bs
  unfolding lcs_row lens lcs_len
  lcs_row-lens x xs [] = refl
  lcs_row-lens x xs (y ∷ ys) =
      rw (lcs_row-lens x xs ys) (rw lens-head (rw lens-head (rw lens-head)))

  lcs_len-nil : (ls : List A) → lcs_len ls [] ≡ 0
  unfolding lcs_len
  lcs_len-nil [] = refl
  lcs_len-nil (x ∷ xs) = refl

  lens-get : (ls bs : List A) (j : ℕ) → get_or (lens ls bs) j 0 ≡ lcs_len ls (drop j bs)
  unfolding lens
  lens-get ls [] zero = refl
  lens-get ls [] (suc j) = sym (lcs_len-nil ls)
  lens-get ls (y ∷ ys) zero = refl
  lens-get ls (y ∷ ys) (suc j) = lens-get ls ys j

  lcs_table-head : (ls bs : List A) → get_or (lcs_table ls bs) 0 [] ≡ lens ls bs
  unfolding lcs_table
  lcs_table-head [] bs = zero_row-lens bs
  lcs_table-head (x ∷ xs) bs = rw (lcs_table-head xs bs) (lcs_row-lens x xs bs)

  -- Every cell of the table, those outside it included, which read as 0.
  pub cell-lcs_table :
      (ls bs : List A) (i j : ℕ) → cell (lcs_table ls bs) i j ≡ lcs_len (drop i ls) (drop j bs)
  unfolding lcs_table lcs_len
  cell-lcs_table [] bs zero j = rw (zero_row-lens bs) (lens-get [] bs j)
  cell-lcs_table [] bs (suc i) j = refl
  cell-lcs_table (x ∷ xs) bs zero j =
      rw (lcs_table-head xs bs) (rw (lcs_row-lens x xs bs) (lens-get (x ∷ xs) bs j))
  cell-lcs_table (x ∷ xs) bs (suc i) j = cell-lcs_table xs bs i j

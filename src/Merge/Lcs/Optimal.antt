-- ===== src/Merge/Lcs/Optimal.antt =====
-- The pairs that `lcs_indices` returns are a common subsequence, and no common subsequence is longer.
use vai.Common.{
  ℕ, zero, suc, ◌+◌, ◌≤◌, ◌≡◌, refl, some, inl, inr, List, [], ◌∷◌, Equality, ◌==◌, length, drop,
  get_elem?, leb, arith, Bool-cases,
}
use vai.Merge.Lcs.{cell, lcs_table, lcs_walk, lcs_indices}
use vai.Merge.Lcs.Table.{lcs_len, cell-lcs_table}

-- `s` is a subsequence of both lists.
pub data IsCommon {ℓ} {A : Type ℓ} : List A → List A → List A → Type ℓ where
  done : {ls bs : List A} → IsCommon [] ls bs
  both : {x : A} {s ls bs : List A} → IsCommon s ls bs → IsCommon (x ∷ s) (x ∷ ls) (x ∷ bs)
  skip_left : {x : A} {s ls bs : List A} → IsCommon s ls bs → IsCommon s (x ∷ ls) bs
  skip_right : {y : A} {s ls bs : List A} → IsCommon s ls bs → IsCommon s ls (y ∷ bs)

module _ {ℓ} {A : Type ℓ} where
  pub drop-suc :
      (j : ℕ) (xs : List A) (y : A) (ys : List A) → drop j xs ≡ y ∷ ys → drop (suc j) xs ≡ ys
  drop-suc zero [] y ys h = cc
  drop-suc zero (x ∷ xs) y ys h = cc
  drop-suc (suc j) [] y ys h = cc
  drop-suc (suc j) (x ∷ xs) y ys h = drop-suc j xs y ys h

  get_elem?-drop :
      (j : ℕ) (xs : List A) (y : A) (ys : List A) → drop j xs ≡ y ∷ ys → get_elem? xs j ≡ some y
  get_elem?-drop zero [] y ys h = cc
  get_elem?-drop zero (x ∷ xs) y ys h = cc
  get_elem?-drop (suc j) [] y ys h = cc
  get_elem?-drop (suc j) (x ∷ xs) y ys h = get_elem?-drop j xs y ys h

  pub drop-lt : (j : ℕ) (xs : List A) (y : A) (ys : List A) → drop j xs ≡ y ∷ ys → suc j ≤ length xs
  drop-lt zero [] y ys h = cc
  drop-lt zero (x ∷ xs) y ys h = omega arith
  drop-lt (suc j) [] y ys h = cc
  drop-lt (suc j) (x ∷ xs) y ys h = omega (arith, drop-lt j xs y ys h)

-- Index pairs from (p, q) on, rising in both places, each at one line that the two lists share.
abbrev pub Matched : {A : Type 0} → List A → List A → ℕ → ℕ → List (ℕ × ℕ) → Type 0
Matched a b p q [] = (p ≤ length a) × (q ≤ length b)
Matched {A} a b p q ((i, j) ∷ ps) =
    (p ≤ i)
    × (q ≤ j)
    × ((x : A) × (get_elem? a i ≡ some x) × (get_elem? b j ≡ some x))
    × Matched a b (suc i) (suc j) ps

Matched-down :
    {A : Type 0} (a b : List A) (p q p' q' : ℕ) (ps : List (ℕ × ℕ))
    → p ≤ p'
    → q ≤ q'
    → Matched a b p' q' ps
    → Matched a b p q ps
Matched-down a b p q p' q' [] h k m = (omega arith, omega arith)
Matched-down a b p q p' q' ((i, j) ∷ ps) h k m = (omega arith, omega arith, m.2, m.3)

module _ {ℓ} {A : Type ℓ} ⦃e : Equality A⦄ where
  length-lcs_walk :
      (a b : List A) (i j : ℕ) (ls bs : List A)
      → drop i a ≡ ls
      → drop j b ≡ bs
      → length (lcs_walk (lcs_table a b) i j ls bs) ≡ lcs_len ls bs
  unfolding lcs_walk lcs_len
  length-lcs_walk a b i j [] bs p q = refl
  length-lcs_walk a b i j (x ∷ xs) [] p q = refl
  length-lcs_walk a b i j (x ∷ xs) (y ∷ ys) p q =
      let p' = drop-suc i a x xs p in
      let q' = drop-suc j b y ys q in
      let c1 = cell-lcs_table a b i (suc j) in
      let c2 = cell-lcs_table a b (suc i) j in
      ground (
        arith,
        c1,
        c2,
        p,
        q,
        p',
        q',
        length-lcs_walk a b (suc i) (suc j) xs ys p' q',
        length-lcs_walk a b (suc i) j xs (y ∷ ys) p' q,
        length-lcs_walk a b i (suc j) (x ∷ xs) ys p q',
      )

  -- One more line on the left never shortens the subsequence; one on the right adds at most 1.
  lcs_len-grow :
      (xs bs : List A) (x y : A)
      → (lcs_len xs bs ≤ lcs_len (x ∷ xs) bs) × (lcs_len xs (y ∷ bs) ≤ 1 + lcs_len xs bs)
  unfolding lcs_len
  lcs_len-grow [] [] x y = omega arith
  lcs_len-grow [] (b ∷ bs) x y = omega arith
  lcs_len-grow (a ∷ xs) [] x y = ground (arith, lcs_len-grow xs [] a y)
  lcs_len-grow (a ∷ xs) (b ∷ bs) x y =
      ground (arith, lcs_len-grow (a ∷ xs) bs x b, lcs_len-grow xs (b ∷ bs) a y)

  lcs_len-grow_right :
      (xs bs : List A) (x y : A)
      → (lcs_len xs bs ≤ lcs_len xs (y ∷ bs)) × (lcs_len (x ∷ xs) bs ≤ 1 + lcs_len xs bs)
  unfolding lcs_len
  lcs_len-grow_right [] [] x y = omega arith
  lcs_len-grow_right [] (b ∷ bs) x y = ground (arith, lcs_len-grow_right [] bs x b)
  lcs_len-grow_right (a ∷ xs) [] x y = omega arith
  lcs_len-grow_right (a ∷ xs) (b ∷ bs) x y =
      ground (arith, lcs_len-grow_right xs (b ∷ bs) a y, lcs_len-grow_right (a ∷ xs) bs x b)

  length-IsCommon : {s ls bs : List A} → IsCommon s ls bs → length s ≤ lcs_len ls bs
  unfolding lcs_len
  length-IsCommon (done {ls} {bs}) = omega arith
  length-IsCommon (both {x} {s} {ls} {bs} c) =
      rw ((e.eqb_iff x x).1 refl) (omega (arith, length-IsCommon c))
  length-IsCommon (skip_left {x} {s} {ls} {bs} c) =
      omega (arith, length-IsCommon c, (lcs_len-grow ls bs x x).0)
  length-IsCommon (skip_right {y} {s} {ls} {bs} c) =
      omega (arith, length-IsCommon c, (lcs_len-grow_right ls bs y y).0)

module _ {A : Type 0} ⦃e : Equality A⦄ where
  Matched-lcs_walk :
      (a b : List A) (dp : List (List ℕ)) (i j : ℕ) (ls bs : List A)
      → drop i a ≡ ls
      → drop j b ≡ bs
      → i ≤ length a
      → j ≤ length b
      → Matched a b i j (lcs_walk dp i j ls bs)
  unfolding lcs_walk
  Matched-lcs_walk a b dp i j [] bs p q h k = (h, k)
  Matched-lcs_walk a b dp i j (x ∷ xs) [] p q h k = (h, k)
  Matched-lcs_walk a b dp i j (x ∷ xs) (y ∷ ys) p q h k =
      let p' = drop-suc i a x xs p in
      let q' = drop-suc j b y ys q in
      let hi = drop-lt i a x xs p in
      let hj = drop-lt j b y ys q in
      elim (Bool-cases (x == y)) [
        | inl same ↦ rw same (
          omega arith,
          omega arith,
          (x, get_elem?-drop i a x xs p, rw ((e.eqb_iff x y).0 same) (get_elem?-drop j b y ys q)),
          Matched-lcs_walk a b dp (suc i) (suc j) xs ys p' q' hi hj,
        )
        | inr differ ↦ rw differ (elim (Bool-cases (leb (cell dp i (suc j)) (cell dp (suc i) j))) [
          | inl down ↦ rw down (
              Matched-down a b i j (suc i) j _ (omega arith) (omega arith)
                (Matched-lcs_walk a b dp (suc i) j xs (y ∷ ys) p' q hi k))
          | inr across ↦ rw across (
              Matched-down a b i j i (suc j) _ (omega arith) (omega arith)
                (Matched-lcs_walk a b dp i (suc j) (x ∷ xs) ys p q' h hj))
        ])
      ]

  pub Matched-lcs_indices : (a b : List A) → Matched a b 0 0 (lcs_indices a b)
  unfolding lcs_indices
  Matched-lcs_indices [] b = omega arith
  Matched-lcs_indices (x ∷ xs) [] = omega arith
  Matched-lcs_indices (x ∷ xs) (y ∷ ys) =
      Matched-lcs_walk (x ∷ xs) (y ∷ ys) (lcs_table (x ∷ xs) (y ∷ ys)) 0 0 (x ∷ xs) (y ∷ ys) refl
        refl (omega arith) (omega arith)

  length-lcs_indices : (a b : List A) → length (lcs_indices a b) ≡ lcs_len a b
  unfolding lcs_indices lcs_len
  length-lcs_indices [] b = refl
  length-lcs_indices (x ∷ xs) [] = refl
  length-lcs_indices (x ∷ xs) (y ∷ ys) = length-lcs_walk (x ∷ xs) (y ∷ ys) 0 0 _ _ refl refl

  -- The pairs that `lcs_indices` returns rise strictly in both places and each joins two equal lines,
  -- and a common subsequence of the two lists is never longer than the list of pairs.
  pub lcs_indices-IsLongest :
      (a b s : List A)
      → IsCommon s a b
      → Matched a b 0 0 (lcs_indices a b) × (length s ≤ length (lcs_indices a b))
  lcs_indices-IsLongest a b s c =
      (Matched-lcs_indices a b, rw (length-lcs_indices a b) (length-IsCommon c))

-- ===== src/Common/Sort.antt =====
-- `sort_by_key` of the language: a stable sort by a numeric key.
use Prim.Native.Nat.{ℕ, ◌≤◌}
use mathlib.Core.Logic.{inl, inr}
use mathlib.Core.List.{List, [], ◌∷◌, Perm}
use mathlib.Core.List.Perm
use native.Mathlib.Omega.{arith}
use vai.Common.Tests.{leb, if◌then◌else◌, Bool-cases, leb→le}
use vai.Common.Lists.{All}

module _ {ℓ} {A : Type ℓ} (key : A → ℕ) where
  -- Before the first element whose key is not smaller: an earlier element stays before its equals.
  unfoldable pub insert_by_key : A → List A → List A
  insert_by_key x [] = x ∷ []
  insert_by_key x (y ∷ ys) = if leb (key x) (key y) then x ∷ y ∷ ys else y ∷ insert_by_key x ys

  unfoldable pub sort_by_key : List A → List A
  unfolding insert_by_key
  sort_by_key [] = []
  sort_by_key (x ∷ xs) = insert_by_key x (sort_by_key xs)

  abbrev pub IsSorted : List A → Type 0
  IsSorted [] = Unit
  IsSorted (x ∷ xs) = All (λ y. key x ≤ key y) xs × IsSorted xs

  perm-insert_by_key : (x : A) (xs : List A) → Perm (insert_by_key x xs) (x ∷ xs)
  unfolding insert_by_key
  perm-insert_by_key x [] = Perm.refl _
  perm-insert_by_key x (y ∷ ys) = elim (Bool-cases (leb (key x) (key y))) [
    | inl first ↦ rw first (Perm.refl _)
    | inr later ↦ rw later (Perm.trans (Perm.cons y (perm-insert_by_key x ys)) (Perm.swap x y ys))
  ]

  pub perm-sort_by_key : (xs : List A) → Perm (sort_by_key xs) xs
  unfolding sort_by_key
  perm-sort_by_key [] = Perm.refl _
  perm-sort_by_key (x ∷ xs) =
      Perm.trans (perm-insert_by_key x (sort_by_key xs)) (Perm.cons x (perm-sort_by_key xs))

  All-le_trans : (m n : ℕ) (xs : List A) → m ≤ n → All (λ y. n ≤ key y) xs → All (λ y. m ≤ key y) xs
  All-le_trans m n [] h a = a
  All-le_trans m n (x ∷ xs) h a = (omega arith, All-le_trans m n xs h a.1)

  All-insert_by_key :
      (m : ℕ) (x : A) (xs : List A)
      → m ≤ key x
      → All (λ y. m ≤ key y) xs
      → All (λ y. m ≤ key y) (insert_by_key x xs)
  unfolding insert_by_key
  All-insert_by_key m x [] h a = (h, tt)
  All-insert_by_key m x (y ∷ ys) h a = elim (Bool-cases (leb (key x) (key y))) [
    | inl first ↦ rw first (h, (a.0, a.1))
    | inr later ↦ rw later (a.0, All-insert_by_key m x ys h a.1)
  ]

  insert_by_key-IsSorted : (x : A) (xs : List A) → IsSorted xs → IsSorted (insert_by_key x xs)
  unfolding insert_by_key
  insert_by_key-IsSorted x [] s = (tt, tt)
  insert_by_key-IsSorted x (y ∷ ys) s = elim (Bool-cases (leb (key x) (key y))) [
    | inl first ↦
        let h = leb→le (key x) (key y) first in
        rw first ((h, All-le_trans (key x) (key y) ys h s.0), (s.0, s.1))
    | inr later ↦
        rw later
          (All-insert_by_key (key y) x ys (ground arith) s.0, insert_by_key-IsSorted x ys s.1)
  ]

  pub sort_by_key-IsSorted : (xs : List A) → IsSorted (sort_by_key xs)
  unfolding sort_by_key
  sort_by_key-IsSorted [] = tt
  sort_by_key-IsSorted (x ∷ xs) =
      insert_by_key-IsSorted x (sort_by_key xs) (sort_by_key-IsSorted xs)

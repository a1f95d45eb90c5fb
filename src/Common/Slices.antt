-- ===== src/Common/Slices.antt =====
-- Laws of the checked range `slice`.
use Prim.Native.Nat.{ℕ, zero, suc, ◌≤◌, ◌<◌}
use mathlib.Core.Path.{◌≡◌, refl, ap}
use mathlib.Core.Option.{some, none}
use mathlib.Core.List.{List, [], ◌∷◌, ◌++◌}
use native.Mathlib.Omega.{arith}
use vai.Common.Tests.{le→leb}
use vai.Common.Lists.{length, between, drop, get_elem?, slice}

module _ {ℓ} {A : Type ℓ} where
  pub between_refl : (lo : ℕ) (xs : List A) → between lo lo xs ≡ []
  between_refl zero xs = refl
  between_refl (suc lo) [] = refl
  between_refl (suc lo) (x ∷ xs) = between_refl lo xs

  pub between-length : (lo : ℕ) (xs : List A) → between lo (length xs) xs ≡ drop lo xs
  between-length zero [] = refl
  between-length zero (x ∷ xs) = ap (λ l. x ∷ l) (between-length zero xs)
  between-length (suc lo) [] = refl
  between-length (suc lo) (x ∷ xs) = between-length lo xs

  pub between-append-drop :
      (q m : ℕ) (xs : List A) → q ≤ m → between q m xs ++ drop m xs ≡ drop q xs
  between-append-drop zero zero xs h = refl
  between-append-drop zero (suc m) [] h = refl
  between-append-drop zero (suc m) (x ∷ xs) h =
      ap (λ l. x ∷ l) (between-append-drop zero m xs (omega arith))
  between-append-drop (suc q) zero xs h = elim h [ ]
  between-append-drop (suc q) (suc m) [] h = refl
  between-append-drop (suc q) (suc m) (x ∷ xs) h = between-append-drop q m xs (omega arith)

  pub between-append :
      (p q s : ℕ) (xs : List A) → p ≤ q → q ≤ s → between p q xs ++ between q s xs ≡ between p s xs
  between-append zero zero s xs h k = refl
  between-append zero (suc q) zero xs h k = elim k [ ]
  between-append zero (suc q) (suc s) [] h k = refl
  between-append zero (suc q) (suc s) (x ∷ xs) h k =
      ap (λ l. x ∷ l) (between-append zero q s xs (omega arith) (omega arith))
  between-append (suc p) zero s xs h k = elim h [ ]
  between-append (suc p) (suc q) zero xs h k = elim k [ ]
  between-append (suc p) (suc q) (suc s) [] h k = refl
  between-append (suc p) (suc q) (suc s) (x ∷ xs) h k =
      between-append p q s xs (omega arith) (omega arith)

  -- One element.
  pub between-one :
      (m : ℕ) (xs : List A) (l : A) → get_elem? xs m ≡ some l → between m (suc m) xs ≡ l ∷ []
  between-one m [] l h = cc
  between-one zero (x ∷ xs) l h = cc
  between-one (suc m) (x ∷ xs) l h = between-one m xs l h

  pub slice-some :
      (lo hi : ℕ) (xs : List A)
      → lo ≤ hi
      → hi ≤ length xs
      → slice lo hi xs ≡ some (between lo hi xs)
  unfolding slice
  slice-some lo hi xs h k = rw (le→leb lo hi h) (rw (le→leb hi (length xs) k))

  pub slice-none : (lo hi : ℕ) (xs : List A) → hi < lo → slice lo hi xs ≡ none
  unfolding slice
  slice-none lo hi xs h = ground arith

  pub slice-rest :
      (lo : ℕ) (xs : List A) → lo ≤ length xs → slice lo (length xs) xs ≡ some (drop lo xs)
  slice-rest lo xs h = rw (slice-some lo (length xs) xs h (omega arith)) (rw between-length)

  -- A range that does not panic is in order and inside the list.
  pub slice-some_inv :
      (lo hi : ℕ) (xs out : List A) → slice lo hi xs ≡ some out → (lo ≤ hi) × (hi ≤ length xs)
  unfolding slice
  slice-some_inv lo hi xs out h = ground arith

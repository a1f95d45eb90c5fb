-- ===== src/Common/Lists.antt =====
-- Lists measured and indexed by the native numbers, under the library's names.
use Prim.Native.Nat.{ℕ, zero, suc, ◌+◌, ◌<◌}
use mathlib.Core.Path.{◌≡◌, refl}
use mathlib.Core.Bool.{Bool, true, false, ◌&&◌, ◌||◌}
use mathlib.Core.Option.{Option, none, some}
use mathlib.Core.List.{List, [], ◌∷◌, ◌++◌}
use native.Mathlib.Omega.{arith}
use vai.Common.Tests.{leb, if◌then◌else◌}

module _ {ℓ} {A : Type ℓ} where
  abbrev pub length : List A → ℕ
  length [] = 0
  length (x ∷ xs) = suc (length xs)

  abbrev pub get_or : List A → ℕ → A → A
  get_or [] i d = d
  get_or (x ∷ xs) zero d = x
  get_or (x ∷ xs) (suc i) d = get_or xs i d

  abbrev pub get_elem? : List A → ℕ → Option A
  get_elem? [] i = none
  get_elem? (x ∷ xs) zero = some x
  get_elem? (x ∷ xs) (suc i) = get_elem? xs i

  abbrev pub tail : List A → List A
  tail [] = []
  tail (x ∷ xs) = xs

  abbrev pub drop : ℕ → List A → List A
  drop zero xs = xs
  drop (suc n) [] = []
  drop (suc n) (x ∷ xs) = drop n xs

  -- The elements from position `lo` up to, not including, `hi`.
  abbrev pub between : ℕ → ℕ → List A → List A
  between zero zero xs = []
  between zero (suc hi) [] = []
  between zero (suc hi) (x ∷ xs) = x ∷ between zero hi xs
  between (suc lo) zero xs = []
  between (suc lo) (suc hi) [] = []
  between (suc lo) (suc hi) (x ∷ xs) = between lo hi xs

  abbrev pub any : (A → Bool) → List A → Bool
  any p [] = false
  any p (x ∷ xs) = p x || any p xs

  abbrev pub keep : (A → Bool) → List A → List A
  keep p [] = []
  keep p (x ∷ xs) = if p x then x ∷ keep p xs else keep p xs

  abbrev pub is_empty : List A → Bool
  is_empty [] = true
  is_empty (x ∷ xs) = false

  pub drop-nil : (i : ℕ) → drop i [] ≡ []
  drop-nil zero = refl
  drop-nil (suc i) = refl

  pub drop-cons :
      (m : ℕ) (xs : List A) (l : A) → get_elem? xs m ≡ some l → drop m xs ≡ l ∷ drop (suc m) xs
  drop-cons m [] l h = cc
  drop-cons zero (x ∷ xs) l h = cc
  drop-cons (suc m) (x ∷ xs) l h = drop-cons m xs l h

  pub drop-all : (xs : List A) → drop (length xs) xs ≡ []
  drop-all [] = refl
  drop-all (x ∷ xs) = drop-all xs

  pub get_elem?-lt : (m : ℕ) (xs : List A) (l : A) → get_elem? xs m ≡ some l → m < length xs
  get_elem?-lt m [] l h = cc
  get_elem?-lt zero (x ∷ xs) l h = omega arith
  get_elem?-lt (suc m) (x ∷ xs) l h = omega (arith, get_elem?-lt m xs l h)

  pub length-append : (xs ys : List A) → length (xs ++ ys) ≡ length xs + length ys
  length-append [] ys = omega arith
  length-append (x ∷ xs) ys = omega (arith, length-append xs ys)

-- `&xs[lo..hi]`; `none` is the panic of a range that is out of order or out of bounds.
module _ {ℓ} {A : Type ℓ} where
  unfoldable pub slice : ℕ → ℕ → List A → Option (List A)
  slice lo hi xs = if leb lo hi && leb hi (length xs) then some (between lo hi xs) else none

abbrev pub All {ℓ κ} : {A : Type ℓ} → (A → Type κ) → List A → Type κ
All P [] = Unit
All P (x ∷ xs) = P x × All P xs

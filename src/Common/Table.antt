-- ===== src/Common/Table.antt =====
-- Tables with a numeric key: the statements `SELECT ... WHERE id = ?` and `UPDATE ... WHERE id = ?`.
use Prim.Native.Nat.{ℕ, ◌<◌}
use mathlib.Core.Path.{◌≡◌, refl}
use mathlib.Core.Logic.{inl, inr}
use mathlib.Core.Bool.{Bool, true, false}
use mathlib.Core.Option.{Option, none, some}
use mathlib.Core.List.{List, [], ◌∷◌, ◌++◌}
use native.Mathlib.Omega.{arith}
use vai.Common.Tests.{nat_eq, nat_eq_iff, if◌then◌else◌, Bool-cases}
use vai.Common.Lists.{All, keep}
use vai.Common.Sort.{insert_by_key, sort_by_key}

module _ {A : Type 0} where
  pub All-both : (P Q : A → Type 0) (xs : List A) → All P xs → All Q xs → All (λ x. P x × Q x) xs
  All-both P Q [] a b = tt
  All-both P Q (x ∷ xs) a b = ((a.0, b.0), All-both P Q xs a.1 b.1)

  pub All-weaken : (P Q : A → Type 0) (xs : List A) → ((x : A) → P x → Q x) → All P xs → All Q xs
  All-weaken P Q [] f a = tt
  All-weaken P Q (x ∷ xs) f a = (f x a.0, All-weaken P Q xs f a.1)

  pub All-append : (P : A → Type 0) (xs : List A) (x : A) → All P xs → P x → All P (xs ++ x ∷ [])
  All-append P [] x a h = (h, tt)
  All-append P (y ∷ xs) x a h = (a.0, All-append P xs x a.1 h)

  pub All-split : (P : A → Type 0) (xs ys : List A) → All P (xs ++ ys) → All P xs × All P ys
  All-split P [] ys a = (tt, a)
  All-split P (x ∷ xs) ys a = let r = All-split P xs ys a.1 in ((a.0, r.0), r.1)

  pub All-join : (P : A → Type 0) (xs ys : List A) → All P xs → All P ys → All P (xs ++ ys)
  All-join P [] ys a b = b
  All-join P (x ∷ xs) ys a b = (a.0, All-join P xs ys a.1 b)

module _ {A : Type 0} (key : A → ℕ) where
  unfoldable pub find_key : ℕ → List A → Option A
  find_key k [] = none
  find_key k (x ∷ xs) = let rest = find_key k xs in if nat_eq (key x) k then some x else rest

  unfoldable pub update_key : ℕ → (A → A) → List A → List A
  update_key k set [] = []
  update_key k set (x ∷ xs) = (if nat_eq (key x) k then set x else x) ∷ update_key k set xs

  abbrev pub map_found : (A → A) → Option A → Option A
  map_found set none = none
  map_found set (some x) = some (set x)

  pub find_key-update_key :
      (k j : ℕ) (set : A → A) (xs : List A)
      → ((x : A) → key (set x) ≡ key x)
      → find_key j (update_key k set xs)
        ≡ (if nat_eq k j then map_found set (find_key j xs) else find_key j xs)
  unfolding find_key update_key
  find_key-update_key k j set [] h = ground arith
  find_key-update_key k j set (x ∷ xs) h = ground (
    arith,
    find_key-update_key k j set xs h,
    h x,
    nat_eq_iff (key x) k,
    nat_eq_iff (key x) j,
    nat_eq_iff k j,
  )

  pub find_key-key : (j : ℕ) (xs : List A) (x : A) → find_key j xs ≡ some x → key x ≡ j
  unfolding find_key
  find_key-key j [] x h = cc
  find_key-key j (y ∷ xs) x h = ground (arith, find_key-key j xs x, nat_eq_iff (key y) j)

  -- Keys that grow along the table, as those of AUTOINCREMENT do.
  abbrev pub IsIncreasing : List A → Type 0
  IsIncreasing [] = Unit
  IsIncreasing (x ∷ xs) = All (λ y. key x < key y) xs × IsIncreasing xs

  pub IsIncreasing-append :
      (xs : List A) (x : A)
      → All (λ y. key y < key x) xs
      → IsIncreasing xs
      → IsIncreasing (xs ++ x ∷ [])
  IsIncreasing-append [] x h i = (tt, tt)
  IsIncreasing-append (y ∷ xs) x h i =
      (All-append (λ z. key y < key z) xs x i.0 h.0, IsIncreasing-append xs x h.1 i.1)

  All-update :
      (n : ℕ) (k : ℕ) (set : A → A) (xs : List A)
      → ((x : A) → key (set x) ≡ key x)
      → All (λ y. n < key y) xs
      → All (λ y. n < key y) (update_key k set xs)
  unfolding update_key
  All-update n k set [] h a = tt
  All-update n k set (x ∷ xs) h a = (ground (arith, h x, a.0), All-update n k set xs h a.1)

  pub IsIncreasing-update_key :
      (k : ℕ) (set : A → A) (xs : List A)
      → ((x : A) → key (set x) ≡ key x)
      → IsIncreasing xs
      → IsIncreasing (update_key k set xs)
  unfolding update_key
  IsIncreasing-update_key k set [] h i = tt
  IsIncreasing-update_key k set (x ∷ xs) h i = elim (Bool-cases (nat_eq (key x) k)) [
    | inl b ↦
        rw b (rw (h x) (All-update (key x) k set xs h i.0, IsIncreasing-update_key k set xs h i.1))
    | inr b ↦ rw b (All-update (key x) k set xs h i.0, IsIncreasing-update_key k set xs h i.1)
  ]

  pub below-update_key :
      (n : ℕ) (k : ℕ) (set : A → A) (xs : List A)
      → ((x : A) → key (set x) ≡ key x)
      → All (λ y. key y < n) xs
      → All (λ y. key y < n) (update_key k set xs)
  unfolding update_key
  below-update_key n k set [] h a = tt
  below-update_key n k set (x ∷ xs) h a =
      (ground (arith, h x, a.0), below-update_key n k set xs h a.1)

  pub below-append :
      (xs : List A) (x : A) (n m : ℕ)
      → n < m
      → key x < m
      → All (λ y. key y < n) xs
      → All (λ y. key y < m) (xs ++ x ∷ [])
  below-append [] x n m h k a = (k, tt)
  below-append (y ∷ xs) x n m h k a = (omega arith, below-append xs x n m h k a.1)

  -- A key below all those of the table is not found, and an update of it changes nothing.
  pub find_key-above : (j : ℕ) (xs : List A) → All (λ y. j < key y) xs → find_key j xs ≡ none
  unfolding find_key
  find_key-above j [] a = refl
  find_key-above j (x ∷ xs) a = ground (arith, find_key-above j xs a.1)

  pub find_key-below : (j : ℕ) (xs : List A) → All (λ y. key y < j) xs → find_key j xs ≡ none
  unfolding find_key
  find_key-below j [] a = refl
  find_key-below j (x ∷ xs) a = ground (arith, find_key-below j xs a.1)

  pub update_key-above :
      (j : ℕ) (set : A → A) (xs : List A) → All (λ y. j < key y) xs → update_key j set xs ≡ xs
  unfolding update_key
  update_key-above j set [] a = refl
  update_key-above j set (x ∷ xs) a = ground (arith, update_key-above j set xs a.1)

  pub find_key-append :
      (j : ℕ) (xs : List A) (x : A)
      → find_key j (xs ++ x ∷ []) ≡ (elim (find_key j xs) [
        | some y ↦ some y
        | none ↦ if nat_eq (key x) j then some x else none
      ])
  unfolding find_key
  find_key-append j [] x = ground arith
  find_key-append j (y ∷ xs) x = ground (arith, find_key-append j xs x)

  -- What holds of every row after an update, by what the update does to one row.
  pub All-update_key :
      (P Q : A → Type 0) (k : ℕ) (set : A → A) (xs : List A)
      → ((x : A) → nat_eq (key x) k ≡ true → P x → Q (set x))
      → ((x : A) → nat_eq (key x) k ≡ false → P x → Q x)
      → All P xs
      → All Q (update_key k set xs)
  unfolding update_key
  All-update_key P Q k set [] f g a = tt
  All-update_key P Q k set (x ∷ xs) f g a = elim (Bool-cases (nat_eq (key x) k)) [
    | inl b ↦ rw b (f x b a.0, All-update_key P Q k set xs f g a.1)
    | inr b ↦ rw b (g x b a.0, All-update_key P Q k set xs f g a.1)
  ]

  pub find_key-All :
      (P : A → Type 0) (k : ℕ) (xs : List A) (x : A) → All P xs → find_key k xs ≡ some x → P x
  unfolding find_key
  find_key-All P k [] x a h = cc
  find_key-All P k (y ∷ xs) x a h = elim (Bool-cases (nat_eq (key y) k)) [
    | inl b ↦ let e : y ≡ x = ground (arith, b) in rw⁻¹ e a.0
    | inr b ↦ find_key-All P k xs x a.1 (ground (arith, b))
  ]

  none_else :
      {k : ℕ} (y : A) (xs : List A) (x : A)
      → key y ≡ k
      → All (λ z. key y < key z) xs
      → All (λ z. nat_eq (key z) k ≡ true → z ≡ x) xs
  none_else y [] x e a = tt
  none_else y (z ∷ xs) x e a = (λ t. ground (arith, a.0, e, t), none_else y xs x e a.1)

  -- The row that is found is the only one with its key.
  pub find_key_unique :
      (k : ℕ) (xs : List A) (x : A)
      → IsIncreasing xs
      → find_key k xs ≡ some x
      → All (λ y. nat_eq (key y) k ≡ true → y ≡ x) xs
  unfolding find_key
  find_key_unique k [] x i h = tt
  find_key_unique k (y ∷ xs) x i h = elim (Bool-cases (nat_eq (key y) k)) [
    | inl b ↦ (λ e. ground (arith, b), none_else y xs x (ground (arith, b)) i.0)
    | inr b ↦ (λ e. cc, find_key_unique k xs x i.1 (ground (arith, b)))
  ]

  pub find_key-none :
      (k : ℕ) (xs : List A) → find_key k xs ≡ none → All (λ y. nat_eq (key y) k ≡ false) xs
  unfolding find_key
  find_key-none k [] h = tt
  find_key-none k (y ∷ xs) h = (ground (arith, h), find_key-none k xs (ground (arith, h)))

  pub All-keep :
      (P : A → Type 0) (wanted : A → Bool) (xs : List A) → All P xs → All P (keep wanted xs)
  All-keep P wanted [] a = tt
  All-keep P wanted (x ∷ xs) a = elim (Bool-cases (wanted x)) [
    | inl b ↦ rw b (a.0, All-keep P wanted xs a.1)
    | inr b ↦ rw b (All-keep P wanted xs a.1)
  ]

  pub IsIncreasing-keep :
      (wanted : A → Bool) (xs : List A) → IsIncreasing xs → IsIncreasing (keep wanted xs)
  IsIncreasing-keep wanted [] i = tt
  IsIncreasing-keep wanted (x ∷ xs) i = elim (Bool-cases (wanted x)) [
    | inl b ↦ rw b (All-keep (λ y. key x < key y) wanted xs i.0, IsIncreasing-keep wanted xs i.1)
    | inr b ↦ rw b (IsIncreasing-keep wanted xs i.1)
  ]

  insert_by_key-first :
      (x : A) (xs : List A) → All (λ y. key x < key y) xs → insert_by_key key x xs ≡ x ∷ xs
  unfolding insert_by_key
  insert_by_key-first x [] a = refl
  insert_by_key-first x (y ∷ ys) a = ground (arith, a.0)

  -- A sort finds nothing to do in a table that grows along its keys.
  pub sort_by_key-IsIncreasing : (xs : List A) → IsIncreasing xs → sort_by_key key xs ≡ xs
  unfolding sort_by_key
  sort_by_key-IsIncreasing [] i = refl
  sort_by_key-IsIncreasing (x ∷ xs) i =
      rw (sort_by_key-IsIncreasing xs i.1) (insert_by_key-first x xs i.0)

-- ===== src/Common/Any.antt =====
-- The test that some element passes, along the functions on lists, and the element it speaks of.
use mathlib.Core.Path.{◌≡◌, refl, ap, ◌∙◌}
use mathlib.Core.Logic.{◌↔◌, ◌⊎◌, inl, inr, ∥∥₁_elim}
use mathlib.Core.Bool.{Bool, Bool-set, true, false, ◌&&◌, ◌||◌}
use mathlib.Core.List.{List, [], ◌∷◌, ◌++◌, Perm, Permᴰ}
use native.Mathlib.Omega.{arith}
use vai.Common.Tests.{Bool-cases}
use vai.Common.Lists.{any, keep}

module _ {A : Type 0} where
  pub any-keep : (p q : A → Bool) (xs : List A) → any p (keep q xs) ≡ any (λ x. q x && p x) xs
  any-keep p q [] = refl
  any-keep p q (x ∷ xs) = ground (arith, any-keep p q xs)

  pub any-append : (p : A → Bool) (xs ys : List A) → any p (xs ++ ys) ≡ (any p xs || any p ys)
  any-append p [] ys = refl
  any-append p (x ∷ xs) ys = ground (arith, any-append p xs ys)

  pub any-either :
      (p q : A → Bool) (xs : List A) → any (λ x. p x || q x) xs ≡ (any p xs || any q xs)
  any-either p q [] = refl
  any-either p q (x ∷ xs) = ground (arith, any-either p q xs)

  pub any-same : (p q : A → Bool) (xs : List A) → ((x : A) → p x ≡ q x) → any p xs ≡ any q xs
  any-same p q [] h = refl
  any-same p q (x ∷ xs) h = ground (arith, any-same p q xs h, h x)

  pub any-never : (xs : List A) → any (λ x. false) xs ≡ false
  any-never [] = refl
  any-never (x ∷ xs) = any-never xs

  abbrev pub Exists : (A → Type 0) → List A → Type 0
  Exists P [] = ⊥
  Exists P (x ∷ xs) = P x ⊎ Exists P xs

  pub Exists-any :
      (P : A → Type 0) (p : A → Bool) (xs : List A)
      → ((x : A) → (p x ≡ true) ↔ P x)
      → (any p xs ≡ true) ↔ Exists P xs
  Exists-any P p [] h = (λ k. cc, λ k. ground arith)
  Exists-any P p (x ∷ xs) h = (
    λ k. elim (Bool-cases (p x)) [
      | inl here ↦ inl ((h x).0 here)
      | inr not_here ↦ inr ((Exists-any P p xs h).0 (ground arith))
    ],
    λ k. elim k [
      | inl here ↦ let t = (h x).1 here in ground arith
      | inr there ↦ let t = (Exists-any P p xs h).1 there in ground arith
    ],
  )

any-Permᴰ : {A : Type 0} (p : A → Bool) {xs ys : List A} → Permᴰ xs ys → any p xs ≡ any p ys
any-Permᴰ p Permᴰ.nil = refl
any-Permᴰ p (Permᴰ.cons h d) = ground (arith, ap p h, any-Permᴰ p d)
any-Permᴰ p (Permᴰ.swap h k) = ground (arith, ap p h, ap p k)
any-Permᴰ p (Permᴰ.trans d e) = any-Permᴰ p d ∙ any-Permᴰ p e

-- Whether some element passes does not depend on the order of the list.
pub any-Perm : {A : Type 0} (p : A → Bool) {xs ys : List A} → Perm xs ys → any p xs ≡ any p ys
any-Perm p h = ∥∥₁_elim h (Bool-set _ _) (λ d. any-Permᴰ p d)

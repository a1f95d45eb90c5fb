-- ===== src/Common/Sets.antt =====
-- Sets of texts, as lists whose order says nothing, and the sort and `dedup` that list them.
use Prim.Native.Nat.{suc}
use Prim.Native.String.{String, compare}
use mathlib.Core.Path.{◌≡◌, refl, sym, ap, ◌∙◌}
use mathlib.Core.Logic.{inl, inr}
use mathlib.Core.Bool.{Bool, true, false, not, ◌&&◌, ◌||◌}
use mathlib.Core.List.{List, [], ◌∷◌, ◌++◌}
use native.Mathlib.Omega.{arith}
use text.Mathlib.Text.{◌==◌, is_le}
use text.Mathlib.TextEquality.{eq_iff}
use vai.Common.Tests.{if◌then◌else◌, Bool-cases}
use vai.Common.Lists.{length, any, keep, is_empty}

abbrev pub contains : String → List String → Bool
contains x [] = false
contains x (y ∷ ys) = (x == y) || contains x ys

-- A `HashSet` holds each text once.
abbrev pub IsDistinct : List String → Type 0
IsDistinct [] = Unit
IsDistinct (x ∷ xs) = (contains x xs ≡ false) × IsDistinct xs

abbrev pub intersection : List String → List String → List String
intersection a b = keep (λ x. contains x b) a

abbrev pub insert_text : String → List String → List String
insert_text x [] = x ∷ []
insert_text x (y ∷ ys) = if is_le (compare x y) then x ∷ y ∷ ys else y ∷ insert_text x ys

unfoldable pub sort_text : List String → List String
sort_text [] = []
sort_text (x ∷ xs) = insert_text x (sort_text xs)

-- Drops an element that repeats the one kept before it.
abbrev pub dedup_from : String → List String → List String
dedup_from last [] = []
dedup_from last (x ∷ xs) =
    let again = dedup_from last xs in
    let fresh = x ∷ dedup_from x xs in if x == last then again else fresh

unfoldable pub dedup : List String → List String
dedup [] = []
dedup (x ∷ xs) = x ∷ dedup_from x xs

length-insert_text : (x : String) (xs : List String) → length (insert_text x xs) ≡ suc (length xs)
length-insert_text x [] = refl
length-insert_text x (y ∷ ys) = ground (arith, length-insert_text x ys)

pub length-sort_text : (xs : List String) → length (sort_text xs) ≡ length xs
unfolding sort_text
length-sort_text [] = refl
length-sort_text (x ∷ xs) = length-insert_text x (sort_text xs) ∙ ap suc (length-sort_text xs)

pub is_empty-sort_text : (xs : List String) → is_empty (sort_text xs) ≡ is_empty xs
is_empty-sort_text [] = unfold sort_text in refl
is_empty-sort_text (x ∷ xs) = ground (arith, length-sort_text (x ∷ xs))

pub is_empty-dedup : (xs : List String) → is_empty (dedup xs) ≡ is_empty xs
unfolding dedup
is_empty-dedup [] = refl
is_empty-dedup (x ∷ xs) = refl

pub is_empty-append : (xs ys : List String) → is_empty (xs ++ ys) ≡ (is_empty xs && is_empty ys)
is_empty-append [] ys = refl
is_empty-append (x ∷ xs) ys = refl

pub is_empty-keep : (p : String → Bool) (xs : List String) → is_empty (keep p xs) ≡ not (any p xs)
is_empty-keep p [] = refl
is_empty-keep p (x ∷ xs) = ground (arith, is_empty-keep p xs)

-- How many elements of two sets are shared does not depend on the side that is counted.
count_grow_out :
    (x : String) (a b : List String)
    → contains x b ≡ false
    → keep (λ y. contains y (x ∷ a)) b ≡ keep (λ y. contains y a) b
count_grow_out x a [] h = refl
count_grow_out x a (y ∷ b) h = ground (arith, eq_iff x y, eq_iff y x, count_grow_out x a b)

count_grow_in :
    (x : String) (a b : List String)
    → contains x a ≡ false
    → contains x b ≡ true
    → IsDistinct b
    → length (keep (λ y. contains y (x ∷ a)) b) ≡ suc (length (keep (λ y. contains y a) b))
count_grow_in x a [] h k d = cc
count_grow_in x a (y ∷ b) h k d = elim (Bool-cases (y == x)) [
  | inl same ↦
      let p : y ≡ x = (eq_iff y x).0 same in
      let absent : contains x b ≡ false = rw p at d.0 in
      rw p (
        rw h (
          rw ((eq_iff x x).1 refl)
            (ap (λ (l : List String). suc (length l)) (count_grow_out x a b absent))))
  | inr differ ↦
      let there : contains x b ≡ true = ground (arith, eq_iff x y, eq_iff y x) in
      ground (arith, differ, count_grow_in x a b h there d.1)
]

length-keep_none : (b : List String) → length (keep (λ y. contains y []) b) ≡ 0
length-keep_none [] = refl
length-keep_none (y ∷ b) = length-keep_none b

pub length-intersection_comm :
    (a b : List String)
    → IsDistinct a
    → IsDistinct b
    → length (intersection a b) ≡ length (intersection b a)
length-intersection_comm [] b d e = ground (arith, length-keep_none b)
length-intersection_comm (x ∷ a) b d e = elim (Bool-cases (contains x b)) [
  | inl both ↦
      rw both (ap suc (length-intersection_comm a b d.1 e) ∙ sym (count_grow_in x a b d.0 both e))
  | inr one ↦
      rw one (length-intersection_comm a b d.1 e ∙ ap length (sym (count_grow_out x a b one)))
]

-- `collect` into a `HashSet`.
unfoldable pub set_of : List String → List String
set_of [] = []
set_of (x ∷ xs) = let rest = set_of xs in if contains x xs then rest else x ∷ rest

pub contains-set_of : (y : String) (xs : List String) → contains y (set_of xs) ≡ contains y xs
unfolding set_of
contains-set_of y [] = refl
contains-set_of y (x ∷ xs) = ground (arith, contains-set_of y xs, eq_iff x y, eq_iff y x)

pub set_of-IsDistinct : (xs : List String) → IsDistinct (set_of xs)
unfolding set_of
set_of-IsDistinct [] = tt
set_of-IsDistinct (x ∷ xs) = elim (Bool-cases (contains x xs)) [
  | inl again ↦ rw again (set_of-IsDistinct xs)
  | inr new ↦ rw new (contains-set_of x xs ∙ new, set_of-IsDistinct xs)
]

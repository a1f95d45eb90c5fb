-- ===== src/Graph/Reach/Steps.antt =====
-- What one round of the search of src/graph/mod.rs does to the visited ids and to the queue.
use text.Mathlib.TextEquality.{eq_iff}
use mathlib.Core.Path.{subst}
use vai.Common.{
  ℕ, ◌≤◌, ◌≡◌, sym, ◌⊎◌, inl, inr, Bool, true, false, not, ◌&&◌, ◌||◌, List, [], ◌∷◌, ◌++◌, String,
  ◌==◌, leb, All, arith,
}
use vai.Common.Eq.{string_equality}
use vai.Common.Sets.{contains}
use vai.Common.Table.{All-append}
use vai.Graph.Reach.{Search, visit, visit_all}

-- The id is in the list with a number of hops up to j.
abbrev pub labelled : ℕ → String → List (String × ℕ) → Bool
labelled j x [] = false
labelled j x (e ∷ q) = ((x == e.0) && leb e.1 j) || labelled j x q

-- The numbers of hops grow from one end of the range to the other.
abbrev pub IsOrdered : ℕ → ℕ → List (String × ℕ) → Type 0
IsOrdered lo hi [] = Unit
IsOrdered lo hi (e ∷ q) = (lo ≤ e.1) × (e.1 ≤ hi) × IsOrdered e.1 hi q

pub labelled-append :
    (j : ℕ) (x : String) (p q : List (String × ℕ))
    → labelled j x (p ++ q) ≡ (labelled j x p || labelled j x q)
labelled-append j x [] q = ground arith
labelled-append j x (e ∷ p) q = ground (arith, labelled-append j x p q)

pub labelled-weaken :
    (i j : ℕ) (x : String) (q : List (String × ℕ))
    → i ≤ j
    → labelled i x q ≡ true
    → labelled j x q ≡ true
labelled-weaken i j x [] h l = cc
labelled-weaken i j x (e ∷ q) h l = ground (arith, labelled-weaken i j x q h)

pub IsOrdered-append :
    (lo hi : ℕ) (q : List (String × ℕ)) (x : String)
    → lo ≤ hi
    → IsOrdered lo hi q
    → IsOrdered lo hi (q ++ (x, hi) ∷ [])
IsOrdered-append lo hi [] x h o = (h, omega arith, tt)
IsOrdered-append lo hi (e ∷ q) x h o = (o.0, o.1, IsOrdered-append e.1 hi q x o.1 o.2)

pub IsOrdered-higher :
    (lo hi top : ℕ) (q : List (String × ℕ)) → hi ≤ top → IsOrdered lo hi q → IsOrdered lo top q
IsOrdered-higher lo hi top [] h o = tt
IsOrdered-higher lo hi top (e ∷ q) h o =
    (o.0, omega (arith, o.1), IsOrdered-higher e.1 hi top q h o.2)

pub contains-visit :
    (k : ℕ) (id y : String) (s : Search)
    → contains y (visit k id s).visited ≡ ((y == id) || contains y s.visited)
unfolding visit
contains-visit k id y s = ground (arith, eq_iff y id)

pub labelled-visit :
    (k : ℕ) (id : String) (j : ℕ) (y : String) (s : Search)
    → labelled j y (visit k id s).queue
      ≡ (labelled j y s.queue || (leb k j && (y == id) && not (contains y s.visited)))
unfolding visit
labelled-visit k id j y s = ground (arith, eq_iff y id, labelled-append j y s.queue ((id, k) ∷ []))

module _ (k : ℕ) where
  pub contains-visit_all :
      (ids : List String) (y : String) (s : Search)
      → contains y (visit_all k ids s).visited ≡ (contains y ids || contains y s.visited)
  unfolding visit_all
  contains-visit_all [] y s = ground arith
  contains-visit_all (id ∷ ids) y s =
      ground (arith, contains-visit_all ids y (visit k id s), contains-visit k id y s)

  pub labelled-visit_all :
      (ids : List String) (j : ℕ) (y : String) (s : Search)
      → labelled j y (visit_all k ids s).queue
        ≡ (labelled j y s.queue || (leb k j && contains y ids && not (contains y s.visited)))
  unfolding visit_all
  labelled-visit_all [] j y s = ground arith
  labelled-visit_all (id ∷ ids) j y s = ground (
    arith,
    labelled-visit_all ids j y (visit k id s),
    contains-visit k id y s,
    labelled-visit k id j y s,
  )

  -- A visit leaves the queue or puts the id at its end.
  queue-visit :
      (id : String) (s : Search)
      → ((visit k id s).queue ≡ s.queue) ⊎ ((visit k id s).queue ≡ s.queue ++ (id, k) ∷ [])
  unfolding visit
  queue-visit id s = ground arith

  pub IsOrdered-visit_all :
      (ids : List String) (lo : ℕ) (s : Search)
      → lo ≤ k
      → IsOrdered lo k s.queue
      → IsOrdered lo k (visit_all k ids s).queue
  unfolding visit_all
  IsOrdered-visit_all [] lo s h o = o
  IsOrdered-visit_all (id ∷ ids) lo s h o =
      IsOrdered-visit_all ids lo (visit k id s) h (elim (queue-visit id s) [
        | inl same ↦ subst (IsOrdered lo k) (sym same) o
        | inr grown ↦ subst (IsOrdered lo k) (sym grown) (IsOrdered-append lo k s.queue id h o)
      ])

  pub All-visit_all :
      (P : String × ℕ → Type 0) (ids : List String) (s : Search)
      → All (λ id. P (id, k)) ids
      → All P s.queue
      → All P (visit_all k ids s).queue
  unfolding visit_all
  All-visit_all P [] s h o = o
  All-visit_all P (id ∷ ids) s h o =
      All-visit_all P ids (visit k id s) h.1 (elim (queue-visit id s) [
        | inl same ↦ subst (All P) (sym same) o
        | inr grown ↦ subst (All P) (sym grown) (All-append P s.queue (id, k) o h.0)
      ])

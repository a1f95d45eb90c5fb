-- ===== src/Graph/Reach/Walks.antt =====
-- What the search of src/graph/mod.rs is for: the walks of the graph from the seeds, and how one round of the
-- search reads the relationships.
use text.Mathlib.TextEquality.{eq_iff}
use vai.Common.{
  ℕ, suc, ◌+◌, ◌<◌, ◌≡◌, refl, ◌⊎◌, inl, inr, Bool, true, false, not, ◌&&◌, ◌||◌, List, [], ◌∷◌,
  String, ◌==◌, leb, any, keep, All, Bool-cases, arith,
}
use vai.Common.Eq.{string_equality, eq_flip}
use vai.Common.Sets.{contains}
use vai.Graph.{Relationship, GraphSnapshot, touches, get_relationships_for_entity}
use vai.Graph.Reach.{Search, visit_all, neighbors, expand}
use vai.Graph.Reach.Steps.{labelled, contains-visit_all, labelled-visit_all}

abbrev pub joins : String → String → Relationship → Bool
joins x y r = (r.from_entity == x && r.to_entity == y) || (r.to_entity == x && r.from_entity == y)

abbrev pub adjacent : GraphSnapshot → String → String → Bool
adjacent g x y = any (joins x y) g.relationships

-- A walk of k relationships, each in either direction, from a seed to the id.
pub data Walk (g : GraphSnapshot) (seeds : List String) : ℕ → String → Type 0 where
  start : (x : String) → contains x seeds ≡ true → Walk g seeds 0 x
  hop : (k : ℕ) (x y : String) → Walk g seeds k x → adjacent g x y ≡ true → Walk g seeds (suc k) y

joins-loop :
    (x y : String) (r : Relationship) → r.from_entity ≡ x → (y == r.to_entity) ≡ joins x y r
joins-loop x y r h =
    ground (arith, h, eq_flip y r.to_entity, eq_iff x x, eq_iff r.to_entity x, eq_iff x y)

joins-back :
    (x y : String) (r : Relationship)
    → (r.from_entity == x) ≡ false
    → (r.to_entity == x) ≡ true
    → (y == r.from_entity) ≡ joins x y r
joins-back x y r h k = ground (arith, h, k, eq_flip y r.from_entity)

contains-neighbors :
    (x y : String) (rs : List Relationship)
    → contains y (neighbors x (keep (touches x) rs)) ≡ any (joins x y) rs
contains-neighbors x y [] = refl
contains-neighbors x y (r ∷ rs) = elim (Bool-cases (r.from_entity == x)) [
  | inl out ↦
      ground
        (arith, out, joins-loop x y r ((eq_iff r.from_entity x).0 out), contains-neighbors x y rs)
  | inr other ↦ elim (Bool-cases (r.to_entity == x)) [
    | inl into ↦ ground (arith, other, into, joins-back x y r other into, contains-neighbors x y rs)
    | inr far ↦ ground (arith, other, far, contains-neighbors x y rs)
  ]
]

module _ (g : GraphSnapshot) (max_hops : ℕ) where
  abbrev pub opens : String → ℕ → String → Bool
  opens id hops y = not (leb max_hops hops) && adjacent g id y

  pub contains-expand :
      (id : String) (hops : ℕ) (y : String) (s : Search)
      → contains y (expand g max_hops id hops s).visited ≡ (opens id hops y || contains y s.visited)
  unfolding expand
  contains-expand id hops y s = ground (
    arith,
    contains-visit_all (hops + 1) (neighbors id (get_relationships_for_entity id g)) y s,
    contains-neighbors id y g.relationships,
  )

  pub labelled-expand :
      (id : String) (hops j : ℕ) (y : String) (s : Search)
      → labelled j y (expand g max_hops id hops s).queue ≡ (
          labelled j y s.queue
          || (leb (hops + 1) j && opens id hops y && not (contains y s.visited)))
  unfolding expand
  labelled-expand id hops j y s = ground (
    arith,
    labelled-visit_all (hops + 1) (neighbors id (get_relationships_for_entity id g)) j y s,
    contains-neighbors id y g.relationships,
  )

  -- A round that goes on lets any of the queue's rules through that holds of the ids next to its own.
  pub expand-cases :
      (id : String) (hops : ℕ) (s : Search)
      → (expand g max_hops id hops s ≡ s)
        ⊎ ((hops < max_hops)
            × (expand g max_hops id hops s
                ≡ visit_all (suc hops) (neighbors id (get_relationships_for_entity id g)) s))
  unfolding expand
  expand-cases id hops s = ground arith

-- A rule that holds of every member holds along the list.
pub All-contains :
    (P : String → Type 0) (ids : List String)
    → ((y : String) → contains y ids ≡ true → P y)
    → All P ids
All-contains P [] f = tt
All-contains P (y ∷ ids) f =
    (f y (ground (arith, eq_iff y y)), All-contains P ids (λ z h. f z (ground arith)))

-- What holds of every adjacent id holds along the list that a round visits.
pub All-adjacent :
    (g : GraphSnapshot) (id : String) (P : String → Type 0)
    → ((y : String) → adjacent g id y ≡ true → P y)
    → All P (neighbors id (get_relationships_for_entity id g))
All-adjacent g id P f =
    All-contains P (neighbors id (get_relationships_for_entity id g))
      (λ y h. f y (ground (arith, contains-neighbors id y g.relationships)))

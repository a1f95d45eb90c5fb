-- ===== src/Graph/Reach/Answer.antt =====
-- What `reachable_entities` of src/graph/mod.rs hands back: the rows of the reached ids, and the relationships
-- that connect them, each id once.
use text.Mathlib.TextEquality.{eq_iff}
use vai.Common.{ℕ, ◌≤◌, ◌≡◌, sym, ap, ◌∙◌, ◌↔◌, some, true, ◌&&◌, List, [], String, ◌==◌, arith}
use vai.Common.Eq.{string_equality}
use vai.Common.Sets.{contains}
use vai.Common.Any.{Exists, Exists-any}
use vai.Graph.{Entity, Relationship, GraphSnapshot, get_entities_by_ids}
use vai.Graph.Reach.{
  reached_ids, both_reached, collect_relationships, with_reached, reachable_entities,
}
use vai.Graph.Reach.Walks.{Walk}
use vai.Graph.Reach.Ends.{reached_ids-terminates}
use vai.Graph.Reach.Found.{reached_ids-Walk}
use vai.Graph.Reach.Collect.{
  has_entity, has_relationship, has_entity-get_entities_by_ids, has_relationship-all,
}

-- A walk of at most the given number of hops leads from a seed to the id.
abbrev pub IsReached : GraphSnapshot → List String → ℕ → String → Type 0
IsReached g seeds max_hops x = (k : ℕ) × (Walk g seeds k x × (k ≤ max_hops))

-- The relationship of that id connects two ids that are reached.
abbrev pub IsConnecting : GraphSnapshot → List String → ℕ → String → Relationship → Type 0
IsConnecting g seeds max_hops q r =
    (r.id ≡ q) × IsReached g seeds max_hops r.from_entity × IsReached g seeds max_hops r.to_entity

module _ (g : GraphSnapshot) (seeds : List String) (max_hops : ℕ) (ids : List String)
    (h : reached_ids g max_hops seeds ≡ some ids) where
  abbrev back : (x : String) → (contains x ids ≡ true) ↔ IsReached g seeds max_hops x
  back = reached_ids-Walk g max_hops seeds ids h

  entities-IsReached :
      (x : String)
      → (has_entity x (get_entities_by_ids ids g) ≡ true)
        ↔ ((has_entity x g.entities ≡ true) × IsReached g seeds max_hops x)
  entities-IsReached x =
      let same = has_entity-get_entities_by_ids x ids g in
      (
        λ k. (ground arith, (back x).0 (ground arith)),
        λ (k, w). let there = (back x).1 w in ground arith,
      )

  relationships-IsConnecting :
      (q : String)
      → (has_relationship q (collect_relationships g ids ids []) ≡ true)
        ↔ Exists (IsConnecting g seeds max_hops q) g.relationships
  relationships-IsConnecting q =
      let same = has_relationship-all g q ids in
      let each =
        Exists-any (IsConnecting g seeds max_hops q) (λ r. both_reached ids r && (r.id == q))
          g.relationships
          (λ r. (
            λ k. (
              ground (arith, eq_iff r.id q),
              (back r.from_entity).0 (ground arith),
              (back r.to_entity).0 (ground arith),
            ),
            λ (k, w, v).
                let one = (back r.from_entity).1 w in
                let two = (back r.to_entity).1 v in ground (arith, eq_iff r.id q),
          )) in
      (λ k. each.0 (sym same ∙ k), λ k. same ∙ each.1 k)

-- What `reachable_entities` answers has the row of exactly those ids with a row that are reached, and exactly the
-- ids of the relationships that connect two reached ids. The search returns whatever the graph, the seeds and the
-- number of hops.
pub reachable_entities-IsReached :
    (g : GraphSnapshot) (seeds : List String) (max_hops : ℕ)
    → (es : List Entity) × (rs : List Relationship) × (reachable_entities g seeds max_hops
        ≡ some (es, rs))
      × ((x : String)
          → (has_entity x es ≡ true)
            ↔ ((has_entity x g.entities ≡ true) × IsReached g seeds max_hops x))
      × ((q : String)
          → (has_relationship q rs ≡ true)
            ↔ Exists (IsConnecting g seeds max_hops q) g.relationships)
unfolding reachable_entities
reachable_entities-IsReached g seeds max_hops =
    let (ids, e) = reached_ids-terminates g max_hops seeds in
    (
      get_entities_by_ids ids g,
      collect_relationships g ids ids [],
      ap (with_reached g) e,
      entities-IsReached g seeds max_hops ids e,
      relationships-IsConnecting g seeds max_hops ids e,
    )

-- ===== src/Graph/Reach.antt =====
-- `reachable_entities` of src/graph/mod.rs: a breadth-first search from several entities along the
-- relationships in both directions, up to a number of hops. The `while` loop takes fuel; two rounds for each
-- relationship and one for each seed are enough.
pub mod Steps
pub mod Ends
pub mod Answer
pub mod Collect
pub mod Found
pub mod Rounds
pub mod Walks
use vai.Common.{
  ℕ, zero, suc, ◌+◌, ◌*◌, Option, none, some, Bool, true, false, ◌&&◌, List, [], ◌∷◌, ◌++◌, String,
  ◌==◌, leb, if◌then◌else◌, length, any,
}
use vai.Common.Eq.{string_equality}
use vai.Common.Sets.{contains}
use vai.Graph.{
  Entity, Relationship, GraphSnapshot, get_relationships_for_entity, get_entities_by_ids,
}

pub record Search : Type 0 where
  pub visited : List String
  pub queue : List (String × ℕ)

abbrev pub neighbor : String → Relationship → String
neighbor id r = if r.from_entity == id then r.to_entity else r.from_entity

-- `if visited.insert(id) { queue.push_back((id, hops)) }`
unfoldable pub visit : ℕ → String → Search → Search
visit hops id s =
    if contains id s.visited
    then s
    else record { visited = id ∷ s.visited; queue = s.queue ++ (id, hops) ∷ [] }

unfoldable pub visit_all : ℕ → List String → Search → Search
visit_all hops [] s = s
visit_all hops (id ∷ ids) s = visit_all hops ids (visit hops id s)

abbrev pub neighbors : String → List Relationship → List String
neighbors id [] = []
neighbors id (r ∷ rs) = neighbor id r ∷ neighbors id rs

module _ (g : GraphSnapshot) (max_hops : ℕ) where
  -- One round, after (id, hops) left the queue.
  unfoldable pub expand : String → ℕ → Search → Search
  expand id hops s =
      if leb max_hops hops
      then s
      else visit_all (hops + 1) (neighbors id (get_relationships_for_entity id g)) s

  -- `none`: the fuel ran out.
  unfoldable pub search_loop : ℕ → List String → List (String × ℕ) → Option (List String)
  search_loop fuel visited [] = some visited
  search_loop zero visited (x ∷ queue) = none
  search_loop (suc fuel) visited ((id, hops) ∷ queue) =
      let s = expand id hops (record { visited = visited; queue = queue }) in
      search_loop fuel s.visited s.queue

  unfoldable pub reached_ids : List String → Option (List String)
  reached_ids seeds =
      let s = visit_all 0 seeds (record { visited = []; queue = [] }) in
      search_loop (length seeds + 2 * length g.relationships) s.visited s.queue

abbrev pub both_reached : List String → Relationship → Bool
both_reached ids r = contains r.from_entity ids && contains r.to_entity ids

-- `entry(id).or_insert(rel)`.
abbrev pub or_insert : Relationship → List Relationship → List Relationship
or_insert r seen = if any (λ x. x.id == r.id) seen then seen else seen ++ r ∷ []

unfoldable pub collect_inner :
    List String → List Relationship → List Relationship → List Relationship
collect_inner ids [] seen = seen
collect_inner ids (r ∷ rs) seen =
    collect_inner ids rs (if both_reached ids r then or_insert r seen else seen)

unfoldable pub collect_relationships :
    GraphSnapshot → List String → List String → List Relationship → List Relationship
collect_relationships g ids [] seen = seen
collect_relationships g ids (id ∷ rest) seen =
    collect_relationships g ids rest (collect_inner ids (get_relationships_for_entity id g) seen)

abbrev pub with_reached :
    GraphSnapshot → Option (List String) → Option (List Entity × List Relationship)
with_reached g none = none
with_reached g (some ids) = some (get_entities_by_ids ids g, collect_relationships g ids ids [])

unfoldable pub reachable_entities :
    GraphSnapshot → List String → ℕ → Option (List Entity × List Relationship)
reachable_entities g seeds max_hops = with_reached g (reached_ids g max_hops seeds)

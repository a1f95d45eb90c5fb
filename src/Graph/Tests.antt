-- ===== src/Graph/Tests.antt =====
-- Runs of the semantic graph, and the instances of its theorems.
use vai.Common.{◌≡◌, refl, ◌↔◌, some, none, true, List, [], ◌∷◌, String}
use vai.Common.Eq.{string_equality}
use vai.Common.Any.{Exists}
use vai.Graph.{Entity, Relationship, GraphSnapshot, function, calls, get_entity_by_id, update_file}
use vai.Graph.Reach.{reached_ids, reachable_entities, search_loop, expand, visit, visit_all}
use vai.Graph.Reach.Collect.{has_entity, has_relationship}
use vai.Graph.Reach.Answer.{IsReached, IsConnecting, reachable_entities-IsReached}
use vai.Graph.Update.{IsKeyed, last_entity, outside, update_file-get_entity_by_id}

abbrev entity : String → String → Entity
entity id file = record {
  id = id;
  kind = function;
  name = id;
  qualified_name = id;
  file_path = file;
  byte_range = (0, 10);
  line_range = (1, 2);
  parent_entity = none;
}

abbrev call : String → String → String → Relationship
call id a b = record { id = id; kind = calls; from_entity = a; to_entity = b }

-- a calls b, c calls b, c calls d; d and a stand in one file.
abbrev graph : GraphSnapshot
graph = record {
  entities = entity "a" "x.rs" ∷ entity "b" "y.rs" ∷ entity "c" "z.rs" ∷ entity "d" "x.rs" ∷ [];
  relationships = call "1" "a" "b" ∷ call "2" "c" "b" ∷ call "3" "c" "d" ∷ [];
}

two_hops : reached_ids graph 2 ("a" ∷ []) ≡ some ("c" ∷ "b" ∷ "a" ∷ [])
unfolding reached_ids search_loop expand visit_all visit
two_hops = refl

no_hops : reached_ids graph 0 ("a" ∷ "a" ∷ []) ≡ some ("a" ∷ [])
unfolding reached_ids search_loop expand visit_all visit
no_hops = refl

reachable_entities-IsReached_example :
    (es : List Entity) × (rs : List Relationship) × (reachable_entities graph ("a" ∷ []) 2
      ≡ some (es, rs))
    × ((x : String)
        → (has_entity x es ≡ true)
          ↔ ((has_entity x graph.entities ≡ true) × IsReached graph ("a" ∷ []) 2 x))
    × ((q : String)
        → (has_relationship q rs ≡ true)
          ↔ Exists (IsConnecting graph ("a" ∷ []) 2 q) graph.relationships)
reachable_entities-IsReached_example = reachable_entities-IsReached graph ("a" ∷ []) 2

graph-IsKeyed : IsKeyed graph.entities
graph-IsKeyed = (refl, (refl, (refl, (refl, tt))))

update_file-get_entity_by_id_example :
    IsKeyed (update_file "x.rs" (some (entity "a" "x.rs" ∷ [], [])) graph).0.entities
    × ((id : String)
        → get_entity_by_id id
            (update_file "x.rs" (some (entity "a" "x.rs" ∷ [], [])) graph).0.entities
          ≡ last_entity id
              (entity "a" "x.rs" ∷ [])
              (outside "x.rs" (get_entity_by_id id graph.entities)))
update_file-get_entity_by_id_example =
    update_file-get_entity_by_id "x.rs" (entity "a" "x.rs" ∷ []) [] graph graph-IsKeyed

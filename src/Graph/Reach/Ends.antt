-- ===== src/Graph/Reach/Ends.antt =====
-- The `while` loop of `reachable_entities`, src/graph/mod.rs: each round takes one id from the queue, and an id
-- is queued once, so the ids that can still be queued bound the rounds that are left.
use text.Mathlib.TextEquality.{eq_iff}
use vai.Common.{
  ℕ, zero, suc, ◌+◌, ◌*◌, ◌≤◌, ◌≡◌, refl, some, inl, inr, true, false, ◌||◌, List, [], ◌∷◌, ◌++◌,
  String, if◌then◌else◌, length, length-append, All, Bool-cases, keep, arith,
}
use vai.Common.Eq.{string_equality}
use vai.Common.Sets.{contains}
use vai.Common.Table.{All-weaken}
use vai.Graph.{Relationship, GraphSnapshot, touches, get_relationships_for_entity}
use vai.Graph.Reach.{
  Search, visit, visit_all, neighbor, neighbors, expand, search_loop, reached_ids,
}

-- How many places of the list hold an id that is not visited.
abbrev fresh : List String → List String → ℕ
fresh visited [] = 0
fresh visited (u ∷ us) = (if contains u visited then 0 else 1) + fresh visited us

abbrev pub endpoints : List Relationship → List String
endpoints [] = []
endpoints (r ∷ rs) = r.from_entity ∷ r.to_entity ∷ endpoints rs

-- Rounds that are left.
abbrev work : List String → Search → ℕ
work us s = length s.queue + fresh s.visited us

fresh-cons : (id : String) (visited us : List String) → fresh (id ∷ visited) us ≤ fresh visited us
fresh-cons id visited [] = omega arith
fresh-cons id visited (u ∷ us) = ground (arith, fresh-cons id visited us)

fresh-visited :
    (id : String) (visited us : List String)
    → contains id visited ≡ false
    → contains id us ≡ true
    → suc (fresh (id ∷ visited) us) ≤ fresh visited us
fresh-visited id visited [] h k = cc
fresh-visited id visited (u ∷ us) h k =
    ground
      (arith, fresh-cons id visited us, fresh-visited id visited us h, eq_iff id u, eq_iff u id)

work-visit :
    (us : List String) (hops : ℕ) (id : String) (s : Search)
    → contains id us ≡ true
    → work us (visit hops id s) ≤ work us s
unfolding visit
work-visit us hops id s h =
    ground (arith, fresh-visited id s.visited us, length-append s.queue ((id, hops) ∷ []))

abbrev IsListed : List String → List String → Type 0
IsListed us ids = All (λ id. contains id us ≡ true) ids

work-visit_all :
    (us : List String) (hops : ℕ) (ids : List String) (s : Search)
    → IsListed us ids
    → work us (visit_all hops ids s) ≤ work us s
unfolding visit_all
work-visit_all us hops [] s h = omega arith
work-visit_all us hops (id ∷ ids) s h =
    omega (arith, work-visit_all us hops ids (visit hops id s) h.1, work-visit us hops id s h.0)

contains-append :
    (y : String) (p q : List String) → contains y (p ++ q) ≡ (contains y p || contains y q)
contains-append y [] q = refl
contains-append y (x ∷ p) q = ground (arith, contains-append y p q)

contains_refl : (x : String) (q : List String) → contains x (x ∷ q) ≡ true
contains_refl x q = ground (arith, eq_iff x x)

IsListed-cons : (u : String) (us ids : List String) → IsListed us ids → IsListed (u ∷ us) ids
IsListed-cons u us ids =
    All-weaken (λ id. contains id us ≡ true) (λ id. contains id (u ∷ us) ≡ true) ids
      (λ x h. ground arith)

IsListed-all : (us : List String) → IsListed us us
IsListed-all [] = tt
IsListed-all (u ∷ us) = (contains_refl u us, IsListed-cons u us us (IsListed-all us))

IsListed-before : (us vs ids : List String) → IsListed vs ids → IsListed (us ++ vs) ids
IsListed-before us vs ids =
    All-weaken (λ id. contains id vs ≡ true) (λ id. contains id (us ++ vs) ≡ true) ids
      (λ x h. ground (arith, contains-append x us vs))

IsListed-after : (us vs ids : List String) → IsListed us ids → IsListed (us ++ vs) ids
IsListed-after us vs ids =
    All-weaken (λ id. contains id us ≡ true) (λ id. contains id (us ++ vs) ≡ true) ids
      (λ x h. ground (arith, contains-append x us vs))

contains-neighbor :
    (id : String) (r : Relationship) (us : List String)
    → contains (neighbor id r) (r.from_entity ∷ r.to_entity ∷ us) ≡ true
contains-neighbor id r us =
    ground (arith, eq_iff r.from_entity r.from_entity, eq_iff r.to_entity r.to_entity)

neighbors-IsListed :
    (id : String) (rs : List Relationship)
    → IsListed (endpoints rs) (neighbors id (keep (touches id) rs))
neighbors-IsListed id [] = tt
neighbors-IsListed id (r ∷ rs) =
    let us = endpoints rs in
    let ids = neighbors id (keep (touches id) rs) in
    let rest : IsListed (r.from_entity ∷ r.to_entity ∷ us) ids =
      IsListed-cons r.from_entity (r.to_entity ∷ us) ids
        (IsListed-cons r.to_entity us ids (neighbors-IsListed id rs)) in
    elim (Bool-cases (touches id r)) [
      | inl near ↦ rw (near, IsListed) (contains-neighbor id r us, rest)
      | inr far ↦ rw (far, IsListed) rest
    ]

length-endpoints : (rs : List Relationship) → length (endpoints rs) ≡ 2 * length rs
length-endpoints [] = refl
length-endpoints (r ∷ rs) = omega (arith, length-endpoints rs)

fresh-nil : (us : List String) → fresh [] us ≡ length us
fresh-nil [] = refl
fresh-nil (u ∷ us) = omega (arith, fresh-nil us)

module _ (g : GraphSnapshot) (max_hops : ℕ) where
  work-expand :
      (seeds : List String) (id : String) (hops : ℕ) (s : Search)
      → work (seeds ++ endpoints g.relationships) (expand g max_hops id hops s)
        ≤ work (seeds ++ endpoints g.relationships) s
  unfolding expand
  work-expand seeds id hops s =
      let next = neighbors id (get_relationships_for_entity id g) in
      ground (
        arith,
        work-visit_all (seeds ++ endpoints g.relationships) (hops + 1) next s (
            IsListed-before seeds (endpoints g.relationships) next
              (neighbors-IsListed id g.relationships)),
      )

  search_loop-ends :
      (seeds : List String) (fuel : ℕ) (visited : List String) (queue : List (String × ℕ))
      → work (seeds ++ endpoints g.relationships) (record { visited = visited; queue = queue })
        ≤ fuel
      → (ids : List String) × (search_loop g max_hops fuel visited queue ≡ some ids)
  unfolding search_loop
  search_loop-ends seeds zero visited [] h = (visited, refl)
  search_loop-ends seeds (suc fuel) visited [] h = (visited, refl)
  search_loop-ends seeds zero visited (e ∷ queue) h = ground arith
  search_loop-ends seeds (suc fuel) visited ((id, hops) ∷ queue) h =
      let s : Search = record { visited = visited; queue = queue } in
      let t = expand g max_hops id hops s in
      search_loop-ends seeds fuel t.visited t.queue (omega (arith, work-expand seeds id hops s))

-- The search returns, whatever the graph, the seeds and the number of hops.
pub reached_ids-terminates :
    (g : GraphSnapshot) (max_hops : ℕ) (seeds : List String)
    → (ids : List String) × (reached_ids g max_hops seeds ≡ some ids)
unfolding reached_ids
reached_ids-terminates g max_hops seeds =
    let us = seeds ++ endpoints g.relationships in
    let blank : Search = record { visited = []; queue = [] } in
    let s = visit_all 0 seeds blank in
    search_loop-ends g max_hops seeds (length seeds + 2 * length g.relationships) s.visited s.queue
      (omega (
        arith,
        work-visit_all us 0 seeds blank
            (IsListed-after seeds (endpoints g.relationships) seeds (IsListed-all seeds)),
        fresh-nil us,
        length-append seeds (endpoints g.relationships),
        length-endpoints g.relationships,
      ))

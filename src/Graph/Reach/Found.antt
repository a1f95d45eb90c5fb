-- ===== src/Graph/Reach/Found.antt =====
-- The ids that the search of `reachable_entities`, src/graph/mod.rs, returns.
use mathlib.Core.Path.{subst}
use vai.Common.{
  ℕ, zero, suc, ◌+◌, ◌*◌, ◌≤◌, ◌≡◌, ◌↔◌, some, true, List, [], ◌∷◌, String, length, arith,
}
use vai.Common.Sets.{contains}
use vai.Graph.{GraphSnapshot}
use vai.Graph.Reach.{Search, visit_all, expand, search_loop, reached_ids}
use vai.Graph.Reach.Steps.{
  labelled, IsOrdered-higher, IsOrdered-visit_all, All-visit_all, contains-visit_all,
  labelled-visit_all,
}
use vai.Graph.Reach.Walks.{Walk, start, hop, All-contains}
use vai.Graph.Reach.Rounds.{IsWalked, IsSearching, IsSearching-expand}

module _ (g : GraphSnapshot) (max_hops : ℕ) (seeds : List String) where
  record IsResult (ids : List String) : Type 0 where
    sound : (x : String) → contains x ids ≡ true → (k : ℕ) × IsWalked g max_hops seeds (x, k)
    complete : (k : ℕ) (x : String) → IsWalked g max_hops seeds (x, k) → contains x ids ≡ true

  -- An empty queue: what the walks reach has left the queue, within its number of hops.
  walk-labelled :
      (low : ℕ) (done : List (String × ℕ)) (ids : List String)
      → IsSearching g max_hops seeds low done (record { visited = ids; queue = [] })
      → (k : ℕ) (x : String) → Walk g seeds k x
      → k ≤ max_hops
      → labelled k x done ≡ true
  walk-labelled low done ids i _ x (start _ h) k = ground (arith, i.seeded x h)
  walk-labelled low done ids i _ y (hop k x _ w a) h =
      ground
        (arith, i.closed k x y (walk-labelled low done ids i k x w (omega arith)) (omega arith) a)

  IsResult-end :
      (low : ℕ) (done : List (String × ℕ)) (ids : List String)
      → IsSearching g max_hops seeds low done (record { visited = ids; queue = [] })
      → IsResult ids
  IsResult-end low done ids i = record {
    sound = i.found;
    complete = λ k x w. i.seen k x (ground (arith, walk-labelled low done ids i k x w.0 w.1));
  }

  search_loop-IsResult :
      (low fuel : ℕ) (done : List (String × ℕ)) (visited : List String) (queue : List (String × ℕ))
      (ids : List String)
      → IsSearching g max_hops seeds low done (record { visited = visited; queue = queue })
      → search_loop g max_hops fuel visited queue ≡ some ids
      → IsResult ids
  unfolding search_loop
  search_loop-IsResult low zero done visited [] ids i h =
      let same : visited ≡ ids = cc in subst IsResult same (IsResult-end low done visited i)
  search_loop-IsResult low (suc fuel) done visited [] ids i h =
      let same : visited ≡ ids = cc in subst IsResult same (IsResult-end low done visited i)
  search_loop-IsResult low zero done visited (e ∷ queue) ids i h = cc
  search_loop-IsResult low (suc fuel) done visited ((id, hops) ∷ queue) ids i h =
      let s : Search = record { visited = visited; queue = queue } in
      let t = expand g max_hops id hops s in
      search_loop-IsResult hops fuel ((id, hops) ∷ done) t.visited t.queue ids
        (IsSearching-expand g max_hops seeds low done id hops s i) h

  IsSearching-seeds :
      IsSearching g max_hops seeds 0 [] (visit_all 0 seeds (record { visited = []; queue = [] }))
  IsSearching-seeds =
      let blank : Search = record { visited = []; queue = [] } in
      let inside = λ (x : String). contains-visit_all 0 seeds x blank in
      let queued = λ (j : ℕ) (x : String). labelled-visit_all 0 seeds j x blank in
      record {
        ordered =
            IsOrdered-higher 0 0 1 (visit_all 0 seeds blank).queue (omega arith)
              (IsOrdered-visit_all 0 seeds 0 blank (omega arith) tt);
        walked =
            All-visit_all 0 (IsWalked g max_hops seeds) seeds blank
              (All-contains (λ x. IsWalked g max_hops seeds (x, 0)) seeds
                (λ x h. (start x h, omega arith)))
              tt;
        found = λ x h. (0, (start x (ground (arith, inside x)), omega arith));
        known = λ x h. ground (arith, inside x, queued 1 x);
        seen = λ j x h. ground (arith, inside x, queued j x);
        seeded = λ x h. ground (arith, queued 0 x);
        closed = λ j x y h. cc;
      }

-- The search returns exactly the ids that a walk reaches from a seed in at most the given number of hops, each
-- hop along a relationship of the graph in either direction.
pub reached_ids-Walk :
    (g : GraphSnapshot) (max_hops : ℕ) (seeds ids : List String)
    → reached_ids g max_hops seeds ≡ some ids
    → (x : String) → (contains x ids ≡ true) ↔ ((k : ℕ) × (Walk g seeds k x × (k ≤ max_hops)))
unfolding reached_ids
reached_ids-Walk g max_hops seeds ids h x =
    let s = visit_all 0 seeds (record { visited = []; queue = [] }) in
    let r =
      search_loop-IsResult g max_hops seeds 0 (length seeds + 2 * length g.relationships) []
        s.visited s.queue ids (IsSearching-seeds g max_hops seeds) h in
    (r.sound x, λ (k, w). r.complete k x w)

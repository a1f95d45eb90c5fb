-- ===== src/Graph/Reach/Rounds.antt =====
-- The search of src/graph/mod.rs: an invariant of its rounds, with the ids that left the queue as ghost state.
use mathlib.Core.Path.{subst}
use text.Mathlib.TextEquality.{eq_iff}
use vai.Common.{
  ℕ, suc, ◌≤◌, ◌<◌, ◌≡◌, sym, inl, inr, Bool, true, ◌||◌, List, ◌∷◌, String, All, Bool-cases, arith,
}
use vai.Common.Sets.{contains}
use vai.Graph.{GraphSnapshot, get_relationships_for_entity}
use vai.Graph.Reach.{Search, neighbors, expand}
use vai.Graph.Reach.Steps.{
  labelled, labelled-weaken, IsOrdered, IsOrdered-higher, IsOrdered-visit_all, All-visit_all,
}
use vai.Graph.Reach.Walks.{
  adjacent, Walk, hop, opens, contains-expand, labelled-expand, expand-cases, All-adjacent,
}

module _ (g : GraphSnapshot) (max_hops : ℕ) (seeds : List String) where
  abbrev pub IsWalked : String × ℕ → Type 0
  IsWalked e = Walk g seeds e.1 e.0 × (e.1 ≤ max_hops)

  abbrev pub has : List (String × ℕ) → Search → ℕ → String → Bool
  has done s j x = labelled j x done || labelled j x s.queue

  -- `low` is the number of hops of the id that left the queue last.
  pub record IsSearching (low : ℕ) (done : List (String × ℕ)) (s : Search) : Type 0 where
    pub ordered : IsOrdered low (suc low) s.queue
    pub walked : All IsWalked s.queue
    pub found : (x : String) → contains x s.visited ≡ true → (k : ℕ) × IsWalked (x, k)
    pub known : (x : String) → contains x s.visited ≡ true → has done s (suc low) x ≡ true
    pub seen : (j : ℕ) (x : String) → has done s j x ≡ true → contains x s.visited ≡ true
    pub seeded : (x : String) → contains x seeds ≡ true → has done s 0 x ≡ true
    pub closed :
        (j : ℕ) (x y : String)
        → labelled j x done ≡ true
        → j < max_hops
        → adjacent g x y ≡ true
        → has done s (suc j) y ≡ true

  IsOrdered-expand :
      (low : ℕ) (id : String) (hops : ℕ) (s : Search)
      → hops ≤ suc low
      → low ≤ hops
      → IsOrdered hops (suc low) s.queue
      → IsOrdered hops (suc hops) (expand g max_hops id hops s).queue
  IsOrdered-expand low id hops s h k o =
      let next = neighbors id (get_relationships_for_entity id g) in
      let wider = IsOrdered-higher hops (suc low) (suc hops) s.queue (omega arith) o in
      elim (expand-cases g max_hops id hops s) [
        | inl same ↦ subst (λ t. IsOrdered hops (suc hops) t.queue) (sym same) wider
        | inr (_, grown) ↦
            subst (λ t. IsOrdered hops (suc hops) t.queue) (sym grown)
              (IsOrdered-visit_all (suc hops) next hops s (omega arith) wider)
      ]

  IsWalked-expand :
      (id : String) (hops : ℕ) (s : Search)
      → Walk g seeds hops id
      → All IsWalked s.queue
      → All IsWalked (expand g max_hops id hops s).queue
  IsWalked-expand id hops s w a = elim (expand-cases g max_hops id hops s) [
    | inl same ↦ subst (λ t. All IsWalked t.queue) (sym same) a
    | inr (below, grown) ↦
        subst (λ t. All IsWalked t.queue) (sym grown)
          (All-visit_all (suc hops) IsWalked (neighbors id (get_relationships_for_entity id g)) s
            (All-adjacent g id (λ y. IsWalked (y, suc hops))
              (λ y h. (hop hops id y w h, omega arith)))
            a)
  ]

  abbrev pub before : String → ℕ → Search → Search
  before id hops s = record s { queue = (id, hops) ∷ s.queue }

  -- An id that has a number of hops before the round has it after the round.
  has-expand :
      (done : List (String × ℕ)) (id : String) (hops j : ℕ) (y : String) (s : Search)
      → has done (before id hops s) j y ≡ true
      → has ((id, hops) ∷ done) (expand g max_hops id hops s) j y ≡ true
  has-expand done id hops j y s h = ground (arith, labelled-expand g max_hops id hops j y s)

  has-weaken :
      (done : List (String × ℕ)) (s : Search) (i j : ℕ) (y : String)
      → i ≤ j
      → has done s i y ≡ true
      → has done s j y ≡ true
  has-weaken done s i j y h k =
      ground (arith, labelled-weaken i j y done h, labelled-weaken i j y s.queue h)

  module _ (low : ℕ) (done : List (String × ℕ)) (id : String) (hops : ℕ) (s : Search)
      (i : IsSearching low done (before id hops s)) where
    found-expand :
        (x : String)
        → contains x (expand g max_hops id hops s).visited ≡ true
        → (k : ℕ) × IsWalked (x, k)
    found-expand x h = elim (Bool-cases (contains x s.visited)) [
      | inl old ↦ i.found x old
      | inr new ↦
          let opened : opens g max_hops id hops x ≡ true =
            ground (arith, contains-expand g max_hops id hops x s) in
          (suc hops, (hop hops id x i.walked.0.0 (ground arith), ground arith))
    ]

    -- Every id next to the one that leaves the queue is at most one hop further.
    closed-id :
        (j : ℕ) (y : String)
        → hops ≤ j
        → j < max_hops
        → adjacent g id y ≡ true
        → has ((id, hops) ∷ done) (expand g max_hops id hops s) (suc j) y ≡ true
    closed-id j y h below a = elim (Bool-cases (contains y s.visited)) [
      | inl old ↦ has-expand done id hops (suc j) y s (
          has-weaken done (before id hops s) (suc low) (suc j) y (omega (arith, i.ordered.0))
            (i.known y old))
      | inr new ↦ ground (arith, labelled-expand g max_hops id hops (suc j) y s)
    ]

    closed-expand :
        (j : ℕ) (x y : String)
        → labelled j x ((id, hops) ∷ done) ≡ true
        → j < max_hops
        → adjacent g x y ≡ true
        → has ((id, hops) ∷ done) (expand g max_hops id hops s) (suc j) y ≡ true
    closed-expand j x y l below a = elim (Bool-cases (labelled j x done)) [
      | inl old ↦ has-expand done id hops (suc j) y s (i.closed j x y old below a)
      | inr new ↦
          let same : x ≡ id = ground (arith, eq_iff x id) in
          closed-id j y (ground arith) below (rw same at a)
    ]

    -- One round takes (id, hops) from the queue.
    pub IsSearching-expand : IsSearching hops ((id, hops) ∷ done) (expand g max_hops id hops s)
    IsSearching-expand =
        let inside = contains-expand g max_hops id hops in
        let queued = labelled-expand g max_hops id hops in
        record {
          ordered = IsOrdered-expand low id hops s i.ordered.1 i.ordered.0 i.ordered.2;
          walked = IsWalked-expand id hops s i.walked.0.0 i.walked.1;
          found = found-expand;
          known = λ x h. elim (Bool-cases (contains x s.visited)) [
            | inl old ↦ has-expand done id hops (suc hops) x s (
                has-weaken done (before id hops s) (suc low) (suc hops) x
                  (omega (arith, i.ordered.0)) (i.known x old))
            | inr new ↦ ground (arith, inside x s, queued (suc hops) x s)
          ];
          seen = λ j x h. ground (arith, i.seen j x, inside x s, queued j x s);
          seeded = λ x h. has-expand done id hops 0 x s (i.seeded x h);
          closed = closed-expand;
        }

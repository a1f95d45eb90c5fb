-- ===== src/Graph/Reach/Collect.antt =====
-- The rows that `reachable_entities` of src/graph/mod.rs fetches and collects for the ids it has reached.
use text.Mathlib.TextEquality.{eq_iff}
use vai.Common.{
  ◌≡◌, refl, ap, ◌∙◌, inl, inr, Bool, true, false, ◌&&◌, ◌||◌, List, [], ◌∷◌, String, ◌==◌,
  if◌then◌else◌, any, keep, Bool-cases, arith,
}
use vai.Common.Eq.{string_equality}
use vai.Common.Sets.{contains}
use vai.Common.Any.{any-keep, any-append, any-either, any-same, any-never}
use vai.Graph.{
  Entity, Relationship, GraphSnapshot, touches, insert_entity, order_entities, get_entities_by_ids,
  get_relationships_for_entity,
}
use vai.Graph.Reach.{both_reached, or_insert, collect_inner, collect_relationships}

or_assoc : (a b c : Bool) → ((a || b) || c) ≡ (a || (b || c))
or_assoc true b c = refl
or_assoc false b c = refl

any-insert_entity :
    (p : Entity → Bool) (e : Entity) (es : List Entity)
    → any p (insert_entity e es) ≡ (p e || any p es)
unfolding insert_entity
any-insert_entity p e [] = refl
any-insert_entity p e (x ∷ es) = ground (arith, any-insert_entity p e es)

any-order_entities : (p : Entity → Bool) (es : List Entity) → any p (order_entities es) ≡ any p es
unfolding order_entities
any-order_entities p [] = refl
any-order_entities p (e ∷ es) =
    ground (arith, any-insert_entity p e (order_entities es), any-order_entities p es)

abbrev pub has_entity : String → List Entity → Bool
has_entity x es = any (λ e. e.id == x) es

abbrev pub has_relationship : String → List Relationship → Bool
has_relationship q rs = any (λ r. r.id == q) rs

has_entity-keep :
    (x : String) (ids : List String) (es : List Entity)
    → has_entity x (keep (λ e. contains e.id ids) es) ≡ (has_entity x es && contains x ids)
has_entity-keep x ids [] = refl
has_entity-keep x ids (e ∷ es) = elim (Bool-cases (e.id == x)) [
  | inl same ↦
      let q : e.id ≡ x = (eq_iff e.id x).0 same in ground (arith, same, has_entity-keep x ids es, q)
  | inr other ↦ ground (arith, other, has_entity-keep x ids es)
]

pub has_entity-get_entities_by_ids :
    (x : String) (ids : List String) (g : GraphSnapshot)
    → has_entity x (get_entities_by_ids ids g) ≡ (has_entity x g.entities && contains x ids)
has_entity-get_entities_by_ids x ids g =
    any-order_entities (λ e. e.id == x) (keep (λ e. contains e.id ids) g.entities)
    ∙ has_entity-keep x ids g.entities

has_relationship-or_insert :
    (q : String) (r : Relationship) (seen : List Relationship)
    → has_relationship q (or_insert r seen) ≡ (has_relationship q seen || (r.id == q))
has_relationship-or_insert q r seen = elim (Bool-cases (r.id == q)) [
  | inl same ↦
      let p : r.id ≡ q = (eq_iff r.id q).0 same in
      ground (arith, same, p, any-append (λ x. x.id == q) seen (r ∷ []))
  | inr other ↦ ground (arith, other, any-append (λ x. x.id == q) seen (r ∷ []))
]

has_relationship-if :
    (q : String) (b : Bool) (r : Relationship) (seen : List Relationship)
    → has_relationship q (if b then or_insert r seen else seen)
      ≡ (has_relationship q seen || (b && (r.id == q)))
has_relationship-if q true r seen = has_relationship-or_insert q r seen
has_relationship-if q false r seen = ground arith

has_relationship-collect_inner :
    (q : String) (ids : List String) (rs seen : List Relationship)
    → has_relationship q (collect_inner ids rs seen)
      ≡ (has_relationship q seen || any (λ r. both_reached ids r && (r.id == q)) rs)
unfolding collect_inner
has_relationship-collect_inner q ids [] seen = ground arith
has_relationship-collect_inner q ids (r ∷ rs) seen =
    let more = if both_reached ids r then or_insert r seen else seen in
    has_relationship-collect_inner q ids rs more
    ∙ ap (λ b. b || any (λ r. both_reached ids r && (r.id == q)) rs)
        (has_relationship-if q (both_reached ids r) r seen)
    ∙ or_assoc (has_relationship q seen) (both_reached ids r && (r.id == q))
        (any (λ r. both_reached ids r && (r.id == q)) rs)

-- The relationship counts for the query, and touches one of the ids.
abbrev wanted : String → List String → List String → Relationship → Bool
wanted q ids rest r = any (λ id. touches id r) rest && (both_reached ids r && (r.id == q))

has_relationship-collect_relationships :
    (g : GraphSnapshot) (q : String) (ids rest : List String) (seen : List Relationship)
    → has_relationship q (collect_relationships g ids rest seen)
      ≡ (has_relationship q seen || any (wanted q ids rest) g.relationships)
unfolding collect_relationships
has_relationship-collect_relationships g q ids [] seen = ground (arith, any-never g.relationships)
has_relationship-collect_relationships g q ids (id ∷ rest) seen =
    let near = get_relationships_for_entity id g in
    let asked = λ (r : Relationship). both_reached ids r && (r.id == q) in
    ground (
      arith,
      has_relationship-collect_relationships g q ids rest (collect_inner ids near seen),
      has_relationship-collect_inner q ids near seen,
      any-keep asked (touches id) g.relationships,
      any-either (λ r. touches id r && asked r) (wanted q ids rest) g.relationships,
      any-same (λ r. (touches id r && asked r) || wanted q ids rest r) (wanted q ids (id ∷ rest))
          g.relationships (λ r. ground arith),
    )

-- A relationship whose ends are reached touches a reached id.
any-touches :
    (r : Relationship) (ids : List String)
    → contains r.from_entity ids ≡ true
    → any (λ id. touches id r) ids ≡ true
any-touches r [] h = cc
any-touches r (id ∷ ids) h = ground (arith, any-touches r ids)

pub has_relationship-all :
    (g : GraphSnapshot) (q : String) (ids : List String)
    → has_relationship q (collect_relationships g ids ids [])
      ≡ any (λ r. both_reached ids r && (r.id == q)) g.relationships
has_relationship-all g q ids =
    has_relationship-collect_relationships g q ids ids []
    ∙ any-same (wanted q ids ids) (λ r. both_reached ids r && (r.id == q)) g.relationships
        (λ r. ground (arith, any-touches r ids))

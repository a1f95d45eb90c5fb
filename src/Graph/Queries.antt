-- ===== src/Graph/Queries.antt =====
-- The queries of src/graph/mod.rs that only read. `LIKE '%term%'`, which ignores the case of ASCII letters, and
-- `lower` are SQLite's and are parameters; the broad search passes its term through the language's `to_lowercase`.
use text.Mathlib.TextEquality.{eq_iff}
use vai.Common.{
  ℕ, suc, ◌+◌, ◌≡◌, refl, ap, ◌∙◌, inl, inr, Bool, ◌||◌, List, [], ◌∷◌, String, ◌==◌, if◌then◌else◌,
  length, keep, Bool-cases, arith,
}
use vai.Common.Eq.{string_equality}
use vai.Common.Sets.{set_of}
use vai.Common.Sort.{sort_by_key}
use vai.Graph.{Entity, GraphSnapshot, order_entities, kind_as_str}

abbrev pub get_entities_by_name : String → GraphSnapshot → List Entity
get_entities_by_name name g = order_entities (keep (λ e. e.name == name) g.entities)

abbrev pub search_entities_by_name : (String → String → Bool) → String → GraphSnapshot → List Entity
search_entities_by_name like pattern g = order_entities (keep (λ e. like pattern e.name) g.entities)

abbrev pub search_entities_broad :
    (String → String → Bool)
    → (String → String)
    → (String → String)
    → String
    → GraphSnapshot
    → List Entity
search_entities_broad like lower to_lowercase term g =
    let t = to_lowercase term in
    order_entities (
      keep
        (λ e.
          like t (lower e.name) || like t (lower e.qualified_name) || like t (lower e.file_path))
        g.entities)

abbrev pub get_entities_in_file : String → GraphSnapshot → List Entity
get_entities_in_file file g =
    sort_by_key (λ e. e.byte_range.0) (keep (λ e. e.file_path == file) g.entities)

pub record GraphStats : Type 0 where
  pub entity_count : ℕ
  pub by_kind : List (String × ℕ)
  pub relationship_count : ℕ
  pub file_count : ℕ

abbrev bump : String → List (String × ℕ) → List (String × ℕ)
bump kind [] = (kind, 1) ∷ []
bump kind (c ∷ cs) = if c.0 == kind then (c.0, suc c.1) ∷ cs else c ∷ bump kind cs

-- `GROUP BY kind`.
unfoldable pub group_by_kind : List Entity → List (String × ℕ)
unfolding kind_as_str
group_by_kind [] = []
group_by_kind (e ∷ es) = bump (kind_as_str e.kind) (group_by_kind es)

abbrev file_paths : List Entity → List String
file_paths [] = []
file_paths (e ∷ es) = e.file_path ∷ file_paths es

unfoldable pub stats : GraphSnapshot → GraphStats
unfolding group_by_kind set_of
stats g = record {
  entity_count = length g.entities;
  by_kind = group_by_kind g.entities;
  relationship_count = length g.relationships;
  file_count = length (set_of (file_paths g.entities));
}

abbrev pub total : List (String × ℕ) → ℕ
total [] = 0
total (c ∷ cs) = c.1 + total cs

abbrev pub count_of : String → List (String × ℕ) → ℕ
count_of kind [] = 0
count_of kind (c ∷ cs) = let rest = count_of kind cs in if c.0 == kind then c.1 else rest

total-bump : (kind : String) (cs : List (String × ℕ)) → total (bump kind cs) ≡ suc (total cs)
total-bump kind [] = refl
total-bump kind (c ∷ cs) = ground (arith, total-bump kind cs)

count_of-bump :
    (k kind : String) (cs : List (String × ℕ))
    → count_of k (bump kind cs) ≡ (if kind == k then suc (count_of k cs) else count_of k cs)
count_of-bump k kind [] = ground arith
count_of-bump k kind (c ∷ cs) = elim (Bool-cases (c.0 == kind)) [
  | inl here ↦ let q : c.0 ≡ kind = (eq_iff c.0 kind).0 here in ground (arith, here, q)
  | inr other ↦
      ground (arith, other, count_of-bump k kind cs, eq_iff c.0 k, eq_iff kind k, eq_iff c.0 kind)
]

total-group_by_kind : (es : List Entity) → total (group_by_kind es) ≡ length es
unfolding group_by_kind
total-group_by_kind [] = refl
total-group_by_kind (e ∷ es) =
    total-bump (kind_as_str e.kind) (group_by_kind es) ∙ ap suc (total-group_by_kind es)

count_of-group_by_kind :
    (k : String) (es : List Entity)
    → count_of k (group_by_kind es) ≡ length (keep (λ e. kind_as_str e.kind == k) es)
unfolding group_by_kind
count_of-group_by_kind k [] = refl
count_of-group_by_kind k (e ∷ es) =
    ground
      (arith, count_of-bump k (kind_as_str e.kind) (group_by_kind es), count_of-group_by_kind k es)

-- The statistics count for each kind the entities of that kind, and the counts add up to all entities.
pub stats-by_kind :
    (g : GraphSnapshot) (k : String)
    → (count_of k (stats g).by_kind ≡ length (keep (λ e. kind_as_str e.kind == k) g.entities))
      × (total (stats g).by_kind ≡ (stats g).entity_count)
unfolding stats
stats-by_kind g k = (count_of-group_by_kind k g.entities, total-group_by_kind g.entities)

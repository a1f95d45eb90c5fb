-- ===== src/Graph.antt =====
-- src/graph/mod.rs: the tables of the semantic graph. The parsers of source files are a parameter, and SQL
-- statements are taken to succeed. Ids are texts.
pub mod Reach
pub mod Queries
pub mod Update
mod Tests
use Prim.Native.String.{compare}
use Prim.Native.Nat.{Ordering}
use vai.Common.{
  ℕ, Option, none, some, Bool, true, false, not, ◌||◌, List, [], ◌∷◌, ◌++◌, String, ◌==◌, leb,
  if◌then◌else◌, keep, length, ◌&&◌,
}
use vai.Common.Eq.{string_equality}
use vai.Common.Sets.{contains}

pub data EntityKind : Type 0 where
  function : EntityKind
  method : EntityKind
  struct : EntityKind
  enum : EntityKind
  trait : EntityKind
  impl : EntityKind
  module_kind : EntityKind
  use_statement : EntityKind
  class : EntityKind
  interface : EntityKind
  type_alias : EntityKind
  component : EntityKind
  hook : EntityKind
  export_statement : EntityKind

pub data RelationshipKind : Type 0 where
  contains_kind : RelationshipKind
  imports : RelationshipKind
  calls : RelationshipKind
  implements : RelationshipKind
  extends : RelationshipKind

pub record Entity : Type 0 where
  pub id : String
  pub kind : EntityKind
  pub name : String
  pub qualified_name : String
  pub file_path : String
  pub byte_range : ℕ × ℕ
  pub line_range : ℕ × ℕ
  pub parent_entity : Option String

pub record Relationship : Type 0 where
  pub id : String
  pub kind : RelationshipKind
  pub from_entity : String
  pub to_entity : String

-- The tables `entities` and `relationships`.
pub record GraphSnapshot : Type 0 where
  pub entities : List Entity
  pub relationships : List Relationship

abbrev pub empty_snapshot : GraphSnapshot
empty_snapshot = record { entities = []; relationships = [] }

-- `INSERT OR REPLACE`: the row of that id goes, the new one comes last.
unfoldable pub upsert_entity : Entity → GraphSnapshot → GraphSnapshot
upsert_entity e g = record g { entities = keep (λ x. not (x.id == e.id)) g.entities ++ e ∷ [] }

unfoldable pub upsert_relationship : Relationship → GraphSnapshot → GraphSnapshot
upsert_relationship r g = record g {
  relationships = keep (λ x. not (x.id == r.id)) g.relationships ++ r ∷ [];
}

abbrev pub touches : String → Relationship → Bool
touches id r = r.from_entity == id || r.to_entity == id

abbrev pub get_entity_ids_for_file : String → List Entity → List String
get_entity_ids_for_file file [] = []
get_entity_ids_for_file file (e ∷ es) =
    let rest = get_entity_ids_for_file file es in if e.file_path == file then e.id ∷ rest else rest

-- One `DELETE` for each id.
unfoldable pub delete_touching : List String → List Relationship → List Relationship
delete_touching [] rs = rs
delete_touching (id ∷ ids) rs = delete_touching ids (keep (λ r. not (touches id r)) rs)

unfoldable pub remove_file : String → GraphSnapshot → GraphSnapshot
remove_file file g = record {
  entities = keep (λ e. not (e.file_path == file)) g.entities;
  relationships = delete_touching (get_entity_ids_for_file file g.entities) g.relationships;
}

unfoldable pub get_entity_by_id : String → List Entity → Option Entity
get_entity_by_id id [] = none
get_entity_by_id id (e ∷ es) =
    let rest = get_entity_by_id id es in if e.id == id then some e else rest

-- `ORDER BY file_path, line_start`.
abbrev before_or_equal : Entity → Entity → Bool
before_or_equal a b = elim (compare a.file_path b.file_path) [
  | Ordering.lt ↦ true
  | Ordering.eq ↦ leb a.line_range.0 b.line_range.0
  | Ordering.gt ↦ false
]

unfoldable pub insert_entity : Entity → List Entity → List Entity
insert_entity e [] = e ∷ []
insert_entity e (x ∷ xs) = if before_or_equal e x then e ∷ x ∷ xs else x ∷ insert_entity e xs

unfoldable pub order_entities : List Entity → List Entity
unfolding insert_entity
order_entities [] = []
order_entities (e ∷ es) = insert_entity e (order_entities es)

abbrev pub get_entities_by_ids : List String → GraphSnapshot → List Entity
get_entities_by_ids ids g = order_entities (keep (λ e. contains e.id ids) g.entities)

abbrev pub get_relationships_for_entity : String → GraphSnapshot → List Relationship
get_relationships_for_entity id g = keep (touches id) g.relationships

abbrev pub get_outgoing_relationships : String → GraphSnapshot → List Relationship
get_outgoing_relationships id g = keep (λ r. r.from_entity == id) g.relationships

abbrev pub get_incoming_relationships : String → GraphSnapshot → List Relationship
get_incoming_relationships id g = keep (λ r. r.to_entity == id) g.relationships

unfoldable pub upsert_entities : List Entity → GraphSnapshot → GraphSnapshot
upsert_entities [] g = g
upsert_entities (e ∷ es) g = upsert_entities es (upsert_entity e g)

unfoldable pub upsert_relationships : List Relationship → GraphSnapshot → GraphSnapshot
upsert_relationships [] g = g
upsert_relationships (r ∷ rs) g = upsert_relationships rs (upsert_relationship r g)

pub record ParseStats : Type 0 where
  pub entities_found : ℕ
  pub relationships_found : ℕ

-- The argument is what `parse_source_file` returns for the file; `none` is an error of the parser, which comes
-- after the old rows are gone.
unfoldable pub update_file :
    String
    → Option (List Entity × List Relationship)
    → GraphSnapshot
    → GraphSnapshot × Option ParseStats
update_file file none g = (remove_file file g, none)
update_file file (some (es, rs)) g = (
  upsert_relationships rs (upsert_entities es (remove_file file g)),
  some (record { entities_found = length es; relationships_found = length rs }),
)

unfoldable pub kind_as_str : EntityKind → String
kind_as_str function = "function"
kind_as_str method = "method"
kind_as_str struct = "struct"
kind_as_str enum = "enum"
kind_as_str trait = "trait"
kind_as_str impl = "impl"
kind_as_str module_kind = "module"
kind_as_str use_statement = "use_statement"
kind_as_str class = "class"
kind_as_str interface = "interface"
kind_as_str type_alias = "type_alias"
kind_as_str component = "component"
kind_as_str hook = "hook"
kind_as_str export_statement = "export_statement"

-- A filter that is not given lets every row through. `LIKE '%name%'` is SQLite's and a parameter.
abbrev pub matches {ℓ} : {A : Type ℓ} → (A → Bool) → Option A → Bool
matches test none = true
matches test (some a) = test a

unfoldable pub filter_entities :
    (String → String → Bool)
    → Option String
    → Option String
    → Option String
    → GraphSnapshot
    → List Entity
unfolding kind_as_str
filter_entities like kind file name g = order_entities (
    keep
      (λ e.
        matches (λ k. kind_as_str e.kind == k) kind
        && matches (λ f. e.file_path == f) file
        && matches (λ n. like n e.name) name)
      g.entities)

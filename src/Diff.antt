-- ===== src/Diff.antt =====
-- src/diff/mod.rs: what a workspace has changed. The MergeFs behind it is two tables of files, those of `overlay/` and
-- those of `base/`, and reads succeed. The parser of Rust files and the hash are parameters. A `HashMap` is walked
-- in the order of the list here.
pub mod Record
pub mod Files
pub mod Spans
pub mod Entities
mod Tests
use Prim.Native.Char.{code}
use Prim.Native.String.{[] as ε, ◌∷◌ as ◌∷ˢ◌}
use vai.Common.{
  ℕ, zero, suc, ◌+◌, Option, none, some, Bool, true, false, not, ◌&&◌, ◌||◌, List, [], ◌∷◌, ◌++◌,
  String, ◌==◌, nat_eq, leb, if◌then◌else◌, length, keep, any, between, is_empty, min,
}
use vai.Common.Partial.{◌>>=◌}
use vai.Common.Eq.{string_equality}
use vai.Common.Sets.{contains}
use vai.EventLog.{
  EventKind, entity_added, entity_modified, entity_removed, file_added, file_modified, file_removed,
}
use vai.Graph.{Entity, EntityKind, Relationship, kind_as_str}
use vai.Workspace.{
  VaiDir, WorkspaceMeta, WorkspaceError, WorkspaceStatus, created, active, Outcome, ok, err,
  active_workspace, update_meta,
}

pub data FileChangeType : Type 0 where
  added : FileChangeType
  modified : FileChangeType
  deleted : FileChangeType

pub record FileDiff : Type 0 where
  pub path : String
  pub change_type : FileChangeType
  pub lines : ℕ
  pub content_hash : String

pub data EntityChangeType : Type 0 where
  added : EntityChangeType
  modified : EntityChangeType
  removed : EntityChangeType

pub record EntityChange : Type 0 where
  pub entity_id : String
  pub qualified_name : String
  pub kind : EntityKind
  pub file_path : String
  pub change_type : EntityChangeType
  pub line_range : Option (ℕ × ℕ)

pub record WorkspaceDiff : Type 0 where
  pub workspace_id : ℕ
  pub base_version : String
  pub file_diffs : List FileDiff
  pub entity_changes : List EntityChange

pub data DiffError : Type 0 where
  workspace_error : WorkspaceError → DiffError
  graph_error : DiffError

pub data Computed : Type 0 where
  computed : WorkspaceDiff → Computed
  failed : DiffError → Computed

abbrev pub computed_or_failed : Option WorkspaceDiff → Computed
computed_or_failed none = failed graph_error
computed_or_failed (some d) = computed d

-- Files with their bytes, under the path behind the prefix.
pub record MergeFs : Type 0 where
  pub overlay : List (String × List ℕ)
  pub base : List (String × List ℕ)

unfoldable pub read_file : String → List (String × List ℕ) → Option (List ℕ)
read_file path [] = none
read_file path (f ∷ fs) = let rest = read_file path fs in if f.0 == path then some f.1 else rest

abbrev pub exists : String → List (String × List ℕ) → Bool
exists path fs = any (λ f. f.0 == path) fs

abbrev newlines : List ℕ → ℕ
newlines [] = 0
newlines (b ∷ bytes) = if nat_eq b 10 then suc (newlines bytes) else newlines bytes

unfoldable pub count_lines : List ℕ → ℕ
count_lines [] = 0
count_lines (b ∷ bytes) = newlines (b ∷ bytes) + 1

abbrev pub ends_with : String → String → Bool
ends_with suffix ε = suffix == ε
ends_with suffix (c ∷ˢ s) = suffix == (c ∷ˢ s) || ends_with suffix s

-- Collected into a map by id: a later entity takes the place of an earlier one.
unfoldable pub to_map : List Entity → List Entity
to_map [] = []
to_map (e ∷ es) = let rest = to_map es in if any (λ x. x.id == e.id) rest then rest else e ∷ rest

unfoldable pub lookup : String → List Entity → Option Entity
lookup id [] = none
lookup id (e ∷ es) = let rest = lookup id es in if e.id == id then some e else rest

abbrev pub change : String → EntityChangeType → Option (ℕ × ℕ) → Entity → EntityChange
change path kind_of_change lines e = record {
  entity_id = e.id;
  qualified_name = e.qualified_name;
  kind = e.kind;
  file_path = path;
  change_type = kind_of_change;
  line_range = lines;
}

-- `content.get(start..end.min(len))`, empty where the range is out of order.
abbrev pub span : List ℕ → Entity → List ℕ
span content e = between e.byte_range.0 (min e.byte_range.1 (length content)) content

abbrev pub same_bytes : List ℕ → List ℕ → Bool
same_bytes [] [] = true
same_bytes [] (b ∷ ys) = false
same_bytes (a ∷ xs) [] = false
same_bytes (a ∷ xs) (b ∷ ys) = nat_eq a b && same_bytes xs ys

-- The change of an entity of the overlay, by the entity of that id in the base.
abbrev pub change_against : String → List ℕ → List ℕ → Entity → Option Entity → List EntityChange
change_against path content base e none =
    change path EntityChangeType.added (some e.line_range) e ∷ []
change_against path content base e (some b) =
    if same_bytes (span base b) (span content e)
    then []
    else change path EntityChangeType.modified (some e.line_range) e ∷ []

unfoldable pub changed : String → List ℕ → List ℕ → List Entity → List Entity → List EntityChange
unfolding lookup
changed path content base base_map [] = []
changed path content base base_map (e ∷ es) =
    change_against path content base e (lookup e.id base_map)
    ++ changed path content base base_map es

unfoldable pub all_changes : String → EntityChangeType → List Entity → List EntityChange
all_changes path EntityChangeType.added [] = []
all_changes path EntityChangeType.modified [] = []
all_changes path EntityChangeType.removed [] = []
all_changes path EntityChangeType.added (e ∷ es) =
    change path EntityChangeType.added (some e.line_range) e
    ∷ all_changes path EntityChangeType.added es
all_changes path t (e ∷ es) = change path t none e ∷ all_changes path t es

module _ (parse_rust_source : String → List ℕ → Option (List Entity × List Relationship))
    (sha256_hex : List ℕ → String) where
  -- `none` is an error of the parser.
  unfoldable pub compute_entity_diff :
      String → List ℕ → Option (List ℕ) → Option (List EntityChange)
  unfolding to_map changed all_changes
  compute_entity_diff path content none =
      parse_rust_source path content
      >>= (λ (es, _). some (all_changes path EntityChangeType.added (to_map es)))
  compute_entity_diff path content (some base) = parse_rust_source path content >>= (λ (es, _).
      parse_rust_source path base >>= (λ (bs, _).
        let overlay_map = to_map es in
        let base_map = to_map bs in
        some (
          changed path content base base_map overlay_map
          ++ all_changes path EntityChangeType.removed
              (keep (λ b. not (any (λ x. x.id == b.id) overlay_map)) base_map))))

  abbrev pub file_diff : List (String × List ℕ) → String × List ℕ → FileDiff
  file_diff base f = record {
    path = f.0;
    change_type = if exists f.0 base then FileChangeType.modified else FileChangeType.added;
    lines = count_lines f.1;
    content_hash = sha256_hex f.1;
  }

  abbrev pub entity_diff : List (String × List ℕ) → String × List ℕ → Option (List EntityChange)
  entity_diff base f =
      if ends_with ".rs" f.0 then compute_entity_diff f.0 f.1 (read_file f.0 base) else some []

  unfoldable pub overlay_changes :
      List (String × List ℕ) → List (String × List ℕ) → Option (List FileDiff × List EntityChange)
  overlay_changes base [] = some ([], [])
  overlay_changes base (f ∷ fs) = entity_diff base f >>= (λ es.
      overlay_changes base fs >>= (λ rest. some (file_diff base f ∷ rest.0, es ++ rest.1)))

  abbrev pub deleted_diff : String → FileDiff
  deleted_diff path = record {
    path = path;
    change_type = FileChangeType.deleted;
    lines = 0;
    content_hash = "";
  }

  abbrev pub removed_of : String → Option (List ℕ) → List EntityChange
  removed_of path none = []
  removed_of path (some content) = elim (parse_rust_source path content) [
    | none ↦ []
    | some r ↦ all_changes path EntityChangeType.removed r.0
  ]

  unfoldable pub deletions :
      List (String × List ℕ) → List String → List FileDiff × List EntityChange
  deletions base [] = ([], [])
  deletions base (path ∷ paths) =
      let rest = deletions base paths in
      let gone = if ends_with ".rs" path then removed_of path (read_file path base) else [] in
      if exists path base then (deleted_diff path ∷ rest.0, gone ++ rest.1) else rest

  unfoldable pub compute_with_fs : MergeFs → ℕ → String → List String → Option WorkspaceDiff
  unfolding overlay_changes deletions
  compute_with_fs fs workspace_id base_version deleted_paths =
      let gone = deletions fs.base deleted_paths in
      overlay_changes fs.base fs.overlay >>= (λ r. some (record {
        workspace_id = workspace_id;
        base_version = base_version;
        file_diffs = r.0 ++ gone.0;
        entity_changes = r.1 ++ gone.1;
      }))

  -- Each path once, where it comes first.
  abbrev pub first_seen : List String → List String → List String
  first_seen seen [] = []
  first_seen seen (path ∷ paths) =
      let new = path ∷ first_seen (path ∷ seen) paths in
      let old = first_seen seen paths in if contains path seen then old else new

  -- The manifest `.vai-deleted` is an argument, empty where the file is missing or cannot be read.
  unfoldable pub compute : List String → MergeFs → VaiDir → Computed
  unfolding compute_with_fs
  compute from_manifest fs w = elim (active_workspace w) [
    | err e ↦ failed (workspace_error e)
    | ok meta ↦ computed_or_failed (
        compute_with_fs fs meta.id meta.base_version
          (first_seen [] (from_manifest ++ meta.deleted_paths)))
  ]

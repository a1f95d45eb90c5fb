-- ===== src/Version/Changes.antt =====
-- The changes of a version in src/version/mod.rs: `get_version_changes` and `get_versions_diff`. The log is
-- the one of src/event_log/mod.rs, with its codec.
pub mod Diff
pub mod Events
pub mod Impact
pub mod Risk
use Prim.Native.String.{compare}
use vai.Common.{
  ℕ, Option, none, some, Bool, List, [], ◌∷◌, ◌++◌, String, ◌==◌, leb, ltb, ◌&&◌, if◌then◌else◌,
  map,
}
use vai.Common.Eq.{string_equality}
use vai.EventLog.{
  Event, EventKind, entity_added, entity_modified, entity_removed, file_added, file_modified,
  file_removed, workspace_id,
}
use vai.EventLog.Store as Log
use vai.EventLog.Store.{EventLog, get_by_id, query_by_workspace}
use vai.Version.{
  VersionMeta, VersionError, event_log, Result, ok, err, ◌>>=◌, number_of, parse_version_number,
  list_versions, get_version,
}
use text.Mathlib.Text.{is_le}

pub data VersionChangeType : Type 0 where
  added modified removed : VersionChangeType

pub data VersionFileChangeType : Type 0 where
  added modified removed : VersionFileChangeType

pub record VersionEntityChange : Type 0 where
  pub entity_id : String
  pub change_type : VersionChangeType
  pub kind : Option String
  pub qualified_name : Option String
  pub file_path : Option String
  pub change_description : Option String

pub record VersionFileChange : Type 0 where
  pub path : String
  pub change_type : VersionFileChangeType
  pub hash : Option String

pub record VersionChanges : Type 0 where
  pub version : VersionMeta
  pub entity_changes : List VersionEntityChange
  pub file_changes : List VersionFileChange

-- An error of the log, passed on by `?`.
abbrev pub from_log : {A : Type 0} → Log.Result A → Result A
from_log (Log.ok a) = ok a
from_log (Log.err e) = err (event_log e)

abbrev pub bare_change : String → VersionChangeType → Option String → VersionEntityChange
bare_change entity type description = record {
  entity_id = entity;
  change_type = type;
  kind = none;
  qualified_name = none;
  file_path = none;
  change_description = description;
}

abbrev pub entity_change : EventKind → Option VersionEntityChange
entity_change (entity_added w e) = some (record {
  entity_id = e.id;
  change_type = VersionChangeType.added;
  kind = some e.kind;
  qualified_name = some e.qualified_name;
  file_path = some e.file_path;
  change_description = none;
})
entity_change (entity_modified w entity description) =
    some (bare_change entity VersionChangeType.modified (some description))
entity_change (entity_removed w entity) = some (bare_change entity VersionChangeType.removed none)
entity_change kind = none

abbrev pub file_change : EventKind → Option VersionFileChange
file_change (file_added w path hash) =
    some (record { path = path; change_type = VersionFileChangeType.added; hash = some hash })
file_change (file_modified w path old_hash new_hash) =
    some
      (record { path = path; change_type = VersionFileChangeType.modified; hash = some new_hash })
file_change (file_removed w path) =
    some (record { path = path; change_type = VersionFileChangeType.removed; hash = none })
file_change kind = none

-- `HashMap::insert`, by the path.
unfoldable pub put_change : VersionFileChange → List VersionFileChange → List VersionFileChange
put_change c [] = c ∷ []
put_change c (d ∷ ds) = let rest = put_change c ds in if d.path == c.path then c ∷ ds else d ∷ rest

abbrev pub put_some : Option VersionFileChange → List VersionFileChange → List VersionFileChange
put_some none ds = ds
put_some (some c) ds = put_change c ds

abbrev pub push_some :
    Option VersionEntityChange → List VersionEntityChange → List VersionEntityChange
push_some none cs = cs
push_some (some c) cs = cs ++ c ∷ []

-- The loop over the events of the workspace.
unfoldable pub collect_changes :
    List Event
    → List VersionEntityChange
    → List VersionFileChange
    → List VersionEntityChange × List VersionFileChange
collect_changes [] entities files = (entities, files)
collect_changes (e ∷ es) entities files =
    collect_changes es (push_some (entity_change e.kind) entities)
      (put_some (file_change e.kind) files)

unfoldable pub insert_by_path : VersionFileChange → List VersionFileChange → List VersionFileChange
insert_by_path c [] = c ∷ []
insert_by_path c (d ∷ ds) =
    if is_le (compare c.path d.path) then c ∷ d ∷ ds else d ∷ insert_by_path c ds

unfoldable pub sort_by_path : List VersionFileChange → List VersionFileChange
unfolding insert_by_path
sort_by_path [] = []
sort_by_path (c ∷ cs) = insert_by_path c (sort_by_path cs)

abbrev pub no_changes : VersionMeta → VersionChanges
no_changes v = record { version = v; entity_changes = []; file_changes = [] }

abbrev pub changes_of : VersionMeta → List Event → VersionChanges
changes_of v events =
    let collected = collect_changes events [] [] in
    record { version = v; entity_changes = collected.0; file_changes = sort_by_path collected.1 }

abbrev pub merged_workspace : Option Event → Option ℕ
merged_workspace none = none
merged_workspace (some e) = workspace_id e.kind

module _ (to_json : Event → List ℕ) (from_json : List ℕ → Option Event) (log : EventLog) where
  abbrev pub changes_in_workspace : VersionMeta → Option ℕ → Result VersionChanges
  changes_in_workspace v none = ok (no_changes v)
  changes_in_workspace v (some w) =
      from_log (query_by_workspace to_json from_json w log) >>= λ events. ok (changes_of v events)

  abbrev pub changes_since_merge : VersionMeta → Option ℕ → Result VersionChanges
  changes_since_merge v none = ok (no_changes v)
  changes_since_merge v (some id) = from_log (get_by_id to_json from_json id log) >>= λ event.
      changes_in_workspace v (merged_workspace event)

  unfoldable pub get_version_changes : String → List VersionMeta → Result VersionChanges
  get_version_changes version_id versions =
      get_version version_id versions >>= λ v. changes_since_merge v v.merge_event_id

  -- The loop over the listed versions.
  unfoldable pub diff_loop :
      ℕ → ℕ → List VersionMeta → List VersionMeta → Result (List VersionChanges)
  diff_loop n_a n_b versions [] = ok []
  diff_loop n_a n_b versions (v ∷ listed) =
      let rest = diff_loop n_a n_b versions listed in
      if ltb n_a (number_of v) && leb (number_of v) n_b
      then (get_version_changes v.version_id versions >>= λ c. rest >>= λ cs. ok (c ∷ cs))
      else rest

  unfoldable pub get_versions_diff :
      String → String → List VersionMeta → Result (List VersionChanges)
  get_versions_diff version_a version_b versions =
      let n_a = parse_version_number version_a in
      let n_b = parse_version_number version_b in
      if leb n_b n_a then ok [] else diff_loop n_a n_b versions (list_versions versions)

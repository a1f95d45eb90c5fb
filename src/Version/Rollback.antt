-- ===== src/Version/Rollback.antt =====
-- `rollback` of src/version/mod.rs: the files that it restores, and the version that it makes. The files of
-- the repository and of each version's snapshot are functions from paths; deleting and copying are taken to
-- succeed. One reading of the clock serves a rollback.
pub mod Undo
pub mod Filter
pub mod Record
use Prim.Native.String.{find, len}
use Prim.Native.Nat.{compare}
use vai.Common.{
  ℕ, ◌+◌, Option, none, some, Bool, true, false, ◌||◌, List, [], ◌∷◌, String, ◌==◌, if◌then◌else◌,
  keep,
}
use vai.Common.Eq.{string_equality}
use vai.Common.Sets.{contains}
use vai.EventLog.{Event, rollback_created, version_created}
use vai.EventLog.Store as Log
use vai.EventLog.Store.{EventLog}
use vai.Issue.Labels.{append_text}
use vai.Version.{
  VersionMeta, VersionError, io, event_log, Result, ok, err, create_version, next_version_id,
}
use vai.Version.Changes.{
  VersionEntityChange, VersionFileChange, VersionFileChangeType, VersionChanges,
  get_version_changes,
}
use text.Mathlib.Text.{is_le}

abbrev pub FileTree : Type 0
FileTree = String → Option (List ℕ)

abbrev pub set_file : String → Option (List ℕ) → FileTree → FileTree
set_file path content files = λ p. if path == p then content else files p

pub record RollbackResult : Type 0 where
  pub new_version : VersionMeta
  pub files_restored : ℕ
  pub files_deleted : ℕ

-- The loop over the changed files: the tree and the two counts.
pub record Restored : Type 0 where
  pub files : FileTree
  pub files_restored : ℕ
  pub files_deleted : ℕ

abbrev pub delete_file : String → Option (List ℕ) → Restored → Restored
delete_file path none t = t
delete_file path (some content) t = record t {
  files = set_file path none t.files;
  files_deleted = t.files_deleted + 1;
}

abbrev pub copy_file : String → Option (List ℕ) → Restored → Restored
copy_file path none t = t
copy_file path (some content) t = record t {
  files = set_file path (some content) t.files;
  files_restored = t.files_restored + 1;
}

abbrev pub restore_file : FileTree → String → VersionFileChangeType → Restored → Restored
restore_file snapshot path VersionFileChangeType.added t = delete_file path (t.files path) t
restore_file snapshot path VersionFileChangeType.modified t = copy_file path (snapshot path) t
restore_file snapshot path VersionFileChangeType.removed t = copy_file path (snapshot path) t

-- No filter lets every path through.
abbrev pub lets_through : Option (List String) → String → Bool
lets_through none path = true
lets_through (some allowed) path = contains path allowed

unfoldable pub restore_files :
    FileTree → Option (List String) → List VersionFileChange → Restored → Restored
restore_files snapshot filter [] t = t
restore_files snapshot filter (c ∷ cs) t =
    restore_files snapshot filter cs
      (if lets_through filter c.path then restore_file snapshot c.path c.change_type t else t)

-- `str::contains`.
abbrev pub has_text : String → String → Bool
has_text s t = is_le (compare (find s t) (len s))

abbrev is_named : Option String → String → Bool
is_named none name = false
is_named (some q) name = q == name

abbrev pub is_matching : String → VersionEntityChange → Bool
is_matching name c = is_named c.qualified_name name || has_text c.entity_id name

abbrev pub paths_of : List VersionEntityChange → List String
paths_of [] = []
paths_of (c ∷ cs) = elim (c.file_path) [ none ↦ paths_of cs | some p ↦ p ∷ paths_of cs ]

abbrev pub filtered_files : Option String → VersionChanges → Option (List String)
filtered_files none changes = none
filtered_files (some name) changes =
    some (paths_of (keep (is_matching name) changes.entity_changes))

-- `.vai/` and the working tree. `snapshots` is `.vai/versions/<id>/snapshot/`, `head` is the text of the
-- file of that name as `rollback` reads it, without the white space around it.
pub record Repo : Type 0 where
  pub versions : List VersionMeta
  pub log : EventLog
  pub head : Option String
  pub files : FileTree
  pub snapshots : String → FileTree

abbrev pub restored : String → Option String → VersionChanges → Repo → Restored
restored version_id filter changes repo =
    restore_files (repo.snapshots version_id) (filtered_files filter changes) changes.file_changes
      (record { files = repo.files; files_restored = 0; files_deleted = 0 })

module _ (to_json : Event → List ℕ) (from_json : List ℕ → Option Event) where
  -- The second event, the new version and the head.
  abbrev pub conclude :
      String
      → String
      → String
      → ℕ
      → Restored
      → Repo
      → EventLog × Log.Result Event
      → Repo × Result RollbackResult
  conclude version_id new_id head now t repo (log, Log.err e) =
      (record repo { log = log }, err (event_log e))
  conclude version_id new_id head now t repo (log, Log.ok e) =
      let intent = append_text "rollback " version_id in
      let (versions, meta) =
        create_version new_id (some head) intent "agent" none now repo.versions in
      (
        record repo { versions = versions; log = log; head = some new_id },
        ok (record {
          new_version = meta;
          files_restored = t.files_restored;
          files_deleted = t.files_deleted;
        }),
      )

  abbrev pub note_rollback :
      String
      → String
      → String
      → ℕ
      → Restored
      → Repo
      → EventLog × Log.Result Event
      → Repo × Result RollbackResult
  note_rollback version_id new_id head now t repo (log, Log.err e) =
      (record repo { log = log }, err (event_log e))
  note_rollback version_id new_id head now t repo (log, Log.ok e) =
      let intent = append_text "rollback " version_id in
      conclude version_id new_id head now t repo
        (Log.append to_json from_json (version_created new_id (some head) intent) now log)

  abbrev pub after_restore :
      String → Option String → ℕ → Restored → Option String → Repo → Repo × Result RollbackResult
  after_restore version_id filter now t none repo = (repo, err io)
  after_restore version_id filter now t (some head) repo =
      let new_id = next_version_id repo.versions in
      note_rollback version_id new_id head now t repo
        (Log.append to_json from_json (rollback_created version_id new_id filter) now repo.log)

  abbrev pub with_changes :
      String → Option String → ℕ → Repo → Result VersionChanges → Repo × Result RollbackResult
  with_changes version_id filter now repo (err e) = (repo, err e)
  with_changes version_id filter now repo (ok changes) =
      let t = restored version_id filter changes repo in
      after_restore version_id filter now t repo.head (record repo { files = t.files })

  unfoldable pub rollback : String → Option String → ℕ → Repo → Repo × Result RollbackResult
  rollback version_id filter now repo =
      with_changes version_id filter now repo
        (get_version_changes to_json from_json repo.log version_id repo.versions)

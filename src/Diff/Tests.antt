-- ===== src/Diff/Tests.antt =====
-- Runs of the diff, and the instances of its theorems.
use vai.Common.{ℕ, Option, none, some, ◌≡◌, ◌↔◌, refl, true, not, ◌&&◌, List, [], ◌∷◌, String}
use vai.Common.Eq.{string_equality}
use vai.Common.Sets.{contains}
use vai.Graph.{Entity, Relationship, function}
use vai.Workspace.{VaiDir}
use vai.Workspace.Runs.{IsSound, create_op, run_ops, empty_dir, IsSound-run_ops, IsSound-empty}
use vai.Diff.{
  MergeFs, WorkspaceDiff, FileChangeType, EntityChange, EntityChangeType, compute_with_fs,
  compute_entity_diff, exists, to_map, lookup, overlay_changes, deletions, count_lines, changed,
  all_changes, read_file,
}
use vai.Diff.Files.{reports, compute_with_fs-reports}
use vai.Diff.Entities.{has_change, IsModified, compute_entity_diff-has_change}
use vai.Diff.Spans.{has}
use vai.Diff.Record.{record_events}
use vai.Diff.Record.Once.{record_events-once}

-- A parser that finds one entity in a file that is not empty, and a hash that forgets the bytes.
abbrev one_entity : String → List ℕ → Entity
one_entity path content = record {
  id = "f";
  kind = function;
  name = "f";
  qualified_name = "m::f";
  file_path = path;
  byte_range = (0, 2);
  line_range = (1, 1);
  parent_entity = none;
}

abbrev parse : String → List ℕ → Option (List Entity × List Relationship)
parse path [] = some ([], [])
parse path (b ∷ content) = some (one_entity path content ∷ [], [])

abbrev hash : List ℕ → String
hash content = "h"

abbrev files : MergeFs
files = record {
  overlay = ("a.rs", 1 ∷ 2 ∷ []) ∷ ("b.rs", 1 ∷ 3 ∷ []) ∷ [];
  base = ("a.rs", 1 ∷ 2 ∷ []) ∷ ("c.md", []) ∷ [];
}

abbrev diff : WorkspaceDiff
diff = record {
  workspace_id = 1;
  base_version = "v1";
  file_diffs =
      (record {
        path = "a.rs";
        change_type = FileChangeType.modified;
        lines = 1;
        content_hash = "h";
      })
      ∷ (record {
        path = "b.rs";
        change_type = FileChangeType.added;
        lines = 1;
        content_hash = "h";
      })
      ∷ (record {
        path = "c.md";
        change_type = FileChangeType.deleted;
        lines = 0;
        content_hash = "";
      })
      ∷ [];
  entity_changes =
      (record {
        entity_id = "f";
        qualified_name = "m::f";
        kind = function;
        file_path = "b.rs";
        change_type = EntityChangeType.added;
        line_range = some (1, 1);
      })
      ∷ [];
}

-- The bytes of a.rs are those of the base, and still it is reported as modified.
files-diff : compute_with_fs parse hash files 1 "v1" ("c.md" ∷ []) ≡ some diff
unfolding compute_with_fs overlay_changes deletions count_lines compute_entity_diff to_map lookup
    changed all_changes read_file
files-diff = refl

compute_with_fs-reports_example :
    (reports "a.rs" FileChangeType.added diff.file_diffs
      ≡ (exists "a.rs" files.overlay && not (exists "a.rs" files.base)))
    × (reports "a.rs" FileChangeType.modified diff.file_diffs
        ≡ (exists "a.rs" files.overlay && exists "a.rs" files.base))
    × (reports "a.rs" FileChangeType.deleted diff.file_diffs
        ≡ (contains "a.rs" ("c.md" ∷ []) && exists "a.rs" files.base))
compute_with_fs-reports_example =
    compute_with_fs-reports parse hash files 1 "v1" ("c.md" ∷ []) diff "a.rs" files-diff

compute_entity_diff-has_change_example :
    (cs : List EntityChange) × (compute_entity_diff parse hash "a.rs"
        (1 ∷ 2 ∷ [])
        (some (1 ∷ 3 ∷ []))
      ≡ some cs)
    × ((id : String)
        → (has_change id EntityChangeType.added cs ≡ (
            has id (one_entity "a.rs" (2 ∷ []) ∷ [])
            && not (has id (one_entity "a.rs" (3 ∷ []) ∷ []))))
          × (has_change id EntityChangeType.removed cs ≡ (
              has id (one_entity "a.rs" (3 ∷ []) ∷ [])
              && not (has id (one_entity "a.rs" (2 ∷ []) ∷ []))))
          × ((has_change id EntityChangeType.modified cs ≡ true)
              ↔ IsModified
                  (1 ∷ 2 ∷ [])
                  (1 ∷ 3 ∷ [])
                  (one_entity "a.rs" (2 ∷ []) ∷ [])
                  (one_entity "a.rs" (3 ∷ []) ∷ [])
                  id))
compute_entity_diff-has_change_example =
    compute_entity_diff-has_change parse hash "a.rs" (1 ∷ 2 ∷ []) (1 ∷ 3 ∷ [])
      (one_entity "a.rs" (2 ∷ []) ∷ [], []) (one_entity "a.rs" (3 ∷ []) ∷ [], []) refl refl

abbrev one_workspace : VaiDir
one_workspace = run_ops (create_op 1 10 "fix auth" "v1" ∷ []) empty_dir

one_workspace-IsSound : IsSound one_workspace
one_workspace-IsSound =
    IsSound-run_ops (create_op 1 10 "fix auth" "v1" ∷ []) empty_dir IsSound-empty

record_events-once_example :
    IsSound (record_events 20 diff one_workspace).0
    × ((record_events 21 diff (record_events 20 diff one_workspace).0).0
        ≡ (record_events 20 diff one_workspace).0)
record_events-once_example = record_events-once 20 21 diff diff one_workspace one_workspace-IsSound

-- ===== src/Diff/Record.antt =====
-- `record_events` of src/diff/mod.rs: the events of a diff and the step of the workspace from created to active.
pub mod Once
use Prim.Native.Char.{Char, code}
use Prim.Native.String.{[] as ε, ◌∷◌ as ◌∷ˢ◌}
use vai.Common.{ℕ, Bool, true, false, ◌&&◌, List, [], ◌∷◌, ◌++◌, String, nat_eq, if◌then◌else◌}
use vai.EventLog.{
  EventKind, entity_added, entity_modified, entity_removed, file_added, file_modified, file_removed,
}
use vai.Graph.{kind_as_str}
use vai.Issue.Labels.{append_text}
use vai.Workspace.{
  VaiDir, WorkspaceMeta, WorkspaceStatus, created, active, Outcome, ok, err, active_workspace,
  update_meta,
}
use vai.Diff.{FileDiff, FileChangeType, EntityChange, EntityChangeType, WorkspaceDiff}

abbrev is_colon : Char → Bool
is_colon c = nat_eq (code c) b':'

-- `split("::").last()`: `part` is the part that is being read.
abbrev last_part : String → String → String
last_part part ε = part
last_part part (c ∷ˢ ε) = append_text part (c ∷ˢ "")
last_part part (c ∷ˢ d ∷ˢ s) =
    if is_colon c && is_colon d
    then last_part "" s
    else last_part (append_text part (c ∷ˢ "")) (d ∷ˢ s)

abbrev pub file_event : ℕ → FileDiff → FileChangeType → EventKind
file_event workspace d FileChangeType.added = file_added workspace d.path d.content_hash
file_event workspace d FileChangeType.modified = file_modified workspace d.path "" d.content_hash
file_event workspace d FileChangeType.deleted = file_removed workspace d.path

abbrev pub entity_event : ℕ → EntityChange → EntityChangeType → EventKind
entity_event workspace c EntityChangeType.added = entity_added workspace (record {
  id = c.entity_id;
  kind = kind_as_str c.kind;
  name = last_part "" c.qualified_name;
  qualified_name = c.qualified_name;
  file_path = c.file_path;
})
entity_event workspace c EntityChangeType.modified = entity_modified workspace c.entity_id (
    append_text (kind_as_str c.kind)
      (append_text " `" (append_text c.qualified_name (append_text "` modified in " c.file_path))))
entity_event workspace c EntityChangeType.removed = entity_removed workspace c.entity_id

abbrev pub file_events : ℕ → List FileDiff → List EventKind
file_events workspace [] = []
file_events workspace (d ∷ ds) = file_event workspace d d.change_type ∷ file_events workspace ds

abbrev pub entity_events : ℕ → List EntityChange → List EventKind
entity_events workspace [] = []
entity_events workspace (c ∷ cs) =
    entity_event workspace c c.change_type ∷ entity_events workspace cs

abbrev pub diff_events : WorkspaceDiff → List EventKind
diff_events diff =
    file_events diff.workspace_id diff.file_diffs
    ++ entity_events diff.workspace_id diff.entity_changes

abbrev pub is_created : WorkspaceStatus → Bool
is_created created = true
is_created _ = false

abbrev pub record_in : ℕ → WorkspaceDiff → Outcome WorkspaceMeta → VaiDir → VaiDir × Outcome Unit
record_in now diff (err e) w = (w, err e)
record_in now diff (ok meta) w =
    if is_created meta.status
    then update_meta (record meta { status = active; updated_at = now })
        (record w { event_log = w.event_log ++ diff_events diff })
    else (w, ok tt)

unfoldable pub record_events : ℕ → WorkspaceDiff → VaiDir → VaiDir × Outcome Unit
record_events now diff w = record_in now diff (active_workspace w) w

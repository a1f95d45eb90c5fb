-- ===== src/Diff/Record/Once.antt =====
-- What `record_events` of src/diff/mod.rs does to a repository, and that it does it once.
use mathlib.Core.Path.{subst}
use vai.Common.{
  ℕ, none, some, ◌≡◌, refl, sym, ap, ◌∙◌, inl, inr, true, false, List, [], ◌∷◌, ◌++◌, nat_eq,
  nat_eq_iff, Bool-cases, Option-cases, arith,
}
use vai.Common.Table.{find_key}
use vai.EventLog.{EventKind}
use vai.Workspace.{
  WorkspaceMeta, VaiDir, active, Outcome, ok, err, no_active_workspace, directory, is_directory,
  write_meta, get, active_workspace, update_meta,
}
use vai.Workspace.Directories.{find_key-IsNamed, find_key-is_directory, find_key-present}
use vai.Workspace.Runs.{IsSound, replay, after_event, live, IsSound-update}
use vai.Diff.{FileDiff, FileChangeType, EntityChange, EntityChangeType, WorkspaceDiff}
use vai.Diff.Record.{
  file_event, entity_event, file_events, entity_events, diff_events, is_created, record_in,
  record_events,
}

replay-file_event :
    (ids : List ℕ) (n : ℕ) (d : FileDiff) (t : FileChangeType)
    → after_event ids (file_event n d t) ≡ ids
replay-file_event ids n d FileChangeType.added = refl
replay-file_event ids n d FileChangeType.modified = refl
replay-file_event ids n d FileChangeType.deleted = refl

replay-entity_event :
    (ids : List ℕ) (n : ℕ) (c : EntityChange) (t : EntityChangeType)
    → after_event ids (entity_event n c t) ≡ ids
replay-entity_event ids n c EntityChangeType.added = refl
replay-entity_event ids n c EntityChangeType.modified = refl
replay-entity_event ids n c EntityChangeType.removed = refl

replay-entity_events :
    (ids : List ℕ) (n : ℕ) (cs : List EntityChange) → replay ids (entity_events n cs) ≡ ids
replay-entity_events ids n [] = refl
replay-entity_events ids n (c ∷ cs) =
    ap (λ l. replay l (entity_events n cs)) (replay-entity_event ids n c c.change_type)
    ∙ replay-entity_events ids n cs

replay-file_events :
    (ids : List ℕ) (n : ℕ) (ds : List FileDiff) (es : List EventKind)
    → replay ids (file_events n ds ++ es) ≡ replay ids es
replay-file_events ids n [] es = refl
replay-file_events ids n (d ∷ ds) es =
    ap (λ l. replay l (file_events n ds ++ es)) (replay-file_event ids n d d.change_type)
    ∙ replay-file_events ids n ds es

replay-join :
    (ids : List ℕ) (xs ys : List EventKind) → replay ids (xs ++ ys) ≡ replay (replay ids xs) ys
replay-join ids [] ys = refl
replay-join ids (x ∷ xs) ys = replay-join (after_event ids x) xs ys

-- No event of a diff creates or discards a workspace.
live-diff_events :
    (log : List EventKind) (diff : WorkspaceDiff) → live (log ++ diff_events diff) ≡ live log
live-diff_events log diff =
    replay-join [] log (diff_events diff)
    ∙ replay-file_events (live log) diff.workspace_id diff.file_diffs
        (entity_events diff.workspace_id diff.entity_changes)
    ∙ replay-entity_events (live log) diff.workspace_id diff.entity_changes

IsSound-logged :
    (diff : WorkspaceDiff) (w : VaiDir)
    → IsSound w
    → IsSound (record w { event_log = w.event_log ++ diff_events diff })
IsSound-logged diff w i = record {
  named = i.named;
  logged = i.logged ∙ sym (live-diff_events w.event_log diff);
  pointed = i.pointed;
}

IsSound-record_in :
    (now : ℕ) (diff : WorkspaceDiff) (o : Outcome WorkspaceMeta) (w : VaiDir)
    → IsSound w
    → IsSound (record_in now diff o w).0
IsSound-record_in now diff (err e) w i = i
IsSound-record_in now diff (ok meta) w i = elim (Bool-cases (is_created meta.status)) [
  | inl first ↦ rw first (
      IsSound-update (record meta { status = active; updated_at = now })
        (record w { event_log = w.event_log ++ diff_events diff }) (IsSound-logged diff w i))
  | inr later ↦ rw later i
]

find_key-write_meta :
    (id : ℕ) (meta : WorkspaceMeta) (ds : List (ℕ × WorkspaceMeta))
    → is_directory id ds ≡ true
    → find_key directory id (write_meta id meta ds) ≡ some (id, meta)
unfolding find_key write_meta
find_key-write_meta id meta [] h = ground arith
find_key-write_meta id meta (d ∷ ds) h = elim (Bool-cases (nat_eq d.0 id)) [
  | inl here ↦ rw here (rw ((nat_eq_iff id id).1 refl) refl)
  | inr other ↦ rw other (rw other (find_key-write_meta id meta ds (ground arith)))
]

-- An active workspace that is not freshly created keeps its events and its status.
abbrev IsSettled : Outcome WorkspaceMeta → Type 0
IsSettled (err e) = Unit
IsSettled (ok meta) = is_created meta.status ≡ false

record_in-IsSettled :
    (now : ℕ) (diff : WorkspaceDiff) (o : Outcome WorkspaceMeta) (w : VaiDir)
    → IsSettled o
    → (record_in now diff o w).0 ≡ w
record_in-IsSettled now diff (err e) w s = refl
record_in-IsSettled now diff (ok meta) w s = rw s refl

module _ (now : ℕ) (diff : WorkspaceDiff) (id : ℕ) (d : ℕ × WorkspaceMeta) (w : VaiDir) where
  abbrev begun : WorkspaceMeta
  begun = record d.1 { status = active; updated_at = now }

  active_workspace-begun :
      w.active_file ≡ some id
      → find_key directory id w.workspaces ≡ some d
      → IsSound w
      → active_workspace
          (update_meta begun (record w { event_log = w.event_log ++ diff_events diff })).0
        ≡ ok begun
  unfolding active_workspace update_meta get
  active_workspace-begun here found i =
      let same : d.1.id ≡ id = find_key-IsNamed id w.workspaces d i.named found in
      let there : is_directory d.1.id w.workspaces ≡ true =
        rw (sym same) at (find_key-is_directory id w.workspaces d found) in
      let pointed : w.active_file ≡ some d.1.id = here ∙ ap some (sym same) in
      rw there (rw pointed (rw (find_key-write_meta d.1.id begun w.workspaces there) refl))

  active_workspace-read :
      w.active_file ≡ some id
      → find_key directory id w.workspaces ≡ some d
      → active_workspace w ≡ ok d.1
  unfolding active_workspace get
  active_workspace-read here found = rw here (rw found refl)

active_workspace-unset :
    (w : VaiDir) → w.active_file ≡ none → active_workspace w ≡ err no_active_workspace
unfolding active_workspace
active_workspace-unset w nowhere = rw nowhere refl

IsSettled-record_events :
    (now : ℕ) (diff : WorkspaceDiff) (w : VaiDir)
    → IsSound w
    → IsSettled (active_workspace (record_events now diff w).0)
unfolding record_events
IsSettled-record_events now diff w i = elim (Option-cases w.active_file) [
  | inl nowhere ↦ let e = active_workspace-unset w nowhere in rw e (subst IsSettled (sym e) tt)
  | inr (id, here) ↦
      let (d, found) = find_key-present id w.workspaces (i.pointed id here) in
      let e = active_workspace-read now diff id d w here found in
      elim (Bool-cases (is_created d.1.status)) [
        | inl first ↦ rw e (
            rw first
              (subst IsSettled (sym (active_workspace-begun now diff id d w here found i)) refl))
        | inr later ↦ rw e (rw later (rw e later))
      ]
]

-- `record_events` keeps what `IsSound` says of the directories, the active file and the event log, and after it a
-- second call, with whatever diff, changes nothing.
pub record_events-once :
    (now later : ℕ) (diff next : WorkspaceDiff) (w : VaiDir)
    → IsSound w
    → IsSound (record_events now diff w).0
      × ((record_events later next (record_events now diff w).0).0 ≡ (record_events now diff w).0)
unfolding record_events
record_events-once now later diff next w i =
    let v = (record_events now diff w).0 in
    (
      IsSound-record_in now diff (active_workspace w) w i,
      record_in-IsSettled later next (active_workspace v) v (IsSettled-record_events now diff w i),
    )

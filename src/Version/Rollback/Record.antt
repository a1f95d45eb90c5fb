-- ===== src/Version/Rollback/Record.antt =====
-- What `rollback` of src/version/mod.rs writes: events, a version, the head.
use vai.Common.{ℕ, ◌+◌, ◌<◌, ◌≡◌, ap, ◌∙◌, Option, none, some, List, [], ◌∷◌, ◌++◌, String}
use vai.Common.Decimal.{u64_size}
use vai.EventLog.{Event, EventKind, rollback_created, version_created}
use vai.EventLog.Store as Log
use vai.EventLog.Store.{EventLog}
use vai.EventLog.Store.Replay.{append_all, append-append_all}
use vai.Issue.Labels.{append_text}
use vai.Version.{Result, ok, new_version, list_versions, next_version_id, max_number}
use vai.Version.Numbers.{create_version-next_version_id}
use vai.Version.Changes.{VersionChanges, get_version_changes}
use vai.Version.Rollback.{
  Repo, RollbackResult, rollback, restored, after_restore, note_rollback, conclude, with_changes,
}
use mathlib.Core.List.{append_assoc}

module _ (to_json : Event → List ℕ) (from_json : List ℕ → Option Event) where
  -- The two events of a rollback.
  abbrev pub rollback_calls : String → String → String → Option String → ℕ → List (EventKind × ℕ)
  rollback_calls version_id new_id head filter now =
      (rollback_created version_id new_id filter, now)
      ∷ (version_created new_id (some head) (append_text "rollback " version_id), now)
      ∷ []

  -- A rollback in a repository with a head, whose log is that of a run of `append`, only adds: two events
  -- behind those of the log, a version behind those listed, whose parent is the old head, and the new
  -- version is the head. It answers with that version and with the counts of the restored files. The numbers
  -- of the versions are taken to leave room below 2 ^ 64.
  pub rollback-appends :
      (version_id head : String) (filter : Option String) (now : ℕ) (repo : Repo)
      (changes : VersionChanges) (calls : List (EventKind × ℕ))
      → get_version_changes to_json from_json repo.log version_id repo.versions ≡ ok changes
      → repo.head ≡ some head
      → repo.log ≡ append_all to_json from_json calls Log.opened
      → max_number repo.versions + 1 < u64_size
      → let new_id = next_version_id repo.versions in
        let meta =
          new_version new_id (some head) (append_text "rollback " version_id) "agent" none now in
        let t = restored version_id filter changes repo in
        let (after, answer) = rollback to_json from_json version_id filter now repo in
        (after.log
          ≡ append_all to_json from_json
              (calls ++ rollback_calls version_id new_id head filter now)
              Log.opened)
        × (after.head ≡ some new_id)
        × (list_versions after.versions ≡ list_versions repo.versions ++ meta ∷ [])
        × (answer
            ≡ ok (record {
              new_version = meta;
              files_restored = t.files_restored;
              files_deleted = t.files_deleted;
            }))
  unfolding rollback
  rollback-appends version_id head filter now repo changes calls h k l m =
      let new_id = next_version_id repo.versions in
      let intent = append_text "rollback " version_id in
      let t = restored version_id filter changes repo in
      let repo' : Repo = record repo { files = t.files } in
      let first = rollback_created version_id new_id filter in
      let second = version_created new_id (some head) intent in
      let ran = λ (cs : List (EventKind × ℕ)). append_all to_json from_json cs Log.opened in
      let (e, one) = append-append_all to_json from_json calls first now in
      let (d, two) = append-append_all to_json from_json (calls ++ (first, now) ∷ []) second now in
      let whole =
        ap (with_changes to_json from_json version_id filter now repo) h
        ∙ ap
            (λ (o : Option String). after_restore to_json from_json version_id filter now t o repo')
            k
        ∙ ap (note_rollback to_json from_json version_id new_id head now t repo')
            (ap (Log.append to_json from_json first now) l ∙ one)
        ∙ ap (conclude to_json from_json version_id new_id head now t repo') two in
      (
        ap (λ (q : Repo × Result RollbackResult). q.0.log) whole
            ∙ ap ran (append_assoc calls ((first, now) ∷ []) ((second, now) ∷ [])),
        ap (λ (q : Repo × Result RollbackResult). q.0.head) whole,
        ap (λ (q : Repo × Result RollbackResult). list_versions q.0.versions) whole
            ∙ create_version-next_version_id (some head) intent "agent" none now repo.versions m,
        ap (λ (q : Repo × Result RollbackResult). q.1) whole,
      )

-- ===== src/Version/Rollback/Filter.antt =====
-- `rollback` of src/version/mod.rs with a filter on an entity.
use vai.Common.{
  ℕ, ◌≡◌, refl, Option, none, some, ◌⊎◌, inl, inr, ◌≢◌, List, [], ◌∷◌, String, Bool-cases, keep,
  All,
}
use vai.Common.Table.{All-append}
use vai.EventLog.{Event, EventKind, entity_added, entity_modified, entity_removed}
use vai.EventLog.Store as Log
use vai.EventLog.Store.{EventLog}
use vai.Version.{VersionMeta, Result, ok, err, ◌>>=◌, get_version}
use vai.Version.Changes.{
  VersionEntityChange, VersionFileChange, VersionChangeType, VersionChanges, entity_change,
  push_some, collect_changes, changes_of, changes_in_workspace, changes_since_merge,
  get_version_changes, from_log, merged_workspace,
}
use vai.Version.Rollback.{Repo, rollback, paths_of, is_matching}
use vai.Version.Rollback.Undo.{rollback-files, restore_files-closed}

-- Only an added entity comes with its file.
abbrev IsPlaced : VersionEntityChange → Type 0
IsPlaced c = (c.change_type ≡ VersionChangeType.added) ⊎ (c.file_path ≡ none)

abbrev IsPlacedSome : Option VersionEntityChange → Type 0
IsPlacedSome none = Unit
IsPlacedSome (some c) = IsPlaced c

entity_change-IsPlaced : (k : EventKind) → IsPlacedSome (entity_change k)
entity_change-IsPlaced (entity_added w e) = inl refl
entity_change-IsPlaced (entity_modified w e d) = inr refl
entity_change-IsPlaced (entity_removed w e) = inr refl
entity_change-IsPlaced k = tt

push_some-IsPlaced :
    (c : Option VersionEntityChange) (cs : List VersionEntityChange)
    → IsPlacedSome c
    → All IsPlaced cs
    → All IsPlaced (push_some c cs)
push_some-IsPlaced none cs h a = a
push_some-IsPlaced (some c) cs h a = All-append IsPlaced cs c a h

collect_changes-IsPlaced :
    (es : List Event) (entities : List VersionEntityChange) (files : List VersionFileChange)
    → All IsPlaced entities
    → All IsPlaced (collect_changes es entities files).0
unfolding collect_changes
collect_changes-IsPlaced [] entities files a = a
collect_changes-IsPlaced (e ∷ es) entities files a =
    collect_changes-IsPlaced es (push_some (entity_change e.kind) entities) _
      (push_some-IsPlaced (entity_change e.kind) entities (entity_change-IsPlaced e.kind) a)

-- A property of the result, where there is one.
abbrev Holds : Result VersionChanges → Type 0
Holds (ok c) = All IsPlaced c.entity_changes
Holds (err e) = Unit

Holds-bind :
    {A : Type 0} (m : Result A) (f : A → Result VersionChanges)
    → ((a : A) → Holds (f a))
    → Holds (m >>= f)
Holds-bind (ok a) f h = h a
Holds-bind (err e) f h = tt

module _ (to_json : Event → List ℕ) (from_json : List ℕ → Option Event) where
  changes_in_workspace-Holds :
      (log : EventLog) (v : VersionMeta) (w : Option ℕ)
      → Holds (changes_in_workspace to_json from_json log v w)
  changes_in_workspace-Holds log v none = tt
  changes_in_workspace-Holds log v (some w) =
      Holds-bind (from_log (Log.query_by_workspace to_json from_json w log))
        (λ events. ok (changes_of v events)) (λ events. collect_changes-IsPlaced events [] [] tt)

  changes_since_merge-Holds :
      (log : EventLog) (v : VersionMeta) (m : Option ℕ)
      → Holds (changes_since_merge to_json from_json log v m)
  changes_since_merge-Holds log v none = tt
  changes_since_merge-Holds log v (some id) =
      Holds-bind {A = Option Event} (from_log (Log.get_by_id to_json from_json id log))
        (λ o. changes_in_workspace to_json from_json log v (merged_workspace o))
        (λ o. changes_in_workspace-Holds log v (merged_workspace o))

  get_version_changes-Holds :
      (log : EventLog) (version_id : String) (versions : List VersionMeta)
      → Holds (get_version_changes to_json from_json log version_id versions)
  unfolding get_version_changes
  get_version_changes-Holds log version_id versions =
      Holds-bind (get_version version_id versions)
        (λ v. changes_since_merge to_json from_json log v v.merge_event_id)
        (λ v. changes_since_merge-Holds log v v.merge_event_id)

  paths_of-matching :
      (name : String) (cs : List VersionEntityChange)
      → All IsPlaced cs
      → All (λ c. c.change_type ≢ VersionChangeType.added) cs
      → paths_of (keep (is_matching name) cs) ≡ []
  paths_of-matching name [] a n = refl
  paths_of-matching name (c ∷ cs) (inl h, a) n = absurd (n.0 h)
  paths_of-matching name (c ∷ cs) (inr h, a) n = elim (Bool-cases (is_matching name c)) [
    | inl b ↦ rw b (rw (h, paths_of) (paths_of-matching name cs a n.1))
    | inr b ↦ rw b (paths_of-matching name cs a n.1)
  ]

  -- A rollback that is filtered by an entity, of a version that added no entity, changes no file, whatever
  -- entities and files the version modified or removed.
  pub rollback-filtered :
      (version_id name : String) (now : ℕ) (repo : Repo) (changes : VersionChanges)
      → get_version_changes to_json from_json repo.log version_id repo.versions ≡ ok changes
      → All (λ c. c.change_type ≢ VersionChangeType.added) changes.entity_changes
      → (rollback to_json from_json version_id (some name) now repo).0.files ≡ repo.files
  rollback-filtered version_id name now repo changes h n =
      let placed = rw h at (get_version_changes-Holds repo.log version_id repo.versions) in
      rw (rollback-files to_json from_json version_id (some name) now repo changes h) (
        rw (paths_of-matching name changes.entity_changes placed n)
          (rw (restore_files-closed (repo.snapshots version_id) changes.file_changes _) refl))

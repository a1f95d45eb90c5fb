-- ===== src/Version/Rollback/Undo.antt =====
-- What `rollback` of src/version/mod.rs does to the files of the repository.
use vai.Common.{
  ℕ, ◌≡◌, refl, sym, ◌∙◌, Option, none, some, false, inl, inr, List, [], ◌∷◌, String, ◌==◌,
  Bool-cases, map, All, arith,
}
use vai.Common.Eq.{string_equality}
use vai.Common.Sets.{contains}
use vai.EventLog.{Event}
use vai.EventLog.Store as Log
use vai.EventLog.Store.{EventLog}
use vai.Version.{ok}
use vai.Version.Changes.{
  VersionFileChange, VersionFileChangeType, VersionChanges, get_version_changes,
}
use vai.Version.Rollback.{
  FileTree, Restored, Repo, restore_file, restore_files, delete_file, copy_file, rollback, restored,
  after_restore, note_rollback, conclude,
}
use text.Mathlib.TextEquality.{eq_iff}

abbrev pub paths : List VersionFileChange → List String
paths cs = map (λ c. c.path) cs

-- What a change says of the tree before it, and what the snapshot has of that tree.
abbrev pub IsRecorded : FileTree → FileTree → VersionFileChangeType → String → Type 0
IsRecorded before snapshot VersionFileChangeType.added path = before path ≡ none
IsRecorded before snapshot VersionFileChangeType.modified path =
    (content : List ℕ) × (snapshot path ≡ some content) × (before path ≡ some content)
IsRecorded before snapshot VersionFileChangeType.removed path =
    (content : List ℕ) × (snapshot path ≡ some content) × (before path ≡ some content)

delete_file-here :
    (path : String) (content : Option (List ℕ)) (t : Restored)
    → t.files path ≡ content
    → (delete_file path content t).files path ≡ none
delete_file-here path none t h = h
delete_file-here path (some content) t h = rw ((eq_iff path path).1 refl) refl

delete_file-others :
    (path p : String) (content : Option (List ℕ)) (t : Restored)
    → (path == p) ≡ false
    → (delete_file path content t).files p ≡ t.files p
delete_file-others path p none t h = refl
delete_file-others path p (some content) t h = rw h refl

copy_file-here :
    (path : String) (content : List ℕ) (t : Restored)
    → (copy_file path (some content) t).files path ≡ some content
copy_file-here path content t = rw ((eq_iff path path).1 refl) refl

copy_file-others :
    (path p : String) (content : Option (List ℕ)) (t : Restored)
    → (path == p) ≡ false
    → (copy_file path content t).files p ≡ t.files p
copy_file-others path p none t h = refl
copy_file-others path p (some content) t h = rw h refl

restore_file-here :
    (before snapshot : FileTree) (path : String) (type : VersionFileChangeType) (t : Restored)
    → IsRecorded before snapshot type path
    → (restore_file snapshot path type t).files path ≡ before path
restore_file-here before snapshot path VersionFileChangeType.added t r =
    delete_file-here path (t.files path) t refl ∙ sym r
restore_file-here before snapshot path VersionFileChangeType.modified t (content, s, b) =
    rw s (copy_file-here path content t ∙ sym b)
restore_file-here before snapshot path VersionFileChangeType.removed t (content, s, b) =
    rw s (copy_file-here path content t ∙ sym b)

restore_file-others :
    (snapshot : FileTree) (path p : String) (type : VersionFileChangeType) (t : Restored)
    → (path == p) ≡ false
    → (restore_file snapshot path type t).files p ≡ t.files p
restore_file-others snapshot path p VersionFileChangeType.added t h =
    delete_file-others path p (t.files path) t h
restore_file-others snapshot path p VersionFileChangeType.modified t h =
    copy_file-others path p (snapshot path) t h
restore_file-others snapshot path p VersionFileChangeType.removed t h =
    copy_file-others path p (snapshot path) t h

-- The loop without a filter gives the tree before the changes, if it starts from one that differs from it
-- in the changed paths only.
restore_files-undoes :
    (before snapshot : FileTree) (cs : List VersionFileChange) (t : Restored)
    → All (λ c. IsRecorded before snapshot c.change_type c.path) cs
    → ((p : String) → contains p (paths cs) ≡ false → t.files p ≡ before p)
    → (p : String) → (restore_files snapshot none cs t).files p ≡ before p
unfolding restore_files
restore_files-undoes before snapshot [] t a h p = h p refl
restore_files-undoes before snapshot (c ∷ cs) t a h p =
    restore_files-undoes before snapshot cs (restore_file snapshot c.path c.change_type t) a.1
      (λ q out. elim (Bool-cases (c.path == q)) [
        | inl same ↦
            let e : c.path ≡ q = (eq_iff c.path q).0 same in
            rw (← e) (restore_file-here before snapshot c.path c.change_type t a.0)
        | inr other ↦
            restore_file-others snapshot c.path q c.change_type t other
            ∙ h q (ground (arith, other, out, eq_iff c.path q, eq_iff q c.path))
      ])
      p

pub restore_files-closed :
    (snapshot : FileTree) (cs : List VersionFileChange) (t : Restored)
    → restore_files snapshot (some []) cs t ≡ t
unfolding restore_files
restore_files-closed snapshot [] t = refl
restore_files-closed snapshot (c ∷ cs) t = restore_files-closed snapshot cs t

module _ (to_json : Event → List ℕ) (from_json : List ℕ → Option Event) where
  conclude-files :
      (version_id new_id head : String) (now : ℕ) (t : Restored) (repo : Repo)
      (r : EventLog × Log.Result Event)
      → (conclude to_json from_json version_id new_id head now t repo r).0.files ≡ repo.files
  conclude-files version_id new_id head now t repo (log, Log.err e) = refl
  conclude-files version_id new_id head now t repo (log, Log.ok e) = refl

  note_rollback-files :
      (version_id new_id head : String) (now : ℕ) (t : Restored) (repo : Repo)
      (r : EventLog × Log.Result Event)
      → (note_rollback to_json from_json version_id new_id head now t repo r).0.files ≡ repo.files
  note_rollback-files version_id new_id head now t repo (log, Log.err e) = refl
  note_rollback-files version_id new_id head now t repo (log, Log.ok e) =
      conclude-files version_id new_id head now t repo _

  after_restore-files :
      (version_id : String) (filter : Option String) (now : ℕ) (t : Restored) (head : Option String)
      (repo : Repo)
      → (after_restore to_json from_json version_id filter now t head repo).0.files ≡ repo.files
  after_restore-files version_id filter now t none repo = refl
  after_restore-files version_id filter now t (some head) repo =
      note_rollback-files version_id _ head now t repo _

  pub rollback-files :
      (version_id : String) (filter : Option String) (now : ℕ) (repo : Repo)
      (changes : VersionChanges)
      → get_version_changes to_json from_json repo.log version_id repo.versions ≡ ok changes
      → (rollback to_json from_json version_id filter now repo).0.files
        ≡ (restored version_id filter changes repo).files
  unfolding rollback
  rollback-files version_id filter now repo changes h =
      let t = restored version_id filter changes repo in
      rw (h, rollback)
        (after_restore-files version_id filter now t repo.head (record repo { files = t.files }))

  -- Rolling back a version whose changes are read gives the files from before it: where the repository
  -- differs from those only in the paths that the version changed, a file that the version added was not
  -- there, and the snapshot has what a modified or removed file held.
  pub rollback-undoes :
      (version_id : String) (now : ℕ) (repo : Repo) (changes : VersionChanges) (before : FileTree)
      → get_version_changes to_json from_json repo.log version_id repo.versions ≡ ok changes
      → All
          (λ c. IsRecorded before (repo.snapshots version_id) c.change_type c.path)
          changes.file_changes
      → ((p : String) → contains p (paths changes.file_changes) ≡ false → repo.files p ≡ before p)
      → (p : String) → (rollback to_json from_json version_id none now repo).0.files p ≡ before p
  rollback-undoes version_id now repo changes before h a same p =
      rw (rollback-files version_id none now repo changes h) (
        restore_files-undoes before (repo.snapshots version_id) changes.file_changes
          (record { files = repo.files; files_restored = 0; files_deleted = 0 }) a same p)

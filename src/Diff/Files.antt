-- ===== src/Diff/Files.antt =====
-- The file changes that `compute_with_fs` of src/diff/mod.rs reports.
use text.Mathlib.TextEquality.{eq_iff}
use vai.Common.{
  ℕ, Option, some, ◌≡◌, refl, sym, ap, ◌∙◌, inl, inr, Bool, true, false, not, ◌&&◌, ◌||◌, List, [],
  ◌∷◌, ◌++◌, String, ◌==◌, if◌then◌else◌, any, Bool-cases, arith,
}
use vai.Common.Partial.{>>=-eq-some}
use vai.Common.Eq.{string_equality, eq_flip}
use vai.Common.Sets.{contains}
use vai.Common.Any.{any-append}
use vai.Graph.{Entity, Relationship}
use vai.Diff.{
  FileDiff, FileChangeType, EntityChange, WorkspaceDiff, MergeFs, exists, file_diff, entity_diff,
  overlay_changes, deletions, compute_with_fs,
}

abbrev same_type : FileChangeType → FileChangeType → Bool
same_type FileChangeType.added FileChangeType.added = true
same_type FileChangeType.modified FileChangeType.modified = true
same_type FileChangeType.deleted FileChangeType.deleted = true
same_type _ _ = false

abbrev pub reports : String → FileChangeType → List FileDiff → Bool
reports p t ds = any (λ d. d.path == p && same_type d.change_type t) ds

-- How a file of the overlay has to be reported, by the presence of the path in the base.
abbrev expected : FileChangeType → Bool → Bool
expected FileChangeType.added there = not there
expected FileChangeType.modified there = there
expected FileChangeType.deleted there = false

same_type-if :
    (t : FileChangeType) (there : Bool)
    → same_type (if there then FileChangeType.modified else FileChangeType.added) t
      ≡ expected t there
same_type-if FileChangeType.added true = refl
same_type-if FileChangeType.added false = refl
same_type-if FileChangeType.modified true = refl
same_type-if FileChangeType.modified false = refl
same_type-if FileChangeType.deleted true = refl
same_type-if FileChangeType.deleted false = refl

same_type-deleted :
    (t : FileChangeType) (b : Bool) → (expected t b && same_type FileChangeType.deleted t) ≡ false
same_type-deleted FileChangeType.added b = ground arith
same_type-deleted FileChangeType.modified b = ground arith
same_type-deleted FileChangeType.deleted b = refl

both_parts : {a b c d : Bool} → a ≡ b → c ≡ d → (a || c) ≡ (b || d)
both_parts h k = cc

module _ (parse_rust_source : String → List ℕ → Option (List Entity × List Relationship))
    (sha256_hex : List ℕ → String) where
  reports-step :
      (base : List (String × List ℕ)) (f : String × List ℕ) (fs : List (String × List ℕ))
      (p : String) (t : FileChangeType)
      → (((f.0 == p)
            && same_type
                (if exists f.0 base then FileChangeType.modified else FileChangeType.added)
                t)
          || (exists p fs && expected t (exists p base)))
        ≡ (exists p (f ∷ fs) && expected t (exists p base))
  reports-step base f fs p t = elim (Bool-cases (f.0 == p)) [
    | inl here ↦
        let q : f.0 ≡ p = (eq_iff f.0 p).0 here in
        ground (arith, here, q, same_type-if t (exists f.0 base))
    | inr other ↦ ground (arith, other)
  ]

  reports-overlay_changes :
      (base fs : List (String × List ℕ)) (r : List FileDiff × List EntityChange) (p : String)
      (t : FileChangeType)
      → overlay_changes parse_rust_source sha256_hex base fs ≡ some r
      → reports p t r.0 ≡ (exists p fs && expected t (exists p base))
  unfolding overlay_changes
  reports-overlay_changes base [] r p t h = ground arith
  reports-overlay_changes base (f ∷ fs) r p t h =
      let (es, _, after) = >>=-eq-some (entity_diff parse_rust_source sha256_hex base f) _ h in
      let (tail, runs, done) =
        >>=-eq-some (overlay_changes parse_rust_source sha256_hex base fs) _ after in
      let same : (file_diff parse_rust_source sha256_hex base f ∷ tail.0, es ++ tail.1) ≡ r = cc in
      ap (λ (q : List FileDiff × List EntityChange). reports p t q.0) (sym same)
      ∙ ap
          (λ b.
            ((f.0 == p)
              && same_type
                  (if exists f.0 base then FileChangeType.modified else FileChangeType.added) t)
            || b)
          (reports-overlay_changes base fs tail p t runs)
      ∙ reports-step base f fs p t

  reports-deletions :
      (base : List (String × List ℕ)) (paths : List String) (p : String) (t : FileChangeType)
      → reports p t (deletions parse_rust_source sha256_hex base paths).0
        ≡ (same_type FileChangeType.deleted t && contains p paths && exists p base)
  unfolding deletions
  reports-deletions base [] p t = ground arith
  reports-deletions base (path ∷ paths) p t =
      let rest = reports-deletions base paths p t in
      elim (Bool-cases (exists path base)) [
        | inl there ↦ elim (Bool-cases (path == p)) [
          | inl here ↦
              let q : path ≡ p = (eq_iff path p).0 here in
              rw there (ground (arith, here, q, rest, eq_flip p path))
          | inr other ↦ rw there (ground (arith, other, rest, eq_flip p path))
        ]
        | inr gone ↦ elim (Bool-cases (path == p)) [
          | inl here ↦
              let q : path ≡ p = (eq_iff path p).0 here in
              rw gone (ground (arith, here, q, rest, eq_flip p path, gone))
          | inr other ↦ rw gone (ground (arith, other, rest, eq_flip p path))
        ]
      ]

  -- A diff that is computed reports a path as added exactly if the overlay has it and the base has not, as modified
  -- exactly if both have it, whatever the bytes, and as deleted exactly if it is among the deleted paths and the base
  -- has it.
  pub compute_with_fs-reports :
      (fs : MergeFs) (workspace_id : ℕ) (base_version : String) (deleted_paths : List String)
      (diff : WorkspaceDiff) (p : String)
      → compute_with_fs parse_rust_source sha256_hex fs workspace_id base_version deleted_paths
        ≡ some diff
      → (reports p FileChangeType.added diff.file_diffs
          ≡ (exists p fs.overlay && not (exists p fs.base)))
        × (reports p FileChangeType.modified diff.file_diffs
            ≡ (exists p fs.overlay && exists p fs.base))
        × (reports p FileChangeType.deleted diff.file_diffs
            ≡ (contains p deleted_paths && exists p fs.base))
  unfolding compute_with_fs
  compute_with_fs-reports fs workspace_id base_version deleted_paths diff p h =
      let (r, runs, done) =
        >>=-eq-some (overlay_changes parse_rust_source sha256_hex fs.base fs.overlay) _ h in
      let gone = (deletions parse_rust_source sha256_hex fs.base deleted_paths).0 in
      let whole : r.0 ++ gone ≡ diff.file_diffs = cc in
      let split : (t : FileChangeType)
          → reports p t diff.file_diffs ≡ (
              (exists p fs.overlay && expected t (exists p fs.base))
              || (same_type FileChangeType.deleted t
                  && contains p deleted_paths
                  && exists p fs.base)) =
        λ t.
          ap (reports p t) (sym whole)
          ∙ any-append (λ d. d.path == p && same_type d.change_type t) r.0 gone
          ∙ both_parts (reports-overlay_changes fs.base fs.overlay r p t runs)
              (reports-deletions fs.base deleted_paths p t) in
      (
        ground (arith, split FileChangeType.added),
        ground (arith, split FileChangeType.modified),
        ground (arith, split FileChangeType.deleted),
      )

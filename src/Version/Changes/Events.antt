-- ===== src/Version/Changes/Events.antt =====
-- `get_version_changes` of src/version/mod.rs against the abstract log: of several events of one path the
-- last one counts.
use Prim.Native.String.{compare}
use vai.Common.{
  ℕ, ◌≡◌, refl, ap, ◌∙◌, Option, some, none, inl, inr, List, [], ◌∷◌, String, ◌==◌, nat_eq,
  if◌then◌else◌, Bool-cases, keep, arith,
}
use vai.Common.Eq.{string_equality}
use vai.EventLog.{Event, workspace_id}
use vai.EventLog.Store as Log
use vai.EventLog.Store.{EventLog, same_id}
use vai.EventLog.Store.History.{Answers, first}
use vai.Version.{VersionMeta, Result, ok, get_version, ◌>>=◌}
use vai.Version.Changes.{
  VersionFileChange, VersionEntityChange, VersionChanges, file_change, put_change, put_some,
  collect_changes, insert_by_path, sort_by_path, changes_of, get_version_changes,
  changes_since_merge, changes_in_workspace, merged_workspace, from_log,
}
use text.Mathlib.Text.{is_le}
use text.Mathlib.TextEquality.{eq_iff}

abbrev pub find_change : String → List VersionFileChange → Option VersionFileChange
find_change p [] = none
find_change p (c ∷ cs) = if c.path == p then some c else find_change p cs

abbrev at_path : String → Option VersionFileChange → Option VersionFileChange
at_path p none = none
at_path p (some c) = if c.path == p then some c else none

abbrev pub or_else : Option VersionFileChange → Option VersionFileChange → Option VersionFileChange
or_else (some c) d = some c
or_else none d = d

-- The change that the last event of a path stands for.
abbrev pub last_change : String → List Event → Option VersionFileChange
last_change p [] = none
last_change p (e ∷ es) = or_else (last_change p es) (at_path p (file_change e.kind))

abbrev IsDistinctPaths : List VersionFileChange → Type 0
IsDistinctPaths [] = Unit
IsDistinctPaths (c ∷ cs) = (find_change c.path cs ≡ none) × IsDistinctPaths cs

find_change-put_change :
    (p : String) (c : VersionFileChange) (ds : List VersionFileChange)
    → find_change p (put_change c ds) ≡ (if c.path == p then some c else find_change p ds)
unfolding put_change
find_change-put_change p c [] = refl
find_change-put_change p c (d ∷ ds) =
    ground
      (arith, eq_iff d.path c.path, eq_iff d.path p, eq_iff c.path p, find_change-put_change p c ds)

find_change-put_some :
    (p : String) (c : Option VersionFileChange) (ds : List VersionFileChange)
    → find_change p (put_some c ds) ≡ or_else (at_path p c) (find_change p ds)
find_change-put_some p none ds = refl
find_change-put_some p (some c) ds = elim (Bool-cases (c.path == p)) [
  | inl b ↦ find_change-put_change p c ds ∙ rw b refl
  | inr b ↦ find_change-put_change p c ds ∙ rw b refl
]

or_else_assoc :
    (a b c : Option VersionFileChange) → or_else a (or_else b c) ≡ or_else (or_else a b) c
or_else_assoc none b c = refl
or_else_assoc (some x) b c = refl

find_change-collect_changes :
    (p : String) (es : List Event) (entities : List VersionEntityChange)
    (files : List VersionFileChange)
    → find_change p (collect_changes es entities files).1
      ≡ or_else (last_change p es) (find_change p files)
unfolding collect_changes
find_change-collect_changes p [] entities files = refl
find_change-collect_changes p (e ∷ es) entities files =
    find_change-collect_changes p es _ (put_some (file_change e.kind) files)
    ∙ ap (or_else (last_change p es)) (find_change-put_some p (file_change e.kind) files)
    ∙ or_else_assoc (last_change p es) (at_path p (file_change e.kind)) (find_change p files)

put_change-IsDistinctPaths :
    (c : VersionFileChange) (ds : List VersionFileChange)
    → IsDistinctPaths ds
    → IsDistinctPaths (put_change c ds)
unfolding put_change
put_change-IsDistinctPaths c [] d = (refl, tt)
put_change-IsDistinctPaths c (x ∷ ds) d = elim (Bool-cases (x.path == c.path)) [
  | inl b ↦ rw b (rw (← (eq_iff x.path c.path).0 b) d.0, d.1)
  | inr b ↦ rw b (
    ground (
      arith,
      b,
      eq_iff c.path x.path,
      eq_iff x.path c.path,
      find_change-put_change x.path c ds,
      d.0,
    ),
    put_change-IsDistinctPaths c ds d.1,
  )
]

put_some-IsDistinctPaths :
    (c : Option VersionFileChange) (ds : List VersionFileChange)
    → IsDistinctPaths ds
    → IsDistinctPaths (put_some c ds)
put_some-IsDistinctPaths none ds d = d
put_some-IsDistinctPaths (some c) ds d = put_change-IsDistinctPaths c ds d

collect_changes-IsDistinctPaths :
    (es : List Event) (entities : List VersionEntityChange) (files : List VersionFileChange)
    → IsDistinctPaths files
    → IsDistinctPaths (collect_changes es entities files).1
unfolding collect_changes
collect_changes-IsDistinctPaths [] entities files d = d
collect_changes-IsDistinctPaths (e ∷ es) entities files d =
    collect_changes-IsDistinctPaths es _ (put_some (file_change e.kind) files)
      (put_some-IsDistinctPaths (file_change e.kind) files d)

find_change-insert_by_path :
    (p : String) (c : VersionFileChange) (ds : List VersionFileChange)
    → find_change c.path ds ≡ none
    → find_change p (insert_by_path c ds) ≡ find_change p (c ∷ ds)
unfolding insert_by_path
find_change-insert_by_path p c [] h = refl
find_change-insert_by_path p c (d ∷ ds) h = elim (Bool-cases (is_le (compare c.path d.path))) [
  | inl b ↦ rw b refl
  | inr b ↦ elim (Bool-cases (d.path == c.path)) [
    | inl same ↦ cc (rw same at h)
    | inr other ↦
        let absent : find_change c.path ds ≡ none = rw other at h in
        rw b (
          ground (
            arith,
            other,
            eq_iff d.path c.path,
            eq_iff c.path p,
            eq_iff d.path p,
            find_change-insert_by_path p c ds absent,
          ))
  ]
]

find_change-sort_by_path :
    (p : String) (ds : List VersionFileChange)
    → IsDistinctPaths ds
    → find_change p (sort_by_path ds) ≡ find_change p ds
unfolding sort_by_path
find_change-sort_by_path p [] d = refl
find_change-sort_by_path p (c ∷ ds) d =
    find_change-insert_by_path p c (sort_by_path ds) (find_change-sort_by_path c.path ds d.1 ∙ d.0)
    ∙ ap (λ (r : Option VersionFileChange). if c.path == p then some c else r)
        (find_change-sort_by_path p ds d.1)

-- A version's list of file changes says of each path what the last event of it says.
changes_of-last_change :
    (v : VersionMeta) (p : String) (es : List Event)
    → find_change p (changes_of v es).file_changes ≡ last_change p es
changes_of-last_change v p es =
    find_change-sort_by_path p (collect_changes es [] []).1
      (collect_changes-IsDistinctPaths es [] [] tt)
    ∙ find_change-collect_changes p es [] []
    ∙ or_else-none (last_change p es)
  where
    or_else-none : (o : Option VersionFileChange) → or_else o none ≡ o
    or_else-none none = refl
    or_else-none (some c) = refl

module _ (to_json : Event → List ℕ) (from_json : List ℕ → Option Event) where
  -- For a version that has a merge event which carries a workspace, on a log that stands for a list of
  -- events, the changes are read without an error, and those of the files say of each path what the last
  -- event of the workspace with that path says.
  pub get_version_changes-last_change :
      (log : EventLog) (es : List Event) (version_id : String) (versions : List VersionMeta)
      (v : VersionMeta) (merge w : ℕ) (event : Event)
      → Answers to_json from_json log es
      → get_version version_id versions ≡ ok v
      → v.merge_event_id ≡ some merge
      → first (keep (λ e. nat_eq e.id merge) es) ≡ some event
      → workspace_id event.kind ≡ some w
      → (changes : VersionChanges) × (get_version_changes to_json from_json log version_id versions
          ≡ ok changes)
        × ((p : String)
            → find_change p changes.file_changes
              ≡ last_change p (keep (λ e. same_id (workspace_id e.kind) w) es))
  unfolding get_version_changes
  get_version_changes-last_change log es version_id versions v merge w event a g m f k =
      let own = keep (λ e. same_id (workspace_id e.kind) w) es in
      (
        changes_of v own,
        ap
              (λ (r : Result VersionMeta).
                r >>= λ u. changes_since_merge to_json from_json log u u.merge_event_id)
              g
            ∙ ap (changes_since_merge to_json from_json log v) m
            ∙ ap
                (λ (r : Log.Result (Option Event)). from_log r >>= λ o.
                  changes_in_workspace to_json from_json log v (merged_workspace o))
                (a.by_id merge)
            ∙ ap
                (λ (o : Option Event).
                  changes_in_workspace to_json from_json log v (merged_workspace o))
                f
            ∙ ap (changes_in_workspace to_json from_json log v) k
            ∙ ap (λ (r : Log.Result (List Event)). from_log r >>= λ evs. ok (changes_of v evs))
                (a.by_workspace w),
        λ p. changes_of-last_change v p own,
      )

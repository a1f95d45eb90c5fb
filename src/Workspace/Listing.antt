-- ===== src/Workspace/Listing.antt =====
-- What `list_all` and `list` of src/workspace/mod.rs show.
use vai.Common.{
  ℕ, ◌≡◌, ◌≢◌, refl, sym, ap, ◌∙◌, inl, inr, Bool, true, false, not, ◌||◌, List, [], ◌∷◌, leb,
  nat_eq, keep, any, All, Bool-cases, arith,
}
use vai.Workspace.{
  WorkspaceMeta, VaiDir, is_directory, insert_newest, sort_newest, read_all, list_filtered, list,
  list_all, is_inactive, discarded, merged,
}
use vai.Workspace.Directories.{IsNamed, has_id, has_id-names}
use vai.Workspace.Runs.{Operation, run_ops, empty_dir, live, IsSound-run_ops, IsSound-empty}

abbrev pub lists : ℕ → List WorkspaceMeta → Bool
lists id ms = any (λ m. nat_eq m.id id) ms

lists-insert_newest :
    (id : ℕ) (m : WorkspaceMeta) (ms : List WorkspaceMeta)
    → lists id (insert_newest m ms) ≡ (nat_eq m.id id || lists id ms)
unfolding insert_newest
lists-insert_newest id m [] = refl
lists-insert_newest id m (x ∷ ms) = ground (arith, lists-insert_newest id m ms)

lists-sort_newest : (id : ℕ) (ms : List WorkspaceMeta) → lists id (sort_newest ms) ≡ lists id ms
unfolding sort_newest
lists-sort_newest id [] = refl
lists-sort_newest id (m ∷ ms) =
    ground (arith, lists-insert_newest id m (sort_newest ms), lists-sort_newest id ms)

keep-all : (ms : List WorkspaceMeta) → keep (λ m. true) ms ≡ ms
keep-all [] = refl
keep-all (m ∷ ms) = ap (λ l. m ∷ l) (keep-all ms)

lists-read_all :
    (id : ℕ) (ds : List (ℕ × WorkspaceMeta))
    → All IsNamed ds
    → lists id (read_all ds) ≡ is_directory id ds
lists-read_all id [] a = refl
lists-read_all id (d ∷ ds) a = ground (arith, a.0, lists-read_all id ds a.1)

lists-list_all :
    (id : ℕ) (w : VaiDir)
    → All IsNamed w.workspaces
    → lists id (list_all w) ≡ is_directory id w.workspaces
unfolding list_filtered
lists-list_all id w a =
    lists-sort_newest id (keep (λ m. true) (read_all w.workspaces))
    ∙ ap (lists id) (keep-all (read_all w.workspaces))
    ∙ lists-read_all id w.workspaces a

All-insert_newest :
    (P : WorkspaceMeta → Type 0) (m : WorkspaceMeta) (ms : List WorkspaceMeta)
    → P m
    → All P ms
    → All P (insert_newest m ms)
unfolding insert_newest
All-insert_newest P m [] h a = (h, tt)
All-insert_newest P m (x ∷ ms) h a = elim (Bool-cases (leb x.created_at m.created_at)) [
  | inl newer ↦ rw (newer, All) (h, a)
  | inr older ↦ rw (older, All) (a.0, All-insert_newest P m ms h a.1)
]

All-sort_newest :
    (P : WorkspaceMeta → Type 0) (ms : List WorkspaceMeta) → All P ms → All P (sort_newest ms)
unfolding sort_newest
All-sort_newest P [] a = tt
All-sort_newest P (m ∷ ms) a = All-insert_newest P m (sort_newest ms) a.0 (All-sort_newest P ms a.1)

-- `list` shows this workspace.
abbrev pub IsListable : WorkspaceMeta → Type 0
IsListable m = (m.status ≢ discarded) × (m.status ≢ merged)

is_inactive-IsListable : (m : WorkspaceMeta) → is_inactive m.status ≡ false → IsListable m
is_inactive-IsListable m h =
    (λ s. cc (sym h ∙ ap is_inactive s), λ s. cc (sym h ∙ ap is_inactive s))

All-keep-IsListable :
    (ms : List WorkspaceMeta) → All IsListable (keep (λ m. not (is_inactive m.status)) ms)
All-keep-IsListable [] = tt
All-keep-IsListable (m ∷ ms) = elim (Bool-cases (is_inactive m.status)) [
  | inl settled ↦ rw (settled, All) (All-keep-IsListable ms)
  | inr open_one ↦ rw (open_one, All) (is_inactive-IsListable m open_one, All-keep-IsListable ms)
]

All-list : (w : VaiDir) → All IsListable (list w)
unfolding list_filtered
All-list w =
    All-sort_newest IsListable (keep (λ m. not (is_inactive m.status)) (read_all w.workspaces))
      (All-keep-IsListable (read_all w.workspaces))

-- After any sequence of operations on an empty .vai directory `list_all` lists exactly the workspaces that the event
-- log tells were created and not discarded since, so none between its discard and a creation under its id; and
-- `list` lists none whose status is discarded or merged.
pub list_all-live :
    (ops : List Operation)
    → ((id : ℕ)
        → lists id (list_all (run_ops ops empty_dir))
          ≡ has_id id (live (run_ops ops empty_dir).event_log))
      × All IsListable (list (run_ops ops empty_dir))
list_all-live ops =
    let w = run_ops ops empty_dir in
    let i = IsSound-run_ops ops empty_dir IsSound-empty in
    (
      λ id.
          lists-list_all id w i.named
          ∙ sym (has_id-names id w.workspaces)
          ∙ ap (has_id id) i.logged,
      All-list w,
    )

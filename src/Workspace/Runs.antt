-- ===== src/Workspace/Runs.antt =====
-- Sequences of the operations of src/workspace/mod.rs, against the workspaces that the event log tells of.
use vai.Common.{
  ℕ, Option, none, some, ◌≡◌, refl, sym, ap, ◌∙◌, ◌⊎◌, inl, inr, true, false, not, ◌&&◌, List, [],
  ◌∷◌, ◌++◌, String, nat_eq, nat_eq_iff, if◌then◌else◌, keep, All, Bool-cases, Option-cases, arith,
}
use vai.Common.Table.{find_key}
use vai.EventLog.{EventKind, workspace_created, workspace_discarded}
use vai.Workspace.Directories.{
  has_id, names, IsNamed, All-make_directory, All-remove_dir_all, All-write_meta,
  names-make_directory, names-remove_dir_all, names-write_meta, is_directory-make_directory,
  is_directory-write_meta, is_directory-remove_dir_all, find_key-IsNamed, find_key-is_directory,
  find_key-present,
}
use vai.Workspace.{
  WorkspaceMeta, VaiDir, ok, err, no_active_workspace, directory, is_directory, write_meta,
  new_meta, create_with_id, get, switch, is_inactive, remove_dir_all, clear_active, discard,
  discarded, or_default, active_workspace, update_meta,
}

pub data Operation : Type 0 where
  create_op : ℕ → ℕ → String → String → Operation
  switch_op : ℕ → Operation
  discard_op : ℕ → ℕ → Option String → Operation
  update_op : WorkspaceMeta → Operation

unfoldable pub run_op : Operation → VaiDir → VaiDir
run_op (create_op id now intent base_version) w = (create_with_id id now intent base_version w).0
run_op (switch_op id) w = (switch id w).0
run_op (discard_op id now reason) w = (discard id now reason w).0
run_op (update_op meta) w = (update_meta meta w).0

unfoldable pub run_ops : List Operation → VaiDir → VaiDir
run_ops [] w = w
run_ops (op ∷ ops) w = run_ops ops (run_op op w)

abbrev pub empty_dir : VaiDir
empty_dir = record { workspaces = []; active_file = none; event_log = [] }

-- The workspaces that an event leaves, by what it says.
abbrev pub after_event : List ℕ → EventKind → List ℕ
after_event ids (workspace_created id intent base) = if has_id id ids then ids else ids ++ id ∷ []
after_event ids (workspace_discarded id reason) = keep (λ i. not (nat_eq i id)) ids
after_event ids _ = ids

abbrev pub replay : List ℕ → List EventKind → List ℕ
replay ids [] = ids
replay ids (e ∷ es) = replay (after_event ids e) es

-- The workspaces that were created and not discarded since.
abbrev pub live : List EventKind → List ℕ
live es = replay [] es

replay-append :
    (ids : List ℕ) (es : List EventKind) (e : EventKind)
    → replay ids (es ++ e ∷ []) ≡ after_event (replay ids es) e
replay-append ids [] e = refl
replay-append ids (x ∷ es) e = replay-append (after_event ids x) es e

pub record IsSound (w : VaiDir) : Type 0 where
  pub named : All IsNamed w.workspaces
  pub logged : names w.workspaces ≡ live w.event_log
  pub pointed : (id : ℕ) → w.active_file ≡ some id → is_directory id w.workspaces ≡ true

IsSound-create :
    (id now : ℕ) (intent base : String) (w : VaiDir)
    → IsSound w
    → IsSound (create_with_id id now intent base w).0
unfolding create_with_id
IsSound-create id now intent base w i =
    let meta = new_meta id now intent base in
    let event = workspace_created id intent base in
    record {
      named = All-make_directory id meta w.workspaces refl i.named;
      logged =
          names-make_directory id meta w.workspaces
          ∙ ap (λ ids. after_event ids event) i.logged
          ∙ sym (replay-append [] w.event_log event);
      pointed = λ a h.
          let same : id ≡ a = cc in
          ground (arith, is_directory-make_directory a id meta w.workspaces, nat_eq_iff id a, same);
    }

IsSound-pointed :
    (id : ℕ) (d : ℕ × WorkspaceMeta) (w : VaiDir)
    → find_key directory id w.workspaces ≡ some d
    → IsSound w
    → IsSound (record w { active_file = some id })
IsSound-pointed id d w found i = record {
  named = i.named;
  logged = i.logged;
  pointed =
      λ a h. let same : id ≡ a = cc in rw same at (find_key-is_directory id w.workspaces d found);
}

clear_active-some :
    (id a : ℕ) (o : Option ℕ) → clear_active id o ≡ some a → (o ≡ some a) × (nat_eq a id ≡ false)
clear_active-some id a none h = cc
clear_active-some id a (some b) h = elim (Bool-cases (nat_eq b id)) [
  | inl here ↦ ground (arith, here)
  | inr other ↦ ground (arith, other)
]

IsSound-switch : (id : ℕ) (w : VaiDir) → IsSound w → IsSound (switch id w).0
unfolding switch get
IsSound-switch id w i = elim (Option-cases (find_key directory id w.workspaces)) [
  | inl missing ↦ rw missing i
  | inr (d, found) ↦ rw found (elim (Bool-cases (is_inactive d.1.status)) [
    | inl settled ↦ rw settled i
    | inr usable ↦ rw usable (IsSound-pointed id d w found i)
  ])
]

IsSound-removed :
    (id now : ℕ) (reason : String) (d : ℕ × WorkspaceMeta) (w : VaiDir)
    → find_key directory id w.workspaces ≡ some d
    → IsSound w
    → IsSound (record {
      workspaces =
          remove_dir_all id
            (write_meta id (record d.1 { status = discarded; updated_at = now }) w.workspaces);
      active_file = clear_active id w.active_file;
      event_log = w.event_log ++ workspace_discarded d.1.id reason ∷ [];
    })
IsSound-removed id now reason d w found i =
    let gone : WorkspaceMeta = record d.1 { status = discarded; updated_at = now } in
    let written = write_meta id gone w.workspaces in
    let same : d.1.id ≡ id = find_key-IsNamed id w.workspaces d i.named found in
    record {
      named = All-remove_dir_all id written (All-write_meta id gone w.workspaces same i.named);
      logged =
          names-remove_dir_all id written
          ∙ ap (keep (λ j. not (nat_eq j id))) (names-write_meta id gone w.workspaces ∙ i.logged)
          ∙ ap (λ k. keep (λ j. not (nat_eq j k)) (live w.event_log)) (sym same)
          ∙ sym (replay-append [] w.event_log (workspace_discarded d.1.id reason));
      pointed = λ a h.
          let kept = clear_active-some id a w.active_file h in
          let there = i.pointed a kept.0 in
          is_directory-remove_dir_all a id written
          ∙ ap (λ b. b && not (nat_eq a id)) (is_directory-write_meta a id gone w.workspaces)
          ∙ ground arith;
    }

IsSound-discard :
    (id now : ℕ) (reason : Option String) (w : VaiDir)
    → IsSound w
    → IsSound (discard id now reason w).0
unfolding discard get
IsSound-discard id now reason w i = elim (Option-cases (find_key directory id w.workspaces)) [
  | inl missing ↦ rw missing i
  | inr (d, found) ↦ rw found (IsSound-removed id now (or_default reason) d w found i)
]

pub IsSound-update :
    (meta : WorkspaceMeta) (w : VaiDir) → IsSound w → IsSound (update_meta meta w).0
unfolding update_meta
IsSound-update meta w i = elim (Bool-cases (is_directory meta.id w.workspaces)) [
  | inl there ↦ rw there (record {
    named = All-write_meta meta.id meta w.workspaces refl i.named;
    logged = names-write_meta meta.id meta w.workspaces ∙ i.logged;
    pointed = λ a h. is_directory-write_meta a meta.id meta w.workspaces ∙ i.pointed a h;
  })
  | inr missing ↦ rw missing i
]

IsSound-run_op : (op : Operation) (w : VaiDir) → IsSound w → IsSound (run_op op w)
unfolding run_op
IsSound-run_op (create_op id now intent base) w i = IsSound-create id now intent base w i
IsSound-run_op (switch_op id) w i = IsSound-switch id w i
IsSound-run_op (discard_op id now reason) w i = IsSound-discard id now reason w i
IsSound-run_op (update_op meta) w i = IsSound-update meta w i

pub IsSound-run_ops : (ops : List Operation) (w : VaiDir) → IsSound w → IsSound (run_ops ops w)
unfolding run_ops
IsSound-run_ops [] w i = i
IsSound-run_ops (op ∷ ops) w i = IsSound-run_ops ops (run_op op w) (IsSound-run_op op w i)

pub IsSound-empty : IsSound empty_dir
IsSound-empty = record { named = tt; logged = refl; pointed = λ a h. cc }

active_workspace-found :
    (w : VaiDir)
    → IsSound w
    → (active_workspace w ≡ err no_active_workspace)
      ⊎ ((meta : WorkspaceMeta) × (active_workspace w ≡ ok meta))
unfolding active_workspace get
active_workspace-found w i = elim (Option-cases w.active_file) [
  | inl nowhere ↦ inl (rw nowhere refl)
  | inr (id, here) ↦
      let there = find_key-present id w.workspaces (i.pointed id here) in
      inr (there.0.1, rw here (rw there.1 refl))
]

-- Over any sequence of operations on an empty .vai directory, failed ones included, the workspaces on disk are
-- those that the event log tells were created and not discarded since, and the active workspace is either not set
-- or can be read.
pub run_ops-live :
    (ops : List Operation)
    → (names (run_ops ops empty_dir).workspaces ≡ live (run_ops ops empty_dir).event_log)
      × ((active_workspace (run_ops ops empty_dir) ≡ err no_active_workspace)
          ⊎ ((meta : WorkspaceMeta) × (active_workspace (run_ops ops empty_dir) ≡ ok meta)))
run_ops-live ops =
    let i = IsSound-run_ops ops empty_dir IsSound-empty in
    (i.logged, active_workspace-found (run_ops ops empty_dir) i)

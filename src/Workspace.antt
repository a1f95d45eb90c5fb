-- ===== src/Workspace.antt =====
-- src/workspace/mod.rs: the workspaces under .vai/workspaces, the file that names the active one, and the event log.
-- A directory holds its meta.toml from its creation on; reading and writing it, and removing a directory, is taken
-- to succeed where the directory exists. A path component `id` is the text of a UUID and stands here for the UUID
-- that it names, a number. The overlay files are left out.
pub mod Directories
pub mod Listing
pub mod Runs
mod Tests
use vai.Common.{
  ℕ, Option, none, some, Bool, true, false, not, ◌&&◌, ◌||◌, List, [], ◌∷◌, ◌++◌, String, leb,
  nat_eq, if◌then◌else◌, keep, any,
}
use vai.Common.Table.{find_key}
use vai.EventLog.{EventKind, workspace_created, workspace_discarded}

pub data WorkspaceStatus : Type 0 where
  created : WorkspaceStatus
  active : WorkspaceStatus
  submitted : WorkspaceStatus
  merged : WorkspaceStatus
  discarded : WorkspaceStatus

-- `not_found` has the id, and for `switch` the status that its text names.
pub data WorkspaceError : Type 0 where
  io : WorkspaceError
  not_found : ℕ → Option WorkspaceStatus → WorkspaceError
  no_active_workspace : WorkspaceError

pub data Outcome (A : Type 0) : Type 0 where
  ok : A → Outcome A
  err : WorkspaceError → Outcome A

pub record WorkspaceMeta : Type 0 where
  pub id : ℕ
  pub intent : String
  pub base_version : String
  pub status : WorkspaceStatus
  pub created_at : ℕ
  pub updated_at : ℕ
  pub issue_id : Option ℕ
  pub deleted_paths : List String

-- The directories in the order in which `read_dir` lists them, and the content of the file `active`.
pub record VaiDir : Type 0 where
  pub workspaces : List (ℕ × WorkspaceMeta)
  pub active_file : Option ℕ
  pub event_log : List EventKind

-- `workspaces/<id>/meta.toml`.
abbrev pub directory : ℕ × WorkspaceMeta → ℕ
directory d = d.0

abbrev pub is_directory : ℕ → List (ℕ × WorkspaceMeta) → Bool
is_directory id ds = any (λ d. nat_eq d.0 id) ds

-- Writes the file in a directory that exists.
unfoldable pub write_meta : ℕ → WorkspaceMeta → List (ℕ × WorkspaceMeta) → List (ℕ × WorkspaceMeta)
write_meta id meta [] = []
write_meta id meta (d ∷ ds) = (if nat_eq d.0 id then (id, meta) else d) ∷ write_meta id meta ds

-- `create_dir_all` and the write of the new file.
unfoldable pub make_directory :
    ℕ → WorkspaceMeta → List (ℕ × WorkspaceMeta) → List (ℕ × WorkspaceMeta)
make_directory id meta ds =
    if is_directory id ds then write_meta id meta ds else ds ++ (id, meta) ∷ []

abbrev pub new_meta : ℕ → ℕ → String → String → WorkspaceMeta
new_meta id now intent base_version = record {
  id = id;
  intent = intent;
  base_version = base_version;
  status = created;
  created_at = now;
  updated_at = now;
  issue_id = none;
  deleted_paths = [];
}

unfoldable pub create_with_id : ℕ → ℕ → String → String → VaiDir → VaiDir × WorkspaceMeta
create_with_id id now intent base_version w =
    let meta = new_meta id now intent base_version in
    (
      record {
        workspaces = make_directory id meta w.workspaces;
        active_file = some id;
        event_log = w.event_log ++ workspace_created id intent base_version ∷ [];
      },
      meta,
    )

abbrev pub is_inactive : WorkspaceStatus → Bool
is_inactive merged = true
is_inactive discarded = true
is_inactive _ = false

-- The stable sort by the time of creation, newest first.
unfoldable pub insert_newest : WorkspaceMeta → List WorkspaceMeta → List WorkspaceMeta
insert_newest m [] = m ∷ []
insert_newest m (x ∷ xs) =
    if leb x.created_at m.created_at then m ∷ x ∷ xs else x ∷ insert_newest m xs

unfoldable pub sort_newest : List WorkspaceMeta → List WorkspaceMeta
unfolding insert_newest
sort_newest [] = []
sort_newest (x ∷ xs) = insert_newest x (sort_newest xs)

abbrev pub read_all : List (ℕ × WorkspaceMeta) → List WorkspaceMeta
read_all [] = []
read_all (d ∷ ds) = d.1 ∷ read_all ds

unfoldable pub list_filtered : Bool → VaiDir → List WorkspaceMeta
list_filtered include_inactive w =
    sort_newest (keep (λ m. include_inactive || not (is_inactive m.status)) (read_all w.workspaces))

abbrev pub list : VaiDir → List WorkspaceMeta
list w = list_filtered false w

abbrev pub list_all : VaiDir → List WorkspaceMeta
list_all w = list_filtered true w

abbrev pub read_meta : ℕ → Option (ℕ × WorkspaceMeta) → Outcome WorkspaceMeta
read_meta id none = err (not_found id none)
read_meta id (some d) = ok d.1

unfoldable pub get : ℕ → VaiDir → Outcome WorkspaceMeta
get id w = read_meta id (find_key directory id w.workspaces)

abbrev pub switch_to : ℕ → Outcome WorkspaceMeta → VaiDir → VaiDir × Outcome WorkspaceMeta
switch_to id (err e) w = (w, err e)
switch_to id (ok meta) w =
    if is_inactive meta.status
    then (w, err (not_found id (some meta.status)))
    else (record w { active_file = some id }, ok meta)

unfoldable pub switch : ℕ → VaiDir → VaiDir × Outcome WorkspaceMeta
unfolding get
switch id w = switch_to id (get id w) w

abbrev pub remove_dir_all : ℕ → List (ℕ × WorkspaceMeta) → List (ℕ × WorkspaceMeta)
remove_dir_all id ds = keep (λ d. not (nat_eq d.0 id)) ds

abbrev pub or_default : Option String → String
or_default none = "discarded by user"
or_default (some reason) = reason

-- The pointer is cleared if it names the workspace.
abbrev pub clear_active : ℕ → Option ℕ → Option ℕ
clear_active id none = none
clear_active id (some a) = if nat_eq a id then none else some a

abbrev pub discard_found :
    ℕ → ℕ → Option String → Outcome WorkspaceMeta → VaiDir → VaiDir × Outcome WorkspaceMeta
discard_found id now reason (err e) w = (w, err e)
discard_found id now reason (ok meta) w =
    let gone = record meta { status = discarded; updated_at = now } in
    (
      record {
        workspaces = remove_dir_all id (write_meta id gone w.workspaces);
        active_file = clear_active id w.active_file;
        event_log = w.event_log ++ workspace_discarded meta.id (or_default reason) ∷ [];
      },
      ok gone,
    )

unfoldable pub discard : ℕ → ℕ → Option String → VaiDir → VaiDir × Outcome WorkspaceMeta
unfolding get write_meta
discard id now reason w = discard_found id now reason (get id w) w

abbrev pub active_id : VaiDir → Option ℕ
active_id w = w.active_file

unfoldable pub active_workspace : VaiDir → Outcome WorkspaceMeta
unfolding get
active_workspace w = elim (active_id w) [ none ↦ err no_active_workspace | some id ↦ get id w ]

-- The write fails where there is no directory.
unfoldable pub update_meta : WorkspaceMeta → VaiDir → VaiDir × Outcome Unit
unfolding write_meta
update_meta meta w =
    if is_directory meta.id w.workspaces
    then (record w { workspaces = write_meta meta.id meta w.workspaces }, ok tt)
    else (w, err io)

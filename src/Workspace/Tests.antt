-- ===== src/Workspace/Tests.antt =====
-- Runs of the workspaces, and the instances of their theorems.
use vai.Common.{none, ◌≡◌, refl, ◌⊎◌, List, [], ◌∷◌}
use vai.Common.Table.{find_key}
use vai.Workspace.{
  WorkspaceMeta, err, ok, no_active_workspace, active_workspace, list_all, discard, get,
  create_with_id, make_directory, write_meta, switch,
}
use vai.Workspace.Directories.{names, has_id}
use vai.Workspace.Runs.{
  Operation, create_op, switch_op, discard_op, run_op, run_ops, empty_dir, live, run_ops-live,
}
use vai.Common.{ℕ, All}
use vai.Workspace.{list}
use vai.Workspace.Listing.{lists, IsListable, list_all-live}

abbrev session : List Operation
session =
    create_op 1 10 "fix auth" "v1"
    ∷ create_op 2 11 "add cache" "v1"
    ∷ discard_op 2 12 none
    ∷ switch_op 2
    ∷ []

session-live : live (run_ops session empty_dir).event_log ≡ 1 ∷ []
unfolding run_ops run_op create_with_id make_directory write_meta discard get find_key switch
session-live = refl

run_ops-live_example :
    (names (run_ops session empty_dir).workspaces ≡ live (run_ops session empty_dir).event_log)
    × ((active_workspace (run_ops session empty_dir) ≡ err no_active_workspace)
        ⊎ ((meta : WorkspaceMeta) × (active_workspace (run_ops session empty_dir) ≡ ok meta)))
run_ops-live_example = run_ops-live session

list_all-live_example :
    ((id : ℕ)
      → lists id (list_all (run_ops session empty_dir))
        ≡ has_id id (live (run_ops session empty_dir).event_log))
    × All IsListable (list (run_ops session empty_dir))
list_all-live_example = list_all-live session

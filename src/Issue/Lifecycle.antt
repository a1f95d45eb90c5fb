-- ===== src/Issue/Lifecycle.antt =====
-- The states of an issue under the operations of src/issue/mod.rs.
pub mod Outcomes
pub mod Runs
use vai.Common.{
  ℕ, ◌≡◌, refl, inl, inr, Option, none, some, Bool, true, false, List, [], ◌∷◌, ◌++◌, String,
  nat_eq, nat_eq_iff, if◌then◌else◌, arith, Bool-cases, Option-cases, ◌⊎◌, sym, ◌∙◌, ap, ◌≢◌, any,
  ◌&&◌,
}
use vai.Issue.{
  IssueStatus, open_status, in_progress, resolved, closed, Issue, IssueRow, IssuePriority,
  row_to_issue, status_from_db_str, status_from_db_str-as_str, unwrap_or, status_as_str,
}
use vai.EventLog.{EventKind}
use vai.Issue.Store.{
  World, LinkRow, append, link, started, reopened, resolved_as, closed_as, read_back, Result, ok,
  err, not_found, invalid_transition, find_row, update_rows, read_row, get, set_in_progress, reopen,
  resolve, close, create,
}
use vai.Issue.Update.{update}
use vai.Issue.Rows.{status_in, status_at, find_row-update_rows, find_row-id}

-- The operations on an issue that is there, with their arguments.
pub data Op : Type 0 where
  set_in_progress_op : ℕ → ℕ → ℕ → Op
  reopen_op : ℕ → ℕ → Op
  resolve_op : ℕ → Option String → ℕ → Op
  close_op : ℕ → String → ℕ → Op
  update_op :
      ℕ → Option String → Option String → Option IssuePriority → Option (List String) → ℕ → Op

abbrev pub run_op : Op → World → World × Result Issue
run_op (set_in_progress_op id workspace now) w = set_in_progress id workspace now w
run_op (reopen_op id now) w = reopen id now w
run_op (resolve_op id version now) w = resolve id version now w
run_op (close_op id resolution now) w = close id resolution now w
run_op (update_op id title description priority labels now) w =
    update id title description priority labels now w

abbrev pub target : Op → ℕ
target (set_in_progress_op id workspace now) = id
target (reopen_op id now) = id
target (resolve_op id version now) = id
target (close_op id resolution now) = id
target (update_op id title description priority labels now) = id

-- The table of moves, as the documentation of the states draws it; `none` is a refused move.
abbrev pub next : Op → IssueStatus → Option IssueStatus
next (set_in_progress_op id workspace now) open_status = some in_progress
next (set_in_progress_op id workspace now) in_progress = some in_progress
next (set_in_progress_op id workspace now) resolved = none
next (set_in_progress_op id workspace now) closed = none
next (reopen_op id now) in_progress = some open_status
next (reopen_op id now) open_status = none
next (reopen_op id now) resolved = none
next (reopen_op id now) closed = none
next (resolve_op id version now) open_status = some resolved
next (resolve_op id version now) in_progress = some resolved
next (resolve_op id version now) resolved = none
next (resolve_op id version now) closed = none
next (close_op id resolution now) s = some closed
next (update_op id title description priority labels now) s = some s

abbrev goal : Op → String
goal (set_in_progress_op id workspace now) = "in_progress"
goal (reopen_op id now) = "open"
goal (resolve_op id version now) = "resolved"
goal (close_op id resolution now) = "closed"
goal (update_op id title description priority labels now) = ""

-- A move that is made reads back the issue in its new state; one that is refused changes nothing.
abbrev pub Outcome : Op → World → Option IssueStatus → IssueStatus → Type 0
Outcome op w (some s') s =
    (i : Issue) × ((run_op op w).1 ≡ ok i)
    × (i.status ≡ s')
    × (status_at (target op) (run_op op w).0 ≡ some s')
Outcome op w none s = run_op op w ≡ (w, err (invalid_transition (status_as_str s) (goal op)))

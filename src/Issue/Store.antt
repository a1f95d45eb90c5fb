-- ===== src/Issue/Store.antt =====
-- `IssueStore` of src/issue/mod.rs: the tables, the event log, and the operations that create an issue
-- and move it through its states. SQL statements are taken to succeed. `now` and the fresh ids stand for
-- `Utc::now()` and `Uuid::new_v4()`.
use vai.Common.{
  ℕ, Option, none, some, Bool, true, false, not, ◌&&◌, List, [], ◌∷◌, ◌++◌, String, ◌==◌, nat_eq,
  keep, any, length, if◌then◌else◌,
}
use vai.Common.Eq.{string_equality}
use vai.EventLog.{
  EventKind, issue_created, issue_updated, issue_linked_to_workspace, issue_resolved, issue_closed,
}
use vai.Issue.Labels.{join_labels}
use vai.Issue.{
  IssuePriority, IssueStatus, open_status, in_progress, AgentSource, Issue, IssueRow, row_to_issue,
  priority_as_str, status_as_str,
}

pub data IssueError : Type 0 where
  not_found : ℕ → IssueError
  invalid_transition : String → String → IssueError
  rate_limit_exceeded : String → ℕ → ℕ → IssueError

pub data Result (A : Type 0) : Type 0 where
  ok : A → Result A
  err : IssueError → Result A

pub record RateRow : Type 0 where
  pub agent_id : String
  pub hour_bucket : String
  pub count : ℕ

pub record LinkRow : Type 0 where
  pub issue_id : ℕ
  pub workspace_id : ℕ
  pub linked_at : ℕ

-- The tables `issues`, `issue_workspace_links` and `agent_rate_limits`, and the event log.
pub record World : Type 0 where
  pub issues : List IssueRow
  pub links : List LinkRow
  pub rate_limits : List RateRow
  pub event_log : List EventKind

-- `SELECT ... FROM issues WHERE id = ?`.
unfoldable pub find_row : ℕ → List IssueRow → Option IssueRow
find_row id [] = none
find_row id (r ∷ rows) = if nat_eq r.id id then some r else find_row id rows

-- `UPDATE issues SET ... WHERE id = ?`.
unfoldable pub update_rows : ℕ → (IssueRow → IssueRow) → List IssueRow → List IssueRow
update_rows id set [] = []
update_rows id set (r ∷ rows) = (if nat_eq r.id id then set r else r) ∷ update_rows id set rows

abbrev pub read_row : ℕ → Option IssueRow → Result Issue
read_row id none = err (not_found id)
read_row id (some r) = ok (row_to_issue r)

unfoldable pub get : ℕ → World → Result Issue
get id w = read_row id (find_row id w.issues)

abbrev pub append : EventKind → World → World
append event w = record w { event_log = w.event_log ++ event ∷ [] }

abbrev pub set_rows : ℕ → (IssueRow → IssueRow) → World → World
set_rows id set w = record w { issues = update_rows id set w.issues }

-- The row that `create` and `create_by_agent` insert, in the state 'open'.
abbrev pub new_row :
    ℕ → ℕ → String → String → IssuePriority → List String → String → Option AgentSource → IssueRow
new_row id now title description priority labels creator source = record {
  id = id;
  title = title;
  description = description;
  status = "open";
  priority = priority_as_str priority;
  labels = join_labels labels;
  creator = creator;
  resolution = none;
  agent_source = source;
  acceptance_criteria = [];
  created_at = now;
  updated_at = now;
}

abbrev pub new_issue :
    ℕ → ℕ → String → String → IssuePriority → List String → String → Option AgentSource → Issue
new_issue id now title description priority labels creator source = record {
  id = id;
  title = title;
  description = description;
  status = open_status;
  priority = priority;
  labels = labels;
  creator = creator;
  resolution = none;
  agent_source = source;
  acceptance_criteria = [];
  created_at = now;
  updated_at = now;
}

unfoldable pub create :
    ℕ → ℕ → String → String → IssuePriority → List String → String → World → World × Issue
create id now title description priority labels creator w =
    let row = new_row id now title description priority labels creator none in
    let inserted = record w { issues = w.issues ++ row ∷ [] } in
    (
      append (issue_created id title creator (priority_as_str priority)) inserted,
      new_issue id now title description priority labels creator none,
    )

abbrev pub is_open : IssueStatus → Bool
is_open open_status = true
is_open _ = false

abbrev pub is_in_progress : IssueStatus → Bool
is_in_progress in_progress = true
is_in_progress _ = false

abbrev pub refuse : IssueStatus → String → World → World × Result Issue
refuse from to w = (w, err (invalid_transition (status_as_str from) to))

-- `INSERT OR IGNORE INTO issue_workspace_links`.
abbrev pub link : ℕ → ℕ → ℕ → World → World
link id workspace now w =
    if any (λ (l : LinkRow). nat_eq l.issue_id id && nat_eq l.workspace_id workspace) w.links
    then w
    else record w {
      links = w.links ++ record { issue_id = id; workspace_id = workspace; linked_at = now } ∷ [];
    }

-- The statements that an operation runs once its guard has passed.
abbrev pub started : ℕ → ℕ → ℕ → World → World
started id workspace now w =
    let updated = set_rows id (λ r. record r { status = "in_progress"; updated_at = now }) w in
    append (issue_linked_to_workspace id workspace) (link id workspace now updated)

abbrev pub reopened : ℕ → ℕ → World → World
reopened id now w =
    append (issue_updated id ("status" ∷ []))
      (set_rows id (λ r. record r { status = "open"; updated_at = now }) w)

abbrev pub resolved_as : ℕ → Option String → ℕ → World → World
resolved_as id version now w = append (issue_resolved id "resolved" version) (
    set_rows id
      (λ r. record r { status = "resolved"; resolution = some "resolved"; updated_at = now }) w)

abbrev pub closed_as : ℕ → String → ℕ → World → World
closed_as id resolution now w = append (issue_closed id resolution) (
    set_rows id
      (λ r. record r { status = "closed"; resolution = some resolution; updated_at = now }) w)

-- `self.get(id)` after the statements.
abbrev pub read_back : ℕ → World → World × Result Issue
read_back id after = (after, get id after)

unfoldable pub set_in_progress : ℕ → ℕ → ℕ → World → World × Result Issue
set_in_progress id workspace now w = elim (get id w) [
  | err e ↦ (w, err e)
  | ok existing ↦
      if not (is_open existing.status) && not (is_in_progress existing.status)
      then refuse existing.status "in_progress" w
      else read_back id (started id workspace now w)
]

unfoldable pub reopen : ℕ → ℕ → World → World × Result Issue
reopen id now w = elim (get id w) [
  | err e ↦ (w, err e)
  | ok existing ↦
      if not (is_in_progress existing.status)
      then refuse existing.status "open" w
      else read_back id (reopened id now w)
]

unfoldable pub resolve : ℕ → Option String → ℕ → World → World × Result Issue
resolve id version now w = elim (get id w) [
  | err e ↦ (w, err e)
  | ok existing ↦
      if not (is_in_progress existing.status) && not (is_open existing.status)
      then refuse existing.status "resolved" w
      else read_back id (resolved_as id version now w)
]

unfoldable pub close : ℕ → String → ℕ → World → World × Result Issue
close id resolution now w = elim (get id w) [
  | err e ↦ (w, err e)
  | ok existing ↦ read_back id (closed_as id resolution now w)
]

-- `SELECT COUNT(*) FROM issues WHERE status = 'open'`.
unfoldable pub count_open : World → ℕ
count_open w = length (keep (λ (r : IssueRow). r.status == "open") w.issues)

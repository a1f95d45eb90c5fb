-- ===== src/WorkQueue/Tests.antt =====
-- Runs of the work queue, and the instances of its theorems.
use vai.Common.{◌≡◌, refl, none, false, [], ◌∷◌, String, any}
use vai.Common.Sort.{sort_by_key}
use vai.Conflict.Engine.{ConflictEngine, all_scopes}
use vai.Issue.{IssueRow, row_to_issue, open_status, status_from_db_str}
use vai.Issue.Store.{World, ok, get, find_row}
use vai.WorkQueue.{
  ScopePrediction, high_confidence, conflicts_with, compute, open_issues, issue_text, split_work,
}
use vai.WorkQueue.Queue.{blocked_ids}
use vai.WorkQueue.Claim.{QueueWorld, claim, unclaimed, issue_not_open, claim-once}

-- Everything that is asked touches the entity "login".
abbrev login_scope : String → ScopePrediction
login_scope text = record {
  entities =
      record { id = "login"; name = "login"; file_path = "auth.rs"; confidence = high_confidence }
      ∷ [];
  files = "auth.rs" ∷ [];
  blast_radius = 1;
}

abbrev row : IssueRow
row = record {
  id = 1;
  title = "fix login";
  description = "";
  status = "open";
  priority = "high";
  labels = "";
  creator = "ann";
  resolution = none;
  agent_source = none;
  acceptance_criteria = [];
  created_at = 1;
  updated_at = 1;
}

abbrev store : World
store = record { issues = row ∷ []; links = []; rate_limits = []; event_log = [] }

abbrev quiet : QueueWorld
quiet = record { store = store; workspaces = [] }

abbrev busy : ConflictEngine
busy =
    (
      5,
      record {
        workspace_id = 5;
        intent = "auth";
        write_files = "auth.rs" ∷ [];
        write_entities = [];
        blast_radius = [];
      },
    )
    ∷ []

held_back : blocked_ids (compute login_scope busy store).1 ≡ 1 ∷ []
unfolding compute split_work open_issues all_scopes sort_by_key row_to_issue
held_back = refl

found : get 1 store ≡ ok (row_to_issue row)
unfolding get find_row
found = refl

is_open_now : (row_to_issue row).status ≡ open_status
unfolding row_to_issue status_from_db_str
is_open_now = refl

nothing_in_flight :
    any (conflicts_with (login_scope (issue_text (row_to_issue row)))) (all_scopes []) ≡ false
unfolding all_scopes
nothing_in_flight = refl

claim-once_example :
    claim login_scope busy 1 10 6 (claim login_scope [] 1 9 5 quiet).0
    ≡ ((claim login_scope [] 1 9 5 quiet).0, unclaimed (issue_not_open 1))
claim-once_example =
    claim-once login_scope [] 1 9 5 quiet (row_to_issue row) busy 10 6 found is_open_now
      nothing_in_flight

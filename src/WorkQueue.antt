-- ===== src/WorkQueue.antt =====
-- src/work_queue/mod.rs: the open issues ranked and split by what the active workspaces touch, and the claim
-- of one of them. The prediction of a scope, which reads the semantic graph, is a parameter.
pub mod Queue
pub mod Claim
mod Tests
use mathlib.Core.List.{reverse}
use vai.Common.{
  ℕ, Option, none, some, Bool, true, false, not, ◌||◌, List, [], ◌∷◌, ◌++◌, String, ◌==◌, any, keep,
  map, is_empty, if◌then◌else◌,
}
use vai.Common.Eq.{string_equality}
use vai.Common.Sets.{contains}
use vai.Common.Sort.{sort_by_key}
use vai.Conflict.{WorkspaceScope}
use vai.Conflict.Engine.{ConflictEngine, all_scopes}
use vai.Issue.{
  Issue, IssueRow, IssuePriority, critical, high, medium, low, priority_as_str, row_to_issue,
}
use vai.Issue.Labels.{append_text}
use vai.Issue.Store.{World, Result, ok, err, get, is_open, IssueError, set_in_progress}

pub data PredictionConfidence : Type 0 where
  high_confidence medium_confidence low_confidence : PredictionConfidence

pub record PredictedEntity : Type 0 where
  pub id : String
  pub name : String
  pub file_path : String
  pub confidence : PredictionConfidence

pub record ScopePrediction : Type 0 where
  pub entities : List PredictedEntity
  pub files : List String
  pub blast_radius : ℕ

abbrev pub predicted_ids : ScopePrediction → List String
predicted_ids p = map (λ (e : PredictedEntity). e.id) p.entities

-- A scope in flight writes a predicted file, or reaches a predicted entity.
abbrev pub conflicts_with : ScopePrediction → WorkspaceScope → Bool
conflicts_with p scope =
    any (λ f. contains f scope.write_files) p.files
    || any (λ id. contains id scope.blast_radius) (predicted_ids p)

pub record AvailableWork : Type 0 where
  pub issue_id : ℕ
  pub title : String
  pub priority : String
  pub predicted_scope : ScopePrediction

-- The reason is kept as the scopes that it names.
pub record BlockedWork : Type 0 where
  pub issue_id : ℕ
  pub title : String
  pub priority : String
  pub blocked_by : List ℕ
  pub reasons : List (ℕ × String)

abbrev pub queue_rank : String → ℕ
queue_rank priority =
    if priority == "critical"
    then 0
    else if priority == "high"
    then 1
    else if priority == "medium"
    then 2
    else if priority == "low"
    then 3
    else 4

-- `format!("{} {}", issue.title, issue.description)`.
abbrev pub issue_text : Issue → String
issue_text issue = append_text issue.title (append_text " " issue.description)

-- `list` with the filter `Open`, newest first.
unfoldable pub open_issues : World → List Issue
open_issues w = map row_to_issue (
    reverse (
      sort_by_key (λ (r : IssueRow). r.created_at)
        (keep (λ (r : IssueRow). r.status == "open") w.issues)))

module _ (predict_scope : String → ScopePrediction) where
  abbrev pub conflicting : List WorkspaceScope → Issue → List WorkspaceScope
  conflicting scopes issue = keep (conflicts_with (predict_scope (issue_text issue))) scopes

  abbrev pub available_entry : Issue → AvailableWork
  available_entry issue = record {
    issue_id = issue.id;
    title = issue.title;
    priority = priority_as_str issue.priority;
    predicted_scope = predict_scope (issue_text issue);
  }

  abbrev pub blocked_entry : List WorkspaceScope → Issue → BlockedWork
  blocked_entry scopes issue = record {
    issue_id = issue.id;
    title = issue.title;
    priority = priority_as_str issue.priority;
    blocked_by = map (λ (s : WorkspaceScope). s.workspace_id) (conflicting scopes issue);
    reasons = map (λ (s : WorkspaceScope). (s.workspace_id, s.intent)) (conflicting scopes issue);
  }

  -- The loop over the open issues.
  unfoldable pub split_work :
      List WorkspaceScope → List Issue → List AvailableWork × List BlockedWork
  split_work scopes [] = ([], [])
  split_work scopes (issue ∷ issues) =
      let rest = split_work scopes issues in
      if is_empty (conflicting scopes issue)
      then (available_entry issue ∷ rest.0, rest.1)
      else (rest.0, blocked_entry scopes issue ∷ rest.1)

  unfoldable pub compute : ConflictEngine → World → List AvailableWork × List BlockedWork
  unfolding split_work
  compute engine w =
      let work = split_work (all_scopes engine) (open_issues w) in
      (
        sort_by_key (λ (a : AvailableWork). queue_rank a.priority) work.0,
        sort_by_key (λ (b : BlockedWork). queue_rank b.priority) work.1,
      )

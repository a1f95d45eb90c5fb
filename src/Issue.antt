-- ===== src/Issue.antt =====
-- src/issue/mod.rs: issues, as the database rows hold them and as the program reads them.
-- An id is a number, a time is a number; the columns that hold JSON or a time are kept as the values
-- that are written and read.
pub mod Labels
pub mod Store
pub mod Update
pub mod Rows
pub mod Discussion
pub mod Lifecycle
pub mod RateLimit
pub mod Similar
mod Tests
use vai.Common.{ℕ, ◌≡◌, refl, Option, none, some, List, [], ◌∷◌, String, ◌==◌, if◌then◌else◌}
use vai.Common.Eq.{string_equality}
use vai.Issue.Labels.{join_labels, split_labels}

pub data IssuePriority : Type 0 where
  critical high medium low : IssuePriority

pub data IssueStatus : Type 0 where
  open_status in_progress resolved closed : IssueStatus

abbrev pub priority_as_str : IssuePriority → String
priority_as_str critical = "critical"
priority_as_str high = "high"
priority_as_str medium = "medium"
priority_as_str low = "low"

unfoldable pub priority_from_db_str : String → Option IssuePriority
priority_from_db_str s =
    if s == "critical"
    then some critical
    else if s == "high"
    then some high
    else if s == "medium"
    then some medium
    else if s == "low"
    then some low
    else none

abbrev pub status_as_str : IssueStatus → String
status_as_str open_status = "open"
status_as_str in_progress = "in_progress"
status_as_str resolved = "resolved"
status_as_str closed = "closed"

unfoldable pub status_from_db_str : String → Option IssueStatus
status_from_db_str s =
    if s == "open"
    then some open_status
    else if s == "in_progress"
    then some in_progress
    else if s == "resolved"
    then some resolved
    else if s == "closed"
    then some closed
    else none

pub record AgentSource : Type 0 where
  pub source_type : String
  pub details : String

pub record Issue : Type 0 where
  pub id : ℕ
  pub title : String
  pub description : String
  pub status : IssueStatus
  pub priority : IssuePriority
  pub labels : List String
  pub creator : String
  pub resolution : Option String
  pub agent_source : Option AgentSource
  pub acceptance_criteria : List String
  pub created_at : ℕ
  pub updated_at : ℕ

-- A row of the table `issues`.
pub record IssueRow : Type 0 where
  pub id : ℕ
  pub title : String
  pub description : String
  pub status : String
  pub priority : String
  pub labels : String
  pub creator : String
  pub resolution : Option String
  pub agent_source : Option AgentSource
  pub acceptance_criteria : List String
  pub created_at : ℕ
  pub updated_at : ℕ

abbrev pub unwrap_or {ℓ} : {A : Type ℓ} → A → Option A → A
unwrap_or d none = d
unwrap_or d (some a) = a

unfoldable pub row_to_issue : IssueRow → Issue
row_to_issue row = record {
  id = row.id;
  title = row.title;
  description = row.description;
  status = unwrap_or open_status (status_from_db_str row.status);
  priority = unwrap_or medium (priority_from_db_str row.priority);
  labels = split_labels row.labels;
  creator = row.creator;
  resolution = row.resolution;
  agent_source = row.agent_source;
  acceptance_criteria = row.acceptance_criteria;
  created_at = row.created_at;
  updated_at = row.updated_at;
}

-- The texts of the two columns name their values.
pub status_from_db_str-as_str : (s : IssueStatus) → status_from_db_str (status_as_str s) ≡ some s
unfolding status_from_db_str
status_from_db_str-as_str open_status = refl
status_from_db_str-as_str in_progress = refl
status_from_db_str-as_str resolved = refl
status_from_db_str-as_str closed = refl

pub priority_from_db_str-as_str :
    (p : IssuePriority) → priority_from_db_str (priority_as_str p) ≡ some p
unfolding priority_from_db_str
priority_from_db_str-as_str critical = refl
priority_from_db_str-as_str high = refl
priority_from_db_str-as_str medium = refl
priority_from_db_str-as_str low = refl

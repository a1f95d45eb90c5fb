-- ===== src/EventLog.antt =====
-- src/event_log/mod.rs: the events that the program records. A UUID and a time are numbers.
pub mod Lines
pub mod Store
mod Tests
use vai.Common.{ℕ, Option, none, some, List, String}

pub record EntitySummary : Type 0 where
  pub id : String
  pub kind : String
  pub name : String
  pub qualified_name : String
  pub file_path : String

pub data ConflictSeverity : Type 0 where
  low medium high : ConflictSeverity

pub record ConflictInfo : Type 0 where
  pub conflict_id : ℕ
  pub entity_a : String
  pub entity_b : String
  pub description : String
  pub severity : ConflictSeverity

-- The fields of each constructor are those of the source's variant, in its order.
pub data EventKind : Type 0 where
  repo_initialized : ℕ → String → EventKind
  version_created : String → Option String → String → EventKind
  workspace_created : ℕ → String → String → EventKind
  workspace_submitted : ℕ → String → EventKind
  workspace_discarded : ℕ → String → EventKind
  entity_added : ℕ → EntitySummary → EventKind
  entity_modified : ℕ → String → String → EventKind
  entity_removed : ℕ → String → EventKind
  file_added : ℕ → String → String → EventKind
  file_modified : ℕ → String → String → String → EventKind
  file_removed : ℕ → String → EventKind
  merge_completed : ℕ → String → ℕ → EventKind
  merge_conflict_detected : ℕ → ConflictInfo → EventKind
  merge_conflict_resolved : ℕ → String → String → EventKind
  rollback_created : String → String → Option String → EventKind
  issue_created : ℕ → String → String → String → EventKind
  issue_updated : ℕ → List String → EventKind
  issue_assigned : ℕ → String → EventKind
  issue_linked_to_workspace : ℕ → ℕ → EventKind
  issue_resolved : ℕ → String → Option String → EventKind
  issue_closed : ℕ → String → EventKind
  escalation_created : ℕ → String → String → List String → String → EventKind
  escalation_resolved : ℕ → String → String → EventKind
  comment_created : ℕ → ℕ → String → String → Option ℕ → List ℕ → EventKind
  repo_agent_secret_set : ℕ → String → EventKind
  repo_agent_secret_deleted : ℕ → String → EventKind

abbrev pub event_type : EventKind → String
event_type (repo_initialized repo name) = "RepoInitialized"
event_type (version_created version parent intent) = "VersionCreated"
event_type (workspace_created workspace intent base) = "WorkspaceCreated"
event_type (workspace_submitted workspace summary) = "WorkspaceSubmitted"
event_type (workspace_discarded workspace reason) = "WorkspaceDiscarded"
event_type (entity_added workspace entity) = "EntityAdded"
event_type (entity_modified workspace entity change) = "EntityModified"
event_type (entity_removed workspace entity) = "EntityRemoved"
event_type (file_added workspace path hash) = "FileAdded"
event_type (file_modified workspace path old_hash new_hash) = "FileModified"
event_type (file_removed workspace path) = "FileRemoved"
event_type (merge_completed workspace version resolved) = "MergeCompleted"
event_type (merge_conflict_detected workspace conflict) = "MergeConflictDetected"
event_type (merge_conflict_resolved conflict resolution by) = "MergeConflictResolved"
event_type (rollback_created target version filter) = "RollbackCreated"
event_type (issue_created issue title creator priority) = "IssueCreated"
event_type (issue_updated issue changed) = "IssueUpdated"
event_type (issue_assigned issue agent) = "IssueAssigned"
event_type (issue_linked_to_workspace issue workspace) = "IssueLinkedToWorkspace"
event_type (issue_resolved issue resolution version) = "IssueResolved"
event_type (issue_closed issue resolution) = "IssueClosed"
event_type (escalation_created escalation type severity workspaces summary) = "EscalationCreated"
event_type (escalation_resolved escalation resolution by) = "EscalationResolved"
event_type (comment_created issue comment author type parent mentions) = "CommentCreated"
event_type (repo_agent_secret_set repo key) = "RepoAgentSecretSet"
event_type (repo_agent_secret_deleted repo key) = "RepoAgentSecretDeleted"

abbrev pub workspace_id : EventKind → Option ℕ
workspace_id (workspace_created workspace intent base) = some workspace
workspace_id (workspace_submitted workspace summary) = some workspace
workspace_id (workspace_discarded workspace reason) = some workspace
workspace_id (entity_added workspace entity) = some workspace
workspace_id (entity_modified workspace entity change) = some workspace
workspace_id (entity_removed workspace entity) = some workspace
workspace_id (file_added workspace path hash) = some workspace
workspace_id (file_modified workspace path old_hash new_hash) = some workspace
workspace_id (file_removed workspace path) = some workspace
workspace_id (merge_completed workspace version resolved) = some workspace
workspace_id (merge_conflict_detected workspace conflict) = some workspace
workspace_id kind = none

abbrev pub entity_id : EventKind → Option String
entity_id (entity_added workspace entity) = some (entity.id)
entity_id (entity_modified workspace entity change) = some entity
entity_id (entity_removed workspace entity) = some entity
entity_id kind = none

pub record Event : Type 0 where
  pub id : ℕ
  pub timestamp : ℕ
  pub kind : EventKind

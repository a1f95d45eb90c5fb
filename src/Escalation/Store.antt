-- ===== src/Escalation/Store.antt =====
-- `EscalationStore` of src/escalation/mod.rs: its table, the event log, and its operations. The columns
-- that hold JSON or a time are kept as the values that are written and read.
use vai.Common.{
  ℕ, Option, none, some, Bool, true, false, List, [], ◌∷◌, ◌++◌, String, ◌==◌, keep, length,
  if◌then◌else◌,
}
use vai.Common.Eq.{string_equality}
use vai.Common.Table.{find_key, update_key}
use vai.Issue.{unwrap_or}
use vai.Escalation.{
  EscalationConflict, EscalationType, merge_conflict, type_as_str, type_from_db_str,
  EscalationSeverity, high, severity_as_str, severity_from_db_str, ResolutionOption, option_as_str,
  option_from_db_str, EscalationStatus, pending, resolved, escalation_status_from_db_str,
  Escalation, default_resolution_options,
}

-- A row of the table `escalations`.
pub record EscalationRow : Type 0 where
  pub id : ℕ
  pub escalation_type : String
  pub severity : String
  pub status : String
  pub summary : String
  pub intents : List String
  pub agents : List String
  pub workspace_ids : List ℕ
  pub affected_entities : List String
  pub conflicts : List EscalationConflict
  pub resolution_options : List ResolutionOption
  pub resolution : Option String
  pub resolved_by : Option String
  pub created_at : ℕ
  pub resolved_at : Option ℕ

pub data EscalationError : Type 0 where
  escalation_not_found already_resolved : ℕ → EscalationError

pub data Answer : Type 0 where
  answer : Escalation → Answer
  failed : EscalationError → Answer

pub data EscalationEvent : Type 0 where
  escalation_created : ℕ → String → String → List ℕ → String → EscalationEvent
  escalation_resolved : ℕ → String → String → EscalationEvent

pub record EscalationWorld : Type 0 where
  pub rows : List EscalationRow
  pub events : List EscalationEvent

abbrev pub escalation_key : EscalationRow → ℕ
escalation_key r = r.id

abbrev pub read_option : Option String → Option ResolutionOption
read_option none = none
read_option (some s) = option_from_db_str s

unfoldable pub row_to_escalation : EscalationRow → Escalation
row_to_escalation r = record {
  id = r.id;
  escalation_type = unwrap_or merge_conflict (type_from_db_str r.escalation_type);
  severity = unwrap_or high (severity_from_db_str r.severity);
  status = unwrap_or pending (escalation_status_from_db_str r.status);
  summary = r.summary;
  intents = r.intents;
  agents = r.agents;
  workspace_ids = r.workspace_ids;
  affected_entities = r.affected_entities;
  conflicts = r.conflicts;
  resolution_options = r.resolution_options;
  resolution = read_option r.resolution;
  resolved_by = r.resolved_by;
  created_at = r.created_at;
  resolved_at = r.resolved_at;
}

abbrev pub read_escalation : ℕ → Option EscalationRow → Answer
read_escalation id none = failed (escalation_not_found id)
read_escalation id (some r) = answer (row_to_escalation r)

unfoldable pub get_escalation : ℕ → EscalationWorld → Answer
get_escalation id w = read_escalation id (find_key escalation_key id w.rows)

-- The arguments of `create`, with the id and the time that it reads.
pub record NewEscalation : Type 0 where
  pub id : ℕ
  pub now : ℕ
  pub kind : EscalationType
  pub severity : EscalationSeverity
  pub summary : String
  pub intents : List String
  pub agents : List String
  pub workspace_ids : List ℕ
  pub affected_entities : List String
  pub conflicts : List EscalationConflict

abbrev pub new_escalation_row : NewEscalation → EscalationRow
new_escalation_row n = record {
  id = n.id;
  escalation_type = type_as_str n.kind;
  severity = severity_as_str n.severity;
  status = "pending";
  summary = n.summary;
  intents = n.intents;
  agents = n.agents;
  workspace_ids = n.workspace_ids;
  affected_entities = n.affected_entities;
  conflicts = n.conflicts;
  resolution_options = default_resolution_options n.kind n.workspace_ids;
  resolution = none;
  resolved_by = none;
  created_at = n.now;
  resolved_at = none;
}

abbrev pub new_escalation : NewEscalation → Escalation
new_escalation n = record {
  id = n.id;
  escalation_type = n.kind;
  severity = n.severity;
  status = pending;
  summary = n.summary;
  intents = n.intents;
  agents = n.agents;
  workspace_ids = n.workspace_ids;
  affected_entities = n.affected_entities;
  conflicts = n.conflicts;
  resolution_options = default_resolution_options n.kind n.workspace_ids;
  resolution = none;
  resolved_by = none;
  created_at = n.now;
  resolved_at = none;
}

unfoldable pub create_escalation : NewEscalation → EscalationWorld → EscalationWorld × Escalation
create_escalation n w = (
  record {
    rows = w.rows ++ new_escalation_row n ∷ [];
    events =
        w.events
        ++ escalation_created n.id (type_as_str n.kind) (severity_as_str n.severity) n.workspace_ids
            n.summary
          ∷ [];
  },
  new_escalation n,
)

abbrev pub is_resolved : EscalationStatus → Bool
is_resolved resolved = true
is_resolved pending = false

abbrev pub resolved_row : ResolutionOption → String → ℕ → EscalationRow → EscalationRow
resolved_row option resolved_by now r = record r {
  status = "resolved";
  resolution = some (option_as_str option);
  resolved_by = some resolved_by;
  resolved_at = some now;
}

abbrev pub resolve_in :
    ℕ → ResolutionOption → String → ℕ → EscalationWorld → Answer → EscalationWorld × Answer
resolve_in id option resolved_by now w (failed e) = (w, failed e)
resolve_in id option resolved_by now w (answer found) =
    if is_resolved found.status then (w, failed (already_resolved id)) else (
      record {
        rows = update_key escalation_key id (resolved_row option resolved_by now) w.rows;
        events = w.events ++ escalation_resolved id (option_as_str option) resolved_by ∷ [];
      },
      answer (record found {
        status = resolved;
        resolution = some option;
        resolved_by = some resolved_by;
        resolved_at = some now;
      }),
    )

unfoldable pub resolve_escalation :
    ℕ → ResolutionOption → String → ℕ → EscalationWorld → EscalationWorld × Answer
resolve_escalation id option resolved_by now w =
    resolve_in id option resolved_by now w (get_escalation id w)

-- `SELECT COUNT(*) FROM escalations WHERE status = 'pending'`.
unfoldable pub count_pending : EscalationWorld → ℕ
count_pending w = length (keep (λ (r : EscalationRow). r.status == "pending") w.rows)

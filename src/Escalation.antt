-- ===== src/Escalation.antt =====
-- src/escalation/mod.rs: escalations, the texts of their columns, and the options that a human is offered.
pub mod Store
pub mod Resolve
pub mod Pending
mod Tests
use vai.Common.{
  ℕ, ◌≡◌, refl, Option, none, some, List, [], ◌∷◌, String, ◌==◌, length, leb, if◌then◌else◌,
}
use vai.Common.Eq.{string_equality}

pub record EscalationConflict : Type 0 where
  pub file : String
  pub merge_level : ℕ
  pub entity_ids : List String
  pub description : String
  pub ours_content : Option String
  pub theirs_content : Option String
  pub base_content : Option String

pub data EscalationType : Type 0 where
  merge_conflict intent_conflict review_request validation_failure : EscalationType

abbrev pub type_as_str : EscalationType → String
type_as_str merge_conflict = "merge_conflict"
type_as_str intent_conflict = "intent_conflict"
type_as_str review_request = "review_request"
type_as_str validation_failure = "validation_failure"

unfoldable pub type_from_db_str : String → Option EscalationType
type_from_db_str s =
    if s == "merge_conflict"
    then some merge_conflict
    else if s == "intent_conflict"
    then some intent_conflict
    else if s == "review_request"
    then some review_request
    else if s == "validation_failure"
    then some validation_failure
    else none

pub data EscalationSeverity : Type 0 where
  high critical : EscalationSeverity

abbrev pub severity_as_str : EscalationSeverity → String
severity_as_str high = "high"
severity_as_str critical = "critical"

unfoldable pub severity_from_db_str : String → Option EscalationSeverity
severity_from_db_str s =
    if s == "high" then some high else if s == "critical" then some critical else none

pub data ResolutionOption : Type 0 where
  keep_agent_a keep_agent_b send_back_to_agent_a send_back_to_agent_b pause_both : ResolutionOption

abbrev pub option_as_str : ResolutionOption → String
option_as_str keep_agent_a = "keep_agent_a"
option_as_str keep_agent_b = "keep_agent_b"
option_as_str send_back_to_agent_a = "send_back_to_agent_a"
option_as_str send_back_to_agent_b = "send_back_to_agent_b"
option_as_str pause_both = "pause_both"

unfoldable pub option_from_db_str : String → Option ResolutionOption
option_from_db_str s =
    if s == "keep_agent_a"
    then some keep_agent_a
    else if s == "keep_agent_b"
    then some keep_agent_b
    else if s == "send_back_to_agent_a"
    then some send_back_to_agent_a
    else if s == "send_back_to_agent_b"
    then some send_back_to_agent_b
    else if s == "pause_both"
    then some pause_both
    else none

pub data EscalationStatus : Type 0 where
  pending resolved : EscalationStatus

abbrev pub escalation_status_as_str : EscalationStatus → String
escalation_status_as_str pending = "pending"
escalation_status_as_str resolved = "resolved"

unfoldable pub escalation_status_from_db_str : String → Option EscalationStatus
escalation_status_from_db_str s =
    if s == "pending" then some pending else if s == "resolved" then some resolved else none

pub record Escalation : Type 0 where
  pub id : ℕ
  pub escalation_type : EscalationType
  pub severity : EscalationSeverity
  pub status : EscalationStatus
  pub summary : String
  pub intents : List String
  pub agents : List String
  pub workspace_ids : List ℕ
  pub affected_entities : List String
  pub conflicts : List EscalationConflict
  pub resolution_options : List ResolutionOption
  pub resolution : Option ResolutionOption
  pub resolved_by : Option String
  pub created_at : ℕ
  pub resolved_at : Option ℕ

-- The options for two workspaces or more, and for fewer.
abbrev pub conflict_options : List ℕ → List ResolutionOption
conflict_options workspace_ids =
    if leb 2 (length workspace_ids)
    then keep_agent_a ∷ keep_agent_b ∷ send_back_to_agent_a ∷ send_back_to_agent_b ∷ pause_both ∷ []
    else send_back_to_agent_a ∷ pause_both ∷ []

abbrev pub default_resolution_options : EscalationType → List ℕ → List ResolutionOption
default_resolution_options merge_conflict workspace_ids = conflict_options workspace_ids
default_resolution_options intent_conflict workspace_ids = conflict_options workspace_ids
default_resolution_options review_request workspace_ids =
    keep_agent_a ∷ send_back_to_agent_a ∷ pause_both ∷ []
default_resolution_options validation_failure workspace_ids = send_back_to_agent_a ∷ pause_both ∷ []

-- The texts of the four columns name their values.
pub type_from_db_str-type_as_str : (t : EscalationType) → type_from_db_str (type_as_str t) ≡ some t
unfolding type_from_db_str
type_from_db_str-type_as_str merge_conflict = refl
type_from_db_str-type_as_str intent_conflict = refl
type_from_db_str-type_as_str review_request = refl
type_from_db_str-type_as_str validation_failure = refl

pub severity_from_db_str-severity_as_str :
    (s : EscalationSeverity) → severity_from_db_str (severity_as_str s) ≡ some s
unfolding severity_from_db_str
severity_from_db_str-severity_as_str high = refl
severity_from_db_str-severity_as_str critical = refl

pub option_from_db_str-option_as_str :
    (o : ResolutionOption) → option_from_db_str (option_as_str o) ≡ some o
unfolding option_from_db_str
option_from_db_str-option_as_str keep_agent_a = refl
option_from_db_str-option_as_str keep_agent_b = refl
option_from_db_str-option_as_str send_back_to_agent_a = refl
option_from_db_str-option_as_str send_back_to_agent_b = refl
option_from_db_str-option_as_str pause_both = refl

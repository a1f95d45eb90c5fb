-- ===== src/Watcher.antt =====
-- src/watcher/mod.rs: watchers, the policy by which their discoveries become issues, and the discoveries.
-- A floating-point metric is a number of some small unit, so that its thresholds are exact.
pub mod Store
pub mod Submit
pub mod Prepare
mod Tests
use vai.Common.{
  ℕ, ◌*◌, ◌+◌, ◌-◌, Option, none, some, Bool, true, false, not, List, [], ◌∷◌, String, ◌==◌, ltb,
  leb, if◌then◌else◌,
}
use vai.Common.Eq.{string_equality}
use vai.Issue.{IssuePriority, critical, high, medium, low, priority_as_str}
use vai.Issue.Labels.{append_text}

pub data WatchType : Type 0 where
  test_suite security code_quality performance dependency_updates : WatchType
  custom : String → WatchType

abbrev pub watch_type_as_str : WatchType → String
watch_type_as_str test_suite = "test_suite"
watch_type_as_str security = "security"
watch_type_as_str code_quality = "code_quality"
watch_type_as_str performance = "performance"
watch_type_as_str dependency_updates = "dependency_updates"
watch_type_as_str (custom s) = s

unfoldable pub watch_type_from_db_str : String → WatchType
watch_type_from_db_str s =
    if s == "test_suite"
    then test_suite
    else if s == "security"
    then security
    else if s == "code_quality"
    then code_quality
    else if s == "performance"
    then performance
    else if s == "dependency_updates"
    then dependency_updates
    else custom s

pub record IssueCreationPolicy : Type 0 where
  pub auto_create : Bool
  pub max_per_hour : ℕ
  pub require_approval_above : Option String

abbrev pub default_policy : IssueCreationPolicy
default_policy = record {
  auto_create = false;
  max_per_hour = 5;
  require_approval_above = some "medium";
}

unfoldable pub priority_rank : String → ℕ
priority_rank s =
    if s == "low"
    then 0
    else if s == "medium"
    then 1
    else if s == "high"
    then 2
    else if s == "critical"
    then 3
    else 1

abbrev pub is_allowed : Option String → IssuePriority → Bool
is_allowed none priority = true
is_allowed (some threshold) priority =
    leb (priority_rank (priority_as_str priority)) (priority_rank threshold)

abbrev pub should_auto_create : IssueCreationPolicy → IssuePriority → Bool
should_auto_create policy priority =
    if not policy.auto_create then false else is_allowed policy.require_approval_above priority

pub data WatcherStatus : Type 0 where
  active paused : WatcherStatus

pub record Watcher : Type 0 where
  pub agent_id : String
  pub watch_type : WatchType
  pub description : String
  pub issue_creation_policy : IssueCreationPolicy
  pub status : WatcherStatus
  pub registered_at : ℕ
  pub last_discovery_at : Option ℕ
  pub discovery_count : ℕ

pub data DiscoveryEventKind : Type 0 where
  test_failure_discovered : String → String → String → Option String → DiscoveryEventKind
  security_vulnerability_discovered : String → String → List String → DiscoveryEventKind
  code_quality_issue_discovered : String → String → String → DiscoveryEventKind
  performance_regression_discovered : String → ℕ → ℕ → Option String → DiscoveryEventKind
  dependency_update_available : String → String → String → DiscoveryEventKind

abbrev pub event_type : DiscoveryEventKind → String
event_type (test_failure_discovered suite test_name output version) = "test_failure"
event_type (security_vulnerability_discovered source severity entities) = "security_vulnerability"
event_type (code_quality_issue_discovered rule entity description) = "code_quality"
event_type (performance_regression_discovered metric baseline current version) =
    "performance_regression"
event_type (dependency_update_available dep current available) = "dependency_update"

-- The pieces of a `format!`, put together.
abbrev pub concat : List String → String
concat [] = ""
concat (s ∷ ss) = append_text s (concat ss)

abbrev pub dedup_key : DiscoveryEventKind → String
dedup_key (test_failure_discovered suite test_name output version) =
    concat ("test_failure::" ∷ suite ∷ "::" ∷ test_name ∷ [])
dedup_key (security_vulnerability_discovered source severity entities) =
    concat ("security::" ∷ source ∷ [])
dedup_key (code_quality_issue_discovered rule entity description) =
    concat ("quality::" ∷ rule ∷ "::" ∷ entity ∷ [])
dedup_key (performance_regression_discovered metric baseline current version) =
    concat ("perf::" ∷ metric ∷ [])
dedup_key (dependency_update_available dep current available) = concat ("dep::" ∷ dep ∷ [])

unfoldable pub severity_priority : String → IssuePriority
severity_priority s =
    if s == "critical"
    then critical
    else if s == "high"
    then high
    else if s == "low"
    then low
    else medium

-- `(current - baseline).abs()`.
abbrev pub distance : ℕ → ℕ → ℕ
distance a b = (a - b) + (b - a)

-- More than a half above or below the baseline, more than a fifth, or less.
abbrev pub regression_priority : ℕ → ℕ → IssuePriority
regression_priority baseline current =
    if ltb 0 baseline
    then if ltb baseline (2 * distance current baseline)
      then high
      else if ltb baseline (5 * distance current baseline)
      then medium
      else low
    else medium

module _ (to_lowercase : String → String) (show_metric : ℕ → String) where
  abbrev pub default_title : DiscoveryEventKind → String
  default_title (test_failure_discovered suite test_name output version) =
      concat ("Test failure: " ∷ suite ∷ "/" ∷ test_name ∷ [])
  default_title (security_vulnerability_discovered source severity entities) =
      concat ("Security vulnerability (" ∷ severity ∷ ") from " ∷ source ∷ [])
  default_title (code_quality_issue_discovered rule entity description) =
      concat ("Code quality: " ∷ rule ∷ " in " ∷ entity ∷ [])
  default_title (performance_regression_discovered metric baseline current version) = concat (
      "Performance regression: "
      ∷ metric
      ∷ " ("
      ∷ show_metric baseline
      ∷ " → "
      ∷ show_metric current
      ∷ ")"
      ∷ [])
  default_title (dependency_update_available dep current available) =
      concat ("Dependency update available: " ∷ dep ∷ " → " ∷ available ∷ [])

  abbrev pub default_priority : DiscoveryEventKind → IssuePriority
  default_priority (security_vulnerability_discovered source severity entities) =
      severity_priority (to_lowercase severity)
  default_priority (performance_regression_discovered metric baseline current version) =
      regression_priority baseline current
  default_priority (test_failure_discovered suite test_name output version) = medium
  default_priority (code_quality_issue_discovered rule entity description) = low
  default_priority (dependency_update_available dep current available) = low

-- ===== src/Watcher/Store.antt =====
-- `WatcherStore` of src/watcher/mod.rs: its tables, what is looked up in them, and the record of a discovery.
use vai.Common.{
  ℕ, ◌+◌, Option, none, some, Bool, true, false, not, ◌&&◌, List, [], ◌∷◌, ◌++◌, String, ◌==◌, ltb,
  if◌then◌else◌,
}
use vai.Common.Eq.{string_equality}
use vai.Issue.Store.{World, RateRow}
use vai.Watcher.{Watcher, WatcherStatus, DiscoveryEventKind, dedup_key}

pub record DiscoveryRow : Type 0 where
  pub id : ℕ
  pub agent_id : String
  pub event : DiscoveryEventKind
  pub key : String
  pub received_at : ℕ
  pub created_issue_id : Option ℕ
  pub suppressed : Bool

-- The tables of `watchers.db`, and the issue store and event log that a submission is given.
pub record WatcherWorld : Type 0 where
  pub watchers : List Watcher
  pub discoveries : List DiscoveryRow
  pub watcher_rate_limits : List RateRow
  pub store : World

-- A paused watcher is reported as `NotFound` with a text that says so; it has a constructor of its own.
pub data WatcherError : Type 0 where
  not_found already_exists : String → WatcherError
  watcher_paused : String → WatcherError
  watcher_rate_limit_exceeded : String → ℕ → ℕ → WatcherError

pub data Message : Type 0 where
  suppressed_duplicate : ℕ → Message
  issue_made : ℕ → Message
  creation_rate_limited disabled_by_policy : Message

pub record DiscoveryOutcome : Type 0 where
  pub row : DiscoveryRow
  pub issue_id : Option ℕ
  pub was_suppressed : Bool
  pub message : Message

pub data Submitted : Type 0 where
  accepted : DiscoveryOutcome → Submitted
  rejected : WatcherError → Submitted

unfoldable pub find_watcher : String → List Watcher → Option Watcher
find_watcher agent [] = none
find_watcher agent (w ∷ ws) =
    let rest = find_watcher agent ws in if w.agent_id == agent then some w else rest

-- `register`: the agent id is the primary key.
unfoldable pub register : Watcher → WatcherWorld → WatcherWorld × Option WatcherError
register watcher w = elim (find_watcher watcher.agent_id w.watchers) [
  | none ↦ (record w { watchers = w.watchers ++ watcher ∷ [] }, none)
  | some other ↦ (w, some (already_exists watcher.agent_id))
]

-- `set_status`, for `pause` and `resume`; `none` is `NotFound`.
abbrev pub with_status : String → WatcherStatus → List Watcher → List Watcher
with_status agent status [] = []
with_status agent status (w ∷ ws) =
    (if w.agent_id == agent then record w { status = status } else w) ∷ with_status agent status ws

unfoldable pub set_status : String → WatcherStatus → WatcherWorld → Option WatcherWorld
set_status agent status w = elim (find_watcher agent w.watchers) [
  | none ↦ none
  | some watcher ↦ some (record w { watchers = with_status agent status w.watchers })
]

abbrev pub has_issue : Option ℕ → Bool
has_issue none = false
has_issue (some id) = true

-- The condition of `find_active_discovery` on one row.
abbrev pub is_tracking : String → String → DiscoveryRow → Bool
is_tracking agent key r =
    (r.agent_id == agent) && ((r.key == key) && (not r.suppressed && has_issue r.created_issue_id))

-- The later of two rows; of two with the same time, the first in the table.
abbrev pub later : DiscoveryRow → Option DiscoveryRow → DiscoveryRow
later r none = r
later r (some s) = if ltb r.received_at s.received_at then s else r

-- `ORDER BY received_at DESC LIMIT 1`.
unfoldable pub latest_tracking : String → String → List DiscoveryRow → Option DiscoveryRow
latest_tracking agent key [] = none
latest_tracking agent key (r ∷ rows) =
    let rest = latest_tracking agent key rows in
    if is_tracking agent key r then some (later r rest) else rest

abbrev pub issue_of : Option DiscoveryRow → Option ℕ
issue_of none = none
issue_of (some r) = r.created_issue_id

abbrev pub find_active_discovery : String → String → List DiscoveryRow → Option ℕ
find_active_discovery agent key rows = issue_of (latest_tracking agent key rows)

-- `update_watcher_stats`.
abbrev pub with_stats : String → ℕ → List Watcher → List Watcher
with_stats agent now [] = []
with_stats agent now (w ∷ ws) =
    (if w.agent_id == agent
      then record w { last_discovery_at = some now; discovery_count = w.discovery_count + 1 }
      else w)
    ∷ with_stats agent now ws

-- One submission, with the ids, the time and the hour that it reads.
pub record Submission : Type 0 where
  pub agent_id : String
  pub event : DiscoveryEventKind
  pub record_id : ℕ
  pub fresh_issue_id : ℕ
  pub now : ℕ
  pub hour : String

abbrev pub discovery_row : Submission → Option ℕ → Bool → DiscoveryRow
discovery_row q issue suppressed = record {
  id = q.record_id;
  agent_id = q.agent_id;
  event = q.event;
  key = dedup_key q.event;
  received_at = q.now;
  created_issue_id = issue;
  suppressed = suppressed;
}

-- Writes the row of a discovery and updates the statistics: `record_discovery`.
abbrev pub record_discovery :
    Submission → Option ℕ → Bool → WatcherWorld → WatcherWorld × DiscoveryRow
record_discovery q issue suppressed w =
    let row = discovery_row q issue suppressed in
    (
      record w {
        discoveries = w.discoveries ++ row ∷ [];
        watchers = with_stats q.agent_id q.now w.watchers;
      },
      row,
    )

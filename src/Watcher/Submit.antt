-- ===== src/Watcher/Submit.antt =====
-- `submit_discovery` of src/watcher/mod.rs, in one step. The hour that the clock reads is the same throughout
-- one submission; the Unicode tables, the texts of numbers and the JSON texts are parameters.
pub mod Once
pub mod Policy
use Prim.Native.Char.{Char}
use vai.Common.{ℕ, Option, none, some, Bool, true, false, List, [], ◌∷◌, String, ltb, if◌then◌else◌}
use vai.Issue.{Issue, AgentSource}
use vai.Issue.Store.{World, RateRow, Result, ok, err}
use vai.Issue.RateLimit.{count_in, upsert, decrement, Request, create_by_agent}
use vai.Watcher.{
  Watcher, WatcherStatus, active, paused, DiscoveryEventKind, dedup_key, event_type,
  should_auto_create, default_priority, default_title, concat,
}
use vai.Watcher.Store.{
  DiscoveryRow, WatcherWorld, WatcherError, not_found, watcher_paused, watcher_rate_limit_exceeded,
  Message, suppressed_duplicate, issue_made, creation_rate_limited, disabled_by_policy,
  DiscoveryOutcome, Submitted, accepted, rejected, find_watcher, find_active_discovery, Submission,
  record_discovery,
}

abbrev pub created_id : Result (Issue × Option ℕ) → Option ℕ
created_id (ok created) = some (created.0.id)
created_id (err e) = none

abbrev pub message_of : Option ℕ → Bool → Message
message_of (some id) wanted = issue_made id
message_of none true = creation_rate_limited
message_of none false = disabled_by_policy

module _ (is_alphanumeric : Char → Bool) (to_lowercase : String → String) (show_metric : ℕ → String)
    (event_json : DiscoveryEventKind → String) where
  abbrev pub request_of : Submission → Request
  request_of q = record {
    id = q.fresh_issue_id;
    now = q.now;
    hour = q.hour;
    title = default_title to_lowercase show_metric q.event;
    description = concat (
        "Automatically created by watcher `"
        ∷ q.agent_id
        ∷ "`.\n\n**Event type:** "
        ∷ event_type q.event
        ∷ "\n\n**Details:**\n```json\n"
        ∷ event_json q.event
        ∷ "\n```"
        ∷ []);
    priority = default_priority to_lowercase show_metric q.event;
    labels = event_type q.event ∷ "watcher" ∷ [];
    agent_id = q.agent_id;
    source = record { source_type = event_type q.event; details = event_json q.event };
  }

  -- A creation that the issue store's own limit refuses leaves the discovery without an issue.
  abbrev pub create_if : Bool → ℕ → Submission → World → World × Option ℕ
  create_if false max_per_hour q s = (s, none)
  create_if true max_per_hour q s =
      let made = create_by_agent is_alphanumeric to_lowercase max_per_hour (request_of q) s in
      (made.0, created_id made.1)

  -- The steps after the duplicate test: create an issue where the policy wants it, then record.
  abbrev pub create_and_record : Watcher → Submission → WatcherWorld → WatcherWorld × Submitted
  create_and_record watcher q w =
      let policy = watcher.issue_creation_policy in
      let wanted = should_auto_create policy (default_priority to_lowercase show_metric q.event) in
      let created = create_if wanted policy.max_per_hour q w.store in
      let recorded = record_discovery q created.1 false (record w { store = created.0 }) in
      (
        recorded.0,
        accepted (record {
          row = recorded.1;
          issue_id = created.1;
          was_suppressed = false;
          message = message_of created.1 wanted;
        }),
      )

  -- The steps once the watcher is active and under its limit.
  abbrev pub suppress_or_create :
      Watcher → Submission → WatcherWorld → Option ℕ → WatcherWorld × Submitted
  suppress_or_create watcher q w (some issue) =
      let recorded = record_discovery q (some issue) true w in
      (
        recorded.0,
        accepted (record {
          row = recorded.1;
          issue_id = none;
          was_suppressed = true;
          message = suppressed_duplicate issue;
        }),
      )
  suppress_or_create watcher q w none = create_and_record watcher q w

  abbrev pub limited : Watcher → Submission → WatcherWorld → WatcherWorld × Submitted
  limited watcher q w =
      let rows = upsert q.agent_id q.hour w.watcher_rate_limits in
      let count = count_in q.agent_id q.hour rows in
      let counted = record w { watcher_rate_limits = rows } in
      let max = watcher.issue_creation_policy.max_per_hour in
      if ltb max count
      then (
        record counted { watcher_rate_limits = decrement q.agent_id q.hour rows },
        rejected (watcher_rate_limit_exceeded q.agent_id count max),
      )
      else suppress_or_create watcher q counted
          (find_active_discovery q.agent_id (dedup_key q.event) counted.discoveries)

  abbrev pub by_status :
      Watcher → Submission → WatcherWorld → WatcherStatus → WatcherWorld × Submitted
  by_status watcher q w paused = (w, rejected (watcher_paused q.agent_id))
  by_status watcher q w active = limited watcher q w

  unfoldable pub submit_discovery : Submission → WatcherWorld → WatcherWorld × Submitted
  submit_discovery q w = elim (find_watcher q.agent_id w.watchers) [
    | none ↦ (w, rejected (not_found q.agent_id))
    | some watcher ↦ by_status watcher q w watcher.status
  ]

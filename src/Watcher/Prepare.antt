-- ===== src/Watcher/Prepare.antt =====
-- `prepare_discovery` of src/watcher/mod.rs, the first phase of a submission whose issue the caller creates; the
-- outcome goes to `record_discovery`.
use vai.Common.{ℕ, Option, none, some, Bool, String, ltb, if◌then◌else◌}
use vai.Issue.{IssuePriority}
use vai.Issue.RateLimit.{count_in, upsert, decrement}
use vai.Watcher.{
  Watcher, WatcherStatus, active, paused, dedup_key, should_auto_create, default_priority,
}
use vai.Watcher.Store.{
  WatcherWorld, WatcherError, not_found, watcher_paused, watcher_rate_limit_exceeded, find_watcher,
  find_active_discovery, Submission,
}

pub record DiscoveryPreparation : Type 0 where
  pub record_id : ℕ
  pub key : String
  pub received_at : ℕ
  pub suppressed_with_issue_id : Option ℕ
  pub should_create_issue : Bool
  pub priority : IssuePriority

pub data Prepared : Type 0 where
  prepared : DiscoveryPreparation → Prepared
  not_prepared : WatcherError → Prepared

module _ (to_lowercase : String → String) (show_metric : ℕ → String) where
  abbrev pub preparation_of : Watcher → Submission → WatcherWorld → DiscoveryPreparation
  preparation_of watcher q w = record {
    record_id = q.record_id;
    key = dedup_key q.event;
    received_at = q.now;
    suppressed_with_issue_id = find_active_discovery q.agent_id (dedup_key q.event) w.discoveries;
    should_create_issue =
        should_auto_create watcher.issue_creation_policy
          (default_priority to_lowercase show_metric q.event);
    priority = default_priority to_lowercase show_metric q.event;
  }

  abbrev pub prepare_limited : Watcher → Submission → WatcherWorld → WatcherWorld × Prepared
  prepare_limited watcher q w =
      let rows = upsert q.agent_id q.hour w.watcher_rate_limits in
      let count = count_in q.agent_id q.hour rows in
      let counted = record w { watcher_rate_limits = rows } in
      let max = watcher.issue_creation_policy.max_per_hour in
      if ltb max count
      then (
        record counted { watcher_rate_limits = decrement q.agent_id q.hour rows },
        not_prepared (watcher_rate_limit_exceeded q.agent_id count max),
      )
      else (counted, prepared (preparation_of watcher q counted))

  abbrev pub prepare_by_status :
      Watcher → Submission → WatcherWorld → WatcherStatus → WatcherWorld × Prepared
  prepare_by_status watcher q w paused = (w, not_prepared (watcher_paused q.agent_id))
  prepare_by_status watcher q w active = prepare_limited watcher q w

  unfoldable pub prepare_discovery : Submission → WatcherWorld → WatcherWorld × Prepared
  prepare_discovery q w = elim (find_watcher q.agent_id w.watchers) [
    | none ↦ (w, not_prepared (not_found q.agent_id))
    | some watcher ↦ prepare_by_status watcher q w watcher.status
  ]

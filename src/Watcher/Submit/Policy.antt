-- ===== src/Watcher/Submit/Policy.antt =====
-- The branches of `submit_discovery` of src/watcher/mod.rs: when a discovery is refused, and when it
-- may make an issue.
use Prim.Native.Char.{Char}
use text.Mathlib.TextEquality.{eq_iff}
use vai.Common.{
  ℕ, suc, ◌≤◌, ◌≡◌, refl, ap, inl, inr, Option, none, some, Bool, true, false, String, ltb, arith,
  Bool-cases,
}
use vai.Common.Eq.{string_equality}
use vai.Issue.RateLimit.{count_in, upsert}
use vai.Watcher.{
  Watcher, DiscoveryEventKind, active, paused, WatcherStatus, dedup_key, should_auto_create,
  is_allowed, default_priority,
}
use vai.Watcher.Store.{
  WatcherWorld, watcher_rate_limit_exceeded, Submitted, accepted, rejected, find_watcher,
  find_active_discovery, Submission,
}
use vai.Watcher.Submit.{submit_discovery, by_status, limited, suppress_or_create, create_if}
use vai.Issue.RateLimit.Quota.{count_in-upsert}

-- The counter of the agent after this submission is counted.
counted_once :
    (agent hour : String) (w : WatcherWorld)
    → count_in agent hour (upsert agent hour w.watcher_rate_limits)
      ≡ suc (count_in agent hour w.watcher_rate_limits)
counted_once agent hour w = ground (
  arith,
  count_in-upsert agent hour agent hour w.watcher_rate_limits,
  eq_iff agent agent,
  eq_iff hour hour,
)

module _ (is_alphanumeric : Char → Bool) (to_lowercase : String → String) (show_metric : ℕ → String)
    (event_json : DiscoveryEventKind → String) where
  abbrev pub submit : Submission → WatcherWorld → WatcherWorld × Submitted
  submit q w = submit_discovery is_alphanumeric to_lowercase show_metric event_json q w

  -- An active watcher whose counter has reached its policy's limit is refused with the number that the
  -- submission would have been; watchers, discoveries, issues and events stay as they are.
  pub submit_discovery-limited :
      (q : Submission) (w : WatcherWorld) (watcher : Watcher)
      → find_watcher q.agent_id w.watchers ≡ some watcher
      → watcher.status ≡ active
      → watcher.issue_creation_policy.max_per_hour
        ≤ count_in q.agent_id q.hour w.watcher_rate_limits
      → ((submit q w).1
          ≡ rejected (
              watcher_rate_limit_exceeded q.agent_id
                (suc (count_in q.agent_id q.hour w.watcher_rate_limits))
                watcher.issue_creation_policy.max_per_hour))
        × ((submit q w).0.watchers ≡ w.watchers)
        × ((submit q w).0.discoveries ≡ w.discoveries)
        × ((submit q w).0.store ≡ w.store)
  unfolding submit_discovery
  submit_discovery-limited q w watcher e a h =
      let c = counted_once q.agent_id q.hour w in
      let over : ltb watcher.issue_creation_policy.max_per_hour
            (count_in q.agent_id q.hour (upsert q.agent_id q.hour w.watcher_rate_limits))
          ≡ true =
        ground (arith, c, h) in
      rw (e, submit_discovery)
        (rw a (
          rw over (
            ap
                (λ n. rejected (
                  watcher_rate_limit_exceeded q.agent_id n
                    watcher.issue_creation_policy.max_per_hour))
                c,
            refl,
            refl,
            refl,
          )))

  -- The issue that a submission reports.
  abbrev pub reported : Submitted → Option ℕ
  reported (accepted o) = o.issue_id
  reported (rejected e) = none

  create_if-wanted :
      (wanted : Bool) (max : ℕ) (q : Submission) (w : WatcherWorld) (id : ℕ)
      → (create_if is_alphanumeric to_lowercase show_metric event_json wanted max q w.store).1
        ≡ some id
      → wanted ≡ true
  create_if-wanted true max q w id h = refl
  create_if-wanted false max q w id h = cc

  suppress-wanted :
      (watcher : Watcher) (q : Submission) (w : WatcherWorld) (found : Option ℕ) (id : ℕ)
      → reported
          (suppress_or_create is_alphanumeric to_lowercase show_metric event_json watcher q w
            found).1
        ≡ some id
      → should_auto_create watcher.issue_creation_policy
          (default_priority to_lowercase show_metric q.event)
        ≡ true
  suppress-wanted watcher q w (some issue) id h = cc
  suppress-wanted watcher q w none id h =
      create_if-wanted
        (should_auto_create watcher.issue_creation_policy
          (default_priority to_lowercase show_metric q.event))
        _ q w id h

  limited-wanted :
      (watcher : Watcher) (q : Submission) (w : WatcherWorld) (id : ℕ)
      → reported (limited is_alphanumeric to_lowercase show_metric event_json watcher q w).1
        ≡ some id
      → should_auto_create watcher.issue_creation_policy
          (default_priority to_lowercase show_metric q.event)
        ≡ true
  limited-wanted watcher q w id =
      elim (Bool-cases (
        ltb watcher.issue_creation_policy.max_per_hour
          (count_in q.agent_id q.hour (upsert q.agent_id q.hour w.watcher_rate_limits)))) [
            | inl over ↦ rw over (λ h. cc)
            | inr under ↦ rw under (λ h.
                suppress-wanted watcher q
                  (record w {
                    watcher_rate_limits = upsert q.agent_id q.hour w.watcher_rate_limits;
                  })
                  (find_active_discovery q.agent_id (dedup_key q.event) w.discoveries) id h)
          ]

  status-wanted :
      (watcher : Watcher) (q : Submission) (w : WatcherWorld) (status : WatcherStatus) (id : ℕ)
      → reported
          (by_status is_alphanumeric to_lowercase show_metric event_json watcher q w status).1
        ≡ some id
      → (status ≡ active)
        × (should_auto_create watcher.issue_creation_policy
              (default_priority to_lowercase show_metric q.event)
            ≡ true)
  status-wanted watcher q w paused id h = cc
  status-wanted watcher q w active id h = (refl, limited-wanted watcher q w id h)

  -- A submission that reports an issue comes from an active watcher whose policy creates issues by itself,
  -- and the priority of the discovery is not above the policy's threshold, where there is one.
  pub submit_discovery-policy :
      (q : Submission) (w : WatcherWorld) (watcher : Watcher) (id : ℕ)
      → find_watcher q.agent_id w.watchers ≡ some watcher
      → reported (submit q w).1 ≡ some id
      → (watcher.status ≡ active)
        × (watcher.issue_creation_policy.auto_create ≡ true)
        × (is_allowed watcher.issue_creation_policy.require_approval_above
              (default_priority to_lowercase show_metric q.event)
            ≡ true)
  unfolding submit_discovery
  submit_discovery-policy q w watcher id e h =
      let k : reported
            (by_status is_alphanumeric to_lowercase show_metric event_json watcher q w
              watcher.status).1
          ≡ some id =
        rw (e, submit_discovery) at h in
      let (a, b) = status-wanted watcher q w watcher.status id k in
      (a, ground (arith, b), ground (arith, b))

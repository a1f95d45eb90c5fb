-- ===== src/Watcher/Tests.antt =====
-- Runs of the watchers' store, and the instances of its theorems.
use Prim.Native.Char.{Char, code}
use vai.Common.{
  ℕ, ◌+◌, ◌≤◌, ◌≡◌, refl, none, some, Bool, true, ◌&&◌, List, [], ◌∷◌, String, leb, arith,
}
use vai.Issue.RateLimit.{count_in, upsert, create_by_agent}
use vai.Watcher.{
  Watcher, DiscoveryEventKind, test_failure_discovered, active, test_suite, dedup_key, is_allowed,
  default_priority, priority_rank,
}
use vai.Watcher.Store.{WatcherWorld, Submission, find_watcher, latest_tracking}
use vai.Watcher.Submit.{submit_discovery}
use vai.Watcher.Submit.Once.{tracking_count, issues_made, submit_all-one_issue}
use vai.Watcher.Submit.Policy.{submit, reported, submit_discovery-policy}

abbrev is_small_letter : Char → Bool
is_small_letter c = leb 97 (code c) && leb (code c) 122

abbrev same_text : String → String
same_text s = s

abbrev no_digits : ℕ → String
no_digits n = "0.00"

abbrev no_json : DiscoveryEventKind → String
no_json e = "{}"

abbrev ci : Watcher
ci = record {
  agent_id = "ci";
  watch_type = test_suite;
  description = "nightly";
  issue_creation_policy = record {
    auto_create = true;
    max_per_hour = 2;
    require_approval_above = some "medium";
  };
  status = active;
  registered_at = 0;
  last_discovery_at = none;
  discovery_count = 0;
}

abbrev fresh : WatcherWorld
fresh = record {
  watchers = ci ∷ [];
  discoveries = [];
  watcher_rate_limits = [];
  store = record { issues = []; links = []; rate_limits = []; event_log = [] };
}

abbrev failure : ℕ → Submission
failure n = record {
  agent_id = "ci";
  event = test_failure_discovered "unit" "login" "panic" none;
  record_id = n;
  fresh_issue_id = n;
  now = n;
  hour = "2026032110";
}

abbrev three : List Submission
three = failure 1 ∷ failure 2 ∷ failure 3 ∷ []

-- The issue was made by the first submission.
first_reports :
    reported is_small_letter same_text no_digits no_json
      (submit is_small_letter same_text no_digits no_json (failure 1) fresh).1
    ≡ some 1
unfolding submit_discovery find_watcher count_in upsert latest_tracking create_by_agent
    priority_rank
first_reports = refl

ci_found : find_watcher "ci" fresh.watchers ≡ some ci
unfolding find_watcher
ci_found = refl

submit_discovery-policy_example :
    (ci.status ≡ active)
    × (ci.issue_creation_policy.auto_create ≡ true)
    × (is_allowed ci.issue_creation_policy.require_approval_above
          (default_priority same_text no_digits (failure 1).event)
        ≡ true)
submit_discovery-policy_example =
    submit_discovery-policy is_small_letter same_text no_digits no_json (failure 1) fresh ci 1
      ci_found first_reports

submit_all-one_issue_example :
    issues_made is_small_letter same_text no_digits no_json "ci"
        (dedup_key (failure 1).event)
        three
        fresh
      + tracking_count "ci" (dedup_key (failure 1).event) fresh.discoveries
    ≤ 1
submit_all-one_issue_example =
    submit_all-one_issue is_small_letter same_text no_digits no_json "ci"
      (dedup_key (failure 1).event) three fresh (omega arith)

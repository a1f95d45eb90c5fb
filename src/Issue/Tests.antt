-- ===== src/Issue/Tests.antt =====
-- Runs of the issue store, and the instances of its theorems.
use Prim.Native.Char.{Char, code}
use mathlib.Core.List.{Perm}
use mathlib.Core.List.Perm
use vai.Common.{
  ℕ, ◌≡◌, ◌≢◌, refl, ◌⊎◌, inl, some, none, Bool, ◌&&◌, List, [], ◌∷◌, String, leb, map, ◌≤◌, ◌+◌,
  ◌-◌, suc, min, arith,
}
use vai.Common.Sets.{set_of}
use vai.Issue.{
  medium, open_status, in_progress, resolved, closed, IssueRow, Issue, row_to_issue,
  status_from_db_str,
}
use vai.Issue.Labels.{join_labels, split_labels, split_labels-join_labels}
use vai.Issue.Store.{World, find_row, err, rate_limit_exceeded}
use vai.Issue.Rows.{status_at}
use vai.Issue.Lifecycle.{set_in_progress_op, reopen_op, close_op, Outcome}
use vai.Issue.Lifecycle.Outcomes.{run_op-Outcome}
use vai.Issue.Lifecycle.Runs.{run_commands-settled, run_commands, Command, on_issue}
use vai.Issue.Similar.{
  is_similar, tokenize_title, find_similar_open_issue, find_similar_row, scan_issues, first_similar,
}
use vai.Issue.Similar.Search.{find_similar-agree, IsAnswer, HasTitle}
use vai.Issue.RateLimit.{
  Request, create_by_agent, agent_issue_count_this_hour, count_in, upsert, decrement,
}
use vai.Issue.RateLimit.Quota.{
  granted-quota, create_by_agent-refused, granted, attempts, run, outcome_of,
}
use vai.Issue.Discussion.{Discussion}

abbrev empty_world : World
empty_world = record { issues = []; links = []; rate_limits = []; event_log = [] }

abbrev row : ℕ → String → String → IssueRow
row id title status = record {
  id = id;
  title = title;
  description = "";
  status = status;
  priority = "high";
  labels = "bug,ui";
  creator = "ann";
  resolution = none;
  agent_source = none;
  acceptance_criteria = [];
  created_at = 1;
  updated_at = 1;
}

abbrev two_issues : World
two_issues = record empty_world {
  issues = row 1 "fix login page" "open" ∷ row 2 "speed up search" "resolved" ∷ [];
}

split_labels-join_labels_example :
    split_labels (join_labels ("bug" ∷ "ui" ∷ [])) ≡ "bug" ∷ "ui" ∷ []
split_labels-join_labels_example =
    split_labels-join_labels ("bug" ∷ "ui" ∷ []) (refl, (refl, tt)) (λ p. cc)

-- A label that holds a comma is read back as two.
comma_label : split_labels (join_labels ("a,b" ∷ [])) ≡ "a" ∷ "b" ∷ []
unfolding join_labels split_labels
comma_label = refl

first_open : status_at 1 two_issues ≡ some open_status
unfolding find_row row_to_issue status_from_db_str
first_open = refl

second_resolved : status_at 2 two_issues ≡ some resolved
unfolding find_row row_to_issue status_from_db_str
second_resolved = refl

run_op-Outcome_example :
    Outcome (set_in_progress_op 1 7 5) two_issues (some in_progress) open_status
run_op-Outcome_example = run_op-Outcome (set_in_progress_op 1 7 5) two_issues open_status first_open

abbrev attempts_to_reopen : List Command
attempts_to_reopen =
    on_issue (reopen_op 2 5)
    ∷ on_issue (set_in_progress_op 2 7 6)
    ∷ on_issue (close_op 2 "done" 8)
    ∷ []

run_commands-settled_example :
    (status_at 2 (run_commands attempts_to_reopen two_issues) ≡ some resolved)
    ⊎ (status_at 2 (run_commands attempts_to_reopen two_issues) ≡ some closed)
run_commands-settled_example =
    run_commands-settled attempts_to_reopen two_issues 2 resolved refl second_resolved

-- The letters and digits of ASCII; titles are written in small letters here.
abbrev is_ascii_alphanumeric : Char → Bool
is_ascii_alphanumeric c = let n = code c in (leb 97 n && leb n 122)

abbrev same_text : String → String
same_text s = s

found_again :
    find_similar_open_issue is_ascii_alphanumeric same_text
      (map row_to_issue two_issues.issues)
      "fix the login page"
    ≡ some 1
unfolding find_similar_open_issue scan_issues tokenize_title is_similar set_of row_to_issue
    status_from_db_str
found_again = refl

-- Two open issues have similar titles; the issues are listed with the newest first.
abbrev oldest_first : List IssueRow
oldest_first =
    row 1 "fix login page" "open"
    ∷ row 2 "speed up search" "resolved"
    ∷ row 3 "login page" "open"
    ∷ []

abbrev newest_first : List IssueRow
newest_first =
    row 3 "login page" "open"
    ∷ row 2 "speed up search" "resolved"
    ∷ row 1 "fix login page" "open"
    ∷ []

newest_first-oldest_first : Perm newest_first oldest_first
newest_first-oldest_first =
    Perm.trans (Perm.cons _ (Perm.swap _ _ []))
      (Perm.trans (Perm.swap _ _ _) (Perm.cons _ (Perm.swap _ _ [])))

-- The searches may answer with different issues.
first_by_sql : find_similar_row is_ascii_alphanumeric same_text oldest_first "login page" ≡ some 1
unfolding find_similar_row first_similar tokenize_title is_similar set_of
first_by_sql = refl

first_by_list :
    find_similar_open_issue is_ascii_alphanumeric same_text
      (map row_to_issue newest_first)
      "login page"
    ≡ some 3
unfolding find_similar_open_issue scan_issues tokenize_title is_similar set_of row_to_issue
    status_from_db_str
first_by_list = refl

find_similar-agree_example :
    IsAnswer is_ascii_alphanumeric same_text
      (tokenize_title is_ascii_alphanumeric same_text "login page")
      oldest_first
      (find_similar_row is_ascii_alphanumeric same_text oldest_first "login page")
    × IsAnswer is_ascii_alphanumeric same_text
        (tokenize_title is_ascii_alphanumeric same_text "login page")
        oldest_first
        (find_similar_open_issue is_ascii_alphanumeric same_text
          (map row_to_issue newest_first)
          "login page")
find_similar-agree_example =
    find_similar-agree is_ascii_alphanumeric same_text oldest_first newest_first "login page"
      newest_first-oldest_first ((open_status, refl), ((resolved, refl), ((open_status, refl), tt)))

title_has_words : tokenize_title is_ascii_alphanumeric same_text "fix login page" ≢ []
unfolding tokenize_title set_of
title_has_words p = cc

abbrev read_issues : List Issue
read_issues = map row_to_issue two_issues.issues

first-HasTitle : HasTitle "fix login page" read_issues
unfolding row_to_issue status_from_db_str
first-HasTitle = inl (refl, inl refl)

abbrev call : ℕ → String → Request
call id agent = record {
  id = id;
  now = 3;
  hour = "2026-03-21T10";
  title = "flaky test";
  description = "";
  priority = medium;
  labels = [];
  agent_id = agent;
  source = record { source_type = "test_failure"; details = "{}" };
}

abbrev calls : List Request
calls = call 1 "a" ∷ call 2 "b" ∷ call 3 "a" ∷ call 4 "a" ∷ []

-- Three calls under a limit of two.
two_granted : granted is_ascii_alphanumeric same_text 2 "a" "2026-03-21T10" calls empty_world ≡ 2
unfolding create_by_agent count_in upsert decrement
two_granted = refl

no_calls_yet : agent_issue_count_this_hour "a" "2026-03-21T10" empty_world ≤ 2
unfolding count_in
no_calls_yet = omega arith

granted-quota_example :
    (granted is_ascii_alphanumeric same_text 2 "a" "2026-03-21T10" calls empty_world
      ≡ min
          (attempts is_ascii_alphanumeric same_text 2 "a" "2026-03-21T10" calls)
          (2 - agent_issue_count_this_hour "a" "2026-03-21T10" empty_world))
    × (agent_issue_count_this_hour "a" "2026-03-21T10"
          (run is_ascii_alphanumeric same_text 2 calls empty_world)
        ≡ agent_issue_count_this_hour "a" "2026-03-21T10" empty_world
          + granted is_ascii_alphanumeric same_text 2 "a" "2026-03-21T10" calls empty_world)
granted-quota_example =
    granted-quota is_ascii_alphanumeric same_text 2 "a" "2026-03-21T10" calls empty_world
      no_calls_yet

abbrev used_up : World
used_up = record empty_world {
  rate_limits = record { agent_id = "a"; hour_bucket = "2026-03-21T10"; count = 2 } ∷ [];
}

limit_reached : 2 ≤ agent_issue_count_this_hour "a" "2026-03-21T10" used_up
unfolding count_in
limit_reached = omega arith

create_by_agent-refused_example :
    ((outcome_of is_ascii_alphanumeric same_text 2 (call 9 "a") used_up).1
      ≡ err (
          rate_limit_exceeded "a"
            (suc (agent_issue_count_this_hour "a" "2026-03-21T10" used_up))
            2))
    × ((outcome_of is_ascii_alphanumeric same_text 2 (call 9 "a") used_up).0.issues ≡ [])
    × ((outcome_of is_ascii_alphanumeric same_text 2 (call 9 "a") used_up).0.event_log ≡ [])
    × (agent_issue_count_this_hour "a" "2026-03-21T10"
          (outcome_of is_ascii_alphanumeric same_text 2 (call 9 "a") used_up).0
        ≡ agent_issue_count_this_hour "a" "2026-03-21T10" used_up)
create_by_agent-refused_example =
    create_by_agent-refused is_ascii_alphanumeric same_text 2 (call 9 "a") used_up "a"
      "2026-03-21T10" limit_reached

abbrev talk : Discussion
talk = record {
  comments =
      record {
        id = 4;
        issue_id = 1;
        author = "ann";
        body = some "seen it too";
        author_type = "human";
        author_id = none;
        created_at = 2;
        parent_id = none;
        edited_at = none;
        deleted_at = none;
      }
      ∷ [];
  dependencies = record { issue_id = 1; depends_on_id = 2 } ∷ [];
}

-- ===== src/Issue/RateLimit.antt =====
-- `create_by_agent` of src/issue/mod.rs: the counter of an agent's creations in one hour, and the creation
-- that it limits. The clock is read twice in one call; both readings are taken to fall in the same hour.
pub mod Quota
use Prim.Native.Char.{Char}
use vai.Common.{
  ℕ, suc, ◌+◌, ◌-◌, Option, none, some, Bool, true, false, ◌&&◌, List, [], ◌∷◌, ◌++◌, String, ◌==◌,
  ltb, any, map, if◌then◌else◌,
}
use vai.Common.Eq.{string_equality}
use vai.Issue.{IssuePriority, AgentSource, Issue, priority_as_str}
use vai.EventLog.{issue_created}
use vai.Issue.Store.{
  World, RateRow, Result, ok, err, rate_limit_exceeded, new_row, new_issue, append,
}
use vai.Issue.Similar.{find_similar_row}

abbrev pub is_bucket : String → String → RateRow → Bool
is_bucket agent hour r = (r.agent_id == agent) && (r.hour_bucket == hour)

-- `SELECT COALESCE(count, 0)`, and 0 where there is no row.
unfoldable pub count_in : String → String → List RateRow → ℕ
count_in agent hour [] = 0
count_in agent hour (r ∷ rows) =
    if is_bucket agent hour r then r.count else count_in agent hour rows

abbrev pub agent_issue_count_this_hour : String → String → World → ℕ
agent_issue_count_this_hour agent hour w = count_in agent hour w.rate_limits

-- `INSERT ... ON CONFLICT DO UPDATE SET count = count + 1`.
unfoldable pub upsert : String → String → List RateRow → List RateRow
upsert agent hour [] = record { agent_id = agent; hour_bucket = hour; count = 1 } ∷ []
upsert agent hour (r ∷ rows) =
    if is_bucket agent hour r
    then record r { count = r.count + 1 } ∷ rows
    else r ∷ upsert agent hour rows

-- `UPDATE ... SET count = count - 1`.
unfoldable pub decrement : String → String → List RateRow → List RateRow
decrement agent hour [] = []
decrement agent hour (r ∷ rows) =
    (if is_bucket agent hour r then record r { count = r.count - 1 } else r)
    ∷ decrement agent hour rows

abbrev pub increment_agent_rate_limit : String → String → World → World × ℕ
increment_agent_rate_limit agent hour w =
    let rows = upsert agent hour w.rate_limits in
    (record w { rate_limits = rows }, count_in agent hour rows)

-- One call, with the id, the time and the hour that it reads.
pub record Request : Type 0 where
  pub id : ℕ
  pub now : ℕ
  pub hour : String
  pub title : String
  pub description : String
  pub priority : IssuePriority
  pub labels : List String
  pub agent_id : String
  pub source : AgentSource

module _ (is_alphanumeric : Char → Bool) (to_lowercase : String → String) where
  unfoldable pub create_by_agent : ℕ → Request → World → World × Result (Issue × Option ℕ)
  create_by_agent max_per_hour q w =
      let counted = increment_agent_rate_limit q.agent_id q.hour w in
      if ltb max_per_hour counted.1
      then (
        record (counted.0) { rate_limits = decrement q.agent_id q.hour counted.0.rate_limits },
        err (rate_limit_exceeded q.agent_id counted.1 max_per_hour),
      )
      else let possible_duplicate =
          find_similar_row is_alphanumeric to_lowercase counted.0.issues q.title in
        let row =
          new_row q.id q.now q.title q.description q.priority q.labels q.agent_id (some q.source) in
        let inserted = record (counted.0) { issues = counted.0.issues ++ row ∷ [] } in
        (
          append (issue_created q.id q.title q.agent_id (priority_as_str q.priority)) inserted,
          ok (
            new_issue q.id q.now q.title q.description q.priority q.labels q.agent_id
                (some q.source),
            possible_duplicate,
          ),
        )

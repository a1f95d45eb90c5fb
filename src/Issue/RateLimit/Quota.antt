-- ===== src/Issue/RateLimit/Quota.antt =====
-- How many issues an agent may create in one hour, by `create_by_agent` of src/issue/mod.rs.
use Prim.Native.Char.{Char}
use text.Mathlib.TextEquality.{eq_iff}
use vai.Common.{
  ℕ, suc, ◌+◌, ◌-◌, ◌≤◌, ◌≡◌, ap, ◌∙◌, Option, Bool, true, false, ◌&&◌, List, [], ◌∷◌, String, ◌==◌,
  ltb, min, arith, if◌then◌else◌,
}
use vai.Common.Eq.{string_equality}
use vai.Issue.{Issue}
use vai.Issue.Store.{World, RateRow, Result, ok, err, rate_limit_exceeded}
use vai.Issue.RateLimit.{
  count_in, agent_issue_count_this_hour, upsert, decrement, Request, create_by_agent,
}

abbrev pub is_request_in : String → String → Request → Bool
is_request_in agent hour q = (q.agent_id == agent) && (q.hour == hour)

pub count_in-upsert :
    (a h b k : String) (rows : List RateRow)
    → count_in a h (upsert b k rows)
      ≡ (if (b == a) && (k == h) then suc (count_in a h rows) else count_in a h rows)
unfolding count_in upsert
count_in-upsert a h b k [] = ground arith
count_in-upsert a h b k (r ∷ rows) = ground (
  arith,
  count_in-upsert a h b k rows,
  eq_iff r.agent_id a,
  eq_iff r.agent_id b,
  eq_iff b a,
  eq_iff r.hour_bucket h,
  eq_iff r.hour_bucket k,
  eq_iff k h,
)

count_in-decrement :
    (a h b k : String) (rows : List RateRow)
    → count_in a h (decrement b k rows)
      ≡ (if (b == a) && (k == h) then count_in a h rows - 1 else count_in a h rows)
unfolding count_in decrement
count_in-decrement a h b k [] = ground arith
count_in-decrement a h b k (r ∷ rows) = ground (
  arith,
  count_in-decrement a h b k rows,
  eq_iff r.agent_id a,
  eq_iff r.agent_id b,
  eq_iff b a,
  eq_iff r.hour_bucket h,
  eq_iff r.hour_bucket k,
  eq_iff k h,
)

abbrev pub is_ok : {A : Type 0} → Result A → Bool
is_ok (ok a) = true
is_ok (err e) = false

module _ (is_alphanumeric : Char → Bool) (to_lowercase : String → String) (max_per_hour : ℕ) where
  step_count :
      (a h : String) (q : Request) (w : World)
      → agent_issue_count_this_hour a h
          (create_by_agent is_alphanumeric to_lowercase max_per_hour q w).0
        ≡ (if is_request_in a h q && ltb (agent_issue_count_this_hour a h w) max_per_hour
            then suc (agent_issue_count_this_hour a h w)
            else agent_issue_count_this_hour a h w)
  unfolding create_by_agent
  step_count a h q w = ground (
    arith,
    count_in-upsert a h q.agent_id q.hour w.rate_limits,
    count_in-upsert q.agent_id q.hour q.agent_id q.hour w.rate_limits,
    count_in-decrement a h q.agent_id q.hour (upsert q.agent_id q.hour w.rate_limits),
    eq_iff q.agent_id a,
    eq_iff q.hour h,
    eq_iff q.agent_id q.agent_id,
    eq_iff q.hour q.hour,
  )

  step_result :
      (q : Request) (w : World)
      → is_ok (create_by_agent is_alphanumeric to_lowercase max_per_hour q w).1
        ≡ ltb (agent_issue_count_this_hour q.agent_id q.hour w) max_per_hour
  unfolding create_by_agent
  step_result q w = ground (
    arith,
    count_in-upsert q.agent_id q.hour q.agent_id q.hour w.rate_limits,
    eq_iff q.agent_id q.agent_id,
    eq_iff q.hour q.hour,
  )

  own_result :
      (a h : String) (q : Request) (w : World)
      → is_request_in a h q ≡ true
      → is_ok (create_by_agent is_alphanumeric to_lowercase max_per_hour q w).1
        ≡ ltb (agent_issue_count_this_hour a h w) max_per_hour
  own_result a h q w k =
      let same_agent : q.agent_id ≡ a = ground (arith, eq_iff q.agent_id a) in
      let same_hour : q.hour ≡ h = ground (arith, eq_iff q.hour h) in
      step_result q w
      ∙ (ap (λ x. ltb (agent_issue_count_this_hour x q.hour w) max_per_hour) same_agent
          ∙ ap (λ x. ltb (agent_issue_count_this_hour a x w) max_per_hour) same_hour)

  -- The store after a sequence of calls.
  abbrev pub run : List Request → World → World
  run [] w = w
  run (q ∷ qs) w = run qs (create_by_agent is_alphanumeric to_lowercase max_per_hour q w).0

  -- How many calls of one agent in one hour are made, and how many of them create an issue.
  abbrev pub attempts : String → String → List Request → ℕ
  attempts a h [] = 0
  attempts a h (q ∷ qs) = if is_request_in a h q then suc (attempts a h qs) else attempts a h qs

  abbrev pub granted : String → String → List Request → World → ℕ
  granted a h [] w = 0
  granted a h (q ∷ qs) w =
      let outcome = create_by_agent is_alphanumeric to_lowercase max_per_hour q w in
      let rest = granted a h qs outcome.0 in
      if is_request_in a h q && is_ok outcome.1 then suc rest else rest

  -- Whatever other agents do in between, the calls of an agent in one hour create exactly as many issues as
  -- are left below the limit, or as many as there are calls; the counter ends at what it was and those.
  pub granted-quota :
      (a h : String) (qs : List Request) (w : World)
      → agent_issue_count_this_hour a h w ≤ max_per_hour
      → (granted a h qs w
          ≡ min (attempts a h qs) (max_per_hour - agent_issue_count_this_hour a h w))
        × (agent_issue_count_this_hour a h (run qs w)
            ≡ agent_issue_count_this_hour a h w + granted a h qs w)
  granted-quota a h [] w k = ground arith
  granted-quota a h (q ∷ qs) w k =
      let after = (create_by_agent is_alphanumeric to_lowercase max_per_hour q w).0 in
      let c = step_count a h q w in
      let rest =
        granted-quota a h qs (create_by_agent is_alphanumeric to_lowercase max_per_hour q w).0
          (ground (arith, c)) in
      ground (arith, c, rest.0, rest.1, own_result a h q w)

  abbrev pub outcome_of : Request → World → World × Result (Issue × Option ℕ)
  outcome_of q w = create_by_agent is_alphanumeric to_lowercase max_per_hour q w

  refused_count :
      (a h : String) (q : Request) (w : World)
      → max_per_hour ≤ agent_issue_count_this_hour q.agent_id q.hour w
      → agent_issue_count_this_hour a h (outcome_of q w).0 ≡ agent_issue_count_this_hour a h w
  refused_count a h q w k = ground (arith, step_count a h q w, own_result a h q w, step_result q w)

  -- A call of an agent whose counter has reached the limit is refused with the number that it would have
  -- been; it adds no issue and no event, and leaves every counter as it was.
  pub create_by_agent-refused :
      (q : Request) (w : World) (a h : String)
      → max_per_hour ≤ agent_issue_count_this_hour q.agent_id q.hour w
      → (outcome_of q w).1
          ≡ err (
              rate_limit_exceeded q.agent_id
                (suc (agent_issue_count_this_hour q.agent_id q.hour w))
                max_per_hour)
        × ((outcome_of q w).0.issues ≡ w.issues)
        × ((outcome_of q w).0.event_log ≡ w.event_log)
        × (agent_issue_count_this_hour a h (outcome_of q w).0 ≡ agent_issue_count_this_hour a h w)
  unfolding create_by_agent
  create_by_agent-refused q w a h k =
      let here = count_in-upsert q.agent_id q.hour q.agent_id q.hour w.rate_limits in
      let same_agent = eq_iff q.agent_id q.agent_id in
      let same_hour = eq_iff q.hour q.hour in
      (
        ground (arith, here, same_agent, same_hour),
        ground (arith, here, same_agent, same_hour),
        ground (arith, here, same_agent, same_hour),
        refused_count a h q w k,
      )

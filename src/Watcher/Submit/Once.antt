-- ===== src/Watcher/Submit/Once.antt =====
-- One problem, one issue: what `submit_discovery` of src/watcher/mod.rs does with a repeated discovery.
use Prim.Native.Char.{Char}
use text.Mathlib.TextEquality.{eq_iff}
use vai.Common.{
  ℕ, suc, ◌+◌, ◌-◌, ◌&&◌, ◌==◌, length, length-append, ◌≤◌, ◌≡◌, refl, sym, ap, ◌∙◌, inl, inr,
  Option, none, some, Bool, true, false, List, [], ◌∷◌, ◌++◌, String, ltb, if◌then◌else◌, arith,
  Bool-cases, Option-cases, ◌⊎◌,
}
use vai.Common.Eq.{string_equality}
use vai.Issue.Store.{World}
use vai.Issue.RateLimit.{count_in, upsert, increment_agent_rate_limit, create_by_agent}
use vai.Watcher.{
  Watcher, active, paused, WatcherStatus, DiscoveryEventKind, dedup_key, should_auto_create,
  default_priority,
}
use vai.Watcher.Store.{
  DiscoveryRow, WatcherWorld, find_watcher, find_active_discovery, latest_tracking, is_tracking,
  has_issue, Submission, discovery_row,
}
use vai.Watcher.Submit.{submit_discovery, by_status, limited, suppress_or_create, create_if}

-- How many recorded discoveries of an agent under a key have made an issue.
abbrev pub tracking_count : String → String → List DiscoveryRow → ℕ
tracking_count agent key [] = 0
tracking_count agent key (r ∷ rows) =
    if is_tracking agent key r
    then suc (tracking_count agent key rows)
    else tracking_count agent key rows

tracking_count-append :
    (agent key : String) (rows : List DiscoveryRow) (r : DiscoveryRow)
    → tracking_count agent key (rows ++ r ∷ []) ≡ (
        if is_tracking agent key r
        then suc (tracking_count agent key rows)
        else tracking_count agent key rows)
tracking_count-append agent key [] r = ground arith
tracking_count-append agent key (x ∷ rows) r =
    ground (arith, tracking_count-append agent key rows r)

latest_tracking-issue :
    (agent key : String) (rows : List DiscoveryRow) (r : DiscoveryRow)
    → latest_tracking agent key rows ≡ some r
    → has_issue r.created_issue_id ≡ true
unfolding latest_tracking
latest_tracking-issue agent key [] r h = cc
latest_tracking-issue agent key (x ∷ rows) r h =
    elim (Option-cases (latest_tracking agent key rows)) [
      | inl e ↦ ground (arith, e, h)
      | inr (y, e) ↦ ground (arith, e, h, latest_tracking-issue agent key rows y e)
    ]

latest_tracking-none :
    (agent key : String) (rows : List DiscoveryRow)
    → latest_tracking agent key rows ≡ none
    → tracking_count agent key rows ≡ 0
unfolding latest_tracking
latest_tracking-none agent key [] h = refl
latest_tracking-none agent key (x ∷ rows) h = ground (arith, latest_tracking-none agent key rows)

find_active-none :
    (agent key : String) (rows : List DiscoveryRow)
    → find_active_discovery agent key rows ≡ none
    → tracking_count agent key rows ≡ 0
find_active-none agent key rows h = elim (Option-cases (latest_tracking agent key rows)) [
  | inl e ↦ latest_tracking-none agent key rows e
  | inr (r, e) ↦ ground (arith, e, latest_tracking-issue agent key rows r e)
]

module _ (is_alphanumeric : Char → Bool) (to_lowercase : String → String) (show_metric : ℕ → String)
    (event_json : DiscoveryEventKind → String) where
  -- The count of one key stays, or it was 0 and is at most 1.
  abbrev Steps : ℕ → ℕ → Type 0
  Steps before after = (after ≡ before) ⊎ ((before ≡ 0) × (after ≤ 1))

  record-Steps :
      (agent key : String) (q : Submission) (issue : Option ℕ) (sup : Bool)
      (rows : List DiscoveryRow)
      → (sup ≡ false → tracking_count q.agent_id (dedup_key q.event) rows ≡ 0)
      → Steps
          (tracking_count agent key rows)
          (tracking_count agent key (rows ++ discovery_row q issue sup ∷ []))
  record-Steps agent key q issue sup rows h =
      elim (Bool-cases (is_tracking agent key (discovery_row q issue sup))) [
        | inl t ↦
            let same_agent : q.agent_id ≡ agent = ground (arith, t, eq_iff q.agent_id agent) in
            let same_key : dedup_key q.event ≡ key =
              ground (arith, t, eq_iff (dedup_key q.event) key) in
            let made : sup ≡ false = ground (arith, t) in
            let zero_before : tracking_count agent key rows ≡ 0 =
              ap (λ a. tracking_count a key rows) (sym same_agent)
              ∙ (ap (λ k. tracking_count q.agent_id k rows) (sym same_key) ∙ h made) in
            inr (
              zero_before,
              ground (
                arith,
                tracking_count-append agent key rows (discovery_row q issue sup),
                zero_before,
              ),
            )
        | inr t ↦
            inl
              (ground (arith, t, tracking_count-append agent key rows (discovery_row q issue sup)))
      ]

  suppress-Steps :
      (agent key : String) (watcher : Watcher) (q : Submission) (w : WatcherWorld)
      (found : Option ℕ)
      → find_active_discovery q.agent_id (dedup_key q.event) w.discoveries ≡ found
      → Steps (tracking_count agent key w.discoveries) (
          tracking_count agent key
            (suppress_or_create is_alphanumeric to_lowercase show_metric event_json watcher q w
              found).0.discoveries)
  suppress-Steps agent key watcher q w (some issue) e =
      record-Steps agent key q (some issue) true w.discoveries (λ p. cc)
  suppress-Steps agent key watcher q w none e =
      record-Steps agent key q _ false w.discoveries
        (λ p. find_active-none q.agent_id (dedup_key q.event) w.discoveries e)

  limited-Steps :
      (agent key : String) (watcher : Watcher) (q : Submission) (w : WatcherWorld)
      → Steps (tracking_count agent key w.discoveries) (
          tracking_count agent key
            (limited is_alphanumeric to_lowercase show_metric event_json watcher q w).0.discoveries)
  limited-Steps agent key watcher q w =
      elim (Bool-cases (
        ltb watcher.issue_creation_policy.max_per_hour
          (count_in q.agent_id q.hour (upsert q.agent_id q.hour w.watcher_rate_limits)))) [
            | inl over ↦ rw over (inl refl)
            | inr under ↦ rw under (
                suppress-Steps agent key watcher q
                  (record w {
                    watcher_rate_limits = upsert q.agent_id q.hour w.watcher_rate_limits;
                  })
                  (find_active_discovery q.agent_id (dedup_key q.event) w.discoveries) refl)
          ]

  status-Steps :
      (agent key : String) (watcher : Watcher) (q : Submission) (w : WatcherWorld)
      (status : WatcherStatus)
      → Steps (tracking_count agent key w.discoveries) (
          tracking_count agent key
            (by_status is_alphanumeric to_lowercase show_metric event_json watcher q w
              status).0.discoveries)
  status-Steps agent key watcher q w paused = inl refl
  status-Steps agent key watcher q w active = limited-Steps agent key watcher q w

  submit-Steps :
      (agent key : String) (q : Submission) (w : WatcherWorld)
      → Steps (tracking_count agent key w.discoveries) (
          tracking_count agent key
            (submit_discovery is_alphanumeric to_lowercase show_metric event_json q
              w).0.discoveries)
  unfolding submit_discovery
  submit-Steps agent key q w = elim (Option-cases (find_watcher q.agent_id w.watchers)) [
    | inl e ↦ rw (e, submit_discovery) (inl refl)
    | inr (watcher, e) ↦
        rw (e, submit_discovery) (status-Steps agent key watcher q w watcher.status)
  ]

  -- Whether a submission is of that agent under that key.
  abbrev pub is_of : String → String → Submission → Bool
  is_of agent key q = (q.agent_id == agent) && (dedup_key q.event == key)

  -- The rows that the submissions of that agent under that key add to the table of issues.
  abbrev pub issues_made : String → String → List Submission → WatcherWorld → ℕ
  issues_made agent key [] w = 0
  issues_made agent key (q ∷ qs) w =
      let after = (submit_discovery is_alphanumeric to_lowercase show_metric event_json q w).0 in
      (if is_of agent key q then length after.store.issues - length w.store.issues else 0)
      + issues_made agent key qs after

  -- The table of issues grows by no more than the count of the key.
  abbrev Grows : String → String → WatcherWorld → WatcherWorld → Type 0
  Grows agent key w after =
      length after.store.issues + tracking_count agent key w.discoveries
      ≤ length w.store.issues + tracking_count agent key after.discoveries

  issues-create_if :
      (wanted : Bool) (max : ℕ) (q : Submission) (s : World)
      → let made = create_if is_alphanumeric to_lowercase show_metric event_json wanted max q s in
        length made.0.issues ≤ length s.issues + (if has_issue made.1 then 1 else 0)
  unfolding create_by_agent
  issues-create_if false max q s = omega arith
  issues-create_if true max q s =
      elim (Bool-cases (ltb max (increment_agent_rate_limit q.agent_id q.hour s).1)) [
        | inl over ↦ rw over (omega arith)
        | inr under ↦ rw under (omega (arith, length-append s.issues (_ ∷ [])))
      ]

  tracking_row :
      (agent key : String) (q : Submission) (issue : Option ℕ)
      → is_of agent key q ≡ true
      → is_tracking agent key (discovery_row q issue false) ≡ has_issue issue
  tracking_row agent key q issue h = ground (arith, h)

  suppress-Grows :
      (agent key : String) (watcher : Watcher) (q : Submission) (w : WatcherWorld)
      (found : Option ℕ)
      → is_of agent key q ≡ true
      → Grows agent key w
          (suppress_or_create is_alphanumeric to_lowercase show_metric event_json watcher q w
            found).0
  suppress-Grows agent key watcher q w (some issue) h =
      ground
        (arith, tracking_count-append agent key w.discoveries (discovery_row q (some issue) true))
  suppress-Grows agent key watcher q w none h =
      let policy = watcher.issue_creation_policy in
      let wanted = should_auto_create policy (default_priority to_lowercase show_metric q.event) in
      let made =
        create_if is_alphanumeric to_lowercase show_metric event_json wanted policy.max_per_hour q
          w.store in
      ground (
        arith,
        tracking_count-append agent key w.discoveries (discovery_row q made.1 false),
        tracking_row agent key q made.1 h,
        issues-create_if wanted policy.max_per_hour q w.store,
      )

  limited-Grows :
      (agent key : String) (watcher : Watcher) (q : Submission) (w : WatcherWorld)
      → is_of agent key q ≡ true
      → Grows agent key w
          (limited is_alphanumeric to_lowercase show_metric event_json watcher q w).0
  limited-Grows agent key watcher q w h =
      let counted = upsert q.agent_id q.hour w.watcher_rate_limits in
      elim (Bool-cases
        (ltb watcher.issue_creation_policy.max_per_hour (count_in q.agent_id q.hour counted))) [
          | inl over ↦ rw over (omega arith)
          | inr under ↦ rw under (
              suppress-Grows agent key watcher q (record w { watcher_rate_limits = counted })
                (find_active_discovery q.agent_id (dedup_key q.event) w.discoveries) h)
        ]

  status-Grows :
      (agent key : String) (watcher : Watcher) (q : Submission) (w : WatcherWorld)
      (status : WatcherStatus)
      → is_of agent key q ≡ true
      → Grows agent key w
          (by_status is_alphanumeric to_lowercase show_metric event_json watcher q w status).0
  status-Grows agent key watcher q w paused h = omega arith
  status-Grows agent key watcher q w active h = limited-Grows agent key watcher q w h

  submit-Grows :
      (agent key : String) (q : Submission) (w : WatcherWorld)
      → is_of agent key q ≡ true
      → Grows agent key w
          (submit_discovery is_alphanumeric to_lowercase show_metric event_json q w).0
  unfolding submit_discovery
  submit-Grows agent key q w h = elim (Option-cases (find_watcher q.agent_id w.watchers)) [
    | inl e ↦ rw (e, submit_discovery) (omega arith)
    | inr (watcher, e) ↦
        rw (e, submit_discovery) (status-Grows agent key watcher q w watcher.status h)
  ]

  -- From tables where at most one discovery of an agent under a key has made an issue, no sequence of
  -- submissions, by this and other watchers, adds more than one issue for that agent and key, and none where such
  -- a discovery is there already, whatever state its issue is in.
  pub submit_all-one_issue :
      (agent key : String) (qs : List Submission) (w : WatcherWorld)
      → tracking_count agent key w.discoveries ≤ 1
      → issues_made agent key qs w + tracking_count agent key w.discoveries ≤ 1
  submit_all-one_issue agent key [] w h = omega (arith, h)
  submit_all-one_issue agent key (q ∷ qs) w h =
      let after = (submit_discovery is_alphanumeric to_lowercase show_metric event_json q w).0 in
      let steps = submit-Steps agent key q w in
      let rest = submit_all-one_issue agent key qs after (ground (arith, steps)) in
      elim (Bool-cases (is_of agent key q)) [
        | inl own ↦
            let grows = submit-Grows agent key q w own in rw own (omega (arith, grows, rest))
        | inr other ↦ rw other (ground (arith, rest, steps))
      ]

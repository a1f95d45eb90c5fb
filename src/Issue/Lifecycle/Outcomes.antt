-- ===== src/Issue/Lifecycle/Outcomes.antt =====
-- What each operation of src/issue/mod.rs does to the state of its issue, and to the other issues.
use vai.Common.{
  ℕ, ◌≡◌, refl, inl, inr, Option, some, Bool, true, false, String, nat_eq, nat_eq_iff,
  if◌then◌else◌, arith, Bool-cases, Option-cases, ◌∙◌, ap, any, ◌&&◌,
}
use vai.Issue.{
  IssueStatus, open_status, in_progress, resolved, closed, Issue, IssueRow, row_to_issue,
  status_from_db_str-as_str, unwrap_or, status_as_str,
}
use vai.EventLog.{EventKind}
use vai.Issue.Store.{
  World, LinkRow, append, link, started, reopened, resolved_as, closed_as, read_back, ok, find_row,
  update_rows, read_row, get, set_in_progress, reopen, resolve, close,
}
use vai.Issue.Update.{update, updated_with}
use vai.Issue.Rows.{status_in, status_at, find_row-update_rows}
use vai.Issue.Lifecycle.{
  Op, set_in_progress_op, reopen_op, resolve_op, close_op, update_op, run_op, target, next, Outcome,
}

pub row_at :
    (id : ℕ) (w : World) (s : IssueStatus)
    → status_at id w ≡ some s
    → (r : IssueRow) × (find_row id w.issues ≡ some r) × ((row_to_issue r).status ≡ s)
row_at id w s h = elim (Option-cases (find_row id w.issues)) [
  | inl p ↦ cc
  | inr (r, p) ↦ (r, p, ground arith)
]

status_of_text :
    (r : IssueRow) (s : IssueStatus) → r.status ≡ status_as_str s → (row_to_issue r).status ≡ s
unfolding row_to_issue
status_of_text r s h = rw h (ap (unwrap_or open_status) (status_from_db_str-as_str s))

-- After a write that puts one row in the state `s'`.
wrote :
    (id : ℕ) (set : IssueRow → IssueRow) (s' : IssueStatus) (w after : World) (r : IssueRow)
    → ((x : IssueRow) → (set x).id ≡ x.id)
    → (row_to_issue (set r)).status ≡ s'
    → find_row id w.issues ≡ some r
    → after.issues ≡ update_rows id set w.issues
    → (i : Issue) × (get id after ≡ ok i) × (i.status ≡ s') × (status_at id after ≡ some s')
unfolding get
wrote id set s' w after r h k p e =
    let q : find_row id after.issues ≡ some (set r) =
      ground (arith, find_row-update_rows id id set w.issues h, nat_eq_iff id id, p, e) in
    (row_to_issue (set r), ap (read_row id) q, k, ap status_in q ∙ ap some k)

pub issues_append :
    (b : Bool) (event : EventKind) (w : World) → (if b then append event w else w).issues ≡ w.issues
issues_append true event w = refl
issues_append false event w = refl

pub issues_link : (id workspace now : ℕ) (w : World) → (link id workspace now w).issues ≡ w.issues
issues_link id workspace now w =
    elim (Bool-cases
      (any (λ (l : LinkRow). nat_eq l.issue_id id && nat_eq l.workspace_id workspace) w.links)) [
        | inl b ↦ rw b refl
        | inr b ↦ rw b refl
      ]

pub get_found :
    (id : ℕ) (w : World) (r : IssueRow)
    → find_row id w.issues ≡ some r
    → get id w ≡ ok (row_to_issue r)
unfolding get
get_found id w r p = ap (read_row id) p

made :
    (op : Op) (w after : World) (s s' : IssueStatus)
    → run_op op w ≡ read_back (target op) after
    → (i : Issue) × (get (target op) after ≡ ok i)
      × (i.status ≡ s')
      × (status_at (target op) after ≡ some s')
    → Outcome op w (some s') s
made op w after s s' e (i, g, k, st) =
    (i, ap (λ o. o.1) e ∙ g, k, ap (λ o. status_at (target op) o.0) e ∙ st)

started-Outcome :
    (id workspace now : ℕ) (w : World) (s : IssueStatus) (r : IssueRow)
    → find_row id w.issues ≡ some r
    → (row_to_issue r).status ≡ s
    → Outcome
        (set_in_progress_op id workspace now)
        w
        (next (set_in_progress_op id workspace now) s)
        s
started-Outcome id workspace now w open_status r p k =
    made (set_in_progress_op id workspace now) w (started id workspace now w) open_status
      in_progress (unfold set_in_progress in ground (arith, get_found id w r p, k))
      (wrote id _ in_progress w _ r (λ x. refl) (status_of_text _ in_progress refl) p
        (issues_link id workspace now _))
started-Outcome id workspace now w in_progress r p k =
    made (set_in_progress_op id workspace now) w (started id workspace now w) in_progress
      in_progress (unfold set_in_progress in ground (arith, get_found id w r p, k))
      (wrote id _ in_progress w _ r (λ x. refl) (status_of_text _ in_progress refl) p
        (issues_link id workspace now _))
started-Outcome id workspace now w resolved r p k =
    unfold set_in_progress in ground (arith, get_found id w r p, k)
started-Outcome id workspace now w closed r p k =
    unfold set_in_progress in ground (arith, get_found id w r p, k)

reopened-Outcome :
    (id now : ℕ) (w : World) (s : IssueStatus) (r : IssueRow)
    → find_row id w.issues ≡ some r
    → (row_to_issue r).status ≡ s
    → Outcome (reopen_op id now) w (next (reopen_op id now) s) s
reopened-Outcome id now w open_status r p k = unfold reopen in ground (arith, get_found id w r p, k)
reopened-Outcome id now w in_progress r p k =
    made (reopen_op id now) w (reopened id now w) in_progress open_status
      (unfold reopen in ground (arith, get_found id w r p, k))
      (wrote id _ open_status w _ r (λ x. refl) (status_of_text _ open_status refl) p refl)
reopened-Outcome id now w resolved r p k = unfold reopen in ground (arith, get_found id w r p, k)
reopened-Outcome id now w closed r p k = unfold reopen in ground (arith, get_found id w r p, k)

resolved-Outcome :
    (id : ℕ) (version : Option String) (now : ℕ) (w : World) (s : IssueStatus) (r : IssueRow)
    → find_row id w.issues ≡ some r
    → (row_to_issue r).status ≡ s
    → Outcome (resolve_op id version now) w (next (resolve_op id version now) s) s
resolved-Outcome id version now w open_status r p k =
    made (resolve_op id version now) w (resolved_as id version now w) open_status resolved
      (unfold resolve in ground (arith, get_found id w r p, k))
      (wrote id _ resolved w _ r (λ x. refl) (status_of_text _ resolved refl) p refl)
resolved-Outcome id version now w in_progress r p k =
    made (resolve_op id version now) w (resolved_as id version now w) in_progress resolved
      (unfold resolve in ground (arith, get_found id w r p, k))
      (wrote id _ resolved w _ r (λ x. refl) (status_of_text _ resolved refl) p refl)
resolved-Outcome id version now w resolved r p k =
    unfold resolve in ground (arith, get_found id w r p, k)
resolved-Outcome id version now w closed r p k =
    unfold resolve in ground (arith, get_found id w r p, k)

status_kept :
    (r : IssueRow) (title description priority labels : String) (now : ℕ)
    → (row_to_issue (record r {
      title = title;
      description = description;
      priority = priority;
      labels = labels;
      updated_at = now;
    })).status
      ≡ (row_to_issue r).status
unfolding row_to_issue
status_kept r title description priority labels now = refl

-- Each operation on an issue in the state `s` makes the move of the table, and then the issue is read
-- back in its new state; or the table refuses, and then the operation reports the move and changes nothing.
pub run_op-Outcome :
    (op : Op) (w : World) (s : IssueStatus)
    → status_at (target op) w ≡ some s
    → Outcome op w (next op s) s
run_op-Outcome (set_in_progress_op id workspace now) w s h =
    let (r, p, k) = row_at id w s h in started-Outcome id workspace now w s r p k
run_op-Outcome (reopen_op id now) w s h =
    let (r, p, k) = row_at id w s h in reopened-Outcome id now w s r p k
run_op-Outcome (resolve_op id version now) w s h =
    let (r, p, k) = row_at id w s h in resolved-Outcome id version now w s r p k
run_op-Outcome (close_op id resolution now) w s h =
    let (r, p, k) = row_at id w s h in
    made (close_op id resolution now) w (closed_as id resolution now w) s closed
      (unfold close in ground (arith, get_found id w r p, k))
      (wrote id _ closed w _ r (λ x. refl) (status_of_text _ closed refl) p refl)
run_op-Outcome (update_op id title description priority labels now) w s h =
    let (r, p, k) = row_at id w s h in
    made (update_op id title description priority labels now) w
      (updated_with id title description priority labels now (row_to_issue r) w) s s
      (unfold update in ground (arith, get_found id w r p))
      (wrote id _ s w _ r (λ x. refl) (status_kept r _ _ _ _ now ∙ k) p (issues_append _ _ _))

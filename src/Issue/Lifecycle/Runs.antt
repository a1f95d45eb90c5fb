-- ===== src/Issue/Lifecycle/Runs.antt =====
-- Sequences of the operations of src/issue/mod.rs.
use vai.Common.{
  ℕ, ◌≡◌, ◌≢◌, refl, inl, inr, Option, none, some, Bool, true, false, List, [], ◌∷◌, String, nat_eq,
  nat_eq_iff, if◌then◌else◌, arith, Bool-cases, Option-cases, ◌⊎◌, sym, ◌∙◌, ap,
}
use vai.Issue.{
  IssueStatus, Issue, open_status, in_progress, resolved, closed, IssueRow, IssuePriority,
  row_to_issue, unwrap_or,
}
use vai.Issue.Store.{
  World, Result, find_row, update_rows, get, set_in_progress, reopen, resolve, close, create,
  read_back, set_rows,
}
use vai.Issue.Update.{update, updated_with}
use vai.Issue.Rows.{status_in, status_at, find_row-update_rows, find_row-append}
use vai.Issue.Lifecycle.{
  Op, set_in_progress_op, reopen_op, resolve_op, close_op, update_op, run_op, target, next, Outcome,
}
use vai.Issue.Lifecycle.Outcomes.{run_op-Outcome, issues_append, issues_link, get_found}

find_row-other :
    (id j : ℕ) (set : IssueRow → IssueRow) (rows : List IssueRow)
    → ((r : IssueRow) → (set r).id ≡ r.id)
    → id ≢ j
    → find_row j (update_rows id set rows) ≡ find_row j rows
find_row-other id j set rows h n =
    ground (arith, find_row-update_rows id j set rows h, nat_eq_iff id j)

update_found :
    (id : ℕ) (title description : Option String) (priority : Option IssuePriority)
    (labels : Option (List String)) (now : ℕ) (w : World) (r : IssueRow)
    → find_row id w.issues ≡ some r
    → update id title description priority labels now w
      ≡ read_back id (updated_with id title description priority labels now (row_to_issue r) w)
unfolding update
update_found id title description priority labels now w r p = ground (arith, get_found id w r p)

-- An operation leaves the rows of every other issue as they are.
pub run_op-others :
    (op : Op) (w : World) (j : ℕ)
    → target op ≢ j
    → find_row j (run_op op w).0.issues ≡ find_row j w.issues
unfolding get set_in_progress reopen resolve close update
run_op-others (set_in_progress_op id workspace now) w j n = ground (
  arith,
  issues_link id workspace now
      (set_rows id (λ r. record r { status = "in_progress"; updated_at = now }) w),
  find_row-other id j (λ r. record r { status = "in_progress"; updated_at = now }) w.issues
      (λ r. refl) n,
)
run_op-others (reopen_op id now) w j n = ground (
  arith,
  find_row-other id j (λ r. record r { status = "open"; updated_at = now }) w.issues (λ r. refl) n,
)
run_op-others (resolve_op id version now) w j n = ground (
  arith,
  find_row-other id j
      (λ r. record r { status = "resolved"; resolution = some "resolved"; updated_at = now })
      w.issues (λ r. refl) n,
)
run_op-others (close_op id resolution now) w j n = ground (
  arith,
  find_row-other id j
      (λ r. record r { status = "closed"; resolution = some resolution; updated_at = now }) w.issues
      (λ r. refl) n,
)
run_op-others (update_op id title description priority labels now) w j n =
    elim (Option-cases (find_row id w.issues)) [
      | inl p ↦ ground (arith, p)
      | inr (r, p) ↦
          ap (λ (o : World × Result Issue). find_row j o.0.issues)
            (update_found id title description priority labels now w r p)
          ∙ (ap (find_row j) (issues_append _ _ _) ∙ find_row-other id j _ w.issues (λ x. refl) n)
    ]

Outcome-status :
    (op : Op) (w : World) (s : IssueStatus) (move : Option IssueStatus)
    → Outcome op w move s
    → status_at (target op) w ≡ some s
    → status_at (target op) (run_op op w).0 ≡ some (unwrap_or s move)
Outcome-status op w s (some s') (i, g, k, st) h = st
Outcome-status op w s none e h = ap (λ o. status_at (target op) o.0) e ∙ h

-- The state of an issue after an operation on any issue: the table's move on its own, none on another.
pub status_at-run_op :
    (op : Op) (w : World) (j : ℕ) (s : IssueStatus)
    → status_at j w ≡ some s
    → status_at j (run_op op w).0
      ≡ some (if nat_eq (target op) j then unwrap_or s (next op s) else s)
status_at-run_op op w j s h = elim (Bool-cases (nat_eq (target op) j)) [
  | inl same ↦
      let p : target op ≡ j = ground (arith, nat_eq_iff (target op) j) in
      let here : status_at (target op) w ≡ some s = ap (λ k. status_at k w) p ∙ h in
      rw same (
        ap (λ k. status_at k (run_op op w).0) (sym p)
        ∙ Outcome-status op w s (next op s) (run_op-Outcome op w s here) here)
  | inr differ ↦ rw differ (ap status_in (run_op-others op w j (ground arith)) ∙ h)
]

-- What a client may ask of the store.
pub data Command : Type 0 where
  new_issue_cmd : ℕ → ℕ → String → String → IssuePriority → List String → String → Command
  on_issue : Op → Command

abbrev pub run_command : Command → World → World
run_command (new_issue_cmd id now title description priority labels creator) w =
    (create id now title description priority labels creator w).0
run_command (on_issue op) w = (run_op op w).0

abbrev pub run_commands : List Command → World → World
run_commands [] w = w
run_commands (c ∷ cs) w = run_commands cs (run_command c w)

abbrev pub is_settled : IssueStatus → Bool
is_settled resolved = true
is_settled closed = true
is_settled _ = false

-- A settled issue moves to 'closed' or stays.
settled_next :
    (op : Op) (s : IssueStatus)
    → is_settled s ≡ true
    → (unwrap_or s (next op s) ≡ s) ⊎ (unwrap_or s (next op s) ≡ closed)
settled_next (set_in_progress_op id workspace now) resolved h = inl refl
settled_next (set_in_progress_op id workspace now) closed h = inl refl
settled_next (reopen_op id now) resolved h = inl refl
settled_next (reopen_op id now) closed h = inl refl
settled_next (resolve_op id version now) resolved h = inl refl
settled_next (resolve_op id version now) closed h = inl refl
settled_next (close_op id resolution now) s h = inr refl
settled_next (update_op id title description priority labels now) s h = inl refl
settled_next op open_status h = cc
settled_next op in_progress h = cc

status_at-create :
    (id now : ℕ) (title description : String) (priority : IssuePriority) (labels : List String)
    (creator : String) (w : World) (j : ℕ) (s : IssueStatus)
    → status_at j w ≡ some s
    → status_at j (create id now title description priority labels creator w).0 ≡ some s
unfolding create
status_at-create id now title description priority labels creator w j s h =
    elim (Option-cases (find_row j w.issues)) [
      | inl p ↦ cc
      | inr (r, p) ↦ ap status_in (find_row-append j w.issues _ r p) ∙ (ap status_in (sym p) ∙ h)
    ]

settled_step :
    (c : Command) (w : World) (j : ℕ) (s : IssueStatus)
    → is_settled s ≡ true
    → status_at j w ≡ some s
    → (status_at j (run_command c w) ≡ some s) ⊎ (status_at j (run_command c w) ≡ some closed)
settled_step (new_issue_cmd id now title description priority labels creator) w j s k h =
    inl (status_at-create id now title description priority labels creator w j s h)
settled_step (on_issue op) w j s k h =
    ground (arith, status_at-run_op op w j s h, settled_next op s k)

-- Once an issue is resolved or closed, no sequence of commands opens it again: after any of them it is in
-- the same state or closed.
pub run_commands-settled :
    (cs : List Command) (w : World) (j : ℕ) (s : IssueStatus)
    → is_settled s ≡ true
    → status_at j w ≡ some s
    → (status_at j (run_commands cs w) ≡ some s) ⊎ (status_at j (run_commands cs w) ≡ some closed)
run_commands-settled [] w j s k h = inl h
run_commands-settled (c ∷ cs) w j s k h = elim (settled_step c w j s k h) [
  | inl same ↦ run_commands-settled cs (run_command c w) j s k same
  | inr shut ↦ elim (run_commands-settled cs (run_command c w) j closed refl shut) [
    | inl q ↦ inr q
    | inr q ↦ inr q
  ]
]

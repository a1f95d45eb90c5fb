-- ===== src/WorkQueue/Claim.antt =====
-- `claim` of src/work_queue/mod.rs: the guards, the new workspace, and the move of the issue. The workspace
-- that is created is kept as its id and its intent; `set_in_progress` is the issue store's.
use vai.Common.{
  ℕ, ◌≡◌, refl, ap, ◌∙◌, inl, inr, some, Bool, true, false, not, List, [], ◌∷◌, ◌++◌, String, any,
  if◌then◌else◌, arith, Option-cases,
}
use vai.Conflict.Engine.{ConflictEngine, all_scopes}
use vai.Issue.{Issue, open_status, in_progress, IssueStatus, row_to_issue}
use vai.Issue.Store.{World, Result, ok, err, IssueError, get, is_open, set_in_progress, find_row}
use vai.Issue.Rows.{status_at, status_in}
use vai.Issue.Lifecycle.{set_in_progress_op}
use vai.Issue.Lifecycle.Outcomes.{run_op-Outcome, get_found, row_at}
use vai.WorkQueue.{ScopePrediction, conflicts_with, issue_text}

pub data WorkQueueError : Type 0 where
  issue_error : IssueError → WorkQueueError
  issue_not_open issue_conflicting : ℕ → WorkQueueError

pub record ClaimResult : Type 0 where
  pub issue_id : ℕ
  pub workspace_id : ℕ
  pub intent : String
  pub predicted_scope : ScopePrediction

pub data Claimed : Type 0 where
  claimed : ClaimResult → Claimed
  unclaimed : WorkQueueError → Claimed

-- The issue store, and the workspaces with their intents.
pub record QueueWorld : Type 0 where
  pub store : World
  pub workspaces : List (ℕ × String)

if_false : {A : Type 0} (b : Bool) (x y : A) → b ≡ false → (if b then x else y) ≡ y
if_false b x y h = rw h refl

if_true : {A : Type 0} (b : Bool) (x y : A) → b ≡ true → (if b then x else y) ≡ x
if_true b x y h = rw h refl

status_of_answer :
    (id : ℕ) (w : World) (issue : Issue) (s : IssueStatus)
    → get id w ≡ ok issue
    → issue.status ≡ s
    → status_at id w ≡ some s
unfolding get
status_of_answer id w issue s g o = elim (Option-cases (find_row id w.issues)) [
  | inl p ↦ ground (arith, p, g)
  | inr (r, p) ↦
      let same : row_to_issue r ≡ issue = ground (arith, p, g) in
      ap status_in p ∙ (ap (λ (i : Issue). some i.status) same ∙ ap some o)
]

module _ (predict_scope : String → ScopePrediction) where
  -- The answer, once the workspace was made and the issue was moved.
  abbrev pub after_move : ℕ → ℕ → Issue → QueueWorld → World → Result Issue → QueueWorld × Claimed
  after_move id workspace issue w store (err e) =
      (record w { store = store }, unclaimed (issue_error e))
  after_move id workspace issue w store (ok moved) = (
    record w { store = store },
    claimed (record {
      issue_id = id;
      workspace_id = workspace;
      intent = issue.title;
      predicted_scope = predict_scope (issue_text issue);
    }),
  )

  abbrev pub claim_found :
      ConflictEngine → ℕ → ℕ → ℕ → QueueWorld → Result Issue → QueueWorld × Claimed
  claim_found engine id workspace now w (err e) = (w, unclaimed (issue_error e))
  claim_found engine id workspace now w (ok issue) =
      if not (is_open issue.status)
      then (w, unclaimed (issue_not_open id))
      else if any (conflicts_with (predict_scope (issue_text issue))) (all_scopes engine)
      then (w, unclaimed (issue_conflicting id))
      else after_move id workspace issue
          (record w { workspaces = w.workspaces ++ (workspace, issue.title) ∷ [] })
          (set_in_progress id workspace now w.store).0 (set_in_progress id workspace now w.store).1

  unfoldable pub claim : ConflictEngine → ℕ → ℕ → ℕ → QueueWorld → QueueWorld × Claimed
  claim engine id workspace now w = claim_found engine id workspace now w (get id w.store)

  claim_passed :
      (engine : ConflictEngine) (id workspace now : ℕ) (w : QueueWorld) (issue : Issue)
      → get id w.store ≡ ok issue
      → not (is_open issue.status) ≡ false
      → any (conflicts_with (predict_scope (issue_text issue))) (all_scopes engine) ≡ false
      → claim engine id workspace now w
        ≡ after_move id workspace issue
            (record w { workspaces = w.workspaces ++ (workspace, issue.title) ∷ [] })
            (set_in_progress id workspace now w.store).0
            (set_in_progress id workspace now w.store).1
  unfolding claim
  claim_passed engine id workspace now w issue g o f =
      ap (claim_found engine id workspace now w) g ∙ (if_false _ _ _ o ∙ if_false _ _ _ f)

  -- An open issue that nothing in flight conflicts with is claimed: it is in progress afterwards, and the
  -- new workspace has its title as intent.
  pub claim-moves :
      (engine : ConflictEngine) (id workspace now : ℕ) (w : QueueWorld) (issue : Issue)
      → get id w.store ≡ ok issue
      → issue.status ≡ open_status
      → any (conflicts_with (predict_scope (issue_text issue))) (all_scopes engine) ≡ false
      → ((claim engine id workspace now w).1
          ≡ claimed (record {
            issue_id = id;
            workspace_id = workspace;
            intent = issue.title;
            predicted_scope = predict_scope (issue_text issue);
          }))
        × (status_at id (claim engine id workspace now w).0.store ≡ some in_progress)
        × ((claim engine id workspace now w).0.workspaces
            ≡ w.workspaces ++ (workspace, issue.title) ∷ [])
  unfolding claim
  claim-moves engine id workspace now w issue g o f =
      let open_now : not (is_open issue.status) ≡ false = ap (λ s. not (is_open s)) o in
      let found : status_at id w.store ≡ some open_status =
        status_of_answer id w.store issue open_status g o in
      let (i, moved, k, at_last) =
        run_op-Outcome (set_in_progress_op id workspace now) w.store open_status found in
      rw (claim_passed engine id workspace now w issue g open_now f)
        (rw moved (refl, at_last, refl))

  -- After a claim that moves the issue, a second claim of it is refused and changes nothing.
  pub claim-once :
      (engine : ConflictEngine) (id workspace now : ℕ) (w : QueueWorld) (issue : Issue)
      (engine_later : ConflictEngine) (other later : ℕ)
      → get id w.store ≡ ok issue
      → issue.status ≡ open_status
      → any (conflicts_with (predict_scope (issue_text issue))) (all_scopes engine) ≡ false
      → claim engine_later id other later (claim engine id workspace now w).0
        ≡ ((claim engine id workspace now w).0, unclaimed (issue_not_open id))
  claim-once engine id workspace now w issue engine_later other later g o f =
      let after = (claim engine id workspace now w).0 in
      let (r, p, k) =
        row_at id after.store in_progress (claim-moves engine id workspace now w issue g o f).1 in
      let taken : not (is_open (row_to_issue r).status) ≡ true = ap (λ s. not (is_open s)) k in
      unfold claim in
      ap (claim_found engine_later id other later after) (get_found id after.store r p)
      ∙ if_true _ _ _ taken

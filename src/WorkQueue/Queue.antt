-- ===== src/WorkQueue/Queue.antt =====
-- The two lists of the work queue of src/work_queue/mod.rs.
use mathlib.Core.List.{Perm}
use mathlib.Core.List.Perm
use vai.Common.{ℕ, ◌≡◌, false, List, map, any, is_empty}
use vai.Conflict.{WorkspaceScope}
use vai.Issue.{Issue}
use vai.WorkQueue.{AvailableWork, BlockedWork, conflicts_with, queue_rank}

abbrev pub available_ids : List AvailableWork → List ℕ
available_ids works = map (λ (a : AvailableWork). a.issue_id) works

abbrev pub blocked_ids : List BlockedWork → List ℕ
blocked_ids works = map (λ (b : BlockedWork). b.issue_id) works

abbrev pub issue_ids : List Issue → List ℕ
issue_ids issues = map (λ (i : Issue). i.id) issues

abbrev pub work_rank : AvailableWork → ℕ
work_rank a = queue_rank a.priority

abbrev pub blocked_rank : BlockedWork → ℕ
blocked_rank b = queue_rank b.priority

-- No scope in flight conflicts with the predicted scope.
abbrev pub IsFree : List WorkspaceScope → AvailableWork → Type 0
IsFree scopes a = any (conflicts_with a.predicted_scope) scopes ≡ false

-- Some workspace is named.
abbrev pub IsBlocked : BlockedWork → Type 0
IsBlocked b = is_empty b.blocked_by ≡ false

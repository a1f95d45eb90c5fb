-- ===== src/Issue/Rows.antt =====
-- Rows of the table `issues` of src/issue/mod.rs: what a read finds after a write.
use vai.Common.{
  ℕ, ◌≡◌, Option, none, some, List, [], ◌∷◌, ◌++◌, nat_eq, nat_eq_iff, if◌then◌else◌, arith,
}
use vai.Issue.{IssueStatus, IssueRow, row_to_issue}
use vai.Issue.Store.{World, find_row, update_rows}

-- The state that a program reads for an id, if the issue is there.
abbrev pub status_in : Option IssueRow → Option IssueStatus
status_in none = none
status_in (some r) = some (row_to_issue r).status

abbrev pub status_at : ℕ → World → Option IssueStatus
status_at id w = status_in (find_row id w.issues)

abbrev row_map : (IssueRow → IssueRow) → Option IssueRow → Option IssueRow
row_map set none = none
row_map set (some r) = some (set r)

pub find_row-update_rows :
    (id j : ℕ) (set : IssueRow → IssueRow) (rows : List IssueRow)
    → ((r : IssueRow) → (set r).id ≡ r.id)
    → find_row j (update_rows id set rows)
      ≡ (if nat_eq id j then row_map set (find_row j rows) else find_row j rows)
unfolding find_row update_rows
find_row-update_rows id j set [] h = ground arith
find_row-update_rows id j set (r ∷ rows) h = ground (
  arith,
  find_row-update_rows id j set rows h,
  h r,
  nat_eq_iff r.id id,
  nat_eq_iff r.id j,
  nat_eq_iff id j,
)

pub find_row-append :
    (j : ℕ) (rows more : List IssueRow) (r : IssueRow)
    → find_row j rows ≡ some r
    → find_row j (rows ++ more) ≡ some r
unfolding find_row
find_row-append j [] more r h = cc
find_row-append j (x ∷ rows) more r h = ground (arith, find_row-append j rows more r)

pub find_row-id :
    (j : ℕ) (rows : List IssueRow) (r : IssueRow) → find_row j rows ≡ some r → r.id ≡ j
unfolding find_row
find_row-id j [] r h = cc
find_row-id j (x ∷ rows) r h = ground (arith, find_row-id j rows r, nat_eq_iff x.id j)

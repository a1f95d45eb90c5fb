-- ===== src/Issue/Discussion/Laws.antt =====
-- What the comments and the dependencies of src/issue/mod.rs keep.
use vai.Common.{
  ℕ, suc, ◌≤◌, ◌≡◌, ◌≢◌, refl, inl, inr, true, false, ◌&&◌, List, [], ◌∷◌, ◌++◌, String, nat_eq,
  nat_eq_iff, any, if◌then◌else◌, arith, Option-cases,
}
use vai.Common.Table.{find_key, find_key-update_key}
use vai.Issue.Discussion.{
  IssueComment, Dependency, Discussion, comment_key, update_comment, soft_delete_comment,
  change_comment, edited, deleted, is_dependency, add_dependency,
}

-- Every pair is in the table once.
abbrev pub blocker_count : ℕ → ℕ → List Dependency → ℕ
blocker_count issue blocker [] = 0
blocker_count issue blocker (p ∷ ps) =
    if is_dependency issue blocker p
    then suc (blocker_count issue blocker ps)
    else blocker_count issue blocker ps

absent :
    (issue blocker : ℕ) (ps : List Dependency)
    → any (is_dependency issue blocker) ps ≡ false
    → blocker_count issue blocker ps ≡ 0
absent issue blocker [] h = refl
absent issue blocker (p ∷ ps) h = ground (arith, absent issue blocker ps)

count-append :
    (issue blocker : ℕ) (ps : List Dependency) (p : Dependency)
    → blocker_count issue blocker (ps ++ p ∷ []) ≡ (
        if is_dependency issue blocker p
        then suc (blocker_count issue blocker ps)
        else blocker_count issue blocker ps)
count-append issue blocker [] p = ground arith
count-append issue blocker (x ∷ ps) p = ground (arith, count-append issue blocker ps p)

present :
    (issue blocker : ℕ) (ps : List Dependency)
    → any (is_dependency issue blocker) ps ≡ true
    → blocker_count issue blocker ps ≢ 0
present issue blocker [] h = cc
present issue blocker (p ∷ ps) h = ground (arith, present issue blocker ps)

same_pair :
    (issue blocker i b : ℕ) (ps : List Dependency)
    → (nat_eq issue i && nat_eq blocker b) ≡ true
    → blocker_count i b ps ≡ blocker_count issue blocker ps
same_pair issue blocker i b ps h =
    let p : issue ≡ i = ground (arith, h) in
    let q : blocker ≡ b = ground (arith, h) in rw p (rw q refl)

-- How often a pair of issues is recorded is 1 after it was added, if it was there at most once before, and
-- is what it was for every other pair.
pub blocker_count-add_dependency :
    (issue blocker i b : ℕ) (d : Discussion)
    → blocker_count issue blocker d.dependencies ≤ 1
    → blocker_count i b (add_dependency issue blocker d).dependencies
      ≡ (if nat_eq issue i && nat_eq blocker b then 1 else blocker_count i b d.dependencies)
unfolding add_dependency
blocker_count-add_dependency issue blocker i b d h = ground (
  arith,
  h,
  same_pair issue blocker i b d.dependencies,
  absent issue blocker d.dependencies,
  present issue blocker d.dependencies,
  count-append i b d.dependencies (record { issue_id = issue; depends_on_id = blocker }),
)

change_comment-only :
    (id j : ℕ) (set : IssueComment → IssueComment) (d : Discussion)
    → ((c : IssueComment) → (set c).id ≡ c.id)
    → find_key comment_key j
        (change_comment id set d (find_key comment_key id d.comments)).0.comments
      ≡ (if nat_eq id j
          then (change_comment id set d (find_key comment_key id d.comments)).1
          else find_key comment_key j d.comments)
change_comment-only id j set d h = elim (Option-cases (find_key comment_key id d.comments)) [
  | inl p ↦ ground (arith, p, nat_eq_iff id j)
  | inr (c, p) ↦
      ground (arith, p, nat_eq_iff id j, find_key-update_key comment_key id j set d.comments h)
]

-- After an edit or a deletion the comment that is read under the id is the one that was answered, and
-- none where none was answered; the comments under other ids stay as they are.
pub comment_changes-only :
    (id j now : ℕ) (body : String) (d : Discussion)
    → (find_key comment_key j (update_comment id body now d).0.comments ≡ (
        if nat_eq id j
        then (update_comment id body now d).1
        else find_key comment_key j d.comments))
      × (find_key comment_key j (soft_delete_comment id now d).0.comments ≡ (
          if nat_eq id j
          then (soft_delete_comment id now d).1
          else find_key comment_key j d.comments))
unfolding update_comment soft_delete_comment
comment_changes-only id j now body d = (
  change_comment-only id j (edited body now) d (λ c. refl),
  change_comment-only id j (deleted now) d (λ c. refl),
)

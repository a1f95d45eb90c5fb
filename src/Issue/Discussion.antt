-- ===== src/Issue/Discussion.antt =====
-- The comments and the dependencies of issues in src/issue/mod.rs, and the two columns of an issue that are
-- written on their own.
pub mod Laws
use vai.Common.{
  ℕ, suc, Option, none, some, Bool, true, false, ◌&&◌, List, [], ◌∷◌, ◌++◌, String, ◌==◌, nat_eq,
  any, keep, map, is_empty, if◌then◌else◌,
}
use vai.Common.Table.{find_key, update_key}
use vai.Common.Sort.{sort_by_key}
use vai.Issue.{AgentSource, IssueRow}
use vai.Issue.Store.{World, set_rows}

pub record IssueComment : Type 0 where
  pub id : ℕ
  pub issue_id : ℕ
  pub author : String
  pub body : Option String
  pub author_type : String
  pub author_id : Option String
  pub created_at : ℕ
  pub parent_id : Option ℕ
  pub edited_at : Option ℕ
  pub deleted_at : Option ℕ

pub record Dependency : Type 0 where
  pub issue_id : ℕ
  pub depends_on_id : ℕ

-- The tables `issue_comments` and `issue_dependencies`.
pub record Discussion : Type 0 where
  pub comments : List IssueComment
  pub dependencies : List Dependency

abbrev pub comment_key : IssueComment → ℕ
comment_key c = c.id

unfoldable pub create_comment :
    ℕ
    → ℕ
    → ℕ
    → String
    → String
    → String
    → Option String
    → Option ℕ
    → Discussion
    → Discussion × IssueComment
create_comment id now issue author body author_type author_id parent d =
    let comment : IssueComment = record {
      id = id;
      issue_id = issue;
      author = author;
      body = some body;
      author_type = author_type;
      author_id = author_id;
      created_at = now;
      parent_id = parent;
      edited_at = none;
      deleted_at = none;
    } in
    (record d { comments = d.comments ++ comment ∷ [] }, comment)

-- `ORDER BY created_at ASC`.
unfoldable pub list_comments : ℕ → Discussion → List IssueComment
list_comments issue d =
    sort_by_key (λ (c : IssueComment). c.created_at)
      (keep (λ (c : IssueComment). nat_eq c.issue_id issue) d.comments)

abbrev pub change_comment :
    ℕ
    → (IssueComment → IssueComment)
    → Discussion
    → Option IssueComment
    → Discussion × Option IssueComment
change_comment id set d none = (d, none)
change_comment id set d (some c) =
    let comments = update_key comment_key id set d.comments in
    (record d { comments = comments }, find_key comment_key id comments)

abbrev pub edited : String → ℕ → IssueComment → IssueComment
edited body now c = record c { body = some body; edited_at = some now }

abbrev pub deleted : ℕ → IssueComment → IssueComment
deleted now c = record c { deleted_at = some now }

-- `none` is `NotFound`: the update changed no row.
unfoldable pub update_comment : ℕ → String → ℕ → Discussion → Discussion × Option IssueComment
update_comment id body now d =
    change_comment id (edited body now) d (find_key comment_key id d.comments)

unfoldable pub soft_delete_comment : ℕ → ℕ → Discussion → Discussion × Option IssueComment
soft_delete_comment id now d =
    change_comment id (deleted now) d (find_key comment_key id d.comments)

abbrev pub is_dependency : ℕ → ℕ → Dependency → Bool
is_dependency issue blocker p = nat_eq p.issue_id issue && nat_eq p.depends_on_id blocker

-- `INSERT OR IGNORE`.
unfoldable pub add_dependency : ℕ → ℕ → Discussion → Discussion
add_dependency issue blocker d =
    if any (is_dependency issue blocker) d.dependencies then d else record d {
      dependencies = d.dependencies ++ record { issue_id = issue; depends_on_id = blocker } ∷ [];
    }

unfoldable pub list_blockers : ℕ → Discussion → List ℕ
list_blockers issue d =
    map (λ (p : Dependency). p.depends_on_id)
      (keep (λ (p : Dependency). nat_eq p.issue_id issue) d.dependencies)

-- The columns `agent_source` and `acceptance_criteria`, without a time or an event.
unfoldable pub set_agent_source : ℕ → AgentSource → World → World
set_agent_source id source w = set_rows id (λ r. record r { agent_source = some source }) w

unfoldable pub set_acceptance_criteria : ℕ → List String → World → World
set_acceptance_criteria id criteria w =
    set_rows id (λ r. record r { acceptance_criteria = criteria }) w

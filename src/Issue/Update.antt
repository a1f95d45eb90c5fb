-- ===== src/Issue/Update.antt =====
-- `update` of src/issue/mod.rs: the fields that may change, and the event that names those that did.
use vai.Common.{
  ℕ, Option, Bool, true, false, not, ◌&&◌, List, [], ◌∷◌, ◌++◌, String, ◌==◌, is_empty,
  if◌then◌else◌,
}
use vai.Common.Eq.{string_equality}
use vai.Issue.Labels.{join_labels}
use vai.Issue.{IssuePriority, critical, high, medium, low, Issue, priority_as_str, unwrap_or}
use vai.EventLog.{issue_updated}
use vai.Issue.Store.{World, Result, ok, err, get, append, set_rows, read_back}

abbrev pub same_labels : List String → List String → Bool
same_labels [] [] = true
same_labels [] (y ∷ ys) = false
same_labels (x ∷ xs) [] = false
same_labels (x ∷ xs) (y ∷ ys) = (x == y) && same_labels xs ys

abbrev pub same_priority : IssuePriority → IssuePriority → Bool
same_priority critical critical = true
same_priority high high = true
same_priority medium medium = true
same_priority low low = true
same_priority _ _ = false

abbrev named : Bool → String → List String
named true field = field ∷ []
named false field = []

-- The fields whose new value differs.
abbrev pub changed_fields :
    Option String
    → Option String
    → Option IssuePriority
    → Option (List String)
    → Issue
    → List String
changed_fields title description priority labels existing =
    named (not (unwrap_or existing.title title == existing.title)) "title"
    ++ (named (not (unwrap_or existing.description description == existing.description))
          "description"
        ++ (named (not (same_priority (unwrap_or existing.priority priority) existing.priority))
              "priority"
            ++ named (not (same_labels (unwrap_or existing.labels labels) existing.labels))
                "labels"))

-- The statements that `update` runs on an issue that is there.
abbrev pub updated_with :
    ℕ
    → Option String
    → Option String
    → Option IssuePriority
    → Option (List String)
    → ℕ
    → Issue
    → World
    → World
updated_with id title description priority labels now existing w =
    let changed = changed_fields title description priority labels existing in
    let updated =
      set_rows id
        (λ r. record r {
          title = unwrap_or existing.title title;
          description = unwrap_or existing.description description;
          priority = priority_as_str (unwrap_or existing.priority priority);
          labels = join_labels (unwrap_or existing.labels labels);
          updated_at = now;
        })
        w in
    if not (is_empty changed) then append (issue_updated id changed) updated else updated

unfoldable pub update :
    ℕ
    → Option String
    → Option String
    → Option IssuePriority
    → Option (List String)
    → ℕ
    → World
    → World × Result Issue
update id title description priority labels now w = elim (get id w) [
  | err e ↦ (w, err e)
  | ok existing ↦ read_back id (updated_with id title description priority labels now existing w)
]

-- ===== src/Issue/Similar.antt =====
-- The duplicate test of src/issue/mod.rs: titles as sets of words, their Jaccard similarity, and the search
-- for an issue that is open and similar. The Unicode tables are parameters; the ratio of two counts is
-- compared with 0.5 by twice the numerator.
pub mod Search
use Prim.Native.Char.{Char}
use Prim.Native.String.{[] as ε, ◌∷◌ as ◌∷ˢ◌}
use vai.Common.{
  ℕ, ◌+◌, ◌*◌, Option, none, some, Bool, true, false, not, ◌&&◌, ◌||◌, List, [], ◌∷◌, String, ◌==◌,
  map, keep, length, is_empty, leb, if◌then◌else◌,
}
use vai.Common.Eq.{string_equality}
use vai.Common.Sets.{contains, intersection, set_of}
use vai.Issue.{IssueStatus, Issue, IssueRow, open_status, in_progress}
use vai.Issue.Store.{is_open, is_in_progress}

abbrev pub stop_words : List String
stop_words =
    "a" ∷ "an" ∷ "and" ∷ "are" ∷ "as" ∷ "at" ∷ "be" ∷ "but" ∷ "by" ∷ "for" ∷ "from" ∷ "has" ∷ "have"
    ∷ "in" ∷ "is" ∷ "it" ∷ "its" ∷ "of" ∷ "on" ∷ "or" ∷ "that" ∷ "the" ∷ "this" ∷ "to" ∷ "was"
    ∷ "will" ∷ "with" ∷ []

abbrev pub is_empty_text : String → Bool
is_empty_text ε = true
is_empty_text (c ∷ˢ s) = false

-- `split`: the pieces between the characters that the test picks, empty ones included.
abbrev begin_with : Char → List String → List String
begin_with c [] = (c ∷ˢ "") ∷ []
begin_with c (w ∷ ws) = (c ∷ˢ w) ∷ ws

abbrev pub split_at : (Char → Bool) → String → List String
split_at p ε = "" ∷ []
split_at p (c ∷ˢ s) = if p c then "" ∷ split_at p s else begin_with c (split_at p s)

-- `|a ∪ b|`, of two sets.
abbrev pub union_count : List String → List String → ℕ
union_count a b = length a + length (keep (λ x. not (contains x a)) b)

-- `jaccard_similarity(a, b) >= 0.5`: two empty sets have similarity 1.
unfoldable pub is_similar : List String → List String → Bool
is_similar a b = (is_empty a && is_empty b) || leb (union_count a b) (2 * length (intersection a b))

-- The rows that the SQL condition of `IssueStore::find_similar_open_issue` picks.
abbrev pub open_candidates : List IssueRow → List (ℕ × String)
open_candidates [] = []
open_candidates (r ∷ rows) =
    if (r.status == "open") || (r.status == "in_progress")
    then (r.id, r.title) ∷ open_candidates rows
    else open_candidates rows

module _ (is_alphanumeric : Char → Bool) (to_lowercase : String → String) where
  unfoldable pub tokenize_title : String → List String
  tokenize_title title = set_of (
      keep (λ w. not (contains w stop_words))
        (map to_lowercase
          (keep (λ w. not (is_empty_text w)) (split_at (λ c. not (is_alphanumeric c)) title))))

  -- The loop over the candidates, with their status where it is read from the issue.
  unfoldable pub first_similar : List String → List (ℕ × String) → Option ℕ
  first_similar query [] = none
  first_similar query ((id, title) ∷ candidates) =
      let rest = first_similar query candidates in
      if is_similar query (tokenize_title title) then some id else rest

  -- `IssueStore::find_similar_open_issue`, on the rows in the order in which the query returns them. The
  -- query has no ORDER BY, so that order is the argument's and not a rule of the model.
  unfoldable pub find_similar_row : List IssueRow → String → Option ℕ
  unfolding first_similar
  find_similar_row rows title =
      let query = tokenize_title title in
      if is_empty query then none else first_similar query (open_candidates rows)

  -- The free function `find_similar_open_issue`, on issues that were read before.
  unfoldable pub scan_issues : List String → List Issue → Option ℕ
  scan_issues query [] = none
  scan_issues query (issue ∷ issues) =
      let rest = scan_issues query issues in
      if not (is_open issue.status) && not (is_in_progress issue.status)
      then rest
      else if is_similar query (tokenize_title issue.title)
      then some issue.id
      else rest

  unfoldable pub find_similar_open_issue : List Issue → String → Option ℕ
  unfolding scan_issues
  find_similar_open_issue issues title =
      let query = tokenize_title title in if is_empty query then none else scan_issues query issues

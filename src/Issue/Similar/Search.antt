-- ===== src/Issue/Similar/Search.antt =====
-- The two searches for a similar open issue of src/issue/mod.rs, each with its own order of the rows, and the
-- search for a title that is filed again.
use Prim.Native.Char.{Char}
use mathlib.Core.List.{Perm}
use text.Mathlib.TextEquality.{eq_iff}
use vai.Common.{
  ℕ, ◌+◌, ◌≡◌, ◌≢◌, ◌↔◌, refl, ap, sym, ◌∙◌, Option, is_empty, if◌then◌else◌, inl, inr, none, some,
  Bool, true, false, not, any, ◌&&◌, ◌||◌, List, [], ◌∷◌, String, ◌==◌, map, keep, length, All,
  arith, ◌⊎◌, nat_eq, nat_eq_iff,
}
use vai.Common.Any.{any-Perm}
use vai.Common.Eq.{string_equality}
use vai.Common.Sets.{contains, length-intersection_comm, IsDistinct}
use vai.Issue.{
  IssueStatus, Issue, IssueRow, open_status, in_progress, resolved, closed, row_to_issue,
  status_as_str, status_from_db_str-as_str, unwrap_or,
}
use vai.Issue.Store.{is_open, is_in_progress}
use vai.Issue.Similar.{
  is_similar, tokenize_title, first_similar, open_candidates, find_similar_row, scan_issues,
  find_similar_open_issue,
}

-- A row whose status text one of the four states has written.
abbrev pub HasStatus : IssueRow → Type 0
HasStatus r = (s : IssueStatus) × (r.status ≡ status_as_str s)

keep_none :
    (a b : List String)
    → length (keep (λ y. not (contains y a)) b) + length (keep (λ y. contains y a) b) ≡ length b
keep_none a [] = refl
keep_none a (y ∷ b) = ground (arith, keep_none a b)

abbrev pub Within : List String → List String → Type 0
Within [] b = Unit
Within (x ∷ a) b = (contains x b ≡ true) × Within a b

Within-cons : (y : String) (a b : List String) → Within a b → Within a (y ∷ b)
Within-cons y [] b h = tt
Within-cons y (x ∷ a) b h = (ground (arith, h.0), Within-cons y a b h.1)

Within-refl : (a : List String) → Within a a
Within-refl [] = tt
Within-refl (x ∷ a) = (ground (arith, eq_iff x x), Within-cons x a a (Within-refl a))

keep_all : (a b : List String) → Within a b → keep (λ y. contains y b) a ≡ a
keep_all [] b h = refl
keep_all (x ∷ a) b h = ground (arith, h.0, keep_all a b h.1)

-- Every set of words is similar to itself.
pub is_similar_refl : (a : List String) → is_similar a a ≡ true
unfolding is_similar
is_similar_refl a = ground (arith, keep_none a a, keep_all a a (Within-refl a))

-- The test does not depend on which title is the new one.
pub is_similar_comm :
    (a b : List String) → IsDistinct a → IsDistinct b → is_similar a b ≡ is_similar b a
unfolding is_similar
is_similar_comm a b d e =
    ground (arith, keep_none a b, keep_none b a, length-intersection_comm a b d e)

status_word :
    (r : IssueRow) (s : IssueStatus) → r.status ≡ status_as_str s → (row_to_issue r).status ≡ s
unfolding row_to_issue
status_word r s h = rw h (ap (unwrap_or open_status) (status_from_db_str-as_str s))

row_fields : (r : IssueRow) → ((row_to_issue r).title ≡ r.title) × ((row_to_issue r).id ≡ r.id)
unfolding row_to_issue
row_fields r = (refl, refl)

-- The SQL condition on the status text and the test on the state that is read pick the same rows.
status_tests :
    (r : IssueRow)
    → HasStatus r
    → not (is_open (row_to_issue r).status) && not (is_in_progress (row_to_issue r).status)
      ≡ not ((r.status == "open") || (r.status == "in_progress"))
status_tests r (open_status, h) = rw (status_word r open_status h) (rw h refl)
status_tests r (in_progress, h) = rw (status_word r in_progress h) (rw h refl)
status_tests r (resolved, h) = rw (status_word r resolved h) (rw h refl)
status_tests r (closed, h) = rw (status_word r closed h) (rw h refl)

-- Some open issue, or one in progress, has the title.
abbrev pub HasTitle : String → List Issue → Type 0
HasTitle title [] = ⊥
HasTitle title (i ∷ issues) =
    ((i.title ≡ title) × ((i.status ≡ open_status) ⊎ (i.status ≡ in_progress)))
    ⊎ HasTitle title issues

module _ (is_alphanumeric : Char → Bool) (to_lowercase : String → String) where
  scan_issues-rows :
      (query : List String) (rows : List IssueRow)
      → All HasStatus rows
      → scan_issues is_alphanumeric to_lowercase query (map row_to_issue rows)
        ≡ first_similar is_alphanumeric to_lowercase query (open_candidates rows)
  unfolding scan_issues first_similar
  scan_issues-rows query [] h = refl
  scan_issues-rows query (r ∷ rows) h =
      ground (arith, status_tests r h.0, row_fields r, scan_issues-rows query rows h.1)

  -- The row is open or in progress, and its title is similar to the words.
  abbrev pub is_duplicate : List String → IssueRow → Bool
  is_duplicate query r =
      ((r.status == "open") || (r.status == "in_progress"))
      && is_similar query (tokenize_title is_alphanumeric to_lowercase r.title)

  first_similar-none :
      (query : List String) (rows : List IssueRow)
      → (first_similar is_alphanumeric to_lowercase query (open_candidates rows) ≡ none)
        ↔ (any (is_duplicate query) rows ≡ false)
  unfolding first_similar
  first_similar-none query [] = (λ h. refl, λ h. refl)
  first_similar-none query (r ∷ rows) = ground (arith, first_similar-none query rows)

  first_similar-names :
      (query : List String) (rows : List IssueRow) (id : ℕ)
      → first_similar is_alphanumeric to_lowercase query (open_candidates rows) ≡ some id
      → any (λ r. nat_eq r.id id && is_duplicate query r) rows ≡ true
  unfolding first_similar
  first_similar-names query [] id h = ground (arith, h)
  first_similar-names query (r ∷ rows) id h =
      ground (arith, h, nat_eq_iff id id, first_similar-names query rows id)

  -- What an answer says of the rows: none where no word counts or no row is a duplicate, and else the id of
  -- a duplicate.
  abbrev pub IsAnswer : List String → List IssueRow → Option ℕ → Type 0
  IsAnswer query rows none = (query ≡ []) ⊎ (any (is_duplicate query) rows ≡ false)
  IsAnswer query rows (some id) =
      (is_empty query ≡ false) × (any (λ r. nat_eq r.id id && is_duplicate query r) rows ≡ true)

  IsAnswer-first_similar :
      (query : List String) (rows : List IssueRow) (answer : Option ℕ)
      → answer ≡ (
          if is_empty query
          then none
          else first_similar is_alphanumeric to_lowercase query (open_candidates rows))
      → IsAnswer query rows answer
  IsAnswer-first_similar query rows none e = ground (arith, e, first_similar-none query rows)
  IsAnswer-first_similar query rows (some id) e =
      ground (arith, e, first_similar-names query rows id)

  IsAnswer-Perm :
      (query : List String) (xs ys : List IssueRow) (answer : Option ℕ)
      → Perm xs ys
      → IsAnswer query xs answer
      → IsAnswer query ys answer
  IsAnswer-Perm query xs ys none p h = let same = any-Perm (is_duplicate query) p in ground arith
  IsAnswer-Perm query xs ys (some id) p h =
      let same = any-Perm (λ r. nat_eq r.id id && is_duplicate query r) p in (h.0, sym same ∙ h.1)

  -- The rows of the table come to the search by SQL in one order and to the list of issues in another. On
  -- rows whose status text is one of the four states, and whatever the two orders are: each of the two
  -- searches finds nothing exactly when the new title has no word that counts or no row is open or in
  -- progress with a similar title; and what either answers is the id of such a row.
  pub find_similar-agree :
      (rows listed : List IssueRow) (title : String)
      → Perm listed rows
      → All HasStatus listed
      → IsAnswer
          (tokenize_title is_alphanumeric to_lowercase title)
          rows
          (find_similar_row is_alphanumeric to_lowercase rows title)
        × IsAnswer
            (tokenize_title is_alphanumeric to_lowercase title)
            rows
            (find_similar_open_issue is_alphanumeric to_lowercase (map row_to_issue listed) title)
  unfolding find_similar_open_issue find_similar_row
  find_similar-agree rows listed title p h =
      let query = tokenize_title is_alphanumeric to_lowercase title in
      let scanned = scan_issues-rows query listed h in
      (
        IsAnswer-first_similar query rows _ refl,
        IsAnswer-Perm query listed rows _ p
            (IsAnswer-first_similar query listed _ (rw scanned refl)),
      )

  scan-same_title :
      (issues : List Issue) (title : String)
      → HasTitle title issues
      → scan_issues is_alphanumeric to_lowercase
          (tokenize_title is_alphanumeric to_lowercase title)
          issues
        ≢ none
  unfolding scan_issues
  scan-same_title [] title h = elim h [ ]
  scan-same_title (i ∷ issues) title (inl (t, o)) =
      ground (arith, is_similar_refl (tokenize_title is_alphanumeric to_lowercase title))
  scan-same_title (i ∷ issues) title (inr h) = ground (arith, scan-same_title issues title h)

  -- A title with at least one word that counts is found again: when an open issue, or one in progress, has
  -- it already, the search reports an issue.
  pub find_similar-same_title :
      (issues : List Issue) (title : String)
      → tokenize_title is_alphanumeric to_lowercase title ≢ []
      → HasTitle title issues
      → find_similar_open_issue is_alphanumeric to_lowercase issues title ≢ none
  unfolding find_similar_open_issue
  find_similar-same_title issues title n h = ground (arith, scan-same_title issues title h)

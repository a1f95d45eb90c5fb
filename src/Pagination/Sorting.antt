-- ===== src/Pagination/Sorting.antt =====
-- The sort parameter of src/storage/pagination.rs: `parse_sort`, and the errors of a list request. The Unicode functions `trim` and
-- `to_lowercase` are parameters.
use Prim.Native.Char.{Char, code}
use Prim.Native.String.{[] as ε, ◌∷◌ as ◌∷ˢ◌}
use vai.Common.{
  ℕ, suc, not, keep, length, ◌≡◌, refl, Option, none, some, Bool, true, List, [], ◌∷◌, String, ◌==◌,
  nat_eq, if◌then◌else◌, All, Bool-cases, inl, inr,
}
use vai.Common.Eq.{string_equality}
use vai.Common.Sets.{contains}
use vai.Issue.Similar.{is_empty_text, split_at}

pub data SortDirection : Type 0 where
  asc desc : SortDirection

pub record SortField : Type 0 where
  pub column : String
  pub direction : SortDirection

pub data PaginationError : Type 0 where
  unknown_sort_column invalid_sort_format : String → PaginationError
  invalid_page invalid_per_page : ℕ → PaginationError

pub data Sorted : Type 0 where
  fields : List SortField → Sorted
  rejected_sort : PaginationError → Sorted

abbrev is_char : ℕ → Char → Bool
is_char n c = nat_eq (code c) n

-- `split_once(':')`: the text before the first colon, and after it.
abbrev with_front : Char → Option (String × String) → Option (String × String)
with_front c none = none
with_front c (some (a, b)) = some (c ∷ˢ a, b)

abbrev split_once : String → Option (String × String)
split_once ε = none
split_once (c ∷ˢ s) =
    let rest = split_once s in if is_char 58 c then some ("", s) else with_front c rest

abbrev direction_of : String → Option SortDirection
direction_of d = if d == "asc" then some asc else if d == "desc" then some desc else none

abbrev add_field : SortField → Sorted → Sorted
add_field f (fields fs) = fields (f ∷ fs)
add_field f (rejected_sort e) = rejected_sort e

module _ (trim to_lowercase : String → String) where
  -- The column and the direction that one part asks for.
  abbrev read_part : String → Option (String × SortDirection)
  read_part part = elim (split_once part) [
    | none ↦ some (part, asc)
    | some (c, d) ↦ elim (direction_of (to_lowercase d)) [
      | none ↦ none
      | some direction ↦ some (trim c, direction)
    ]
  ]

  abbrev with_part : List String → String → Option (String × SortDirection) → Sorted → Sorted
  with_part allowed part none rest = rejected_sort (invalid_sort_format part)
  with_part allowed part (some (column, direction)) rest =
      if contains column allowed
      then add_field (record { column = column; direction = direction }) rest
      else rejected_sort (unknown_sort_column column)

  -- The loop over the parts between the commas; the first error ends it.
  unfoldable parse_parts : List String → List String → Sorted
  parse_parts allowed [] = fields []
  parse_parts allowed (raw ∷ parts) =
      let rest = parse_parts allowed parts in
      if is_empty_text (trim raw)
      then rest
      else with_part allowed (trim raw) (read_part (trim raw)) rest

  unfoldable pub parse_sort : String → List String → Sorted
  unfolding parse_parts
  parse_sort text allowed =
      if is_empty_text text then fields [] else parse_parts allowed (split_at (is_char 44) text)

  -- The parts of a text that are not blank.
  abbrev pub asked_parts : String → List String
  asked_parts text = keep (λ part. not (is_empty_text (trim part))) (split_at (is_char 44) text)

  -- An error, or n fields, whose columns are allowed.
  abbrev pub IsAllowed : List String → ℕ → Sorted → Type 0
  IsAllowed allowed n (fields fs) =
      (length fs ≡ n) × All (λ (f : SortField). contains f.column allowed ≡ true) fs
  IsAllowed allowed n (rejected_sort e) = Unit

  with_part-IsAllowed :
      (allowed : List String) (part : String) (read : Option (String × SortDirection)) (n : ℕ)
      (rest : Sorted)
      → IsAllowed allowed n rest
      → IsAllowed allowed (suc n) (with_part allowed part read rest)
  with_part-IsAllowed allowed part none n rest h = tt
  with_part-IsAllowed allowed part (some (column, direction)) n (fields fs) h =
      elim (Bool-cases (contains column allowed)) [ inl b ↦ rw b (cc, (b, h.1)) | inr b ↦ rw b tt ]
  with_part-IsAllowed allowed part (some (column, direction)) n (rejected_sort e) h =
      elim (Bool-cases (contains column allowed)) [ inl b ↦ rw b tt | inr b ↦ rw b tt ]

  parse_parts-IsAllowed :
      (allowed parts : List String)
      → IsAllowed allowed
          (length (keep (λ part. not (is_empty_text (trim part))) parts))
          (parse_parts allowed parts)
  unfolding parse_parts
  parse_parts-IsAllowed allowed [] = (refl, tt)
  parse_parts-IsAllowed allowed (raw ∷ parts) = elim (Bool-cases (is_empty_text (trim raw))) [
    | inl b ↦ rw b (parse_parts-IsAllowed allowed parts)
    | inr b ↦ rw b (
        with_part-IsAllowed allowed (trim raw) (read_part (trim raw))
          (length (keep (λ part. not (is_empty_text (trim part))) parts))
          (parse_parts allowed parts) (parse_parts-IsAllowed allowed parts))
  ]

  -- If `parse_sort` accepts a text, it returns one field for each part of the text that is not blank, and
  -- the column of each field is in the endpoint's list. The `trim` of an empty text is taken to be empty.
  pub parse_sort-IsAllowed :
      (trim "" ≡ "")
      → (text : String) (allowed : List String)
      → IsAllowed allowed (length (asked_parts text)) (parse_sort text allowed)
  unfolding parse_sort
  parse_sort-IsAllowed blank ε allowed = rw blank (refl, tt)
  parse_sort-IsAllowed blank (c ∷ˢ s) allowed =
      parse_parts-IsAllowed allowed (split_at (is_char 44) (c ∷ˢ s))

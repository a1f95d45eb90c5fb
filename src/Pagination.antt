-- ===== src/Pagination.antt =====
-- src/storage/pagination.rs and src/server/pagination.rs: the page that a list request asks for, and the
-- page count of the answer. The machine's widths are written out: a page is 32 bits, a limit and an offset
-- are 63 bits and a sign, a total is 64 bits.
pub mod Pages
pub mod OrderBy
pub mod Sorting
mod Tests
use vai.Common.{
  ℕ, ◌+◌, ◌-◌, ◌*◌, ◌/◌, ◌%◌, ◌^◌, min, Option, none, some, Bool, true, false, ◌||◌, nat_eq, ltb,
  if◌then◌else◌, List, [], String,
}
use vai.Issue.{unwrap_or}
use vai.Pagination.Sorting.{
  SortField, PaginationError, invalid_page, invalid_per_page, Sorted, fields, rejected_sort,
  parse_sort,
}

-- `u32::MAX` and `i64::MAX`.
abbrev pub u32_max : ℕ
u32_max = 4294967295

abbrev pub i64_max : ℕ
i64_max = 9223372036854775807

pub record ListQuery : Type 0 where
  pub page : ℕ
  pub per_page : ℕ
  pub sort : List SortField

pub data Parsed : Type 0 where
  parsed : ListQuery → Parsed
  refused : PaginationError → Parsed

abbrev pub default_query : ListQuery
default_query = record { page = 1; per_page = u32_max; sort = [] }

abbrev pub with_sort : ℕ → ℕ → Sorted → Parsed
with_sort page per_page (fields sort) =
    parsed (record { page = page; per_page = per_page; sort = sort })
with_sort page per_page (rejected_sort e) = refused e

module _ (trim to_lowercase : String → String) where
  unfoldable pub from_params : Option ℕ → Option ℕ → Option String → List String → Parsed
  from_params page per_page sort_str allowed_columns =
      let p = unwrap_or 1 page in
      let n = unwrap_or 25 per_page in
      if nat_eq p 0
      then refused (invalid_page p)
      else if nat_eq n 0 || ltb 100 n
      then refused (invalid_per_page n)
      else with_sort p n (parse_sort trim to_lowercase (unwrap_or "" sort_str) allowed_columns)

unfoldable pub sql_limit_offset : ListQuery → ℕ × ℕ
sql_limit_offset q = (
  if nat_eq q.per_page u32_max then i64_max else q.per_page,
  (q.page - 1) * min q.per_page (i64_max / 2),
)

-- `total.div_ceil(per_page) as u32`.
unfoldable pub total_pages : ℕ → ListQuery → ℕ
total_pages total q =
    if nat_eq q.per_page 0 || nat_eq q.per_page u32_max
    then 1
    else ((total + (q.per_page - 1)) / q.per_page) % 4294967296

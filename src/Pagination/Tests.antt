-- ===== src/Pagination/Tests.antt =====
-- Runs of the pagination, and the instances of its theorems.
use vai.Pagination.OrderBy.{db_column, order_parts, sql_order_by}
use vai.Common.{◌+◌, ◌/◌, ◌≤◌, ◌<◌, ◌≡◌, refl, none, some, arith, List, [], ◌∷◌, String, length}
use vai.Pagination.{ListQuery, parsed, refused, from_params, sql_limit_offset, total_pages}
use vai.Pagination.Pages.{at_page, pages-cover}
use vai.Pagination.Sorting.{
  SortField, asc, desc, invalid_sort_format, invalid_page, unknown_sort_column, fields,
  rejected_sort, parse_sort, IsAllowed, asked_parts, parse_sort-IsAllowed,
}

-- Texts of small letters without spaces, which `trim` and `to_lowercase` leave as they are.
abbrev as_is : String → String
as_is s = s

abbrev allowed_columns : List String
allowed_columns = "created_at" ∷ "priority" ∷ []

abbrev newest_first : SortField
newest_first = record { column = "created_at"; direction = desc }

abbrev by_priority : SortField
by_priority = record { column = "priority"; direction = asc }

abbrev asked : ListQuery
asked = record { page = 3; per_page = 25; sort = newest_first ∷ by_priority ∷ [] }

accepted :
    from_params as_is as_is (some 3) none (some "created_at:desc,priority") allowed_columns
    ≡ parsed asked
unfolding from_params parse_sort
accepted = refl

-- The page is looked at first, and the sort parameter last.
refused_page :
    from_params as_is as_is (some 0) (some 0) (some "secret") allowed_columns
    ≡ refused (invalid_page 0)
unfolding from_params
refused_page = refl

refused_sort :
    from_params as_is as_is none none (some "secret") allowed_columns
    ≡ refused (unknown_sort_column "secret")
unfolding from_params parse_sort
refused_sort = refl

-- 342 rows by 25.
fourteen : total_pages 342 asked ≡ 14
unfolding total_pages
fourteen = refl

pages-cover_example :
    (60 / asked.per_page + 1 ≤ total_pages 342 asked)
    × ((sql_limit_offset (at_page (60 / asked.per_page + 1) asked)).1 ≤ 60)
    × (60
        < (sql_limit_offset (at_page (60 / asked.per_page + 1) asked)).1
          + (sql_limit_offset (at_page (60 / asked.per_page + 1) asked)).0)
pages-cover_example =
    pages-cover as_is as_is (some 3) none (some "created_at:desc,priority") allowed_columns asked
      342 60 accepted (omega arith) (omega arith)

behind_the_last : total_pages 342 asked < 15
unfolding total_pages
behind_the_last = omega arith

sorted_by_two :
    parse_sort as_is as_is "created_at:desc,,priority" allowed_columns
    ≡ fields (newest_first ∷ by_priority ∷ [])
unfolding parse_sort
sorted_by_two = refl

first_error :
    parse_sort as_is as_is "priority:up,secret" allowed_columns
    ≡ rejected_sort (invalid_sort_format "priority:up")
unfolding parse_sort
first_error = refl

unlisted_column :
    parse_sort as_is as_is "priority,secret" allowed_columns
    ≡ rejected_sort (unknown_sort_column "secret")
unfolding parse_sort
unlisted_column = refl

parse_sort-IsAllowed_example :
    IsAllowed as_is as_is allowed_columns
      (length (asked_parts as_is as_is "created_at:desc,,priority"))
      (parse_sort as_is as_is "created_at:desc,,priority" allowed_columns)
parse_sort-IsAllowed_example =
    parse_sort-IsAllowed as_is as_is refl "created_at:desc,,priority" allowed_columns

two_fields :
    sql_order_by (("priority", "priority") ∷ ("created_at", "created_at") ∷ []) (
      (record { column = "priority"; direction = asc })
      ∷ (record { column = "created_at"; direction = desc })
      ∷ [])
    ≡ "ORDER BY priority ASC, created_at DESC"
unfolding sql_order_by order_parts db_column
two_fields = refl

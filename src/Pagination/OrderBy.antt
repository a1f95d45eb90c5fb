-- ===== src/Pagination/OrderBy.antt =====
-- `ListQuery::sql_order_by` of src/storage/pagination.rs: the ORDER BY clause of the sort fields whose columns the
-- map of the query knows.
use vai.Common.{
  ◌≡◌, refl, Option, none, some, List, [], ◌∷◌, String, ◌==◌, if◌then◌else◌, length, All, arith,
}
use vai.Common.Eq.{string_equality}
use vai.Issue.Labels.{append_text}
use vai.Pagination.Sorting.{SortDirection, asc, desc, SortField}

abbrev sql : SortDirection → String
sql asc = "ASC"
sql desc = "DESC"

unfoldable pub db_column : String → List (String × String) → Option String
db_column column [] = none
db_column column (c ∷ map) =
    let rest = db_column column map in if c.0 == column then some c.1 else rest

abbrev order_part : SortField → Option String → List String → List String
order_part f none rest = rest
order_part f (some column) rest = append_text column (append_text " " (sql f.direction)) ∷ rest

unfoldable pub order_parts : List (String × String) → List SortField → List String
unfolding db_column
order_parts map [] = []
order_parts map (f ∷ fs) = order_part f (db_column f.column map) (order_parts map fs)

abbrev join_parts : List String → String
join_parts [] = ""
join_parts (p ∷ []) = p
join_parts (p ∷ q ∷ ps) = append_text p (append_text ", " (join_parts (q ∷ ps)))

abbrev order_clause : List String → String
order_clause [] = ""
order_clause (p ∷ ps) = append_text "ORDER BY " (join_parts (p ∷ ps))

unfoldable pub sql_order_by : List (String × String) → List SortField → String
unfolding order_parts
sql_order_by map [] = ""
sql_order_by map (f ∷ fs) = order_clause (order_parts map (f ∷ fs))

abbrev IsKnown : List (String × String) → SortField → Type 0
IsKnown map f = (column : String) × (db_column f.column map ≡ some column)

-- Where the map knows every column, no field of the sort is dropped.
length-order_parts :
    (map : List (String × String)) (fs : List SortField)
    → All (IsKnown map) fs
    → length (order_parts map fs) ≡ length fs
unfolding order_parts
length-order_parts map [] a = refl
length-order_parts map (f ∷ fs) a =
    let known = a.0.1 in ground (arith, known, length-order_parts map fs a.1)

-- ===== src/Pagination/Pages.antt =====
-- What a validated request of src/storage/pagination.rs guarantees of its pages.
use native.Mathlib.Nat.{
  div-mul-le_self, lt-div-mul-add, le-div_iff_mul-le, div-lt_iff_lt-mul, div-le_self, mod-eq_of_lt,
}
use vai.Common.{
  ℕ, zero, suc, ◌+◌, ◌-◌, ◌*◌, ◌/◌, ◌≤◌, ◌<◌, ◌≡◌, refl, min, Option, false, nat_eq, arith, List,
  String,
}
use vai.Issue.{unwrap_or}
use vai.Pagination.Sorting.{Sorted, fields, rejected_sort, parse_sort}
use vai.Pagination.{
  ListQuery, parsed, with_sort, from_params, sql_limit_offset, total_pages, u32_max, i64_max,
}

with_sort-sizes :
    (page per_page : ℕ) (sorted : Sorted) (q : ListQuery)
    → with_sort page per_page sorted ≡ parsed q
    → (q.page ≡ page) × (q.per_page ≡ per_page)
with_sort-sizes page per_page (fields sort) q h = ground (arith, h)
with_sort-sizes page per_page (rejected_sort e) q h = cc

module _ (trim to_lowercase : String → String) (page per_page : Option ℕ) (sort_str : Option String)
    (allowed_columns : List String) (q : ListQuery) where
  from_params-window :
      from_params trim to_lowercase page per_page sort_str allowed_columns ≡ parsed q
      → (1 ≤ q.page) × (1 ≤ q.per_page) × (q.per_page ≤ 100)
  unfolding from_params
  from_params-window h =
      let sorted = parse_sort trim to_lowercase (unwrap_or "" sort_str) allowed_columns in
      ground (arith, h, with_sort-sizes (unwrap_or 1 page) (unwrap_or 25 per_page) sorted q)

-- The request for another page of the same size.
abbrev pub at_page : ℕ → ListQuery → ListQuery
at_page p q = record q { page = p }

window :
    (p : ℕ) (q : ListQuery)
    → 1 ≤ q.per_page
    → q.per_page ≤ 100
    → (sql_limit_offset (at_page p q) ≡ (q.per_page, (p - 1) * q.per_page))
unfolding sql_limit_offset
window p q h k =
    let a : nat_eq q.per_page u32_max ≡ false = ground (arith, h, k) in
    let b : min q.per_page (i64_max / 2) ≡ q.per_page = ground (arith, h, k) in rw a (rw b refl)

page_count :
    (total : ℕ) (q : ListQuery)
    → 1 ≤ q.per_page
    → q.per_page ≤ 100
    → total + q.per_page ≤ 4294967296
    → total_pages total q ≡ (total + (q.per_page - 1)) / q.per_page
unfolding total_pages
page_count total q h k t =
    let a : nat_eq q.per_page u32_max ≡ false = ground (arith, h, k) in
    let z : nat_eq q.per_page 0 ≡ false = ground (arith, h, k) in
    let small : (total + (q.per_page - 1)) / q.per_page < 4294967296 =
      omega (arith, div-le_self (total + (q.per_page - 1)) q.per_page) in
    rw z (rw a (mod-eq_of_lt small))

back : (k n : ℕ) {r : ℕ} → k * n ≤ r → (k + 1 - 1) * n ≤ r
back k n h = let e : k + 1 - 1 ≡ k = omega arith in rw e h

front : (k n r : ℕ) → r < k * n + n → r < (k + 1 - 1) * n + n
front k n r h = let e : k + 1 - 1 ≡ k = omega arith in rw e h

-- For a page size that was accepted, each row below the total stands on a page that the count announces,
-- inside the window of that page; the count does not wrap while the total and one page fit in 32 bits.
pub pages-cover :
    (trim to_lowercase : String → String) (page per_page : Option ℕ) (sort_str : Option String)
    (allowed_columns : List String) (q : ListQuery) (total row : ℕ)
    → from_params trim to_lowercase page per_page sort_str allowed_columns ≡ parsed q
    → total + q.per_page ≤ 4294967296
    → row < total
    → (row / q.per_page + 1 ≤ total_pages total q)
      × ((sql_limit_offset (at_page (row / q.per_page + 1) q)).1 ≤ row)
      × (row
          < (sql_limit_offset (at_page (row / q.per_page + 1) q)).1
            + (sql_limit_offset (at_page (row / q.per_page + 1) q)).0)
pages-cover trim to_lowercase page per_page sort_str allowed_columns q total row h t l =
    let (a, b, c) =
      from_params-window trim to_lowercase page per_page sort_str allowed_columns q h in
    let n = q.per_page in
    let w = window (row / n + 1) q b c in
    let low : row / n * n ≤ row = div-mul-le_self row n in
    let high : row < row / n * n + n = lt-div-mul-add b in
    let count : row / n + 1 ≤ (total + (n - 1)) / n =
      (le-div_iff_mul-le b).1 (omega (arith, low, l, b)) in
    (
      rw (page_count total q b c t) count,
      rw w (back (row / n) n low),
      rw w (front (row / n) n row high),
    )

back_suc : (total p n : ℕ) → total ≤ p * n → total ≤ (suc p - 1) * n
back_suc total p n h = let e : suc p - 1 ≡ p = omega arith in rw e h

behind : (total p n : ℕ) → 1 ≤ n → 1 ≤ p → total + (n - 1) < p * n → total ≤ (p - 1) * n
behind total zero n h k l = elim k [ ]
behind total (suc p) n h k l = back_suc total p n (omega (arith, l, h))

-- A page behind the last one that is announced is empty: its window begins at the total or later.
pub pages-end :
    (trim to_lowercase : String → String) (page per_page : Option ℕ) (sort_str : Option String)
    (allowed_columns : List String) (q : ListQuery) (total p : ℕ)
    → from_params trim to_lowercase page per_page sort_str allowed_columns ≡ parsed q
    → total + q.per_page ≤ 4294967296
    → total_pages total q < p
    → total ≤ (sql_limit_offset (at_page p q)).1
pages-end trim to_lowercase page per_page sort_str allowed_columns q total p h t l =
    let (a, b, c) =
      from_params-window trim to_lowercase page per_page sort_str allowed_columns q h in
    let few : (total + (q.per_page - 1)) / q.per_page < p = rw (page_count total q b c t) at l in
    let bound : total + (q.per_page - 1) < p * q.per_page = (div-lt_iff_lt-mul b).0 few in
    rw (window p q b c) (behind total p q.per_page b (omega arith) bound)

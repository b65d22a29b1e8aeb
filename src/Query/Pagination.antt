-- ===== src/Query/Pagination.antt =====
-- src/query/pagination.rs. `usize` arithmetic is that of a 64-bit release build; `none` is a panic (a
-- division by zero, a slice out of range). The JSON object of a page is a record with its fields.
pub mod Window
pub mod Tiling
use dirbase.Prelude.{
  ℕ, ◌+◌, ◌-◌, ◌*◌, ◌/◌, ◌%◌, ◌^◌, max, min, Option, none, some, List, [], ltb, leb, ◌==◌,
  if◌then◌else◌, length, take, drop,
}
use dirbase.Json.{as_array}
use dirbase.Error.{AppError, app_error, bad_request, Result, ok, ok_or, ◌>>=◌}
use dirbase.Runtime.{Runtime, Value}
use dirbase.Query.Types.{Pagination, PaginationWindow}

-- `total.div_ceil(n)`
abbrev div_ceil : ℕ → ℕ → Option ℕ
div_ceil total n =
    if n == 0 then none else if total % n == 0 then some (total / n) else some (total / n + 1)

pub page_count : ℕ → ℕ → Option ℕ
page_count total_items per_page = if total_items == 0 then some 1 else div_ceil total_items per_page

window_at : ℕ → ℕ → ℕ → ℕ → PaginationWindow
window_at total_items per_page pages page =
    let start = ((page - 1) * per_page) % 2 ^ 64 in
    record {
      first = 1;
      prev = if ltb 1 page then some (page - 1) else none;
      next = if ltb page pages then some (page + 1) else none;
      last = pages;
      page = page;
      pages = pages;
      items = total_items;
      start = start;
      end = min ((start + per_page) % 2 ^ 64) total_items;
    }

window_of : ℕ → Pagination → Option ℕ → Option PaginationWindow
window_of total_items pagination none = none
window_of total_items pagination (some pages) =
    some
      (window_at total_items pagination.per_page pages (min (max pagination.page 1) (max pages 1)))

unfoldable pub pagination_window : ℕ → Pagination → Option PaginationWindow
unfolding page_count window_of window_at
pagination_window total_items pagination =
    window_of total_items pagination (page_count total_items pagination.per_page)

-- The answer: the window's fields but for its two offsets, and the items of the page.
pub record PageData {ℓ} (A : Type ℓ) : Type ℓ where
  pub window : PaginationWindow
  pub data_items : List A

module _ {ℓ} {A : Type ℓ} where
  -- `items[start..end]`
  slice : List A → ℕ → ℕ → Option (List A)
  slice items start end =
      if leb start end
      then (if leb end (length items) then some (take (end - start) (drop start items)) else none)
      else none

  with_data : PaginationWindow → Option (List A) → Option (PageData A)
  with_data window none = none
  with_data window (some items) = some (record { window = window; data_items = items })

  page_of : List A → Option PaginationWindow → Option (PageData A)
  page_of items none = none
  page_of items (some window) =
      with_data window
        (if ltb window.start window.items then slice items window.start window.end else some [])

  unfoldable pub paginate_collection_refs : List A → Pagination → Option (PageData A)
  unfolding slice with_data page_of
  paginate_collection_refs items pagination =
      page_of items (pagination_window (length items) pagination)

module _ ⦃rt : Runtime⦄ where
  unfoldable pub paginate_collection_data :
      Value → Pagination → Result (Option (PageData Value)) AppError
  paginate_collection_data value pagination = do
    items ← ok_or (as_array value) (app_error bad_request "Resource is not a JSON array")
    ok (paginate_collection_refs items pagination)

-- ===== src/Query/Pagination/Tiling.antt =====
-- The pages of a collection (src/query/pagination.rs), one after the other.
use native.Mathlib.Nat.{zero-mul}
use dirbase.Prelude.{
  ℕ, zero, suc, ◌+◌, ◌-◌, ◌*◌, ◌^◌, ◌≤◌, ◌<◌, min, ◌≡◌, sym, ap, ◌∙◌, Option, none, some, List, [],
  ◌++◌, arith, ltb, length, take, drop, take-min, take-add, take_all, length-drop, length-take,
  le_of_not_ltb, nil_of_length, le→leb, Bool-cases, inl, inr,
}
use mathlib.Core.Option.{some-injective}
use mathlib.Core.Path.{ap₂}
use dirbase.Query.Types.{Pagination, PaginationWindow}
use dirbase.Query.Pagination.{
  page_count, window_at, window_of, pagination_window, PageData, slice, paginate_collection_refs,
}
use dirbase.Query.Pagination.Window.{IsWindow, pagination_window-IsWindow}

abbrev asked : ℕ → ℕ → Pagination
asked page per_page = record { page = page; per_page = per_page }

window_of-pages :
    (n : ℕ) (p : Pagination) (count : Option ℕ) (w : PaginationWindow)
    → window_of n p count ≡ some w
    → count ≡ some w.pages
unfolding window_of window_at
window_of-pages n p none w h = cc
window_of-pages n p (some pages) w h =
    ap (λ (v : PaginationWindow). some v.pages) (some-injective _ _ h)

-- Every window of a collection counts the same pages.
count_of_window :
    (n page per_page : ℕ) (w : PaginationWindow)
    → pagination_window n (asked page per_page) ≡ some w
    → page_count n per_page ≡ some w.pages
unfolding pagination_window
count_of_window n page per_page w h =
    window_of-pages n (asked page per_page) (page_count n per_page) w h

module _ {ℓ} {A : Type ℓ} where
  -- The items of an answer.
  abbrev pub shown : Option (PageData A) → List A
  shown none = []
  shown (some page) = page.data_items

  -- The items of the first `k` pages, in order.
  abbrev pub first_pages : List A → ℕ → ℕ → List A
  first_pages items per_page zero = []
  first_pages items per_page (suc k) =
      first_pages items per_page k
      ++ shown (paginate_collection_refs items (asked (suc k) per_page))

  slice-eq :
      (items : List A) (start end : ℕ)
      → start ≤ end
      → end ≤ length items
      → slice items start end ≡ some (take (end - start) (drop start items))
  unfolding slice
  slice-eq items start end h k = rw (le→leb start end h) (rw (le→leb end (length items) k))

  take-of_window :
      (items : List A) (start per_page : ℕ)
      → take (min (start + per_page) (length items) - start) (drop start items)
        ≡ take per_page (drop start items)
  take-of_window items start per_page =
      ap (λ k. take k (drop start items)) count ∙ take-min per_page (drop start items)
    where
      count :
          min (start + per_page) (length items) - start ≡ min per_page (length (drop start items))
      count = omega (arith, length-drop start items)

  no_items :
      (items : List A) (start n : ℕ) → length items ≤ start → length (take n (drop start items)) ≡ 0
  no_items items start n h =
      omega (arith, length-take n (drop start items), length-drop start items)

  data-of_window :
      (items : List A) (p : Pagination) (w : PaginationWindow)
      → pagination_window (length items) p ≡ some w
      → IsWindow (length items) p w
      → paginate_collection_refs items p
        ≡ some (record { window = w; data_items = take p.per_page (drop w.start items) })
  unfolding paginate_collection_refs
  data-of_window items p w h v = rw h (elim (Bool-cases (ltb w.start w.items)) [
    | inl in_front ↦ rw in_front (
        rw (slice-eq items w.start w.end v.in_range.0 v.in_range.1)
          (rw v.end_exact (rw (take-of_window items w.start p.per_page))))
    | inr behind ↦ rw behind (
        ap (λ l. some (record { window = w; data_items = l }))
          (sym (
            nil_of_length (take p.per_page (drop w.start items)) (
              no_items items w.start p.per_page
                (omega (arith, le_of_not_ltb w.start w.items behind))))))
  ])

  -- The page after `before` others shows the items after those that they hold.
  page-shows :
      (items : List A) (per_page pages before : ℕ)
      → length items < 2 ^ 63
      → 1 ≤ per_page
      → per_page < 2 ^ 64
      → page_count (length items) per_page ≡ some pages
      → suc before ≤ pages
      → shown (paginate_collection_refs items (asked (suc before) per_page))
        ≡ take per_page (drop (before * per_page) items)
  page-shows items per_page pages before hn hp hw counted h =
      let (w, found, v) =
        pagination_window-IsWindow (length items) (asked (suc before) per_page) hn hp hw in
      let same : pages ≡ w.pages =
        some-injective _ _
          (sym counted ∙ count_of_window (length items) (suc before) per_page w found) in
      let page : w.page - 1 ≡ before = omega (arith, v.page_exact) in
      ap shown (data-of_window items (asked (suc before) per_page) w found v)
      ∙ ap (λ k. take per_page (drop k items)) (v.start_exact ∙ ap (λ k. k * per_page) page)

  first_pages-eq-take :
      (items : List A) (per_page pages k : ℕ)
      → length items < 2 ^ 63
      → 1 ≤ per_page
      → per_page < 2 ^ 64
      → page_count (length items) per_page ≡ some pages
      → k ≤ pages
      → first_pages items per_page k ≡ take (k * per_page) items
  first_pages-eq-take items per_page pages zero hn hp hw counted h =
      ap (λ n. take n items) (sym (zero-mul per_page))
  first_pages-eq-take items per_page pages (suc k) hn hp hw counted h =
      ap₂ ◌++◌ (first_pages-eq-take items per_page pages k hn hp hw counted (omega arith))
        (page-shows items per_page pages k hn hp hw counted h)
      ∙ sym (take-add (k * per_page) per_page items)
      ∙ ap (λ n. take n items) (omega arith)

  -- For fewer than 2^63 items and a positive page size below 2^64: a client that asks for page 1, and
  -- then for every page up to the `pages` that it names, has every item once and in order.
  pub first_pages-eq-items :
      (items : List A) (per_page : ℕ)
      → length items < 2 ^ 63
      → 1 ≤ per_page
      → per_page < 2 ^ 64
      → (page : PageData A) × (paginate_collection_refs items (asked 1 per_page) ≡ some page)
        × (first_pages items per_page page.window.pages ≡ items)
  first_pages-eq-items items per_page hn hp hw =
      let (w, found, v) = pagination_window-IsWindow (length items) (asked 1 per_page) hn hp hw in
      let counted : page_count (length items) per_page ≡ some w.pages =
        count_of_window (length items) 1 per_page w found in
      (
        record { window = w; data_items = take per_page (drop w.start items) },
        data-of_window items (asked 1 per_page) w found v,
        first_pages-eq-take items per_page w.pages w.pages hn hp hw counted (omega arith)
            ∙ take_all (w.pages * per_page) items v.counted.enough,
      )

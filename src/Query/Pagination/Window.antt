-- ===== src/Query/Pagination/Window.antt =====
-- The page window of a request (src/query/pagination.rs) and the numbers it is computed from.
use native.Mathlib.Nat.{div-add-mod, mod-lt, mod-eq_of_lt, mul_comm, mul-le-mul_right}
use dirbase.Prelude.{
  ℕ, zero, suc, ◌+◌, ◌-◌, ◌*◌, ◌/◌, ◌%◌, ◌^◌, ◌≤◌, ◌<◌, max, min, ◌≡◌, refl, ap, inl, inr, none,
  some, arith, ltb, ◌==◌, if◌then◌else◌, Bool-cases,
}
use dirbase.Query.Types.{Pagination, PaginationWindow}
use dirbase.Query.Pagination.{page_count, window_at, window_of, pagination_window}

-- The number of pages that hold `n` items: enough for all of them, and none of them empty, but for
-- the one page of an empty collection.
pub record IsPageCount (n per_page pages : ℕ) : Type 0 where
  pub at_least_one : 1 ≤ pages
  pub enough : n ≤ pages * per_page
  pub none_empty : 1 ≤ n → pages * per_page < n + per_page
  pub of_empty : n ≡ 0 → pages ≡ 1

exact_division-IsPageCount :
    (n per_page pages : ℕ)
    → 1 ≤ n
    → n ≡ pages * per_page
    → 1 ≤ per_page
    → IsPageCount n per_page pages
exact_division-IsPageCount n per_page zero hn h hp = absurd (omega arith)
exact_division-IsPageCount n per_page (suc pages) hn h hp = record {
  at_least_one = omega arith;
  enough = omega arith;
  none_empty = λ _. omega arith;
  of_empty = λ e. absurd (omega arith);
}

remainder-IsPageCount :
    (n per_page pages r : ℕ)
    → n ≡ pages * per_page + r
    → 1 ≤ r
    → r < per_page
    → IsPageCount n per_page (pages + 1)
remainder-IsPageCount n per_page pages r h hr hl = record {
  at_least_one = omega arith;
  enough = omega arith;
  none_empty = λ _. omega arith;
  of_empty = λ e. absurd (omega arith);
}

divided : (n per_page : ℕ) → n ≡ (n / per_page) * per_page + n % per_page
divided n per_page = omega (arith, div-add-mod n per_page, mul_comm (n / per_page) per_page)

pub page_count-IsPageCount :
    (n per_page : ℕ)
    → 1 ≤ per_page
    → (pages : ℕ) × (page_count n per_page ≡ some pages) × IsPageCount n per_page pages
unfolding page_count
page_count-IsPageCount n per_page h = elim (Bool-cases (n == 0)) [
  | inl empty ↦ (
    1,
    rw empty,
    record {
      at_least_one = omega arith;
      enough = ground arith;
      none_empty = λ k. ground arith;
      of_empty = λ _. refl;
    },
  )
  | inr filled ↦ elim (Bool-cases (n % per_page == 0)) [
    | inl exact ↦ (
      n / per_page,
      ground arith,
      exact_division-IsPageCount n per_page (n / per_page) (ground arith)
          (ground (arith, divided n per_page)) h,
    )
    | inr more ↦ (
      n / per_page + 1,
      ground arith,
      remainder-IsPageCount n per_page (n / per_page) (n % per_page) (divided n per_page)
          (ground arith) (mod-lt n h),
    )
  ]
]

-- The page that is shown: the one that was asked for, held to the pages that there are.
abbrev pub clamped : ℕ → ℕ → ℕ
clamped page pages = min (max page 1) (max pages 1)

-- What a window promises: `start` and `end` are the exact offsets of the page that is shown.
pub record IsWindow (n : ℕ) (p : Pagination) (w : PaginationWindow) : Type 0 where
  pub counted : IsPageCount n p.per_page w.pages
  pub page_exact : w.page ≡ clamped p.page w.pages
  pub page_exists : (1 ≤ w.page) × (w.page ≤ w.pages)
  pub start_exact : w.start ≡ (w.page - 1) * p.per_page
  pub end_exact : w.end ≡ min (w.start + p.per_page) n
  pub in_range : (w.start ≤ w.end) × (w.end ≤ n)
  pub filled : 1 ≤ n → w.start < w.end
  pub ends : (w.first ≡ 1) × (w.last ≡ w.pages) × (w.items ≡ n)
  pub prev_exact : w.prev ≡ (if ltb 1 w.page then some (w.page - 1) else none)
  pub next_exact : w.next ≡ (if ltb w.page w.pages then some (w.page + 1) else none)

-- The offset of the page after `before` others lies in the collection.
offset-lt :
    (n per_page pages before : ℕ)
    → suc before ≤ pages
    → IsPageCount n per_page pages
    → 1 ≤ n
    → before * per_page < n
offset-lt n per_page pages before h c hn =
    omega (arith, c.none_empty hn, mul-le-mul_right per_page h)

offset-eq-zero :
    (per_page pages before : ℕ)
    → suc before ≤ pages
    → IsPageCount 0 per_page pages
    → before * per_page ≡ 0
offset-eq-zero per_page pages zero h c = omega arith
offset-eq-zero per_page pages (suc before) h c = absurd (omega (arith, c.of_empty refl))

offset-le :
    (n per_page pages before : ℕ)
    → suc before ≤ pages
    → IsPageCount n per_page pages
    → before * per_page ≤ n
offset-le zero per_page pages before h c = omega (arith, offset-eq-zero per_page pages before h c)
offset-le (suc n) per_page pages before h c =
    omega (arith, offset-lt (suc n) per_page pages before h c (omega arith))

window_at-IsWindow :
    (n : ℕ) (p : Pagination) (pages page : ℕ)
    → n < 2 ^ 63
    → 1 ≤ p.per_page
    → p.per_page < 2 ^ 64
    → IsPageCount n p.per_page pages
    → page ≡ clamped p.page pages
    → (page - 1) * p.per_page ≤ n
    → (1 ≤ n → (page - 1) * p.per_page < n)
    → (page - 1) * p.per_page + p.per_page < 2 ^ 64
    → IsWindow n p (window_at n p.per_page pages page)
unfolding window_at
window_at-IsWindow n p pages page hn hp hw c e le lt small = record {
  counted = c;
  page_exact = e;
  page_exists = omega (arith, c.at_least_one);
  start_exact = exact;
  end_exact = rw exact (rw whole);
  in_range = rw exact (rw whole (omega arith));
  filled = λ k. rw exact (rw whole (omega (arith, lt k)));
  ends = (refl, refl, refl);
  prev_exact = refl;
  next_exact = refl;
}
  where
    exact : ((page - 1) * p.per_page) % 2 ^ 64 ≡ (page - 1) * p.per_page
    exact = mod-eq_of_lt (omega arith)

    whole : ((page - 1) * p.per_page + p.per_page) % 2 ^ 64 ≡ (page - 1) * p.per_page + p.per_page
    whole = mod-eq_of_lt small

-- No window wraps: a second page starts after `per_page` items, which are then in the collection.
offset_small :
    (n per_page before : ℕ)
    → n < 2 ^ 63
    → per_page < 2 ^ 64
    → before * per_page ≤ n
    → before * per_page + per_page < 2 ^ 64
offset_small n per_page zero hn hw h = omega arith
offset_small n per_page (suc before) hn hw h = omega arith

-- For fewer than 2^63 items and every page size above zero and below 2^64 the window exists, and is
-- exact: the right number of pages, the page asked for held to those, the page's offsets without
-- wrapping, inside the collection and not empty unless it is, and the links to its neighbours.
pub pagination_window-IsWindow :
    (n : ℕ) (p : Pagination)
    → n < 2 ^ 63
    → 1 ≤ p.per_page
    → p.per_page < 2 ^ 64
    → (w : PaginationWindow) × (pagination_window n p ≡ some w) × IsWindow n p w
unfolding pagination_window
pagination_window-IsWindow n p hn hp hw =
    let (pages, counted, c) = page_count-IsPageCount n p.per_page hp in
    let page : ℕ = clamped p.page pages in
    let shown : suc (page - 1) ≤ pages = omega (arith, c.at_least_one) in
    let le : (page - 1) * p.per_page ≤ n = offset-le n p.per_page pages (page - 1) shown c in
    (
      window_at n p.per_page pages page,
      ap (window_of n p) counted,
      window_at-IsWindow n p pages page hn hp hw c refl le
          (offset-lt n p.per_page pages (page - 1) shown c)
          (offset_small n p.per_page (page - 1) hn hw le),
    )

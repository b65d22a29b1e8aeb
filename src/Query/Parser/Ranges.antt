-- ===== src/Query/Parser/Ranges.antt =====
-- The page numbers that the parser (src/query/parser.rs) lets through, as ranges.
use dirbase.Prelude.{
  ℕ, ◌^◌, ◌≤◌, ◌<◌, String, ◌||◌, Option, none, some, List, [], ◌∷◌, arith, ◌≡◌, ◌∙◌, ap, subst,
  inl, inr, str_eq, Bool-cases,
}
use dirbase.Error.{ok, ◌>>=◌, ok_or, >>=-eq-ok, ok_or-eq-ok, ok-injective}
use dirbase.Runtime.{Runtime}
use dirbase.Text.Decimal.{parse_usize, parse_usize-lt}
use dirbase.Query.Types.{Pagination, PaginationWindow, ParsedCollectionQuery}
use dirbase.Query.Parser.{
  Parsing, no_params, parse_positive_usize, pagination_of, parse_param, parse_params,
  parse_collection_query_params, add_filter, positive, parse_filter_key,
}
use dirbase.Query.Pagination.{pagination_window}
use dirbase.Query.Pagination.Window.{IsWindow, pagination_window-IsWindow}

-- A `usize` above zero.
abbrev IsPositive : ℕ → Type 0
IsPositive n = (1 ≤ n) × (n < 2 ^ 64)

-- What a parameter that may be missing holds.
abbrev Maybe : Option ℕ → Type 0
Maybe none = Unit
Maybe (some n) = IsPositive n

positive-eq-ok : (key : String) (m n : ℕ) → positive key m ≡ ok n → (m ≡ n) × (1 ≤ n)
unfolding positive
positive-eq-ok key m n h = ground arith

parse_positive_usize-IsPositive :
    (key value : String) (n : ℕ) → parse_positive_usize key value ≡ ok n → IsPositive n
unfolding parse_positive_usize
parse_positive_usize-IsPositive key value n h =
    let (m, parsed, checked) = >>=-eq-ok (ok_or (parse_usize value) _) (positive key) h in
    let (same, at_least_one) = positive-eq-ok key m n checked in
    (
      at_least_one,
      omega (arith, same, parse_usize-lt value m (ok_or-eq-ok (parse_usize value) _ parsed)),
    )

module _ ⦃rt : Runtime⦄ where
  record IsReady (p : Parsing) : Type 0 where
    page_ready : Maybe p.page
    per_page_ready : Maybe p.per_page

  set_page-IsReady :
      (p p' : Parsing) (key value : String)
      → IsReady p
      → (do n ← parse_positive_usize key value; ok (record p { page = some n })) ≡ ok p'
      → IsReady p'
  set_page-IsReady p p' key value r h =
      let (n, parsed, same) =
        >>=-eq-ok (parse_positive_usize key value) (λ n. ok (record p { page = some n })) h in
      subst IsReady (ok-injective same) (record {
        page_ready = parse_positive_usize-IsPositive key value n parsed;
        per_page_ready = r.per_page_ready;
      })

  set_per_page-IsReady :
      (p p' : Parsing) (key value : String)
      → IsReady p
      → (do n ← parse_positive_usize key value; ok (record p { per_page = some n })) ≡ ok p'
      → IsReady p'
  set_per_page-IsReady p p' key value r h =
      let (n, parsed, same) =
        >>=-eq-ok (parse_positive_usize key value) (λ n. ok (record p { per_page = some n })) h in
      subst IsReady (ok-injective same) (record {
        page_ready = r.page_ready;
        per_page_ready = parse_positive_usize-IsPositive key value n parsed;
      })

  set_filter-IsReady :
      (p p' : Parsing) (key value : String)
      → IsReady p
      → (do parts ← parse_filter_key key; ok (add_filter p value parts)) ≡ ok p'
      → IsReady p'
  unfolding add_filter
  set_filter-IsReady p p' key value r h =
      let (parts, parsed, same) =
        >>=-eq-ok (parse_filter_key key) (λ parts. ok (add_filter p value parts)) h in
      subst IsReady (ok-injective same)
        (record { page_ready = r.page_ready; per_page_ready = r.per_page_ready })

  parse_param-IsReady :
      (p p' : Parsing) (key value : String)
      → parse_param p key value ≡ ok p'
      → IsReady p
      → IsReady p'
  unfolding parse_param
  parse_param-IsReady p p' key value h r =
      elim (Bool-cases (str_eq key "sort" || str_eq key "_sort")) [
        | inl sort ↦
            subst IsReady (ok-injective (rw sort at h))
              (record { page_ready = r.page_ready; per_page_ready = r.per_page_ready })
        | inr not_sort ↦ elim (Bool-cases (str_eq key "page" || str_eq key "_page")) [
          | inl page ↦ set_page-IsReady p p' key value r (rw (not_sort, page) at h)
          | inr not_page ↦ elim (Bool-cases (str_eq key "per_page" || str_eq key "_per_page")) [
            | inl per_page ↦
                set_per_page-IsReady p p' key value r (rw (not_sort, not_page, per_page) at h)
            | inr not_per_page ↦ elim (Bool-cases (str_eq key "embed" || str_eq key "_embed")) [
              | inl embed ↦
                  subst IsReady (ok-injective (rw (not_sort, not_page, not_per_page, embed) at h))
                    (record { page_ready = r.page_ready; per_page_ready = r.per_page_ready })
              | inr filter ↦
                  set_filter-IsReady p p' key value r
                    (rw (not_sort, not_page, not_per_page, filter) at h)
            ]
          ]
        ]
      ]

  parse_params-IsReady :
      (p p' : Parsing) (params : List (String × String))
      → parse_params p params ≡ ok p'
      → IsReady p
      → IsReady p'
  unfolding parse_params
  parse_params-IsReady p p' [] h r = subst IsReady (ok-injective h) r
  parse_params-IsReady p p' ((key, value) ∷ params) h r =
      let (q, first, later) = >>=-eq-ok (parse_param p key value) (λ q. parse_params q params) h in
      parse_params-IsReady q p' params later (parse_param-IsReady p q key value first r)

  pagination_of-IsPositive :
      (page per_page : Option ℕ) (pagination : Pagination)
      → Maybe page
      → Maybe per_page
      → pagination_of page per_page ≡ some pagination
      → IsPositive pagination.page × IsPositive pagination.per_page
  unfolding pagination_of
  pagination_of-IsPositive none none pagination h k e = cc
  pagination_of-IsPositive (some a) none pagination h k e = ground arith
  pagination_of-IsPositive none (some b) pagination h k e = ground arith
  pagination_of-IsPositive (some a) (some b) pagination h k e = ground arith

  parsed-IsPositive :
      (params : List (String × String)) (q : ParsedCollectionQuery) (pagination : Pagination)
      → parse_collection_query_params params ≡ ok q
      → q.pagination ≡ some pagination
      → IsPositive pagination.page × IsPositive pagination.per_page
  unfolding parse_collection_query_params
  parsed-IsPositive params q pagination h e =
      let (p, parsed, same) = >>=-eq-ok (parse_params no_params params) _ h in
      let r : IsReady p =
        parse_params-IsReady no_params p params parsed
          (record { page_ready = tt; per_page_ready = tt }) in
      pagination_of-IsPositive p.page p.per_page pagination r.page_ready r.per_page_ready
        (ap (λ (v : ParsedCollectionQuery). v.pagination) (ok-injective same) ∙ e)

  -- Whatever the parameters, a pagination that the parser accepts has a window in every collection
  -- that fits in memory: no request reaches the division by zero, and none wraps.
  pub parsed-IsWindow :
      (params : List (String × String)) (q : ParsedCollectionQuery) (pagination : Pagination)
      (n : ℕ)
      → parse_collection_query_params params ≡ ok q
      → q.pagination ≡ some pagination
      → n < 2 ^ 63
      → (w : PaginationWindow) × (pagination_window n pagination ≡ some w) × IsWindow n pagination w
  parsed-IsWindow params q pagination n h e hn =
      let (page, per_page) = parsed-IsPositive params q pagination h e in
      pagination_window-IsWindow n pagination hn per_page.0 per_page.1

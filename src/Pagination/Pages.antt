-- ===== src/Pagination/Pages.antt =====
-- The pages of app/shared/pagination.py together, and the steps from one page to the next.
use korea_public_data_be.Base.{
  All, ◌∷◌, ◌&&◌, ℕ, zero, suc, ◌+◌, ◌-◌, ◌*◌, ◌/◌, ◌≤◌, ◌<◌, true, false, some, List, [], ◌++◌,
  ltb, leb, length, ◌≡◌, ◌↔◌, sym, ap, ◌∙◌, arith, take, drop, take_all, take_more, drop_more,
  Bool-cases, inl, inr, ltb→lt, leb→le,
}
use native.Mathlib.Nat.{le-div_iff_mul-le, div-lt_iff_lt-mul, suc-mul, zero-mul, mul-le-mul_right}
use korea_public_data_be.Pagination.Defs.{
  PaginationParams, is_valid, skip, limit, PaginatedResult, total_pages, has_next, has_previous,
  next_page, previous_page, paginate_query_result,
}

-- The parameters of so many pages, from the page of the parameters on
abbrev pub pages_of : ℕ → PaginationParams → List PaginationParams
pages_of zero p = []
pages_of (suc n) p = p ∷ pages_of n (record p { page = p.page + 1 })

pages_of-valid :
    (n : ℕ) (p : PaginationParams)
    → 1 ≤ p.page
    → p.page + n ≤ 1001
    → (leb 1 p.size && leb p.size 100) ≡ true
    → All (λ x. is_valid x ≡ true) (pages_of n p)
unfolding is_valid
pages_of-valid zero p low high h = tt
pages_of-valid (suc n) p low high h = (
  ground (arith, low, high, h),
  pages_of-valid n (record p { page = p.page + 1 }) (omega (arith, low)) (omega (arith, high)) h,
)

module _ {A : Type 0} where
  -- For a positive page size, the number of pages is the least whose room is enough for all the
  -- items.
  pub total_pages_bounds :
      (r : PaginatedResult A)
      → 1 ≤ r.size
      → (r.total ≤ total_pages r * r.size) × (total_pages r * r.size < r.total + r.size)
  unfolding total_pages
  total_pages_bounds r h =
      let q = (r.total + r.size - 1) / r.size in
      let below : q * r.size ≤ r.total + r.size - 1 = (le-div_iff_mul-le h).0 (omega arith) in
      let above : r.total + r.size - 1 < suc q * r.size = (div-lt_iff_lt-mul h).0 (omega arith) in
      let product : suc q * r.size ≡ q * r.size + r.size = suc-mul q r.size in
      let positive : leb r.size 0 ≡ false = ground (arith, h) in
      rw positive (omega (arith, below, above, product, h), omega (arith, below, h))

  -- For a positive page size, there is a next page exactly where items remain after this page.
  pub has_next_iff :
      (r : PaginatedResult A) → 1 ≤ r.size → (has_next r ≡ true) ↔ (r.page * r.size < r.total)
  unfolding has_next
  has_next_iff r h = (forward, backward)
    where
      room : (r.total ≤ total_pages r * r.size) × (total_pages r * r.size < r.total + r.size)
      room = total_pages_bounds r h

      forward : ltb r.page (total_pages r) ≡ true → r.page * r.size < r.total
      forward e =
          let more : suc r.page * r.size ≤ total_pages r * r.size =
            mul-le-mul_right r.size (ltb→lt _ _ e) in
          let product : suc r.page * r.size ≡ r.page * r.size + r.size = suc-mul r.page r.size in
          omega (arith, more, product, room.1)

      backward : r.page * r.size < r.total → ltb r.page (total_pages r) ≡ true
      backward l = elim (Bool-cases (ltb r.page (total_pages r))) [
        | inl e ↦ e
        | inr e ↦
            let enough : total_pages r ≤ r.page = ground (arith, e) in
            absurd (omega (arith, mul-le-mul_right r.size enough, room.0, l))
      ]

  -- Where pages count from one, the page that next_page names has this page as its previous page.
  pub next_page-previous_page :
      (r : PaginatedResult A) (q : ℕ)
      → 1 ≤ r.page
      → next_page r ≡ some q
      → previous_page (record r { page = q }) ≡ some r.page
  unfolding next_page has_previous previous_page
  next_page-previous_page r q h e = ground (arith, h, e)

  -- What the query of a page gives: skip and limit on the items of the collection.
  unfoldable pub find : PaginationParams → List A → List A
  unfolding skip limit take drop
  find p items = take (limit p) (drop (skip p) items)

  -- The items of so many pages, one after the other, from the page of the parameters on.
  abbrev pub pages_from : ℕ → PaginationParams → List A → List A
  unfolding find
  pages_from zero p items = []
  pages_from (suc n) p items = find p items ++ pages_from n (record p { page = p.page + 1 }) items

  pages_from-slice :
      (n i : ℕ) (p : PaginationParams) (items : List A)
      → p.page ≡ suc i
      → pages_from n p items ≡ take (n * p.size) (drop (i * p.size) items)
  unfolding pages_from find skip limit take drop
  pages_from-slice zero i p items h = rw (zero-mul p.size)
  pages_from-slice (suc n) i p items h =
      let here : (p.page - 1) * p.size ≡ i * p.size = ap (λ k. k * p.size) (omega (arith, h)) in
      let after : i * p.size + p.size ≡ suc i * p.size = sym (suc-mul i p.size) in
      let whole : p.size + n * p.size ≡ suc n * p.size = omega (arith, suc-mul n p.size) in
      ap (λ k. take p.size (drop k items) ++ pages_from n (record p { page = p.page + 1 }) items)
        here
      ∙ ap (λ l. take p.size (drop (i * p.size) items) ++ l)
          (pages_from-slice n (suc i) (record p { page = p.page + 1 }) items (omega (arith, h))
            ∙ ap (λ k. take (n * p.size) (drop k items)) (sym after)
            ∙ ap (take (n * p.size)) (sym (drop_more (i * p.size) p.size items)))
      ∙ take_more p.size (n * p.size) (drop (i * p.size) items)
      ∙ ap (λ k. take k (drop (i * p.size) items)) whole

  -- Where the parameters of the first page are valid and the items fill no more than the 1000 pages that may
  -- be asked for, the parameters of all the pages, from the first to the one whose number is the number of
  -- pages, are valid, and their queries give the items of the collection, each once and in order.
  pub pages_complete :
      (p : PaginationParams) (items : List A)
      → is_valid p ≡ true
      → p.page ≡ 1
      → length items ≤ 1000 * p.size
      → let n = total_pages (paginate_query_result (find p items) (length items) p) in
        All (λ x. is_valid x ≡ true) (pages_of n p) × (pages_from n p items ≡ items)
  unfolding paginate_query_result drop is_valid
  pages_complete p items v h most =
      let r = paginate_query_result (find p items) (length items) p in
      let sized : 1 ≤ p.size = ground (arith, v) in
      let (enough, tight) = total_pages_bounds r sized in
      let few : total_pages r ≤ 1000 = elim (Bool-cases (leb 1001 (total_pages r))) [
        | inl many ↦
            let room : 1001 * p.size ≤ total_pages r * p.size =
              mul-le-mul_right p.size (leb→le _ _ many) in
            absurd (omega (arith, room, tight, most))
        | inr few ↦ ground (arith, few)
      ] in
      (
        pages_of-valid (total_pages r) p (omega (arith, h)) (omega (arith, h, few))
            (ground (arith, v)),
        pages_from-slice (total_pages r) 0 p items h
            ∙ rw (zero-mul p.size) (take_all (total_pages r * p.size) items enough),
      )

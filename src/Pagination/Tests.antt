-- ===== src/Pagination/Tests.antt =====
-- Pages of seven items by three; the theorems of app/shared/pagination.py applied to them.
use korea_public_data_be.Base.{
  All, true, format, ℕ, some, List, [], ◌∷◌, length, ◌≡◌, refl, arith, take, drop,
}
use korea_public_data_be.Dict
use korea_public_data_be.Samples.{decimal}
use korea_public_data_be.Pagination.Defs.{
  desc, PaginationParams, is_valid, skip, limit, PaginatedResult, total_pages,
  paginate_query_result, build_pagination_links,
}
use korea_public_data_be.Pagination.Pages.{find, pages_from, pages_of, pages_complete}

abbrev items : List ℕ
items = 1 ∷ 2 ∷ 3 ∷ 4 ∷ 5 ∷ 6 ∷ 7 ∷ []

abbrev first_page : PaginationParams
first_page = record { page = 1; size = 3; sort = "id"; order = desc }

abbrev second_page : PaginatedResult ℕ
second_page = record { items = 4 ∷ 5 ∷ 6 ∷ []; total = 7; page = 2; size = 3 }

pages :
    (find (record first_page { page = 3 }) items ≡ 7 ∷ [])
    × (total_pages second_page ≡ 3)
    × ((build_pagination_links decimal "/data" (("q", "x") ∷ []) second_page).next
        ≡ some "/data?q=x&page=3")
unfolding find skip limit take drop total_pages build_pagination_links Dict.put format decimal
pages = (refl, refl, refl)

pages_complete_example :
    let n = total_pages (paginate_query_result (find first_page items) (length items) first_page) in
    All (λ p. is_valid p ≡ true) (pages_of n first_page) × (pages_from n first_page items ≡ items)
unfolding is_valid
pages_complete_example = pages_complete first_page items refl refl (omega arith)

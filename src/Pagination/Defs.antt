-- ===== src/Pagination/Defs.antt =====
-- app/shared/pagination.py. A page and its size are natural numbers; the validation that pydantic
-- does by `ge` and `le` is `is_valid`. `str` is Python's `str` on numbers.
use korea_public_data_be.Base.{
  ℕ, ◌+◌, ◌-◌, ◌*◌, ◌/◌, Bool, true, false, ◌&&◌, Option, none, some, String, List, [], ◌∷◌, ltb,
  leb, eqb, format, if◌then◌else◌, string_eq,
}
use korea_public_data_be.Dict
use korea_public_data_be.Dict.{Dict}

pub data SortOrder : Type 0 where
  asc desc ascending descending : SortOrder

pub record PaginationParams : Type 0 where
  pub page : ℕ
  pub size : ℕ
  pub sort : String
  pub order : SortOrder

unfoldable pub is_valid : PaginationParams → Bool
is_valid p = leb 1 p.page && leb p.page 1000 && leb 1 p.size && leb p.size 100

unfoldable pub skip : PaginationParams → ℕ
skip p = (p.page - 1) * p.size

unfoldable pub limit : PaginationParams → ℕ
limit p = p.size

-- A direction: 1 is `true`, -1 is `false`.
abbrev pub is_ascending : SortOrder → Bool
is_ascending asc = true
is_ascending ascending = true
is_ascending _ = false

unfoldable pub mongo_sort : PaginationParams → List (String × Bool)
mongo_sort p = (p.sort, is_ascending p.order) ∷ []

pub record PaginatedResult {ℓ} (A : Type ℓ) : Type ℓ where
  pub items : List A
  pub total : ℕ
  pub page : ℕ
  pub size : ℕ

module _ {ℓ} {A : Type ℓ} where
  unfoldable pub total_pages : PaginatedResult A → ℕ
  total_pages r = if leb r.size 0 then 0 else (r.total + r.size - 1) / r.size

  unfoldable pub has_next : PaginatedResult A → Bool
  unfolding total_pages
  has_next r = ltb r.page (total_pages r)

  unfoldable pub has_previous : PaginatedResult A → Bool
  has_previous r = ltb 1 r.page

  unfoldable pub is_first_page : PaginatedResult A → Bool
  is_first_page r = eqb r.page 1

  unfoldable pub is_last_page : PaginatedResult A → Bool
  unfolding total_pages
  is_last_page r = leb (total_pages r) r.page

  unfoldable pub next_page : PaginatedResult A → Option ℕ
  unfolding has_next
  next_page r = if has_next r then some (r.page + 1) else none

  unfoldable pub previous_page : PaginatedResult A → Option ℕ
  unfolding has_previous
  previous_page r = if has_previous r then some (r.page - 1) else none

  unfoldable pub paginate_query_result : List A → ℕ → PaginationParams → PaginatedResult A
  paginate_query_result items total p = record {
    items = items;
    total = total;
    page = p.page;
    size = p.size;
  }

  unfoldable pub create_empty_result : PaginationParams → PaginatedResult A
  create_empty_result p = record { items = []; total = 0; page = p.page; size = p.size }

pub record Links : Type 0 where
  pub self : String
  pub first : Option String
  pub last : Option String
  pub next : Option String
  pub previous : Option String

-- "&".join of k=v
unfoldable pub query_string : Dict String String → String
query_string [] = ""
query_string ((k, v) ∷ []) = format (k ∷ "=" ∷ v ∷ [])
query_string ((k, v) ∷ p ∷ ps) = format (k ∷ "=" ∷ v ∷ "&" ∷ query_string (p ∷ ps) ∷ [])

module _ (str : ℕ → String) (base_url : String) (query_params : Dict String String) where
  unfoldable pub build_url : ℕ → String
  unfolding query_string
  build_url page =
      format (base_url ∷ "?" ∷ query_string (Dict.put query_params "page" (str page)) ∷ [])

  abbrev url_if_any : Option ℕ → Option String
  unfolding build_url
  url_if_any none = none
  url_if_any (some page) = some (build_url page)

  unfoldable pub build_pagination_links {ℓ} : {A : Type ℓ} → PaginatedResult A → Links
  unfolding url_if_any total_pages next_page previous_page
  build_pagination_links r = record {
    self = build_url r.page;
    first = if ltb 0 r.total then some (build_url 1) else none;
    last = if ltb 0 (total_pages r) then some (build_url (total_pages r)) else none;
    next = url_if_any (next_page r);
    previous = url_if_any (previous_page r);
  }

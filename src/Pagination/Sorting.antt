-- ===== src/Pagination/Sorting.antt =====
-- SortParams and PaginationHelper of app/shared/pagination.py. `sanitize` is what the calls of
-- str.replace and str.lower on a field do. An argument that is left out is not validated.
use korea_public_data_be.Base.{
  ℕ, zero, suc, ◌-◌, ◌≤◌, Bool, Option, none, some, String, List, [], ◌∷◌, ◌++◌, ltb, length,
  length-append, take, map, if◌then◌else◌, ◌≡◌, refl, arith, min, max, ℤ, pos, negsuc,
}
use korea_public_data_be.Pagination.Defs.{SortOrder, desc, is_ascending}

pub record SortParams : Type 0 where
  pub fields : List String
  pub orders : List SortOrder

unfoldable replicate : ℕ → SortOrder → List SortOrder
replicate zero o = []
replicate (suc n) o = o ∷ replicate n o

unfoldable pub validate_sort_fields : (sanitize : String → String) → List String → List String
validate_sort_fields sanitize [] = "id" ∷ []
validate_sort_fields sanitize (f ∷ fs) = map sanitize (f ∷ fs)

unfoldable pub validate_orders_length : List SortOrder → List String → List SortOrder
unfolding replicate
validate_orders_length orders fields =
    if ltb (length orders) (length fields)
    then orders ++ replicate (length fields - length orders) desc
    else if ltb (length fields) (length orders)
    then take (length fields) orders
    else orders

abbrev given_fields : (sanitize : String → String) → Option (List String) → List String
unfolding validate_sort_fields
given_fields sanitize none = "id" ∷ []
given_fields sanitize (some fields) = validate_sort_fields sanitize fields

abbrev given_orders : Option (List SortOrder) → List String → List SortOrder
unfolding validate_orders_length
given_orders none fields = desc ∷ []
given_orders (some orders) fields = validate_orders_length orders fields

-- The construction, with its validators and defaults
unfoldable pub sort_params :
    (sanitize : String → String) → Option (List String) → Option (List SortOrder) → SortParams
unfolding given_fields given_orders
sort_params sanitize fields orders =
    let kept = given_fields sanitize fields in
    record { fields = kept; orders = given_orders orders kept }

-- zip, with the direction of each field: 1 is `true`
unfoldable pub sort_spec : List String → List SortOrder → List (String × Bool)
sort_spec (f ∷ fs) (o ∷ os) = (f, is_ascending o) ∷ sort_spec fs os
sort_spec _ _ = []

length-replicate : (n : ℕ) (o : SortOrder) → length (replicate n o) ≡ n
unfolding replicate
length-replicate zero o = refl
length-replicate (suc n) o = omega (arith, length-replicate n o)

length-take : {A : Type 0} (n : ℕ) (xs : List A) → n ≤ length xs → length (take n xs) ≡ n
unfolding take
length-take zero xs h = refl
length-take (suc n) [] h = absurd (omega (arith, h))
length-take (suc n) (x ∷ xs) h = omega (arith, length-take n xs (omega (arith, h)))

length-map : (f : String → String) (xs : List String) → length (map f xs) ≡ length xs
length-map f [] = refl
length-map f (x ∷ xs) = omega (arith, length-map f xs)

length-validate_orders :
    (orders : List SortOrder) (fields : List String)
    → length (validate_orders_length orders fields) ≡ length fields
unfolding validate_orders_length
length-validate_orders orders fields = ground (
  arith,
  length-append orders (replicate (length fields - length orders) desc),
  length-replicate (length fields - length orders) desc,
  length-take (length fields) orders,
)

length-sort_spec :
    (fs : List String) (os : List SortOrder)
    → length (sort_spec fs os) ≡ min (length fs) (length os)
unfolding sort_spec
length-sort_spec [] os = omega arith
length-sort_spec (f ∷ fs) [] = omega arith
length-sort_spec (f ∷ fs) (o ∷ os) = omega (arith, length-sort_spec fs os)

-- Where orders are given, however many, every field is sorted by.
pub sort_spec_complete :
    (sanitize : String → String) (fields : Option (List String)) (orders : List SortOrder)
    → let p = sort_params sanitize fields (some orders) in
      length (sort_spec p.fields p.orders) ≡ length p.fields
unfolding sort_params given_orders
sort_spec_complete sanitize fields orders =
    let p = sort_params sanitize fields (some orders) in
    omega (arith, length-sort_spec p.fields p.orders, length-validate_orders orders p.fields)

-- Where the orders are left out, one field is sorted by, however many are given: the default list
-- of orders is not made as long as that of the fields.
pub sort_spec_default :
    (sanitize : String → String) (f : String) (fs : List String)
    → let p = sort_params sanitize (some (f ∷ fs)) none in
      (length p.fields ≡ suc (length fs)) × (length (sort_spec p.fields p.orders) ≡ 1)
unfolding sort_params given_fields given_orders validate_sort_fields sort_spec
sort_spec_default sanitize f fs = (
  omega (arith, length-map sanitize fs),
  omega (arith, length-sort_spec (map sanitize (f ∷ fs)) (desc ∷ []), length-map sanitize fs),
)

-- max(1, n)
abbrev at_least_one : ℤ → ℕ
at_least_one (pos n) = max 1 n
at_least_one (negsuc _) = 1

abbrev pub min_int : ℤ → ℤ → ℤ
min_int (pos m) (pos n) = pos (min m n)
min_int (negsuc m) (pos n) = negsuc m
min_int (pos m) (negsuc n) = negsuc n
min_int (negsuc m) (negsuc n) = negsuc (max m n)

unfoldable pub validate_pagination_params : ℤ → ℤ → ℤ → ℕ × ℕ
validate_pagination_params page size max_size =
    (at_least_one page, at_least_one (min_int size max_size))

pair : {a b c d : ℕ} → a ≡ b → c ≡ d → ◌≡◌ {A = ℕ × ℕ} (a, c) (b, d)
pair p q i = (p i, q i)

-- For a positive maximum, the page that is answered is at least one, and the size from one to the
-- maximum; answered once more, they stay.
pub validate_pagination_params_bounds :
    (page size : ℤ) (m : ℕ)
    → 1 ≤ m
    → let (p, s) = validate_pagination_params page size (pos m) in
      (1 ≤ p) × (1 ≤ s) × (s ≤ m) × (validate_pagination_params (pos p) (pos s) (pos m) ≡ (p, s))
unfolding validate_pagination_params
validate_pagination_params_bounds (pos p) (pos s) m h =
    (omega arith, omega arith, omega (arith, h), pair (omega arith) (omega (arith, h)))
validate_pagination_params_bounds (pos p) (negsuc s) m h =
    (omega arith, omega arith, omega (arith, h), pair (omega arith) (omega (arith, h)))
validate_pagination_params_bounds (negsuc p) (pos s) m h =
    (omega arith, omega arith, omega (arith, h), pair (omega arith) (omega (arith, h)))
validate_pagination_params_bounds (negsuc p) (negsuc s) m h =
    (omega arith, omega arith, omega (arith, h), pair (omega arith) (omega (arith, h)))

-- ===== src/DataRequests/Collection.antt =====
-- The collections of MongoDB that app/domains/data_requests/repository.py reads and writes, as MongoDB's
-- manual describes them: documents are found in their natural order.
use korea_public_data_be.Base.{
  ℕ, Bool, true, false, ◌&&◌, ◌≡◌, ◌==◌, Option, none, some, String, List, [], ◌∷◌, ◌++◌,
  if◌then◌else◌, length, keep, string_eq,
}
use korea_public_data_be.Dict
use korea_public_data_be.Dict.{Dict}

module _ {D : Type 0} where
  -- The first document that a query is true of
  abbrev pub first : (D → Bool) → List D → Option D
  first query [] = none
  first query (d ∷ ds) = if query d then some d else first query ds

  abbrev pub update_first : (D → Bool) → (D → D) → List D → List D
  update_first query change [] = []
  update_first query change (d ∷ ds) =
      if query d then change d ∷ ds else d ∷ update_first query change ds

  abbrev pub matched : (D → Bool) → List D → Bool
  matched query [] = false
  matched query (d ∷ ds) = if query d then true else matched query ds

-- update_one also says whether a document was modified: each update here sets updated_at, so that a
-- document that is found is modified. group_counts is the aggregation with $match and $group by $sum 1.
pub record Collection (D : Type 0) : Type 1 where
  pub State : Type 0
  pub documents : State → List D
  pub insert_one : State → D → State
  pub find_one : State → (D → Bool) → Option D
  pub update_one : State → (D → Bool) → (D → D) → State × Bool
  pub group_counts : State → (D → Bool) → (D → String) → Dict String ℕ
  pub documents-insert_one :
      (s : State) (d : D) → documents (insert_one s d) ≡ documents s ++ (d ∷ [])
  pub find_one-first : (s : State) (query : D → Bool) → find_one s query ≡ first query (documents s)
  pub documents-update_one :
      (s : State) (query : D → Bool) (change : D → D)
      → documents (update_one s query change).0 ≡ update_first query change (documents s)
  pub update_one-matched :
      (s : State) (query : D → Bool) (change : D → D)
      → (update_one s query change).1 ≡ matched query (documents s)
  pub group_counts-HasDistinctKeys :
      (s : State) (query : D → Bool) (key : D → String)
      → Dict.HasDistinctKeys (group_counts s query key)
  pub group_counts-keep :
      (s : State) (query : D → Bool) (key : D → String) (k : String)
      → Dict.get_or (group_counts s query key) k 0
        ≡ length (keep (λ d. query d && (key d == k)) (documents s))

-- ===== src/DataRequests/Memory.antt =====
-- A list of documents is a collection: what is asked of MongoDB for app/domains/data_requests can be met.
use korea_public_data_be.Base.{
  ℕ, suc, Bool, ◌&&◌, ◌≡◌, ◌==◌, refl, ap, ◌∙◌, inl, inr, Bool-cases, String, List, [], ◌∷◌, ◌++◌,
  if◌then◌else◌, length, keep, string_eq, equals-eq,
}
use korea_public_data_be.Dict
use korea_public_data_be.Dict.{Dict}
use korea_public_data_be.DataRequests.Collection.{Collection, first, update_first, matched}

module _ {D : Type 0} (query : D → Bool) (key : D → String) where
  abbrev pub counted : List D → Dict String ℕ
  counted [] = []
  counted (d ∷ ds) =
      let rest = counted ds in
      if query d then Dict.put rest (key d) (suc (Dict.get_or rest (key d) 0)) else rest

  pub counted-HasDistinctKeys : (ds : List D) → Dict.HasDistinctKeys (counted ds)
  counted-HasDistinctKeys [] = tt
  counted-HasDistinctKeys (d ∷ ds) = elim (Bool-cases (query d)) [
    | inl found ↦ rw found (
        Dict.put-HasDistinctKeys (counted ds) (key d) (suc (Dict.get_or (counted ds) (key d) 0))
          (counted-HasDistinctKeys ds))
    | inr other ↦ rw other (counted-HasDistinctKeys ds)
  ]

  pub counted-keep :
      (ds : List D) (k : String)
      → Dict.get_or (counted ds) k 0 ≡ length (keep (λ d. query d && (key d == k)) ds)
  counted-keep [] k = unfold Dict.get_or Dict.get in refl
  counted-keep (d ∷ ds) k = elim (Bool-cases (query d)) [
    | inr other ↦ rw other (counted-keep ds k)
    | inl found ↦ elim (Bool-cases (key d == k)) [
      | inl same ↦
          rw (found, Dict.get_or-put, same)
            (ap suc (ap (λ j. Dict.get_or (counted ds) j 0) (equals-eq same) ∙ counted-keep ds k))
      | inr differs ↦ rw (found, Dict.get_or-put, differs) (counted-keep ds k)
    ]
  ]

abbrev pub memory : {D : Type 0} → Collection D
memory {D} = record {
  State = List D;
  documents = λ ds. ds;
  insert_one = λ ds d. ds ++ (d ∷ []);
  find_one = λ ds query. first query ds;
  update_one = λ ds query change. (update_first query change ds, matched query ds);
  group_counts = λ ds query key. counted query key ds;
  documents-insert_one = λ ds d. refl;
  find_one-first = λ ds query. refl;
  documents-update_one = λ ds query change. refl;
  update_one-matched = λ ds query change. refl;
  group_counts-HasDistinctKeys = λ ds query key. counted-HasDistinctKeys query key ds;
  group_counts-keep = λ ds query key k. counted-keep query key ds k;
}

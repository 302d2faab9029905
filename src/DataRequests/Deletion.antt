-- ===== src/DataRequests/Deletion.antt =====
-- Who may delete a request, in app/domains/data_requests/service.py, and what is found afterwards.
use korea_public_data_be.Base.{
  ◌≤◌, Bool, true, false, ◌&&◌, ◌⊎◌, inl, inr, ◌≡◌, ◌≢◌, refl, sym, ap, ◌∙◌, subst, arith,
  true≢false, Bool-cases, Option-cases, none, some, String, List, [], ◌∷◌, ◌==◌, length, keep,
  string_eq, equals-eq, equals_refl,
}
use korea_public_data_be.DataRequests.Collection.{Collection, first, matched}
use korea_public_data_be.DataRequests.Defs.{
  VoteDocument, DataRequest, data_request_not_found, access_denied,
}
use korea_public_data_be.DataRequests.Lookup.{
  HasDistinctIds, first_true, found-matched, switched_off_none,
}
use korea_public_data_be.DataRequests.Service.{
  Database, has_id, find_by_id, update_where_id, delete_data_request,
}
use korea_public_data_be.DataRequests.Counts.{both, none≢some}

module _ {D : Type 0} (id : D → String) where
  unmatched_keep :
      (k : String) (ds : List D)
      → matched (λ x. id x == k) ds ≡ false
      → length (keep (λ x. id x == k) ds) ≤ 0
  unmatched_keep k [] h = omega arith
  unmatched_keep k (d ∷ ds) h = elim (Bool-cases (id d == k)) [
    | inl same ↦ absurd (true≢false (rw same at h))
    | inr other ↦ rw other (unmatched_keep k ds (rw other at h))
  ]

  -- An id is that of one document at most.
  once_kept :
      (k : String) (ds : List D) → HasDistinctIds id ds → length (keep (λ x. id x == k) ds) ≤ 1
  once_kept k [] h = omega arith
  once_kept k (d ∷ ds) h = elim (Bool-cases (id d == k)) [
    | inl same ↦ rw same (
        let rest =
          unmatched_keep k ds
            (subst (λ j. matched (λ x. id x == j) ds ≡ false) (equals-eq same) h.0) in
        omega (arith, rest))
    | inr other ↦ rw other (once_kept k ds h.1)
  ]

module _ (Votes : Collection VoteDocument) (Requests : Collection DataRequest)
    (is_id : String → Bool) where
  found_here :
      (s : Requests.State) (request_id : String) (r : DataRequest)
      → find_by_id Votes Requests is_id s request_id ≡ some r
      → (is_id request_id ≡ true)
        × (first (λ d. has_id request_id d && d.is_active) (Requests.documents s) ≡ some r)
  unfolding find_by_id
  found_here s request_id r found = elim (Bool-cases (is_id request_id)) [
    | inr no_id ↦ absurd (none≢some (sym (rw no_id) ∙ found))
    | inl valid ↦ (
      valid,
      sym (Requests.find_one-first s (λ d. has_id request_id d && d.is_active))
          ∙ (rw valid at found),
    )
  ]

  -- A request that is found is switched off, and is not found any more.
  deleted :
      (s : Requests.State) (request_id : String) (r : DataRequest)
      → HasDistinctIds (λ d. d.id) (Requests.documents s)
      → find_by_id Votes Requests is_id s request_id ≡ some r
      → let (s', done) =
          update_where_id Votes Requests is_id s request_id (λ d. record d { is_active = false }) in
        (done ≡ true) × (find_by_id Votes Requests is_id s' request_id ≡ none)
  unfolding update_where_id find_by_id
  deleted s request_id r distinct found =
      let (valid, f) = found_here s request_id r found in
      let query = λ (d : DataRequest). has_id request_id d && d.is_active in
      let off = λ (d : DataRequest). record d { is_active = false } in
      let same =
        (both (r.id == request_id) r.is_active (first_true query (Requests.documents s) f)).0 in
      rw valid (
        Requests.update_one-matched s (has_id request_id) off
            ∙ found-matched query (has_id request_id) (Requests.documents s) f same,
        Requests.find_one-first (Requests.update_one s (has_id request_id) off).0 query
            ∙ ap (first query) (Requests.documents-update_one s (has_id request_id) off)
            ∙ switched_off_none (has_id request_id) (λ d. d.is_active) off (Requests.documents s)
                (once_kept (λ d. d.id) request_id (Requests.documents s) distinct) (λ d. refl),
      )

  by_owner :
      (db : Database Votes Requests is_id) (request_id user_id : String) (r : DataRequest)
      → HasDistinctIds (λ d. d.id) (Requests.documents db.requests)
      → find_by_id Votes Requests is_id db.requests request_id ≡ some r
      → let (db', answer) = delete_data_request Votes Requests is_id db request_id user_id in
        ((r.contents.user_id ≢ user_id) × (db' ≡ db) × (answer ≡ inl access_denied))
        ⊎ ((r.contents.user_id ≡ user_id)
            × (answer ≡ inr true)
            × (db'.votes ≡ db.votes)
            × (find_by_id Votes Requests is_id db'.requests request_id ≡ none))
  unfolding delete_data_request
  by_owner db request_id user_id r distinct found =
      elim (Bool-cases (r.contents.user_id == user_id)) [
        | inr other ↦ inl (
          λ same. true≢false (sym (rw same (equals_refl user_id)) ∙ other),
          rw (found, other, delete_data_request),
          rw (found, other, delete_data_request),
        )
        | inl owner ↦
            let (done, gone) = deleted db.requests request_id r distinct found in
            inr (
              equals-eq owner,
              rw (found, owner, delete_data_request) (ap inr done),
              rw (found, owner, delete_data_request),
              rw (found, owner, delete_data_request) gone,
            )
      ]

  -- A request that is not found is answered with 404, one of another user with 403, and nothing changes;
  -- the user's own request is not found any more, and no vote changes.
  pub delete_data_request_outcome :
      (db : Database Votes Requests is_id) (request_id user_id : String)
      → HasDistinctIds (λ d. d.id) (Requests.documents db.requests)
      → let (db', answer) = delete_data_request Votes Requests is_id db request_id user_id in
        let before = find_by_id Votes Requests is_id db.requests request_id in
        ((before ≡ none) × (db' ≡ db) × (answer ≡ inl data_request_not_found))
        ⊎ ((r : DataRequest) × (before ≡ some r)
            × (((r.contents.user_id ≢ user_id) × (db' ≡ db) × (answer ≡ inl access_denied))
                ⊎ ((r.contents.user_id ≡ user_id)
                    × (answer ≡ inr true)
                    × (db'.votes ≡ db.votes)
                    × (find_by_id Votes Requests is_id db'.requests request_id ≡ none))))
  unfolding delete_data_request
  delete_data_request_outcome db request_id user_id distinct =
      elim (Option-cases (find_by_id Votes Requests is_id db.requests request_id)) [
        | inl missing ↦
            inl (missing, rw (missing, delete_data_request), rw (missing, delete_data_request))
        | inr (r, found) ↦ inr (r, found, by_owner db request_id user_id r distinct found)
      ]

-- ===== src/DataRequests/Service.antt =====
-- The operations of DataRequestService, of app/domains/data_requests/service.py, on the two collections.
use korea_public_data_be.Base.{
  ℕ, Bool, false, not, ◌&&◌, ◌⊎◌, inl, inr, Option, none, some, String, ◌==◌, if◌then◌else◌,
  string_eq,
}
use korea_public_data_be.DataRequests.Collection.{Collection}
use korea_public_data_be.DataRequests.Defs.{
  VoteType, VoteDocument, DataRequestStatus, DataRequest, VoteCounts, VoteResponse, ServiceError,
  data_request_not_found, access_denied, update_failed, find_by_request_and_user, get_vote_counts,
  cast_vote,
}

abbrev pub has_id : String → DataRequest → Bool
has_id request_id d = d.id == request_id

abbrev pub with_counts : VoteCounts → DataRequest → DataRequest
with_counts c d = record d {
  contents = record d.contents {
    vote_count = c.total_count;
    likes_count = c.likes_count;
    dislikes_count = c.dislikes_count;
  };
}

abbrev pub vote_response : VoteCounts → Bool → Option VoteType → VoteResponse
vote_response c voted t = record { counts = c; user_voted = voted; user_vote_type = t }

-- Notes and an instant that are not given are not written; empty notes are not given.
abbrev pub with_status : DataRequestStatus → Option String → Option ℕ → DataRequest → DataRequest
with_status status notes completion d = record d {
  contents = record d.contents {
    status = status;
    admin_notes = elim notes [
      | none ↦ d.contents.admin_notes
      | some n ↦ if n == "" then d.contents.admin_notes else some n
    ];
    estimated_completion = elim completion [
      | none ↦ d.contents.estimated_completion
      | some t ↦ some t
    ];
  };
}

module _ (Votes : Collection VoteDocument) (Requests : Collection DataRequest)
    (is_id : String → Bool) where
  pub record Database : Type 0 where
    pub votes : Votes.State
    pub requests : Requests.State

  -- A text that is no id raises, and the exception is caught.
  unfoldable pub find_by_id : Requests.State → String → Option DataRequest
  find_by_id s request_id =
      if is_id request_id
      then Requests.find_one s (λ d. has_id request_id d && d.is_active)
      else none

  unfoldable pub update_where_id :
      Requests.State → String → (DataRequest → DataRequest) → Requests.State × Bool
  update_where_id s request_id change =
      if is_id request_id then Requests.update_one s (has_id request_id) change else (s, false)

  -- The counts that are written after a vote, and the answer
  unfoldable pub recount : Database → String → Bool → Option VoteType → Database × VoteResponse
  unfolding get_vote_counts update_where_id
  recount db request_id voted t =
      let c = get_vote_counts Votes db.votes request_id in
      (
        record db { requests = (update_where_id db.requests request_id (with_counts c)).0 },
        vote_response c voted t,
      )

  unfoldable pub vote_on :
      Database
      → (document_id vote_id request_id user_id : String) → VoteType
      → Database × VoteResponse
  vote_on db document_id vote_id request_id user_id t =
      let existing = find_by_request_and_user Votes db.votes request_id user_id in
      let (votes, voted, type) =
        cast_vote Votes db.votes document_id vote_id request_id user_id t existing in
      recount (record db { votes = votes }) request_id voted type

  unfoldable pub vote_data_request :
      Database
      → (document_id vote_id request_id user_id : String) → VoteType
      → Database × (ServiceError ⊎ VoteResponse)
  vote_data_request db document_id vote_id request_id user_id t =
      elim (find_by_id db.requests request_id) [
        | none ↦ (db, inl data_request_not_found)
        | some r ↦
            let (db', answer) = vote_on db document_id vote_id request_id user_id t in
            (db', inr answer)
      ]

  unfoldable pub delete_data_request : Database → String → String → Database × (ServiceError ⊎ Bool)
  delete_data_request db request_id user_id = elim (find_by_id db.requests request_id) [
    | none ↦ (db, inl data_request_not_found)
    | some r ↦
        if not (r.contents.user_id == user_id)
        then (db, inl access_denied)
        else (let (requests, deleted) =
              update_where_id db.requests request_id (λ d. record d { is_active = false }) in
            (record db { requests = requests }, inr deleted))
  ]

  unfoldable pub update_request_status :
      Database
      → String
      → DataRequestStatus
      → Option String
      → Option ℕ
      → Database × (ServiceError ⊎ Option DataRequest)
  update_request_status db request_id status notes completion =
      elim (find_by_id db.requests request_id) [
        | none ↦ (db, inl data_request_not_found)
        | some r ↦
            let (requests, success) =
              update_where_id db.requests request_id (with_status status notes completion) in
            if not success
            then (record db { requests = requests }, inl update_failed)
            else (record db { requests = requests }, inr (find_by_id requests request_id))
      ]

-- ===== src/DataRequests/Voting.antt =====
-- What a vote is answered with, in app/domains/data_requests/service.py, and how the user has voted then.
use korea_public_data_be.Base.{
  ◌≤◌, Bool, true, false, ◌⊎◌, inl, inr, ◌≡◌, refl, sym, ap, ◌∙◌, subst, Bool-cases, Option, none,
  some, String, List, [], ◌∷◌, ◌++◌, ◌==◌, length, keep, string_eq, equals_refl,
}
use korea_public_data_be.DataRequests.Collection.{Collection, first}
use korea_public_data_be.DataRequests.Defs.{
  VoteType, same_type, VoteDocument, DataRequest, VoteResponse, ServiceError, of_pair,
  active_of_pair, create_vote, update_vote, delete_by_request_and_user, cast_vote,
  find_by_request_and_user,
}
use korea_public_data_be.DataRequests.Lookup.{
  HasDistinctIds, first-update_first, first_true, switched_off_none, update_first_same,
}
use korea_public_data_be.DataRequests.Service.{
  Database, find_by_id, recount, vote_on, vote_data_request,
}
use korea_public_data_be.DataRequests.Counts.{answered}

-- How a vote that is found was cast
abbrev pub type_of : Option VoteDocument → Option VoteType
type_of none = none
type_of (some d) = some d.vote.vote_type

first-append :
    {D : Type 0} (query : D → Bool) (ds : List D) (d : D)
    → first query ds ≡ none
    → query d ≡ true
    → first query (ds ++ (d ∷ [])) ≡ some d
first-append query [] d h q = rw q
first-append query (x ∷ ds) d h q = elim (Bool-cases (query x)) [
  | inl found ↦ cc (rw found at h)
  | inr other ↦ rw other (first-append query ds d (rw other at h) q)
]

abbrev switched_off : VoteDocument → VoteDocument
switched_off d = record d { is_active = false }

abbrev with_type : VoteType → VoteDocument → VoteDocument
with_type t v = record v { vote = record v.vote { vote_type = t } }

abbrev pub is_some : {A : Type 0} → Option A → Bool
is_some none = false
is_some (some a) = true

module _ (Votes : Collection VoteDocument) where
  -- The user's vote after each of the three ways of voting
  cast_vote-type_of :
      (s : Votes.State) (document_id vote_id request_id user_id : String) (t : VoteType)
      (existing : Option VoteDocument)
      → HasDistinctIds (λ d. d.id) (Votes.documents s)
      → length (keep (of_pair request_id user_id) (Votes.documents s)) ≤ 1
      → find_by_request_and_user Votes s request_id user_id ≡ existing
      → let (s', voted, type) =
          cast_vote Votes s document_id vote_id request_id user_id t existing in
        type_of (find_by_request_and_user Votes s' request_id user_id) ≡ type
  unfolding find_by_request_and_user cast_vote create_vote update_vote delete_by_request_and_user
  cast_vote-type_of s document_id vote_id request_id user_id t none distinct once found =
      let query = active_of_pair request_id user_id in
      let new : VoteDocument = record {
        id = document_id;
        vote = record { id = vote_id; request_id = request_id; user_id = user_id; vote_type = t };
        is_active = true;
      } in
      ap type_of (
        Votes.find_one-first (Votes.insert_one s new) query
        ∙ ap (first query) (Votes.documents-insert_one s new)
        ∙ first-append query (Votes.documents s) new (sym (Votes.find_one-first s query) ∙ found)
            (rw (equals_refl request_id, equals_refl user_id)))
  cast_vote-type_of s document_id vote_id request_id user_id t (some v) distinct once found =
      elim (Bool-cases (same_type v.vote.vote_type t)) [
        | inl same ↦ rw same (
            ap type_of (
              Votes.find_one-first (Votes.update_one s (of_pair request_id user_id) switched_off).0
                (active_of_pair request_id user_id)
              ∙ ap (first (active_of_pair request_id user_id))
                  (Votes.documents-update_one s (of_pair request_id user_id) switched_off)
              ∙ switched_off_none (of_pair request_id user_id) (λ d. d.is_active) switched_off
                  (Votes.documents s) once (λ d. refl)))
        | inr other ↦ rw other (
            ap type_of (
              Votes.find_one-first (update_vote Votes s v.id (with_type t v))
                (active_of_pair request_id user_id)
              ∙ ap (first (active_of_pair request_id user_id)) (
                  Votes.documents-update_one s (λ d. d.id == v.id)
                    (λ d. record (with_type t v) { id = d.id }))
              ∙ first-update_first (λ d. d.id) (active_of_pair request_id user_id)
                  (λ d. record (with_type t v) { id = d.id }) (Votes.documents s) v distinct
                  (sym (Votes.find_one-first s (active_of_pair request_id user_id)) ∙ found)
                  (first_true (active_of_pair request_id user_id) (Votes.documents s)
                    (sym (Votes.find_one-first s (active_of_pair request_id user_id)) ∙ found))))
      ]

  -- A cancelled vote that stands first takes the cancellation for itself.
  cast_vote_again :
      (s : Votes.State) (document_id vote_id request_id user_id : String) (t : VoteType)
      (old v : VoteDocument)
      → first (of_pair request_id user_id) (Votes.documents s) ≡ some old
      → old.is_active ≡ false
      → same_type v.vote.vote_type t ≡ true
      → let (s', voted, type) =
          cast_vote Votes s document_id vote_id request_id user_id t (some v) in
        (Votes.documents s' ≡ Votes.documents s) × (voted ≡ false) × (type ≡ none)
  unfolding cast_vote delete_by_request_and_user
  cast_vote_again s document_id vote_id request_id user_id t old v stands off same = rw same (
    Votes.documents-update_one s (of_pair request_id user_id) switched_off
        ∙ update_first_same (of_pair request_id user_id) switched_off (Votes.documents s) old stands
            (λ i. record old { is_active = sym off i }),
    refl,
    refl,
  )

  is_cast :
      (s : Votes.State) (document_id vote_id request_id user_id : String) (t : VoteType)
      (existing : Option VoteDocument)
      → let (s', voted, type) =
          cast_vote Votes s document_id vote_id request_id user_id t existing in
        voted ≡ is_some type
  unfolding cast_vote
  is_cast s document_id vote_id request_id user_id t none = refl
  is_cast s document_id vote_id request_id user_id t (some v) =
      elim (Bool-cases (same_type v.vote.vote_type t)) [ inl same ↦ rw same | inr other ↦ rw other ]

-- An answer that says how the user has voted
abbrev pub Says : ServiceError ⊎ VoteResponse → Option VoteType → Type 0
Says (inl e) t = ⊥
Says (inr answer) t = (answer.user_vote_type ≡ t) × (answer.user_voted ≡ is_some t)

module _ (Votes : Collection VoteDocument) (Requests : Collection DataRequest)
    (is_id : String → Bool) where
  vote_on_says :
      (db : Database Votes Requests is_id) (document_id vote_id request_id user_id : String)
      (t : VoteType) (existing : Option VoteDocument)
      → find_by_request_and_user Votes db.votes request_id user_id ≡ existing
      → let (db', answer) =
          vote_on Votes Requests is_id db document_id vote_id request_id user_id t in
        let (s', voted, type) =
          cast_vote Votes db.votes document_id vote_id request_id user_id t existing in
        (db'.votes ≡ s') × (answer.user_vote_type ≡ type) × (answer.user_voted ≡ voted)
  unfolding vote_on recount
  vote_on_says db document_id vote_id request_id user_id t existing e =
      subst
        (λ x.
          let (db', answer) =
            vote_on Votes Requests is_id db document_id vote_id request_id user_id t in
          let (s', voted, type) =
            cast_vote Votes db.votes document_id vote_id request_id user_id t x in
          (db'.votes ≡ s') × (answer.user_vote_type ≡ type) × (answer.user_voted ≡ voted))
        e (refl, refl, refl)

  -- Where the user has one vote on the request at most, cancelled or not, the answer to a vote says how the
  -- user has voted afterwards: a first vote, a change and a cancellation alike.
  pub vote_data_request-Says :
      (db : Database Votes Requests is_id) (document_id vote_id request_id user_id : String)
      (t : VoteType) (r : DataRequest)
      → find_by_id Votes Requests is_id db.requests request_id ≡ some r
      → HasDistinctIds (λ d. d.id) (Votes.documents db.votes)
      → length (keep (of_pair request_id user_id) (Votes.documents db.votes)) ≤ 1
      → let (db', answer) =
          vote_data_request Votes Requests is_id db document_id vote_id request_id user_id t in
        Says answer (type_of (find_by_request_and_user Votes db'.votes request_id user_id))
  vote_data_request-Says db document_id vote_id request_id user_id t r found distinct once =
      let existing = find_by_request_and_user Votes db.votes request_id user_id in
      let (db', answer) =
        vote_on Votes Requests is_id db document_id vote_id request_id user_id t in
      let (kept, typed, voted) =
        vote_on_says db document_id vote_id request_id user_id t existing refl in
      let now =
        ap (λ s. type_of (find_by_request_and_user Votes s request_id user_id)) kept
        ∙ cast_vote-type_of Votes db.votes document_id vote_id request_id user_id t existing
            distinct once refl in
      let cast = is_cast Votes db.votes document_id vote_id request_id user_id t existing in
      subst
        (λ (x : Database Votes Requests is_id × (ServiceError ⊎ VoteResponse)).
          Says x.1 (type_of (find_by_request_and_user Votes x.0.votes request_id user_id)))
        (sym (answered Votes Requests is_id db document_id vote_id request_id user_id t r found))
        (typed ∙ sym now, voted ∙ cast ∙ ap is_some (sym now))

  -- Where a cancelled vote of the user stands before an active one on the same request, a vote of the same
  -- type again is answered as its cancellation, but no vote changes and the active one is still found.
  pub vote_data_request_again :
      (db : Database Votes Requests is_id) (document_id vote_id request_id user_id : String)
      (t : VoteType) (r : DataRequest) (old v : VoteDocument)
      → find_by_id Votes Requests is_id db.requests request_id ≡ some r
      → first (of_pair request_id user_id) (Votes.documents db.votes) ≡ some old
      → old.is_active ≡ false
      → find_by_request_and_user Votes db.votes request_id user_id ≡ some v
      → same_type v.vote.vote_type t ≡ true
      → let (db', answer) =
          vote_data_request Votes Requests is_id db document_id vote_id request_id user_id t in
        Says answer none
        × (Votes.documents db'.votes ≡ Votes.documents db.votes)
        × (find_by_request_and_user Votes db'.votes request_id user_id ≡ some v)
  unfolding find_by_request_and_user
  vote_data_request_again db document_id vote_id request_id user_id t r old v found stands off
        active same =
      let query = active_of_pair request_id user_id in
      let (kept, typed, voted) =
        vote_on_says db document_id vote_id request_id user_id t (some v) active in
      let (documents, not_voted, untyped) =
        cast_vote_again Votes db.votes document_id vote_id request_id user_id t old v stands off
          same in
      let unchanged = ap Votes.documents kept ∙ documents in
      let (db', answer) =
        vote_on Votes Requests is_id db document_id vote_id request_id user_id t in
      subst
        (λ (x : Database Votes Requests is_id × (ServiceError ⊎ VoteResponse)).
          Says x.1 none
          × (Votes.documents x.0.votes ≡ Votes.documents db.votes)
          × (find_by_request_and_user Votes x.0.votes request_id user_id ≡ some v))
        (sym (answered Votes Requests is_id db document_id vote_id request_id user_id t r found))
        (
          (typed ∙ untyped, voted ∙ not_voted),
          unchanged,
          Votes.find_one-first db'.votes query
              ∙ ap (first query) unchanged
              ∙ sym (Votes.find_one-first db.votes query)
              ∙ active,
        )

-- ===== src/DataRequests/Defs.antt =====
-- DataRequestService of app/domains/data_requests/service.py over the repositories of repository.py.
-- Instants of creation and change are left out. `is_id` says which texts ObjectId takes; the ids of new
-- documents are arguments.
use korea_public_data_be.Base.{
  ℕ, ◌+◌, Bool, true, false, ◌&&◌, Option, none, some, String, List, [], ◌∷◌, ◌==◌, if◌then◌else◌,
  string_eq,
}
use korea_public_data_be.Dict
use korea_public_data_be.Dict.{Dict}
use korea_public_data_be.DataRequests.Collection.{Collection}

pub data VoteType : Type 0 where
  like dislike : VoteType

-- The text of a type, under which MongoDB has it
abbrev pub type_text : VoteType → String
type_text like = "like"
type_text dislike = "dislike"

abbrev pub same_type : VoteType → VoteType → Bool
same_type like like = true
same_type dislike dislike = true
same_type like dislike = false
same_type dislike like = false

pub record Vote : Type 0 where
  pub id : String
  pub request_id : String
  pub user_id : String
  pub vote_type : VoteType

pub record VoteDocument : Type 0 where
  pub id : String
  pub vote : Vote
  pub is_active : Bool

pub data DataRequestStatus : Type 0 where
  pending under_review in_progress completed rejected : DataRequestStatus

pub data DataRequestPriority : Type 0 where
  low medium high : DataRequestPriority

pub record DataRequestData : Type 0 where
  pub title : String
  pub description : String
  pub category_id : String
  pub user_id : String
  pub status : DataRequestStatus
  pub priority : DataRequestPriority
  pub vote_count : ℕ
  pub likes_count : ℕ
  pub dislikes_count : ℕ
  pub admin_notes : Option String
  pub estimated_completion : Option ℕ
  pub tags : List String

pub record DataRequest : Type 0 where
  pub id : String
  pub contents : DataRequestData
  pub is_active : Bool

pub record VoteCounts : Type 0 where
  pub likes_count : ℕ
  pub dislikes_count : ℕ
  pub total_count : ℕ

pub record VoteResponse : Type 0 where
  pub counts : VoteCounts
  pub user_voted : Bool
  pub user_vote_type : Option VoteType

-- The exceptions of the service, with the status codes 404, 403 and 500
pub data ServiceError : Type 0 where
  data_request_not_found access_denied update_failed : ServiceError

abbrev pub of_pair : String → String → VoteDocument → Bool
of_pair request_id user_id d = d.vote.request_id == request_id && d.vote.user_id == user_id

abbrev pub active_of_pair : String → String → VoteDocument → Bool
active_of_pair request_id user_id d = of_pair request_id user_id d && d.is_active

abbrev pub active_of : String → VoteDocument → Bool
active_of request_id d = d.vote.request_id == request_id && d.is_active

-- The loop over the groups
unfoldable pub add_groups : Dict String ℕ → Dict String ℕ → Dict String ℕ
add_groups counts [] = counts
add_groups counts ((k, n) ∷ groups) = add_groups (Dict.put counts k n) groups

module _ (Votes : Collection VoteDocument) where
  unfoldable pub create_vote : Votes.State → VoteDocument → Votes.State
  create_vote s d = Votes.insert_one s (record d { is_active = true })

  unfoldable pub update_vote : Votes.State → String → VoteDocument → Votes.State
  update_vote s vote_id v =
      (Votes.update_one s (λ d. d.id == vote_id) (λ d. record v { id = d.id })).0

  unfoldable pub find_by_request_and_user : Votes.State → String → String → Option VoteDocument
  find_by_request_and_user s request_id user_id =
      Votes.find_one s (active_of_pair request_id user_id)

  unfoldable pub delete_by_request_and_user : Votes.State → String → String → Votes.State × Bool
  delete_by_request_and_user s request_id user_id =
      Votes.update_one s (of_pair request_id user_id) (λ d. record d { is_active = false })

  unfoldable pub get_vote_counts : Votes.State → String → VoteCounts
  unfolding add_groups
  get_vote_counts s request_id =
      let groups = Votes.group_counts s (active_of request_id) (λ d. type_text d.vote.vote_type) in
      let counts = add_groups (("like", 0) ∷ ("dislike", 0) ∷ []) groups in
      let likes = Dict.get_or counts "like" 0 in
      let dislikes = Dict.get_or counts "dislike" 0 in
      record { likes_count = likes; dislikes_count = dislikes; total_count = likes + dislikes }

  -- What a vote does to the votes: whether the user has voted afterwards, and how, stands beside.
  unfoldable pub cast_vote :
      Votes.State
      → (document_id vote_id request_id user_id : String) → VoteType
      → Option VoteDocument
      → Votes.State × Bool × Option VoteType
  unfolding create_vote update_vote delete_by_request_and_user
  cast_vote s document_id vote_id request_id user_id t none = (
    create_vote s (record {
      id = document_id;
      vote = record { id = vote_id; request_id = request_id; user_id = user_id; vote_type = t };
      is_active = true;
    }),
    true,
    some t,
  )
  cast_vote s document_id vote_id request_id user_id t (some v) =
      if same_type v.vote.vote_type t
      then ((delete_by_request_and_user s request_id user_id).0, false, none)
      else (update_vote s v.id (record v { vote = record v.vote { vote_type = t } }), true, some t)

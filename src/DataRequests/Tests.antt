-- ===== src/DataRequests/Tests.antt =====
-- Votes on a request, kept in memory, by app/domains/data_requests; the theorems applied.
use korea_public_data_be.Base.{
  Bool, true, false, ◌⊎◌, inl, inr, ◌≡◌, ◌≢◌, refl, arith, none, some, String, List, [], ◌∷◌, ◌==◌,
  string_eq,
}
use korea_public_data_be.DataRequests.Memory.{memory}
use korea_public_data_be.DataRequests.Defs.{
  like, VoteDocument, DataRequest, VoteResponse, ServiceError, pending, medium,
  data_request_not_found, access_denied, find_by_request_and_user, create_vote,
  delete_by_request_and_user, cast_vote,
}
use korea_public_data_be.DataRequests.Service.{
  Database, find_by_id, update_where_id, with_counts, recount, vote_on, vote_data_request,
  delete_data_request,
}
use korea_public_data_be.DataRequests.Counts.{tally, Counted, vote_data_request-Counted}
use korea_public_data_be.DataRequests.Voting.{
  Says, type_of, vote_data_request-Says, vote_data_request_again,
}
use korea_public_data_be.DataRequests.Deletion.{delete_data_request_outcome}

abbrev buses : DataRequest
buses = record {
  id = "r1";
  contents = record {
    title = "Buses";
    description = "Where they are";
    category_id = "c1";
    user_id = "ann";
    status = pending;
    priority = medium;
    vote_count = 0;
    likes_count = 0;
    dislikes_count = 0;
    admin_notes = none;
    estimated_completion = none;
    tags = [];
  };
  is_active = true;
}

abbrev is_id : String → Bool
is_id s = s == "r1"

abbrev vote_document : String → Bool → VoteDocument
vote_document id on = record {
  id = id;
  vote = record { id = id; request_id = "r1"; user_id = "bob"; vote_type = like };
  is_active = on;
}

abbrev Db : Type 0
Db = Database memory memory is_id

abbrev db_of : List VoteDocument → Db
db_of votes = record { votes = votes; requests = buses ∷ [] }

abbrev vote : Db → String → Db × (ServiceError ⊎ VoteResponse)
vote db id = vote_data_request memory memory is_id db id id "r1" "bob" like

-- A like, its cancellation and a like once more
thrice :
    (vote (vote (vote (db_of []) "v1").0 "v2").0 "v2").0.votes
    ≡ vote_document "v1" false ∷ vote_document "v2" true ∷ []
unfolding vote_data_request vote_on recount cast_vote create_vote delete_by_request_and_user
    find_by_request_and_user find_by_id update_where_id
thrice = refl

abbrev twice_liked : Db
twice_liked = db_of (vote_document "v1" false ∷ vote_document "v2" true ∷ [])

vote_data_request-Counted_example :
    let (db', answer) = vote (db_of []) "v1" in
    let c = tally "r1" db'.votes in
    Counted answer c
    × (find_by_id memory memory is_id db'.requests "r1" ≡ some (with_counts c buses))
unfolding find_by_id
vote_data_request-Counted_example =
    vote_data_request-Counted memory memory is_id (db_of []) "v1" "v1" "r1" "bob" like buses
      (refl, tt) refl

vote_data_request-Says_example :
    let (db', answer) = vote (db_of (vote_document "v1" true ∷ [])) "v2" in
    Says answer (type_of (find_by_request_and_user memory db'.votes "r1" "bob"))
unfolding find_by_id
vote_data_request-Says_example =
    vote_data_request-Says memory memory is_id (db_of (vote_document "v1" true ∷ [])) "v2" "v2" "r1"
      "bob" like buses refl (refl, tt) (omega arith)

vote_data_request_again_example :
    let (db', answer) = vote twice_liked "v3" in
    Says answer none
    × (db'.votes ≡ twice_liked.votes)
    × (find_by_request_and_user memory db'.votes "r1" "bob" ≡ some (vote_document "v2" true))
unfolding find_by_id find_by_request_and_user
vote_data_request_again_example =
    vote_data_request_again memory memory is_id twice_liked "v3" "v3" "r1" "bob" like buses
      (vote_document "v1" false) (vote_document "v2" true) refl refl refl refl refl

delete_data_request_outcome_example :
    let (db', answer) = delete_data_request memory memory is_id (db_of []) "r1" "bob" in
    let before = find_by_id memory memory is_id (buses ∷ []) "r1" in
    ((before ≡ none) × (db' ≡ db_of []) × (answer ≡ inl data_request_not_found))
    ⊎ ((r : DataRequest) × (before ≡ some r)
        × (((r.contents.user_id ≢ "bob") × (db' ≡ db_of []) × (answer ≡ inl access_denied))
            ⊎ ((r.contents.user_id ≡ "bob")
                × (answer ≡ inr true)
                × (db'.votes ≡ [])
                × (find_by_id memory memory is_id db'.requests "r1" ≡ none))))
delete_data_request_outcome_example =
    delete_data_request_outcome memory memory is_id (db_of []) "r1" "bob" (refl, tt)

-- ===== src/DataRequests/Counts.antt =====
-- The counts of votes of app/domains/data_requests/service.py are those of the votes that are kept.
use mathlib.Core.Path.{fun_ext}
use korea_public_data_be.Base.{
  arith, ◌≢◌, false≢true, ℕ, ◌+◌, Bool, true, false, ◌&&◌, ◌⊎◌, inl, inr, ◌≡◌, refl, sym, ap, ◌∙◌,
  subst, Bool-cases, Option, none, some, String, List, [], ◌∷◌, ◌==◌, if◌then◌else◌, length, keep,
  string_eq, equals-eq,
}
use korea_public_data_be.Dict
use korea_public_data_be.Dict.{Dict}
use korea_public_data_be.DataRequests.Collection.{Collection, first, update_first}
use korea_public_data_be.DataRequests.Defs.{
  VoteType, like, dislike, same_type, type_text, VoteDocument, DataRequest, VoteCounts,
  VoteResponse, ServiceError, active_of, add_groups, get_vote_counts, cast_vote,
  find_by_request_and_user,
}
use korea_public_data_be.DataRequests.Lookup.{HasDistinctIds, first-update_first, first_true}
use korea_public_data_be.DataRequests.Service.{
  Database, find_by_id, update_where_id, with_counts, has_id, recount, vote_on, vote_data_request,
}

get_or_cons :
    (j k : String) (n w : ℕ) (d : Dict String ℕ)
    → Dict.get_or ((j, n) ∷ d) k w ≡ (if j == k then n else Dict.get_or d k w)
unfolding Dict.get_or Dict.get
get_or_cons j k n w d = ground arith

-- The groups are written over the counts.
add_groups-get_or :
    (groups counts : Dict String ℕ) (k : String)
    → Dict.HasDistinctKeys groups
    → Dict.get_or (add_groups counts groups) k 0 ≡ Dict.get_or groups k (Dict.get_or counts k 0)
unfolding add_groups
add_groups-get_or [] counts k h = unfold Dict.get_or Dict.get in refl
add_groups-get_or ((j, n) ∷ groups) counts k h =
    add_groups-get_or groups (Dict.put counts j n) k h.1 ∙ elim (Bool-cases (j == k)) [
      | inl same ↦
          let absent = subst (λ i. Dict.has groups i ≡ false) (equals-eq same) h.0 in
          rw (get_or_cons, Dict.get_or-put, same) (Dict.get_or_absent groups k n absent)
      | inr differs ↦ rw (get_or_cons, Dict.get_or-put, differs) refl
    ]

-- The active votes on a request of a type
abbrev pub votes_of : String → VoteType → List VoteDocument → ℕ
votes_of request_id t ds =
    length (keep (λ d. active_of request_id d && same_type d.vote.vote_type t) ds)

abbrev pub tally : String → List VoteDocument → VoteCounts
tally request_id ds = record {
  likes_count = votes_of request_id like ds;
  dislikes_count = votes_of request_id dislike ds;
  total_count = votes_of request_id like ds + votes_of request_id dislike ds;
}

same_value : (t u : VoteType) → (type_text t == type_text u) ≡ same_type t u
same_value like like = refl
same_value like dislike = refl
same_value dislike like = refl
same_value dislike dislike = refl

from_zero :
    (t : VoteType) → Dict.get_or {V = ℕ} (("like", 0) ∷ ("dislike", 0) ∷ []) (type_text t) 0 ≡ 0
unfolding Dict.get_or Dict.get
from_zero like = refl
from_zero dislike = refl

module _ (Votes : Collection VoteDocument) where
  grouped :
      (s : Votes.State) (request_id : String) (t : VoteType)
      → Dict.get_or
          (Votes.group_counts s (active_of request_id) (λ d. type_text d.vote.vote_type))
          (type_text t)
          0
        ≡ votes_of request_id t (Votes.documents s)
  grouped s request_id t =
      Votes.group_counts-keep s (active_of request_id) (λ d. type_text d.vote.vote_type)
        (type_text t)
      ∙ ap (λ test. length (keep test (Votes.documents s)))
          (fun_ext (λ d. ap (λ b. active_of request_id d && b) (same_value d.vote.vote_type t)))

  counted :
      (s : Votes.State) (request_id : String) (t : VoteType)
      → Dict.get_or
          (add_groups
            (("like", 0) ∷ ("dislike", 0) ∷ [])
            (Votes.group_counts s (active_of request_id) (λ d. type_text d.vote.vote_type)))
          (type_text t)
          0
        ≡ votes_of request_id t (Votes.documents s)
  counted s request_id t =
      let groups = Votes.group_counts s (active_of request_id) (λ d. type_text d.vote.vote_type) in
      let distinct =
        Votes.group_counts-HasDistinctKeys s (active_of request_id)
          (λ d. type_text d.vote.vote_type) in
      add_groups-get_or groups (("like", 0) ∷ ("dislike", 0) ∷ []) (type_text t) distinct
      ∙ ap (Dict.get_or groups (type_text t)) (from_zero t)
      ∙ grouped s request_id t

  get_vote_counts-tally :
      (s : Votes.State) (request_id : String)
      → get_vote_counts Votes s request_id ≡ tally request_id (Votes.documents s)
  unfolding get_vote_counts
  get_vote_counts-tally s request_id i = record {
    likes_count = counted s request_id like i;
    dislikes_count = counted s request_id dislike i;
    total_count = counted s request_id like i + counted s request_id dislike i;
  }

pub none≢some : {A : Type 0} {a : A} → none ≢ some a
none≢some h = cc

pub both : (a b : Bool) → (a && b) ≡ true → (a ≡ true) × (b ≡ true)
both true b h = (refl, h)
both false b h = absurd (false≢true h)

-- A vote is answered with counts.
abbrev pub Counted : ServiceError ⊎ VoteResponse → VoteCounts → Type 0
Counted (inl e) c = ⊥
Counted (inr answer) c = answer.counts ≡ c

module _ (Votes : Collection VoteDocument) (Requests : Collection DataRequest)
    (is_id : String → Bool) where
  -- A change that keeps the id and the activity of a request is found again.
  pub find_by_id-update :
      (s : Requests.State) (request_id : String) (change : DataRequest → DataRequest)
      (r : DataRequest)
      → HasDistinctIds (λ d. d.id) (Requests.documents s)
      → find_by_id Votes Requests is_id s request_id ≡ some r
      → (change r).id ≡ r.id
      → (change r).is_active ≡ r.is_active
      → find_by_id Votes Requests is_id
          (update_where_id Votes Requests is_id s request_id change).0
          request_id
        ≡ some (change r)
  unfolding find_by_id update_where_id
  find_by_id-update s request_id change r distinct found same_id same_activity =
      elim (Bool-cases (is_id request_id)) [
        | inr no_id ↦ absurd (none≢some (sym (rw no_id) ∙ found))
        | inl valid ↦
            let query = λ (d : DataRequest). has_id request_id d && d.is_active in
            let ds = Requests.documents s in
            let f = sym (Requests.find_one-first s query) ∙ (rw valid at found) in
            let id = (both (r.id == request_id) r.is_active (first_true query ds f)).0 in
            let kept =
              (λ i. (same_id i == request_id) && same_activity i) ∙ first_true query ds f in
            let changed = first-update_first (λ d. d.id) query change ds r distinct f kept in
            rw valid (
              Requests.find_one-first (Requests.update_one s (has_id request_id) change).0 query
              ∙ ap (first query) (Requests.documents-update_one s (has_id request_id) change)
              ∙ subst (λ k. first query (update_first (λ d. d.id == k) change ds) ≡ some (change r))
                  (equals-eq id) changed)
      ]

  recount-Counted :
      (db : Database Votes Requests is_id) (request_id : String) (voted : Bool)
      (type : Option VoteType) (r : DataRequest)
      → HasDistinctIds (λ d. d.id) (Requests.documents db.requests)
      → find_by_id Votes Requests is_id db.requests request_id ≡ some r
      → let (db', answer) = recount Votes Requests is_id db request_id voted type in
        let c = tally request_id (Votes.documents db'.votes) in
        (answer.counts ≡ c)
        × (find_by_id Votes Requests is_id db'.requests request_id ≡ some (with_counts c r))
  unfolding recount
  recount-Counted db request_id voted type r distinct found =
      let counts = get_vote_counts-tally Votes db.votes request_id in
      (
        counts,
        subst
            (λ c.
              find_by_id Votes Requests is_id
                (update_where_id Votes Requests is_id db.requests request_id
                  (with_counts (get_vote_counts Votes db.votes request_id))).0
                request_id
              ≡ some (with_counts c r))
            counts
            (find_by_id-update db.requests request_id
              (with_counts (get_vote_counts Votes db.votes request_id)) r distinct found refl refl),
      )

  -- A vote on a request that is found goes on.
  pub answered :
      (db : Database Votes Requests is_id) (document_id vote_id request_id user_id : String)
      (t : VoteType) (r : DataRequest)
      → find_by_id Votes Requests is_id db.requests request_id ≡ some r
      → vote_data_request Votes Requests is_id db document_id vote_id request_id user_id t ≡ (
          let (db', answer) =
            vote_on Votes Requests is_id db document_id vote_id request_id user_id t in
          (db', inr answer))
  unfolding vote_data_request
  answered db document_id vote_id request_id user_id t r found = rw (found, vote_data_request)

  -- After a vote on a request that is found, the answer and the stored request have the numbers of active
  -- votes on it, by their type and in all.
  pub vote_data_request-Counted :
      (db : Database Votes Requests is_id) (document_id vote_id request_id user_id : String)
      (t : VoteType) (r : DataRequest)
      → HasDistinctIds (λ d. d.id) (Requests.documents db.requests)
      → find_by_id Votes Requests is_id db.requests request_id ≡ some r
      → let (db', answer) =
          vote_data_request Votes Requests is_id db document_id vote_id request_id user_id t in
        let c = tally request_id (Votes.documents db'.votes) in
        Counted answer c
        × (find_by_id Votes Requests is_id db'.requests request_id ≡ some (with_counts c r))
  unfolding vote_on
  vote_data_request-Counted db document_id vote_id request_id user_id t r distinct found =
      let existing = find_by_request_and_user Votes db.votes request_id user_id in
      let (votes, voted, type) =
        cast_vote Votes db.votes document_id vote_id request_id user_id t existing in
      subst
        (λ (x : Database Votes Requests is_id × (ServiceError ⊎ VoteResponse)).
          Counted x.1 (tally request_id (Votes.documents x.0.votes))
          × (find_by_id Votes Requests is_id x.0.requests request_id
              ≡ some (with_counts (tally request_id (Votes.documents x.0.votes)) r)))
        (sym (answered db document_id vote_id request_id user_id t r found))
        (recount-Counted (record db { votes = votes }) request_id voted type r distinct found)

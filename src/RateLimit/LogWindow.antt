-- ===== src/RateLimit/LogWindow.antt =====
-- The sliding window log over a whole history of requests: it admits what an ideal window admits.
use mathlib.Core.List.{append-nil}
use korea_public_data_be.Base.{
  ℕ, ◌*◌, ◌≤◌, ◌≡◌, refl, ap, Bool, true, false, not, String, List, [], ◌∷◌, ◌++◌, arith, leb, ◌==◌,
  string_eq, if◌then◌else◌, length, keep, keep-append, equals_refl, Bool-cases, inl, inr,
}
use korea_public_data_be.Dict
use korea_public_data_be.Dict.{get-put}
use korea_public_data_be.RateLimit.Config.{RateLimit, window, second}
use korea_public_data_be.RateLimit.Storage.{
  Storage, empty, is_after, get_timestamps, add_timestamp, cleanup_expired,
}
use korea_public_data_be.RateLimit.Algorithms.{check_sliding_log}

-- A later window sees no less of a list that an earlier one has filtered.
keep-keep :
    (n m w : ℕ) (xs : List ℕ)
    → n ≤ m
    → keep (is_after m w) (keep (is_after n w) xs) ≡ keep (is_after m w) xs
keep-keep n m w [] h = refl
keep-keep n m w (x ∷ xs) h = ground (arith, keep-keep n m w xs h)

module _ (s : Storage) (key : String) (now : ℕ) where
  pub get_timestamps-cleanup :
      (span : ℕ) (j : String)
      → get_timestamps (cleanup_expired s key now span) j
        ≡ (if key == j then keep (is_after now span) (get_timestamps s j) else get_timestamps s j)
  unfolding get_timestamps cleanup_expired
  get_timestamps-cleanup span j = grind (arith, string_eq.equals_iff key j, get-put)

  pub get_timestamps-add :
      (w : ℕ) (j : String)
      → get_timestamps (add_timestamp s key now w) j ≡ (
          if key == j
          then keep (is_after now (w * second)) (get_timestamps s j ++ now ∷ [])
          else get_timestamps s j)
  unfolding get_timestamps add_timestamp
  get_timestamps-add w j = grind (arith, string_eq.equals_iff key j, get-put)

-- The instants that the log of `key` keeps at `now`, before the request is counted.
abbrev pub recent : RateLimit → Storage → String → ℕ → List ℕ
recent l s key now = keep (is_after now (window l)) (get_timestamps s key)

module _ (l : RateLimit) (s : Storage) (key : String) (now : ℕ) where
  pub allowed-check_sliding_log :
      (check_sliding_log key l now s).0.allowed ≡ not (leb l.limit (length (recent l s key now)))
  unfolding check_sliding_log
  allowed-check_sliding_log =
      ground (arith, get_timestamps-cleanup s key now (window l) key, equals_refl key)

  pub get_timestamps-check :
      (j : String)
      → get_timestamps (check_sliding_log key l now s).1 j ≡ (
          if key == j
          then (if leb l.limit (length (recent l s key now))
              then recent l s key now
              else keep (is_after now (window l)) (recent l s key now ++ now ∷ []))
          else get_timestamps s j)
  unfolding check_sliding_log
  get_timestamps-check j = ground (
    arith,
    get_timestamps-cleanup s key now (window l) key,
    get_timestamps-cleanup s key now (window l) j,
    equals_refl key,
    string_eq.equals_iff key j,
    get_timestamps-add (cleanup_expired s key now (window l)) key now l.window_seconds j,
  )

-- A request names its key and its instant. A history also collects the admitted requests.
pub record History : Type 0 where
  pub storage : Storage
  pub admitted : List (String × ℕ)

unfoldable pub start : History
unfolding empty
start = record { storage = empty; admitted = [] }

-- The instants of one key.
abbrev pub times_of : String → List (String × ℕ) → List ℕ
times_of k [] = []
times_of k ((j, t) ∷ r) = if j == k then t ∷ times_of k r else times_of k r

times_of-append :
    (k : String) (xs ys : List (String × ℕ))
    → times_of k (xs ++ ys) ≡ times_of k xs ++ times_of k ys
times_of-append k [] ys = refl
times_of-append k ((j, t) ∷ xs) ys = ground (arith, times_of-append k xs ys)

-- How many requests of the key an observer at instant `m` has seen admitted within the window.
abbrev pub in_window : RateLimit → List (String × ℕ) → String → ℕ → ℕ
in_window l admitted k m = length (keep (is_after m (window l)) (times_of k admitted))

-- Each instant is no earlier than the one before it, and than `n`.
abbrev pub InOrder : ℕ → List (String × ℕ) → Type 0
InOrder n [] = Unit
InOrder n ((k, t) ∷ r) = (n ≤ t) × InOrder t r

abbrev pub last_instant : ℕ → List (String × ℕ) → ℕ
last_instant n [] = n
last_instant n ((k, t) ∷ r) = last_instant t r

module _ (l : RateLimit) where
  abbrev pub record_if : Bool → List (String × ℕ) → String → ℕ → List (String × ℕ)
  record_if true admitted k t = admitted ++ (k, t) ∷ []
  record_if false admitted k t = admitted

  pub times_of-record_if :
      (p : ℕ → Bool) (b : Bool) (admitted : List (String × ℕ)) (k j : String) (t : ℕ)
      → keep p (times_of j (record_if b admitted k t)) ≡ (
          if b
          then (if k == j
              then keep p (times_of j admitted) ++ keep p (t ∷ [])
              else keep p (times_of j admitted))
          else keep p (times_of j admitted))
  times_of-record_if p false admitted k j t = refl
  times_of-record_if p true admitted k j t =
      rw (times_of-append j admitted ((k, t) ∷ [])) (elim (Bool-cases (k == j)) [
        | inl e ↦ rw e (keep-append p (times_of j admitted) (t ∷ []))
        | inr n ↦ rw n (ap (keep p) (append-nil (times_of j admitted)))
      ])

  -- One request, served by the code.
  pub serve : History → String → ℕ → History
  serve h k t =
      let (r, s) = check_sliding_log k l t h.storage in
      record { storage = s; admitted = record_if r.allowed h.admitted k t }

  unfoldable pub run : History → List (String × ℕ) → History
  unfolding serve
  run h [] = h
  run h ((k, t) ∷ r) = run (serve h k t) r

  -- The ideal: a request is admitted exactly if fewer than `limit` of its key are in its window.
  unfoldable pub ideal : List (String × ℕ) → List (String × ℕ) → List (String × ℕ)
  ideal admitted [] = admitted
  ideal admitted ((k, t) ∷ r) =
      ideal (record_if (not (leb l.limit (in_window l admitted k t))) admitted k t) r

  record Agrees (n : ℕ) (h : History) : Type 0 where
    at :
        (m : ℕ) (k : String)
        → n ≤ m
        → keep (is_after m (window l)) (get_timestamps h.storage k)
          ≡ keep (is_after m (window l)) (times_of k h.admitted)

  Agrees-serve :
      {n : ℕ} (h : History) (k : String) (t : ℕ) → n ≤ t → Agrees n h → Agrees t (serve h k t)
  unfolding serve
  Agrees-serve {n} h k t le a = record {
    at = λ m j tm. ground (
      arith,
      allowed-check_sliding_log l h.storage k t,
      get_timestamps-check l h.storage k t j,
      string_eq.equals_iff k j,
      a.at m j (omega arith),
      keep-keep t m (window l) (get_timestamps h.storage k) tm,
      keep-keep t m (window l) (recent l h.storage k t ++ t ∷ []) tm,
      keep-append (is_after m (window l)) (recent l h.storage k t) (t ∷ []),
      times_of-record_if (is_after m (window l)) (check_sliding_log k l t h.storage).0.allowed
          h.admitted k j t,
    );
  }

  allowed-ideal :
      {n : ℕ} (h : History) (k : String) (t : ℕ)
      → n ≤ t
      → Agrees n h
      → (check_sliding_log k l t h.storage).0.allowed
        ≡ not (leb l.limit (in_window l h.admitted k t))
  allowed-ideal h k t le a = rw (allowed-check_sliding_log l h.storage k t) (rw (a.at t k le))

  run-ideal :
      (n : ℕ) (h : History) (r : List (String × ℕ))
      → InOrder n r
      → Agrees n h
      → (run h r).admitted ≡ ideal h.admitted r
  unfolding run ideal
  run-ideal n h [] o a = refl
  run-ideal n h ((k, t) ∷ r) o a =
      rw (run-ideal t (serve h k t) r o.1 (Agrees-serve h k t o.0 a))
        (rw (allowed-ideal h k t o.0 a))

  Agrees-start : Agrees 0 start
  unfolding start get_timestamps Dict.get
  Agrees-start = record { at = λ m k h. refl }

  -- Served in order from an empty storage, the requests that the sliding window log admits are
  -- exactly those that an ideal window of the same length and limit admits, key by key.
  pub run-refines-ideal :
      (r : List (String × ℕ)) → InOrder 0 r → (run start r).admitted ≡ ideal [] r
  unfolding start
  run-refines-ideal r o = run-ideal 0 start r o Agrees-start

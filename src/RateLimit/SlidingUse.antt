-- ===== src/RateLimit/SlidingUse.antt =====
-- The sliding window algorithm within one aligned window.
use korea_public_data_be.Base.{
  ℕ, ◌+◌, ◌*◌, ◌/◌, ◌%◌, ◌≤◌, ◌<◌, ◌≡◌, refl, true, false, none, String, List, [], ◌∷◌, arith, leb,
  eqb, string_eq, Bool-cases, inl, inr,
}
use korea_public_data_be.Dict
use korea_public_data_be.RateLimit.Config.{RateLimit, window}
use korea_public_data_be.RateLimit.Storage.{Storage, get_count}
use korea_public_data_be.RateLimit.Algorithms.{
  window_key, prev_window_key, estimate, check_sliding_window,
}
use korea_public_data_be.RateLimit.Counters.{
  Holds, unused, get_count-Holds, increment-Holds, get_count-Holds_other,
}
use korea_public_data_be.RateLimit.QuotaUse.{is_allowed, count_if}

module _ (str : ℕ → String) (key : String) (l : RateLimit) where
  -- Checks of one key, one after the other: how many are allowed.
  unfoldable pub allowed_checks : Storage → List (ℕ → ℕ) → ℕ
  allowed_checks s [] = 0
  allowed_checks s (clock ∷ r) =
      let (res, s') = check_sliding_window str key l clock s in
      count_if (is_allowed res) (allowed_checks s' r)

  -- The four readings of the clock in a check fall into the window with this index.
  abbrev pub InWindow : ℕ → (ℕ → ℕ) → Type 0
  InWindow index clock =
      (clock 0 / window l ≡ index)
      × (clock 1 / window l ≡ index)
      × (clock 2 / window l ≡ index)
      × (clock 3 / window l ≡ index)

  abbrev pub AllInWindow : ℕ → List (ℕ → ℕ) → Type 0
  AllInWindow index [] = Unit
  AllInWindow index (clock ∷ r) = InWindow index clock × AllInWindow index r

  abbrev Uses : Storage → ℕ → ℕ → Type 0
  Uses s index u = Holds s (window_key str key index) (index * window l + window l) u

  below_end :
      (index t : ℕ)
      → 0 < l.window_seconds
      → t / window l ≡ index
      → (index * window l ≤ t) × (t ≤ index * window l + window l)
  below_end index t p h = grind arith

  le-estimate :
      (prev current t : ℕ) → 0 < l.window_seconds → current ≤ estimate str l prev current t
  unfolding estimate
  le-estimate prev current t p = grind arith

  module _ (s : Storage) (index u : ℕ) (clock : ℕ → ℕ) (p : 0 < l.window_seconds)
      (inw : InWindow index clock) (h : Uses s index u) where
    -- What the check estimates, and the storage after its reads.
    abbrev estimated : ℕ
    estimated =
        estimate str l (get_count s (clock 2) (prev_window_key str key index)).0 u
          (clock 0 % window l)

    abbrev after_reads : Storage
    after_reads = (get_count s (clock 2) (prev_window_key str key index)).1

    after_reads-Uses : Uses after_reads index u
    after_reads-Uses =
        get_count-Holds_other (clock 2) (prev_window_key str key index) h
          (below_end index (clock 2) p inw.2).1

    step_allowed :
        leb l.limit estimated ≡ false
        → let (res, s') = check_sliding_window str key l clock s in
          (is_allowed res ≡ true) × Uses s' index (u + 1)
    unfolding check_sliding_window
    step_allowed room =
        let some_window : eqb l.window_seconds 0 ≡ false = ground arith in
        rw
          (
            inw.0,
            get_count-Holds (clock 1) h (below_end index (clock 1) p inw.1).1,
            some_window,
            room,
          )
          (
            refl,
            increment-Holds (clock 3) (l.window_seconds * 2) after_reads-Uses
                (below_end index (clock 3) p inw.3).1
                (omega (arith, (below_end index (clock 3) p inw.3).0)),
          )

    step_refused :
        leb l.limit estimated ≡ true
        → let (res, s') = check_sliding_window str key l clock s in
          (is_allowed res ≡ false) × Uses s' index u
    unfolding check_sliding_window
    step_refused full =
        let some_window : eqb l.window_seconds 0 ≡ false = ground arith in
        rw
          (
            inw.0,
            get_count-Holds (clock 1) h (below_end index (clock 1) p inw.1).1,
            some_window,
            full,
          )
          (refl, after_reads-Uses)

  allowed-Uses :
      (s : Storage) (index u : ℕ) (clocks : List (ℕ → ℕ))
      → 0 < l.window_seconds
      → AllInWindow index clocks
      → Uses s index u
      → u ≤ l.limit
      → allowed_checks s clocks + u ≤ l.limit
  unfolding allowed_checks
  allowed-Uses s index u [] p all h le = omega arith
  allowed-Uses s index u (clock ∷ r) p all h le =
      elim (Bool-cases (leb l.limit (estimated s index u clock p all.0 h))) [
        | inl full ↦
            let (refused, still) = step_refused s index u clock p all.0 h full in
            rw refused (
              omega (
                arith,
                allowed-Uses (check_sliding_window str key l clock s).1 index u r p all.1 still le,
              ))
        | inr room ↦
            let (granted, more) = step_allowed s index u clock p all.0 h room in
            let lt : u + 1 ≤ l.limit = ground (
              arith,
              le-estimate (get_count s (clock 2) (prev_window_key str key index)).0 u
                  (clock 0 % window l) p,
            ) in
            rw granted (
              omega (
                arith,
                allowed-Uses (check_sliding_window str key l clock s).1 index (u + 1) r p all.1 more
                    lt,
              ))
      ]

  -- Within one aligned window of positive length, from a storage with no count for it yet, the
  -- sliding window algorithm allows at most `limit` checks of a key, whatever the count of the
  -- window before.
  pub allowed_in_window :
      (s : Storage) (index : ℕ) (clocks : List (ℕ → ℕ))
      → 0 < l.window_seconds
      → AllInWindow index clocks
      → Dict.get s.counts (window_key str key index) ≡ none
      → allowed_checks s clocks ≤ l.limit
  allowed_in_window s index clocks p all fresh =
      omega (arith, allowed-Uses s index 0 clocks p all (unused fresh refl) (omega arith))

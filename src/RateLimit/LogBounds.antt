-- ===== src/RateLimit/LogBounds.antt =====
-- How many requests the sliding window log admits within a window, over a whole history.
use korea_public_data_be.Base.{
  ℕ, ◌≤◌, not, String, List, [], ◌∷◌, arith, leb, string_eq, length, keep, length-append,
}
use korea_public_data_be.RateLimit.Config.{RateLimit, window}
use korea_public_data_be.RateLimit.Storage.{is_after}
use korea_public_data_be.RateLimit.LogWindow.{
  start, run, ideal, record_if, times_of, times_of-record_if, in_window, InOrder, last_instant,
  run-refines-ideal,
}

module _ (l : RateLimit) where
  -- What an observer sees can only fall while nothing is admitted.
  in_window-anti :
      (xs : List ℕ) (n m w : ℕ)
      → n ≤ m
      → length (keep (is_after m w) xs) ≤ length (keep (is_after n w) xs)
  in_window-anti [] n m w h = omega arith
  in_window-anti (x ∷ xs) n m w h = ground (arith, in_window-anti xs n m w h)

  bounded_step :
      (admitted : List (String × ℕ)) (k j : String) (n t m : ℕ)
      → n ≤ t
      → ((i : String) (p : ℕ) → n ≤ p → in_window l admitted i p ≤ l.limit)
      → t ≤ m
      → in_window l (record_if l (not (leb l.limit (in_window l admitted k t))) admitted k t) j m
        ≤ l.limit
  bounded_step admitted k j n t m nt b tm =
      rw
        (times_of-record_if l (is_after m (window l)) (not (leb l.limit (in_window l admitted k t)))
          admitted k j t)
        (ground (
          arith,
          string_eq.equals_iff k j,
          b j m (omega arith),
          in_window-anti (times_of j admitted) t m (window l) tm,
          length-append (keep (is_after m (window l)) (times_of j admitted))
              (keep (is_after m (window l)) (t ∷ [])),
        ))

  ideal_bounded :
      (admitted r : List (String × ℕ)) (n : ℕ)
      → InOrder n r
      → ((i : String) (p : ℕ) → n ≤ p → in_window l admitted i p ≤ l.limit)
      → (j : String) (m : ℕ) → last_instant n r ≤ m
      → in_window l (ideal l admitted r) j m ≤ l.limit
  unfolding ideal
  ideal_bounded admitted [] n o b j m h = b j m h
  ideal_bounded admitted ((k, t) ∷ r) n o b j m h =
      ideal_bounded (record_if l (not (leb l.limit (in_window l admitted k t))) admitted k t) r t
        o.1 (λ i p tp. bounded_step admitted k i n t p o.0 b tp) j m h

  -- Served in order from an empty storage, no key has ever more than `limit` requests admitted
  -- within the window that ends at an instant no earlier than the last request.
  pub run_bounded :
      (r : List (String × ℕ)) (k : String) (m : ℕ)
      → InOrder 0 r
      → last_instant 0 r ≤ m
      → in_window l (run l start r).admitted k m ≤ l.limit
  run_bounded r k m o h =
      rw (run-refines-ideal l r o) (ideal_bounded [] r 0 o (λ i p _. omega arith) k m h)

-- ===== src/RateLimit/Counters.antt =====
-- A counter of the storage as an abstract number: what reads and increments do to it while its
-- entry has not expired.
use korea_public_data_be.Base.{
  ℕ, ◌+◌, ◌*◌, ◌≤◌, ◌≡◌, ◌∙◌, false, none, some, String, arith, ltb, string_eq,
}
use korea_public_data_be.Dict
use korea_public_data_be.Dict.{get-put_self, get-remove}
use korea_public_data_be.RateLimit.Config.{second}
use korea_public_data_be.RateLimit.Storage.{Storage, Counter, get_count, increment}

-- `key` stands at `u`, and will until the instant `end`.
pub data Holds (s : Storage) (key : String) (end u : ℕ) : Type 0 where
  unused : Dict.get s.counts key ≡ none → u ≡ 0 → Holds s key end u
  used :
      (c : Counter)
      → Dict.get s.counts key ≡ some c
      → c.count ≡ u
      → end ≤ c.expires_at
      → Holds s key end u

module _ {s : Storage} {key : String} {end u : ℕ} (now : ℕ) where
  -- A read before the end returns the number, and writes nothing.
  pub get_count-Holds : Holds s key end u → now ≤ end → get_count s now key ≡ (u, s)
  unfolding get_count
  get_count-Holds (unused h z) le = rw h (rw z)
  get_count-Holds (used c h e x) le = rw h (ground arith)

  pub increment-Holds :
      (ttl : ℕ)
      → Holds s key end u
      → now ≤ end
      → end ≤ now + ttl * second
      → Holds (increment s now key ttl).1 key end (u + 1)
  unfolding increment
  increment-Holds ttl (unused h z) le far = rw h (
      used (record { count = 0 + 1; expires_at = now + ttl * second }) (get-put_self s.counts key _)
        (omega arith) far)
  increment-Holds ttl (used c h e x) le far =
      let alive : ltb c.expires_at now ≡ false = ground arith in
      rw (h, alive)
        ((used (record c { count = c.count + 1 }) (get-put_self s.counts key _) (omega arith) x))

  get-get_count :
      (other : String)
      → Holds s key end u
      → now ≤ end
      → Dict.get (get_count s now other).1.counts key ≡ Dict.get s.counts key
  unfolding get_count
  get-get_count other (unused h z) le = ground (arith, get-remove s.counts other key)
  get-get_count other (used c h e x) le =
      ground (arith, get-remove s.counts other key, string_eq.equals_iff other key)

  -- A read of any key, which may drop its expired entry, leaves the number.
  pub get_count-Holds_other :
      (other : String) → Holds s key end u → now ≤ end → Holds (get_count s now other).1 key end u
  get_count-Holds_other other (unused h z) le = unused (get-get_count other (unused h z) le ∙ h) z
  get_count-Holds_other other (used c h e x) le =
      used c (get-get_count other (used c h e x) le ∙ h) e x

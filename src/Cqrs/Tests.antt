-- ===== src/Cqrs/Tests.antt =====
-- A bus with one handler and two pieces of middleware, by app/shared/cqrs/bus.py; the theorems applied.
use korea_public_data_be.Base.{
  ℕ, ◌+◌, Option, none, some, ◌⊎◌, inl, inr, String, [], ◌∷◌, ◌≡◌, refl, sym, string_eq,
}
use korea_public_data_be.Dict
use korea_public_data_be.Cqrs.Defs.{
  before_execute, after_execute, handle, cache_get, Middleware, run, Bus, before_all, after_all,
  attempt, handled, recovered, execute,
}
use korea_public_data_be.Cqrs.Commands.{Fine, trace, execute-trace}
use korea_public_data_be.Cqrs.Queries.{
  Cache, QueryBus, execute_query, with_key, after_lookup, get_from_cache, store_in_cache, miss,
  handle_query, after_result, recover_query, execute_query_again,
}

abbrev logging : Middleware ℕ (Option ℕ)
logging = record {
  name = "logging";
  before = some (λ c. none);
  after = some (λ x. none);
  error = some (λ x. none);
}

-- It has a hook before an execution only.
abbrev counting : Middleware ℕ (Option ℕ)
counting = record { name = "counting"; before = some (λ c. none); after = none; error = none }

abbrev next : ℕ → String ⊎ Option ℕ
next n = inr (some (n + 1))

abbrev broken : ℕ → String ⊎ Option ℕ
broken n = inl "broken"

abbrev bus : Bus ℕ (Option ℕ)
bus = record {
  handlers = ("Next", next) ∷ ("Broken", broken) ∷ [];
  middleware = logging ∷ counting ∷ [];
}

around : execute bus "Next" 3 ≡ (
  before_execute "logging" ∷ before_execute "counting" ∷ handle ∷ after_execute "logging" ∷ [],
  inr (some 4),
)
unfolding execute attempt handled recovered before_all after_all run Dict.get
around = refl

execute-trace_example :
    (Fine bus next 3 (some 4) → execute bus "Next" 3 ≡ (trace bus 3 (some 4), inr (some 4)))
    × ((execute bus "Next" 3).1 ≡ inr (some 4) → Fine bus next 3 (some 4))
unfolding Dict.get
execute-trace_example = execute-trace bus "Next" 3 next (some 4) refl

one_write :
    (s s' : Option ℕ) (k : String) (v : ℕ)
    → ◌≡◌ {A = String ⊎ Option ℕ} (inr (some v)) (inr s')
    → ◌≡◌ {A = String ⊎ Option ℕ} (inr s') (inr (some v))
one_write s s' k v e = sym e

-- A cache of one result for one key
abbrev cell : Cache (Option ℕ) ℕ
cell = record { read = λ s k. inr s; write = λ s k v. inr (some v); write_read = one_write }

abbrev queries : QueryBus ℕ (Option ℕ) ℕ
queries = record { bus = bus; cache = some none }

execute_query_again_example :
    execute_query cell (λ q. inr (some "key")) (record queries { cache = some (some 4) }) "Next" 3
    ≡ (cache_get ∷ [], some (some 4), inr (some 4))
unfolding execute_query with_key after_lookup get_from_cache store_in_cache miss handle_query
    after_result recover_query recovered before_all after_all run Dict.get
execute_query_again_example =
    execute_query_again cell (λ q. inr (some "key")) queries "Next" 3 next "key" none 4 refl refl
      refl refl

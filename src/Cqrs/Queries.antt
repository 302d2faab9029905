-- ===== src/Cqrs/Queries.antt =====
-- QueryBus of app/shared/cqrs/bus.py, with its cache of results, which is outside: an interface with the
-- one law that what is written is read back, as within the five minutes that it is kept. A query whose result is None is not cached.
use korea_public_data_be.Base.{
  Option, none, some, ◌⊎◌, inl, inr, String, List, [], ◌∷◌, ◌++◌, ◌≡◌, refl, sym, ap, ◌∙◌, subst,
  Option-cases, Sum-cases, string_eq, format,
}
use korea_public_data_be.Dict
use korea_public_data_be.Cqrs.Defs.{
  Call, handle, cache_get, cache_set, Bus, before_all, after_all, recovered,
}
use korea_public_data_be.Cqrs.Commands.{raised≢, recovered-returned, returned-injective}

pub record Cache (S V : Type 0) : Type 0 where
  pub read : S → String → String ⊎ Option V
  pub write : S → String → V → String ⊎ S
  pub write_read : (s s' : S) (k : String) (v : V) → write s k v ≡ inr s' → read s' k ≡ inr (some v)

-- The calls, the cache after them, and what comes out
abbrev pub Answer : Type 0 → Type 0 → Type 0
Answer S V = List Call × Option S × (String ⊎ Option V)

pub record QueryBus (M S V : Type 0) : Type 0 where
  pub bus : Bus M (Option V)
  pub cache : Option S

module _ {M S V : Type 0} (ops : Cache S V) (cache_key : M → String ⊎ Option String) where
  unfoldable pub set_cache : QueryBus M S V → S → QueryBus M S V
  set_cache b s = record b { cache = some s }

  -- Whether the cache has a result; none also where there is no cache or no key.
  unfoldable pub get_from_cache : Option S → Option String → List Call × (String ⊎ Option V)
  get_from_cache (some s) (some k) = (cache_get ∷ [], ops.read s k)
  get_from_cache _ _ = ([], inr none)

  unfoldable pub store_in_cache :
      Option S → Option String → Option V → List Call × (String ⊎ Option S)
  store_in_cache (some s) (some k) (some v) =
      (cache_set ∷ [], elim (ops.write s k v) [ inl e ↦ inl e | inr s' ↦ inr (some s') ])
  store_in_cache s k v = ([], inr s)

  -- After the handler's result, with the calls so far
  unfoldable pub after_result :
      Bus M (Option V)
      → M
      → Option S
      → List Call
      → Option V
      → List Call × (String ⊎ Option S)
      → Answer S V
  unfolding after_all
  after_result b q s log r (calls, inl e) = (log ++ (handle ∷ calls), s, inl e)
  after_result b q s log r (calls, inr s') =
      let last = after_all b q r in
      (log ++ (handle ∷ (calls ++ last.0)), s', elim last.1 [ none ↦ inr r | some e ↦ inl e ])

  unfoldable pub handle_query :
      Bus M (Option V) → M → Option S → Option String → List Call → String ⊎ Option V → Answer S V
  unfolding after_result store_in_cache
  handle_query b q s k log (inl e) = (log ++ (handle ∷ []), s, inl e)
  handle_query b q s k log (inr r) = after_result b q s log r (store_in_cache s k r)

  -- Nothing in the cache
  unfoldable pub miss :
      Bus M (Option V)
      → (M → String ⊎ Option V)
      → M
      → Option S
      → Option String
      → List Call
      → Answer S V
  unfolding before_all handle_query
  miss b h q s k log =
      let first = before_all b q in
      elim first.1 [
        | none ↦ handle_query b q s k (log ++ first.0) (h q)
        | some e ↦ (log ++ first.0, s, inl e)
      ]

  unfoldable pub after_lookup :
      Bus M (Option V)
      → (M → String ⊎ Option V)
      → M
      → Option S
      → Option String
      → List Call × (String ⊎ Option V)
      → Answer S V
  unfolding miss
  after_lookup b h q s k (log, inl e) = (log, s, inl e)
  after_lookup b h q s k (log, inr (some v)) = (log, s, inr (some v))
  after_lookup b h q s k (log, inr none) = miss b h q s k log

  unfoldable pub with_key :
      Bus M (Option V)
      → (M → String ⊎ Option V)
      → M
      → Option S
      → String ⊎ Option String
      → Answer S V
  unfolding after_lookup get_from_cache
  with_key b h q s (inl e) = ([], s, inl e)
  with_key b h q s (inr k) = after_lookup b h q s k (get_from_cache s k)

  unfoldable pub recover_query : Bus M (Option V) → M → Answer S V → Answer S V
  unfolding recovered
  recover_query b q (log, s, o) = let x = recovered b q (log, o) in (x.0, s, x.1)

  -- QueryBus.execute, for a query of the class
  unfoldable pub execute_query : QueryBus M S V → String → M → Answer S V
  unfolding with_key recover_query
  execute_query b t q = elim (Dict.get b.bus.handlers t) [
    | none ↦ ([], b.cache, inl (format ("No handler registered for query type: " ∷ t ∷ [])))
    | some h ↦ recover_query b.bus q (with_key b.bus h q b.cache (cache_key q))
  ]

  -- A cache in which the key has the result
  abbrev pub Has : Option S → String → V → Type 0
  Has s k v = (st : S) × (s ≡ some st) × (ops.read st k ≡ inr (some v))

  store_in_cache-Has :
      (st : S) (k : String) (v : V) (s' : Option S)
      → (store_in_cache (some st) (some k) (some v)).1 ≡ inr s'
      → Has s' k v
  unfolding store_in_cache
  store_in_cache-Has st k v s' e = elim (Sum-cases (ops.write st k v)) [
    | inl (x, w) ↦ absurd (raised≢ (rw w at e))
    | inr (st', w) ↦ (st', sym (returned-injective (rw w at e)), ops.write_read st st' k v w)
  ]

  -- An answer with a result leaves the result in the cache.
  abbrev Keeps : String → V → Answer S V → Type 0
  Keeps k v a = a.2 ≡ inr (some v) → Has a.1 k v

  after_result-Keeps :
      (b : Bus M (Option V)) (q : M) (s : Option S) (k : String) (log : List Call) (r : Option V)
      (v : V) (x : List Call × (String ⊎ Option S))
      → ((s' : Option S) → x.1 ≡ inr s' → r ≡ some v → Has s' k v)
      → Keeps k v (after_result b q s log r x)
  unfolding after_result
  after_result-Keeps b q s k log r v (calls, inl f) kept e = absurd (raised≢ e)
  after_result-Keeps b q s k log r v (calls, inr s') kept e =
      elim (Option-cases (after_all b q r).1) [
        | inr (f, o) ↦ absurd (raised≢ (rw (o, after_result) at e))
        | inl o ↦ kept s' refl (returned-injective (rw (o, after_result) at e))
      ]

  handle_query-Keeps :
      (b : Bus M (Option V)) (q : M) (st : S) (k : String) (log : List Call) (v : V)
      (o : String ⊎ Option V)
      → Keeps k v (handle_query b q (some st) (some k) log o)
  unfolding handle_query
  handle_query-Keeps b q st k log v (inl f) e = absurd (raised≢ e)
  handle_query-Keeps b q st k log v (inr r) e =
      after_result-Keeps b q (some st) k log r v (store_in_cache (some st) (some k) r)
        (λ s' w same.
          store_in_cache-Has st k v s'
            (subst (λ x. (store_in_cache (some st) (some k) x).1 ≡ inr s') same w))
        e

  miss-Keeps :
      (b : Bus M (Option V)) (h : M → String ⊎ Option V) (q : M) (st : S) (k : String)
      (log : List Call) (v : V)
      → Keeps k v (miss b h q (some st) (some k) log)
  unfolding miss
  miss-Keeps b h q st k log v = after (before_all b q)
    where
      after :
          (p : List Call × Option String)
          → Keeps k v (elim p.1 [
            | none ↦ handle_query b q (some st) (some k) (log ++ p.0) (h q)
            | some e ↦ (log ++ p.0, some st, inl e)
          ])
      after (first, none) = handle_query-Keeps b q st k (log ++ first) v (h q)
      after (first, some f) = λ e. absurd (raised≢ e)

  after_lookup-Keeps :
      (b : Bus M (Option V)) (h : M → String ⊎ Option V) (q : M) (st : S) (k : String) (v : V)
      (log : List Call) (o : String ⊎ Option V)
      → ops.read st k ≡ o
      → Keeps k v (after_lookup b h q (some st) (some k) (log, o))
  unfolding after_lookup
  after_lookup-Keeps b h q st k v log (inl f) found e = absurd (raised≢ e)
  after_lookup-Keeps b h q st k v log (inr none) found e = miss-Keeps b h q st k log v e
  after_lookup-Keeps b h q st k v log (inr (some w)) found e = (st, refl, found ∙ e)

  recover_query-kept :
      (b : Bus M (Option V)) (q : M) (a : Answer S V) (v : V)
      → (recover_query b q a).2 ≡ inr (some v)
      → (a.2 ≡ inr (some v)) × ((recover_query b q a).1 ≡ a.1)
  unfolding recover_query
  recover_query-kept b q (log, s, o) v e = (recovered-returned b q (log, o) (some v) e, refl)

  -- Once a query with a cache key has had a result from a bus with a cache, the same query gets the same result
  -- from the cache: neither the handler nor any middleware is called.
  pub execute_query_again :
      (b : QueryBus M S V) (t : String) (q : M) (h : M → String ⊎ Option V) (k : String) (st : S)
      (v : V)
      → Dict.get b.bus.handlers t ≡ some h
      → b.cache ≡ some st
      → cache_key q ≡ inr (some k)
      → (execute_query b t q).2 ≡ inr (some v)
      → execute_query (record b { cache = (execute_query b t q).1 }) t q
        ≡ (cache_get ∷ [], (execute_query b t q).1, inr (some v))
  unfolding execute_query with_key get_from_cache after_lookup recover_query recovered
  execute_query_again b t q h k st v known cached key e =
      let L = λ (c : Option S). recover_query b.bus q (with_key b.bus h q c (inr (some k))) in
      let step : (c : Option S) → execute_query (record b { cache = c }) t q ≡ L c =
        λ c. rw (known, execute_query) (rw key) in
      let first : execute_query b t q ≡ L (some st) = step b.cache ∙ ap L cached in
      let (kept, same) =
        recover_query-kept b.bus q (with_key b.bus h q (some st) (inr (some k))) v
          (sym (ap (λ a. a.2) first) ∙ e) in
      let (s2, there, found) =
        after_lookup-Keeps b.bus h q st k v (cache_get ∷ []) (ops.read st k) refl kept in
      let now : (execute_query b t q).1 ≡ some s2 = ap (λ a. a.1) first ∙ same ∙ there in
      step (execute_query b t q).1
      ∙ ap L now
      ∙ ap
          (λ o.
            recover_query b.bus q (after_lookup b.bus h q (some s2) (some k) (cache_get ∷ [], o)))
          found
      ∙ ap (λ c. (cache_get ∷ [], c, inr (some v))) (sym now)

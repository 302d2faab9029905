-- ===== src/Cqrs/Commands.antt =====
-- What CommandBus.execute of app/shared/cqrs/bus.py calls.
use mathlib.Core.List.{reverse}
use korea_public_data_be.Base.{
  Option, none, some, ◌⊎◌, inl, inr, String, List, [], ◌∷◌, ◌++◌, ◌≡◌, refl, sym, ap, ◌∙◌, subst,
  All, Option-cases, Sum-cases, string_eq,
}
use korea_public_data_be.Dict
use korea_public_data_be.Cqrs.Defs.{
  Call, before_execute, after_execute, on_error, handle, Middleware, asked, run, Bus, before_all,
  after_all, error_all, ended, or_else, handled, attempt, recovered, execute,
}

module _ {X : Type 0} (hook : X → Option (Option String)) (call : X → Call) where
  -- The calls of those that have the hook
  abbrev pub calls : List X → List Call
  calls [] = []
  calls (m ∷ ms) = let rest = calls ms in elim (hook m) [ none ↦ rest | some _ ↦ call m ∷ rest ]

  -- None of the hooks raises.
  abbrev pub Returns : List X → Type 0
  Returns ms = All (λ m. (hook m ≡ none) ⊎ (hook m ≡ some none)) ms

  pub run-calls : (ms : List X) → Returns ms → run hook call ms ≡ (calls ms, none)
  unfolding run
  run-calls [] h = refl
  run-calls (m ∷ ms) h = elim h.0 [
    | inl e ↦ rw (e, run, calls) (run-calls ms h.1)
    | inr e ↦ rw (e, run, calls) (ap (λ x. (call m ∷ x.0, x.1)) (run-calls ms h.1))
  ]

  pub run-Returns : (ms : List X) → (run hook call ms).1 ≡ none → Returns ms
  unfolding run
  run-Returns [] h = tt
  run-Returns (m ∷ ms) h = elim (Option-cases (hook m)) [
    | inl e ↦ (inl e, run-Returns ms (rw (e, run) at h))
    | inr (o, e) ↦ elim (Option-cases o) [
      | inl n ↦ (inr (e ∙ ap (λ x. some x) n), run-Returns ms (rw n at (rw (e, run) at h)))
      | inr (x, y) ↦ absurd (some≢none (rw y at (rw (e, run) at h)))
    ]
  ]
    where
      some≢none : {x : String} → ◌≡◌ {A = Option String} (some x) none → ⊥
      some≢none e = cc

pub raised≢ : {R : Type 0} {e : String} {r : R} → ◌≡◌ {A = String ⊎ R} (inl e) (inr r) → ⊥
raised≢ h = cc

pub returned-injective : {R : Type 0} {r s : R} → ◌≡◌ {A = String ⊎ R} (inr r) (inr s) → r ≡ s
returned-injective {R} {r} h = ap (λ x. elim x [ inl _ ↦ r | inr y ↦ y ]) h

module _ {M R : Type 0} (b : Bus M R) where
  -- The hooks before a command, after its result and after an exception
  abbrev pub ask_before : M → Middleware M R → Option (Option String)
  ask_before c m = asked m.before c

  abbrev pub ask_after : M → R → Middleware M R → Option (Option String)
  ask_after c r m = asked m.after (c, r)

  abbrev pub ask_error : M → String → Middleware M R → Option (Option String)
  ask_error c e m = asked m.error (c, e)

  abbrev pub call_before : Middleware M R → Call
  call_before m = before_execute m.name

  abbrev pub call_after : Middleware M R → Call
  call_after m = after_execute m.name

  abbrev pub call_error : Middleware M R → Call
  call_error m = on_error m.name

  -- What a success calls
  abbrev pub trace : M → R → List Call
  trace c r =
      calls (ask_before c) call_before b.middleware
      ++ (handle ∷ calls (ask_after c r) call_after (reverse b.middleware))

  -- The handler and the hooks around it return.
  abbrev pub Fine : (M → String ⊎ R) → M → R → Type 0
  Fine h c r =
      (h c ≡ inr r)
      × Returns (ask_before c) call_before b.middleware
      × Returns (ask_after c r) call_after (reverse b.middleware)

  attempt-trace :
      (h : M → String ⊎ R) (c : M) (r : R) → Fine h c r → attempt b h c ≡ (trace c r, inr r)
  unfolding before_all after_all attempt handled
  attempt-trace h c r (returns, first, last) =
      let f : before_all b c ≡ (calls (ask_before c) call_before b.middleware, none) =
        run-calls (ask_before c) call_before b.middleware first in
      let l : after_all b c r ≡ (calls (ask_after c r) call_after (reverse b.middleware), none) =
        run-calls (ask_after c r) call_after (reverse b.middleware) last in
      subst
        (λ p.
          (elim p.1 [ none ↦ handled b c p.0 (h c) | some e ↦ (p.0, inl e) ]) ≡ (trace c r, inr r))
        (sym f)
        (rw (returns, handled) (ap (ended r (calls (ask_before c) call_before b.middleware)) l))

  ended-Fine :
      (h : M → String ⊎ R) (c : M) (r s : R) (log : List Call)
      → h c ≡ inr s
      → Returns (ask_before c) call_before b.middleware
      → (ended s log (after_all b c s)).1 ≡ inr r
      → Fine h c r
  unfolding after_all
  ended-Fine h c r s log returns first e = elim (Option-cases (after_all b c s).1) [
    | inr (x, o) ↦ absurd (raised≢ (rw (o, ended) at e))
    | inl o ↦
        let same : s ≡ r = returned-injective (rw (o, ended) at e) in
        subst (λ v. Fine h c v) same
          (returns, first, run-Returns (ask_after c s) call_after (reverse b.middleware) o)
  ]

  attempt-Fine : (h : M → String ⊎ R) (c : M) (r : R) → (attempt b h c).1 ≡ inr r → Fine h c r
  unfolding attempt before_all handled
  attempt-Fine h c r e = elim (Option-cases (before_all b c).1) [
    | inr (x, o) ↦ absurd (raised≢ (rw (o, attempt) at e))
    | inl o ↦
        let first = run-Returns (ask_before c) call_before b.middleware o in
        elim (Sum-cases (h c)) [
          | inl (x, f) ↦ absurd (raised≢ (rw f at (rw (o, attempt) at e)))
          | inr (s, f) ↦
              ended-Fine h c r s (before_all b c).0 f first (rw f at (rw (o, attempt) at e))
        ]
  ]

  pub recovered-returned :
      (c : M) (x : List Call × (String ⊎ R)) (r : R) → (recovered b c x).1 ≡ inr r → x.1 ≡ inr r
  unfolding recovered
  recovered-returned c (log, inr s) r e = e
  recovered-returned c (log, inl x) r e = absurd (raised≢ e)

  recovered-raised :
      (c : M) (x : List Call × (String ⊎ R)) (e : String)
      → x.1 ≡ inl e
      → Returns (ask_error c e) call_error (reverse b.middleware)
      → recovered b c x ≡ (x.0 ++ calls (ask_error c e) call_error (reverse b.middleware), inl e)
  unfolding recovered error_all
  recovered-raised c (log, inr s) e r quiet = absurd (raised≢ (sym r))
  recovered-raised c (log, inl f) e r quiet =
      let same : e ≡ f = ap (λ x. elim x [ inl y ↦ y | inr _ ↦ e ]) (sym r) in
      let l = run-calls (ask_error c e) call_error (reverse b.middleware) quiet in
      subst
        (λ g.
          recovered b c (log, inl g)
          ≡ (log ++ calls (ask_error c e) call_error (reverse b.middleware), inl e))
        same (ap (λ x. (log ++ x.0, inl (or_else x.1 e))) l)

  -- A registered handler's result is returned exactly where neither it nor a hook before or after it
  -- raises; then the hooks before are called in the order of the middleware, the handler, and the hooks
  -- after in the opposite order, and nothing else.
  pub execute-trace :
      (t : String) (c : M) (h : M → String ⊎ R) (r : R)
      → Dict.get b.handlers t ≡ some h
      → (Fine h c r → execute b t c ≡ (trace c r, inr r)) × ((execute b t c).1 ≡ inr r → Fine h c r)
  unfolding execute
  execute-trace t c h r e =
      let step : execute b t c ≡ recovered b c (attempt b h c) = rw (e, execute) in
      (
        λ fine. step ∙ ap (recovered b c) (attempt-trace h c r fine),
        λ done.
            attempt-Fine h c r
              (recovered-returned c (attempt b h c) r (sym (ap (λ x. x.1) step) ∙ done)),
      )

  -- Where the hooks for errors return, an exception of the handler or of a hook before or after it is
  -- raised again, after the hooks for errors have been called with it in the opposite order of the middleware.
  pub execute-raises :
      (t : String) (c : M) (h : M → String ⊎ R) (e : String)
      → Dict.get b.handlers t ≡ some h
      → Returns (ask_error c e) call_error (reverse b.middleware)
      → (attempt b h c).1 ≡ inl e
      → execute b t c
        ≡ ((attempt b h c).0 ++ calls (ask_error c e) call_error (reverse b.middleware), inl e)
  unfolding execute
  execute-raises t c h e known quiet raised =
      rw (known, execute) (recovered-raised c (attempt b h c) e raised quiet)

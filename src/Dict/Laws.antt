-- ===== src/Dict/Laws.antt =====
-- What a read returns after a write or a deletion.
use mathlib.Core.Path.{subst, sym}
use korea_public_data_be.Base.{
  true≢false, ◌≡◌, refl, ap, true, false, none, some, [], ◌∷◌, arith, HasEquality, ◌==◌,
  if◌then◌else◌, equals_refl, equals-eq, All, Bool-cases, inl, inr,
}
use korea_public_data_be.Dict.Defs.{Dict, get, get_or, put, remove, has}

module _ {ℓ κ} {K : Type ℓ} ⦃e : HasEquality K⦄ {V : Type κ} where
  pub get-put :
      (d : Dict K V) (k j : K) (v : V) → get (put d k v) j ≡ (if k == j then some v else get d j)
  unfolding get put
  get-put [] k j v = refl
  get-put ((i, w) ∷ d) k j v =
      ground (arith, e.equals_iff k j, e.equals_iff i k, e.equals_iff i j, get-put d k j v)

  pub get-put_self : (d : Dict K V) (k : K) (v : V) → get (put d k v) k ≡ some v
  get-put_self d k v = ground (arith, get-put d k k v, equals_refl k)

  pub get_or-put :
      (d : Dict K V) (k j : K) (v w : V)
      → get_or (put d k v) j w ≡ (if k == j then v else get_or d j w)
  unfolding get_or
  get_or-put d k j v w = elim (Bool-cases (k == j)) [
    | inl e ↦ rw (get-put d k j v, get_or) (rw e)
    | inr e ↦ rw (get-put d k j v, get_or) (rw e)
  ]

  pub get-remove :
      (d : Dict K V) (k j : K) → get (remove d k) j ≡ (if k == j then none else get d j)
  unfolding get remove
  get-remove [] k j = ground arith
  get-remove ((i, w) ∷ d) k j =
      ground (arith, e.equals_iff k j, e.equals_iff i k, e.equals_iff i j, get-remove d k j)

  pub get_or-remove :
      (d : Dict K V) (k j : K) (w : V)
      → get_or (remove d k) j w ≡ (if k == j then w else get_or d j w)
  unfolding get_or
  get_or-remove d k j w = elim (Bool-cases (k == j)) [
    | inl e ↦ rw (get-remove d k j, get_or) (rw e)
    | inr e ↦ rw (get-remove d k j, get_or) (rw e)
  ]

  pub has-put :
      (d : Dict K V) (k j : K) (v : V) → has (put d k v) j ≡ (if k == j then true else has d j)
  unfolding has put
  has-put [] k j v = refl
  has-put ((i, w) ∷ d) k j v =
      ground (arith, e.equals_iff k j, e.equals_iff i k, e.equals_iff i j, has-put d k j v)

  pub has-remove :
      (d : Dict K V) (k j : K) → has (remove d k) j ≡ (if k == j then false else has d j)
  unfolding has remove
  has-remove [] k j = ground arith
  has-remove ((i, w) ∷ d) k j =
      ground (arith, e.equals_iff k j, e.equals_iff i k, e.equals_iff i j, has-remove d k j)

  -- `k in d` tells whether d.get(k) finds a value.
  pub has-get : (d : Dict K V) (k : K) → has d k ≡ elim (get d k) [ none ↦ false | some _ ↦ true ]
  unfolding has get
  has-get [] k = refl
  has-get ((i, w) ∷ d) k = ground (arith, has-get d k)

  -- d.get(k, w) for an absent key
  pub get_or_absent : (d : Dict K V) (k : K) (w : V) → has d k ≡ false → get_or d k w ≡ w
  unfolding get_or has get
  get_or_absent [] k w h = refl
  get_or_absent ((i, v) ∷ d) k w h = elim (Bool-cases (i == k)) [
    | inl e ↦ absurd (true≢false (rw e at h))
    | inr e ↦ rw (e, get_or, get) (get_or_absent d k w (rw e at h))
  ]

  -- No key stands twice.
  abbrev pub HasDistinctKeys : Dict K V → Type 0
  HasDistinctKeys [] = Unit
  HasDistinctKeys ((k, v) ∷ d) = (has d k ≡ false) × HasDistinctKeys d

  pub put-HasDistinctKeys :
      (d : Dict K V) (k : K) (v : V) → HasDistinctKeys d → HasDistinctKeys (put d k v)
  unfolding put has
  put-HasDistinctKeys [] k v h = (refl, tt)
  put-HasDistinctKeys ((i, w) ∷ d) k v h =
      ground
        (arith, e.equals_iff i k, e.equals_iff k i, has-put d k i v, put-HasDistinctKeys d k v h.1)

  pub remove-HasDistinctKeys :
      (d : Dict K V) (k : K) → HasDistinctKeys d → HasDistinctKeys (remove d k)
  unfolding remove
  remove-HasDistinctKeys [] k h = tt
  remove-HasDistinctKeys ((i, w) ∷ d) k h =
      ground (arith, has-remove d k i, remove-HasDistinctKeys d k h.1)

  module _ {μ} (P : K × V → Type μ) where
    pub put-All : (d : Dict K V) (k : K) (v : V) → All P d → P (k, v) → All P (put d k v)
    unfolding put
    put-All [] k v h p = (p, tt)
    put-All ((i, w) ∷ d) k v h p = elim (Bool-cases (i == k)) [
      | inl same ↦ rw same (subst (λ x. P (x, v)) (sym (equals-eq same)) p, h.1)
      | inr other ↦ rw other (h.0, put-All d k v h.1 p)
    ]

    pub remove-All : (d : Dict K V) (k : K) → All P d → All P (remove d k)
    unfolding remove
    remove-All [] k h = tt
    remove-All ((i, w) ∷ d) k h = elim (Bool-cases (i == k)) [
      | inl same ↦ rw same (remove-All d k h.1)
      | inr other ↦ rw other (h.0, remove-All d k h.1)
    ]

    pub All-get : (d : Dict K V) (k : K) (v : V) → All P d → get d k ≡ some v → P (k, v)
    unfolding get
    All-get [] k v h g = cc
    All-get ((j, w) ∷ d) k v h g = elim (Bool-cases (j == k)) [
      | inl same ↦
          let key : j ≡ k = equals-eq same in
          let entry : w ≡ v = ap (λ o. elim o [ none ↦ w | some x ↦ x ]) (rw same at g) in
          subst P (λ i. (key i, entry i)) h.0
      | inr other ↦ All-get d k v h.1 (rw other at g)
    ]

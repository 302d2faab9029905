-- ===== src/DataRequests/Lookup.antt =====
-- Finding and changing the first document that a query is true of.
use korea_public_data_be.Base.{
  ◌≤◌, Bool, true, false, ◌&&◌, ◌≡◌, ◌==◌, refl, sym, ap, ◌∙◌, subst, inl, inr, arith, true≢false,
  Bool-cases, none, some, String, List, [], ◌∷◌, length, keep, string_eq, equals_refl, equals-eq,
}
use korea_public_data_be.DataRequests.Collection.{first, update_first, matched}

some_injective : {A : Type 0} {a b : A} → some a ≡ some b → a ≡ b
some_injective h = cc

and_false : (b : Bool) → (b && false) ≡ false
and_false true = refl
and_false false = refl

module _ {D : Type 0} (id : D → String) where
  -- No two documents have an id in common, as MongoDB's index of ids sees to.
  abbrev pub HasDistinctIds : List D → Type 0
  HasDistinctIds [] = Unit
  HasDistinctIds (d ∷ ds) = (matched (λ x. id x == id d) ds ≡ false) × HasDistinctIds ds

module _ {D : Type 0} where
  -- What is found is in the list.
  pub found-matched :
      (query test : D → Bool) (ds : List D) {r : D}
      → first query ds ≡ some r
      → test r ≡ true
      → matched test ds ≡ true
  found-matched query test [] h t = cc
  found-matched query test (d ∷ ds) {r} h t = elim (Bool-cases (query d)) [
    | inl found ↦ rw (subst (λ x. test x ≡ true) (sym (some_injective (rw found at h))) t)
    | inr other ↦ elim (Bool-cases (test d)) [
      | inl yes_too ↦ rw yes_too
      | inr not_yet ↦ rw not_yet (found-matched query test ds (rw other at h) t)
    ]
  ]

  pub first_true :
      (query : D → Bool) (ds : List D) {r : D} → first query ds ≡ some r → query r ≡ true
  first_true query [] h = cc
  first_true query (d ∷ ds) {r} h = elim (Bool-cases (query d)) [
    | inl found ↦ subst (λ x. query x ≡ true) (some_injective (rw found at h)) found
    | inr other ↦ first_true query ds (rw other at h)
  ]

  pub first_unmatched :
      (query : D → Bool) (ds : List D) → matched query ds ≡ false → first query ds ≡ none
  first_unmatched query [] h = refl
  first_unmatched query (d ∷ ds) h = elim (Bool-cases (query d)) [
    | inl found ↦ absurd (true≢false (sym (rw found) ∙ h))
    | inr other ↦ rw other (first_unmatched query ds (rw other at h))
  ]

  -- With distinct ids an update by the id of a document that is found changes that document.
  pub first-update_first :
      (id : D → String) (query : D → Bool) (change : D → D) (ds : List D) (r : D)
      → HasDistinctIds id ds
      → first query ds ≡ some r
      → query (change r) ≡ true
      → first query (update_first (λ d. id d == id r) change ds) ≡ some (change r)
  first-update_first id query change [] r h f q = cc
  first-update_first id query change (d ∷ ds) r h f q = elim (Bool-cases (query d)) [
    | inl found ↦
        let same = some_injective (rw found at f) in
        let hit = subst (λ x. (id x == id r) ≡ true) (sym same) (equals_refl (id r)) in
        rw hit (subst (λ x. first query (change x ∷ ds) ≡ some (change r)) (sym same) (rw q))
    | inr other ↦ elim (Bool-cases (id d == id r)) [
      | inl same ↦
          let there =
            found-matched query (λ x. id x == id d) ds (rw other at f)
              (subst (λ x. (id r == x) ≡ true) (sym (equals-eq same)) (equals_refl (id r))) in
          absurd (true≢false (sym there ∙ h.0))
      | inr differs ↦
          rw (differs, other) (first-update_first id query change ds r h.1 (rw other at f) q)
    ]
  ]

  -- Where nothing meets a test, nothing meets a narrower query.
  pub unkept :
      (test active : D → Bool) (ds : List D)
      → length (keep test ds) ≤ 0
      → first (λ d. test d && active d) ds ≡ none
  unkept test active [] h = refl
  unkept test active (d ∷ ds) h = elim (Bool-cases (test d)) [
    | inl found ↦ absurd (omega (arith, rw found at h))
    | inr other ↦ rw other (unkept test active ds (rw other at h))
  ]

  -- An update by a query that changes nothing in what it finds changes nothing.
  pub update_first_same :
      (query : D → Bool) (change : D → D) (ds : List D) (r : D)
      → first query ds ≡ some r
      → change r ≡ r
      → update_first query change ds ≡ ds
  update_first_same query change [] r f same = refl
  update_first_same query change (d ∷ ds) r f same = elim (Bool-cases (query d)) [
    | inl found ↦
        rw found
          (ap (λ x. x ∷ ds) (subst (λ x. change x ≡ x) (sym (some_injective (rw found at f))) same))
    | inr other ↦
        rw other (ap (λ xs. d ∷ xs) (update_first_same query change ds r (rw other at f) same))
  ]

  -- Where at most one document meets a test, and an update of that one takes it out of a narrower query,
  -- nothing meets the query afterwards.
  pub switched_off_none :
      (test active : D → Bool) (change : D → D) (ds : List D)
      → length (keep test ds) ≤ 1
      → ((d : D) → active (change d) ≡ false)
      → first (λ d. test d && active d) (update_first test change ds) ≡ none
  switched_off_none test active change [] h off = refl
  switched_off_none test active change (d ∷ ds) h off = elim (Bool-cases (test d)) [
    | inl found ↦
        let alone = unkept test active ds (omega (arith, rw found at h)) in
        rw (found, off d, and_false (test (change d))) alone
    | inr other ↦ rw (other, other) (switched_off_none test active change ds (rw other at h) off)
  ]

-- ===== src/Plugins/Remaining.antt =====
-- The dependencies that are still missing, for Kahn's algorithm in app/core/plugins/registry.py.
use korea_public_data_be.Base.{
  ℕ, suc, ◌+◌, ◌≤◌, true, false, ◌⊎◌, inl, inr, String, List, [], ◌∷◌, ◌++◌, string_eq,
  if◌then◌else◌, elem, length, ◌≡◌, refl, ap, arith, Bool-cases, All, count, elem-append,
  equals_refl,
}

pub List-cases {ℓ} : {A : Type ℓ} (l : List A) → (l ≡ []) ⊎ ((x : A) × (xs : List A) × (l ≡ x ∷ xs))
List-cases [] = inl refl
List-cases (x ∷ xs) = inr (x, xs, refl)

-- How many of the names do not stand in the list
abbrev pub remaining : List String → List String → ℕ
remaining [] rs = 0
remaining (n ∷ ns) rs = let rest = remaining ns rs in if elem n rs then rest else suc rest

pub remaining_nil : (ns : List String) → remaining ns [] ≡ length ns
remaining_nil [] = refl
remaining_nil (n ∷ ns) = ap suc (remaining_nil ns)

pub remaining-append_one :
    (ns rs : List String) (d : String)
    → elem d rs ≡ false
    → remaining ns rs ≡ remaining ns (rs ++ (d ∷ [])) + count d ns
remaining-append_one [] rs d h = omega arith
remaining-append_one (n ∷ ns) rs d h = ground (
  arith,
  remaining-append_one ns rs d h,
  elem-append n rs (d ∷ []),
  string_eq.equals_iff n d,
  string_eq.equals_iff d n,
  h,
)

pub All-remaining : (ns rs : List String) → remaining ns rs ≡ 0 → All (λ n. elem n rs ≡ true) ns
All-remaining [] rs h = tt
All-remaining (n ∷ ns) rs h = elim (Bool-cases (elem n rs)) [
  | inl e ↦ (e, All-remaining ns rs (rw e at h))
  | inr e ↦ absurd (omega (arith, rw e at h))
]

pub left_over :
    (ns rs : List String)
    → 1 ≤ remaining ns rs
    → (d : String) × (elem d ns ≡ true) × (elem d rs ≡ false)
left_over [] rs h = absurd (omega (arith, h))
left_over (n ∷ ns) rs h = elim (Bool-cases (elem n rs)) [
  | inr e ↦ (n, rw (equals_refl n), e)
  | inl e ↦ let (d, there, out) = left_over ns rs (rw e at h) in (d, ground (arith, there), out)
]

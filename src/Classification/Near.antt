-- ===== src/Classification/Near.antt =====
-- The suggestions for a content code with a typing error, of app/shared/classification/validators.py.
use native.Mathlib.Nat.{le_trans}
use korea_public_data_be.Base.{
  nat_eq, ℕ, ◌≤◌, Bool, true, false, inl, inr, ◌≡◌, refl, sym, ◌∙◌, subst, arith, false≢true,
  Bool-cases, String, List, [], ◌∷◌, ◌++◌, ◌==◌, leb, if◌then◌else◌, All, length, take, take_all,
  elem, elem-append, string_eq, equals-eq, equals_refl, length-Contained, count, count-append,
  absent-count, elem-count,
}
use korea_public_data_be.Classification.EditDistance.{simple_edit_distance}
use korea_public_data_be.Classification.Distance.{simple_edit_distance-IsLeast}
use korea_public_data_be.Classification.Edits.{Edits}
use korea_public_data_be.Classification.Codes.{content_codes, characters, PythonText, add_new}
use korea_public_data_be.Classification.Content

-- A list of content codes, each of them once
pub record IsCodeSet (xs : List String) : Type 0 where
  pub once : (a : String) → count a xs ≤ 1
  pub among : (a : String) → elem a xs ≡ true → elem a content_codes ≡ true

appended_once :
    (x a : String) (xs : List String)
    → elem x xs ≡ false
    → count a xs ≤ 1
    → count a (xs ++ (x ∷ [])) ≤ 1
appended_once x a xs new h = elim (Bool-cases (x == a)) [
  | inl same ↦
      let none_yet = absent-count a xs (subst (λ z. elem z xs ≡ false) (equals-eq same) new) in
      rw count-append (rw same (omega (arith, none_yet)))
  | inr other ↦ rw count-append (rw other (omega (arith, h)))
]

appended-elem :
    (x a : String) (xs : List String)
    → elem x content_codes ≡ true
    → (elem a xs ≡ true → elem a content_codes ≡ true)
    → elem a (xs ++ (x ∷ [])) ≡ true
    → elem a content_codes ≡ true
appended-elem x a xs valid old h = elim (Bool-cases (x == a)) [
  | inl same ↦ subst (λ z. elem z content_codes ≡ true) (equals-eq same) valid
  | inr other ↦ elim (Bool-cases (elem a xs)) [
    | inl there ↦ old there
    | inr missing ↦ absurd (false≢true (sym (elem-append a xs (x ∷ []) ∙ rw (missing, other)) ∙ h))
  ]
]

add_new-IsCodeSet :
    (x : String) (xs : List String)
    → elem x content_codes ≡ true
    → IsCodeSet xs
    → IsCodeSet (add_new x xs)
add_new-IsCodeSet x xs valid s = elim (Bool-cases (elem x xs)) [
  | inl old ↦ rw old s
  | inr new ↦ rw new (record {
    once = λ a. appended_once x a xs new (s.once a);
    among = λ a. appended-elem x a xs valid (s.among a);
  })
]

-- No more than the three codes
length-IsCodeSet-le : (xs : List String) → IsCodeSet xs → length xs ≤ 3
length-IsCodeSet-le xs s = length-Contained xs content_codes (λ a. elim (Bool-cases (elem a xs)) [
  | inl there ↦ le_trans (s.once a) (elem-count a content_codes (s.among a there))
  | inr missing ↦ rw (absent-count a xs missing) (omega arith)
])

-- What is in a list stays there, and what is added is there.
elem-add_new : (a x : String) (xs : List String) → elem a xs ≡ true → elem a (add_new x xs) ≡ true
elem-add_new a x xs h = elim (Bool-cases (elem x xs)) [
  | inl old ↦ rw old h
  | inr new ↦ rw new (rw elem-append (rw h))
]

elem-add_new_self : (x : String) (xs : List String) → elem x (add_new x xs) ≡ true
elem-add_new_self x xs = elim (Bool-cases (elem x xs)) [
  | inl old ↦ rw old old
  | inr new ↦ rw new (rw elem-append (rw (new, equals_refl x)))
]

-- A step of a loop that adds a code where a test says so
either-IsCodeSet :
    (test : Bool) (x : String) (xs : List String)
    → elem x content_codes ≡ true
    → IsCodeSet xs
    → IsCodeSet (if test then add_new x xs else xs)
either-IsCodeSet true x xs valid s = add_new-IsCodeSet x xs valid s
either-IsCodeSet false x xs valid s = s

elem-either :
    (test : Bool) (a x : String) (xs : List String)
    → elem a xs ≡ true
    → elem a (if test then add_new x xs else xs) ≡ true
elem-either true a x xs h = elem-add_new a x xs h
elem-either false a x xs h = h

empty-IsCodeSet : IsCodeSet []
empty-IsCodeSet = record { once = λ a. omega arith; among = λ a h. absurd (false≢true h) }

add_near-IsCodeSet :
    (text : String) (cs xs : List String)
    → All (λ c. elem c content_codes ≡ true) cs
    → IsCodeSet xs
    → IsCodeSet (Content.add_near text cs xs)
unfolding Content.add_near
add_near-IsCodeSet text [] xs a s = s
add_near-IsCodeSet text (c ∷ cs) xs a s =
    let test = leb (simple_edit_distance (characters text) (characters c)) 2 in
    add_near-IsCodeSet text cs (if test then add_new c xs else xs) a.1
      (either-IsCodeSet test c xs a.0 s)

elem-add_near :
    (text a : String) (cs xs : List String)
    → elem a xs ≡ true
    → elem a (Content.add_near text cs xs) ≡ true
unfolding Content.add_near
elem-add_near text a [] xs h = h
elem-add_near text a (c ∷ cs) xs h =
    let test = leb (simple_edit_distance (characters text) (characters c)) 2 in
    elem-add_near text a cs (if test then add_new c xs else xs) (elem-either test a c xs h)

-- The loop adds each code that is near.
added-add_near :
    (text a : String) (cs xs : List String)
    → elem a cs ≡ true
    → leb (simple_edit_distance (characters text) (characters a)) 2 ≡ true
    → elem a (Content.add_near text cs xs) ≡ true
unfolding Content.add_near
added-add_near text a [] xs there near = absurd (false≢true there)
added-add_near text a (c ∷ cs) xs there near = elim (Bool-cases (c == a)) [
  | inl same ↦
      subst (λ z. elem a (Content.add_near text (z ∷ cs) xs) ≡ true) (sym (equals-eq same))
        (rw near (elem-add_near text a cs (add_new a xs) (elem-add_new_self a xs)))
  | inr other ↦ added-add_near text a cs _ (rw other at there) near
]

-- Every keyword stands for one of the codes.
keywords : All (λ k. elem k.1 content_codes ≡ true) Content.keyword_mapping
keywords = (
  refl,
  (
    refl,
    (
      refl,
      (refl, (refl, (refl, (refl, (refl, (refl, (refl, (refl, (refl, (refl, (refl, tt))))))))))),
    ),
  ),
)

exact-IsCodeSet : (text : String) → IsCodeSet (if elem text content_codes then text ∷ [] else [])
exact-IsCodeSet text = elim (Bool-cases (elem text content_codes)) [
  | inl valid ↦ rw valid (add_new-IsCodeSet text [] valid empty-IsCodeSet)
  | inr other ↦ rw other empty-IsCodeSet
]

-- Nothing of a found list is cut off.
elem-taken :
    (a : String) (xs : List String)
    → IsCodeSet xs
    → elem a xs ≡ true
    → elem a (take 3 (Content.or_all xs)) ≡ true
elem-taken a [] s h = absurd (false≢true h)
elem-taken a (x ∷ xs) s h =
    subst (λ ys. elem a ys ≡ true) (sym (take_all 3 (x ∷ xs) (length-IsCodeSet-le (x ∷ xs) s))) h

two-leb : (d n : ℕ) → d ≤ n → n ≤ 2 → leb d 2 ≡ true
two-leb d n h k = ground arith

module _ (py : PythonText) where
  open py use {lower, contains}

  add_by_keyword-IsCodeSet :
      (text : String) (ks : List (String × String)) (xs : List String)
      → All (λ k. elem k.1 content_codes ≡ true) ks
      → IsCodeSet xs
      → IsCodeSet (Content.add_by_keyword py text ks xs)
  unfolding Content.add_by_keyword
  add_by_keyword-IsCodeSet text [] xs a s = s
  add_by_keyword-IsCodeSet text ((keyword, code) ∷ ks) xs a s =
      add_by_keyword-IsCodeSet text ks
        (if contains (lower keyword) text then add_new code xs else xs) a.1
        (either-IsCodeSet (contains (lower keyword) text) code xs a.0 s)

  found-IsCodeSet : (text : String) → IsCodeSet (Content.found_suggestions py text)
  unfolding Content.found_suggestions
  found-IsCodeSet text =
      let exact = if elem text content_codes then text ∷ [] else [] in
      add_near-IsCodeSet text content_codes
        (Content.add_by_keyword py text Content.keyword_mapping exact) (refl, (refl, (refl, tt)))
        (add_by_keyword-IsCodeSet text Content.keyword_mapping exact keywords
          (exact-IsCodeSet text))

  found_near :
      (text c : String)
      → elem c content_codes ≡ true
      → leb (simple_edit_distance (characters text) (characters c)) 2 ≡ true
      → elem c (Content.found_suggestions py text) ≡ true
  unfolding Content.found_suggestions
  found_near text c valid near =
      added-add_near text c content_codes
        (Content.add_by_keyword py text Content.keyword_mapping
          (if elem text content_codes then text ∷ [] else []))
        valid near

  -- A valid content code is suggested for a text wherever two edits at most make it of the text in small
  -- letters.
  pub get_suggestions_near :
      (code c : String) (n : ℕ)
      → elem c content_codes ≡ true
      → Edits (characters (lower code)) (characters c) n
      → n ≤ 2
      → elem c (Content.get_suggestions py code) ≡ true
  unfolding Content.get_suggestions
  get_suggestions_near code c n valid s h =
      let text = lower code in
      let distance = simple_edit_distance (characters text) (characters c) in
      let least = (simple_edit_distance-IsLeast (characters text) (characters c)).1 n s in
      elem-taken c (Content.found_suggestions py text) (found-IsCodeSet text)
        (found_near text c valid (two-leb distance n least h))

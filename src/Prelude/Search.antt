-- ===== src/Prelude/Search.antt =====
-- Searching, filtering and sorting lists by Boolean tests.

use mathlib.Core.Path.{◌≡◌, refl, subst}
use mathlib.Core.Logic.{◌↔◌, inl, inr}
use mathlib.Core.Bool.{Bool, true, false, ◌&&◌, ◌||◌}
use mathlib.Core.List.{List, [], ◌∷◌, ◌++◌}
use d_plane_os.Prelude.Tests.{if◌then◌else◌, Bool-cases}
use d_plane_os.Prelude.Lists.{In, All}

or_swap : (a b c : Bool) → a || (b || c) ≡ b || (a || c)
or_swap true true c = refl
or_swap true false c = refl
or_swap false b c = refl

module _ {A : Type 0} where
  abbrev pub any : (A → Bool) → List A → Bool
  any p [] = false
  any p (x ∷ xs) = p x || any p xs

  abbrev pub filter : (A → Bool) → List A → List A
  filter p [] = []
  filter p (x ∷ xs) = let rest = filter p xs in if p x then x ∷ rest else rest

  abbrev pub insert_by : (A → A → Bool) → A → List A → List A
  insert_by less x [] = x ∷ []
  insert_by less x (y ∷ ys) =
      let rest = insert_by less x ys in if less y x then y ∷ rest else x ∷ y ∷ ys

  -- Sorted by `less`, elements that are not apart in their order.
  abbrev pub sort_by : (A → A → Bool) → List A → List A
  sort_by less [] = []
  sort_by less (x ∷ xs) = insert_by less x (sort_by less xs)

  any-insert_by :
      (p : A → Bool) (less : A → A → Bool) (x : A) (ys : List A)
      → any p (insert_by less x ys) ≡ p x || any p ys
  any-insert_by p less x [] = refl
  any-insert_by p less x (y ∷ ys) = elim (Bool-cases (less y x)) [
    | inl e ↦ rw (e, if◌then◌else◌, any-insert_by p less x ys) (or_swap (p y) (p x) (any p ys))
    | inr e ↦ rw (e, if◌then◌else◌) refl
  ]

  -- Whether an element passes does not depend on the order.
  pub any-sort_by :
      (p : A → Bool) (less : A → A → Bool) (xs : List A) → any p (sort_by less xs) ≡ any p xs
  any-sort_by p less [] = refl
  any-sort_by p less (x ∷ xs) = rw (any-insert_by, any-sort_by p less xs) refl

  pub any-filter : (p q : A → Bool) (xs : List A) → any p (filter q xs) ≡ any (λ x. q x && p x) xs
  any-filter p q [] = refl
  any-filter p q (x ∷ xs) = elim (Bool-cases (q x)) [
    | inl e ↦ rw (e, if◌then◌else◌, any-filter p q xs) refl
    | inr e ↦ rw (e, if◌then◌else◌, any-filter p q xs) refl
  ]

  pub any_iff :
      (p : A → Bool) (xs : List A) → (any p xs ≡ true) ↔ ((x : A) × (In x xs × (p x ≡ true)))
  any_iff p [] = (λ h. cc, λ (x, (i, h)). absurd i)
  any_iff p (x ∷ xs) = elim (Bool-cases (p x)) [
    | inl e ↦ (λ h. (x, (inl refl, e)), λ h. rw e refl)
    | inr e ↦ (
      λ h. let (y, (i, h')) = (any_iff p xs).0 (rw e at h) in (y, (inr i, h')),
      λ (y, (i, h)).
          rw e (elim i [ inl q ↦ cc (e, h, q) | inr i' ↦ (any_iff p xs).1 (y, (i', h)) ]),
    )
  ]

module _ {A : Type 0} where
  pub In-append : (x : A) (xs ys : List A) → In x xs → In x (xs ++ ys)
  In-append x (y ∷ xs) ys (inl e) = inl e
  In-append x (y ∷ xs) ys (inr i) = inr (In-append x xs ys i)
  In-append x [] ys h = absurd h

  pub append-In : (x : A) (xs ys : List A) → In x ys → In x (xs ++ ys)
  append-In x [] ys i = i
  append-In x (y ∷ xs) ys i = inr (append-In x xs ys i)

  pub All-In : (P : A → Type 0) (x : A) (xs : List A) → All P xs → In x xs → P x
  All-In P x (y ∷ xs) h (inl e) = subst P e h.0
  All-In P x (y ∷ xs) h (inr i) = All-In P x xs h.1 i
  All-In P x [] h i = absurd i

  pub In-filter : (p : A → Bool) (x : A) (xs : List A) → p x ≡ true → In x xs → In x (filter p xs)
  In-filter p x [] h i = i
  In-filter p x (y ∷ xs) h (inl e) = rw (e, h, if◌then◌else◌) (inl refl)
  In-filter p x (y ∷ xs) h (inr i) = elim (Bool-cases (p y)) [
    | inl e ↦ rw (e, if◌then◌else◌) (inr (In-filter p x xs h i))
    | inr e ↦ rw (e, if◌then◌else◌) (In-filter p x xs h i)
  ]

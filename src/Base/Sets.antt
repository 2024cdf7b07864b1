-- ===== src/Base/Sets.antt =====
-- Python's `set`, as a list with no repeated entry, over a type with a Boolean equality.
use mathlib.Core.Path.{◌≡◌, refl}
use mathlib.Core.Logic.{◌↔◌, inl, inr}
use mathlib.Core.Bool.{Bool, true, false, ◌||◌}
use mathlib.Core.List.{List, [], ◌∷◌, ◌++◌}
use native.Mathlib.Omega.{arith}
use ads_b_flight_intelligenc.Base.Lists.{insert_by, sort_onto, sort_by}
use ads_b_flight_intelligenc.Base.Tests.{if◌then◌else◌, Bool-cases}

module _ {ℓ} {A : Type ℓ} (eq : A → A → Bool) where
  -- x in s
  unfoldable pub contains : A → List A → Bool
  contains x [] = false
  contains x (y ∷ ys) = eq y x || contains x ys

  -- s.add(x)
  unfoldable pub add : A → List A → List A
  unfolding contains
  add x s = if contains x s then s else s ++ x ∷ []

  -- s.discard(x)
  unfoldable pub discard : A → List A → List A
  discard x [] = []
  discard x (y ∷ ys) = let rest = discard x ys in if eq y x then rest else y ∷ rest

  -- No entry stands twice.
  abbrev pub Distinct : List A → Type 0
  Distinct [] = Unit
  Distinct (x ∷ xs) = (contains x xs ≡ false) × Distinct xs

module _ {ℓ} {A : Type ℓ} (eq : A → A → Bool)
    (eq_lawful : (a b : A) → (eq a b ≡ true) ↔ (a ≡ b)) where
  pub contains-append :
      (x : A) (xs ys : List A) → contains eq x (xs ++ ys) ≡ contains eq x xs || contains eq x ys
  unfolding contains
  contains-append x [] ys = refl
  contains-append x (y ∷ xs) ys = ground (arith, contains-append x xs ys)

  contains-single : (x y : A) → contains eq x (y ∷ []) ≡ eq y x
  unfolding contains
  contains-single x y = ground arith

  pub contains-snoc :
      (x y : A) (xs : List A) → contains eq x (xs ++ y ∷ []) ≡ contains eq x xs || eq y x
  contains-snoc x y xs = rw (contains-append x xs (y ∷ []), contains-single x y) refl

  pub contains-add :
      (x y : A) (xs : List A) → contains eq x (add eq y xs) ≡ contains eq x xs || eq y x
  unfolding add
  contains-add x y xs = elim (Bool-cases (contains eq y xs)) [
    | inl old ↦ rw old (elim (Bool-cases (eq y x)) [
      | inl same ↦ rw (← (eq_lawful y x).0 same) (rw old refl)
      | inr other ↦ ground arith
    ])
    | inr new ↦ rw (new, contains-snoc x y xs) refl
  ]

  pub contains-discard :
      (x y : A) (xs : List A)
      → contains eq x (discard eq y xs) ≡ (if eq y x then false else contains eq x xs)
  unfolding contains discard
  contains-discard x y [] = ground arith
  contains-discard x y (z ∷ xs) =
      ground (arith, eq_lawful y x, eq_lawful z x, eq_lawful z y, contains-discard x y xs)

  pub Distinct-snoc :
      (x : A) (xs : List A) → Distinct eq xs → contains eq x xs ≡ false → Distinct eq (xs ++ x ∷ [])
  unfolding contains
  Distinct-snoc x [] d h = (refl, tt)
  Distinct-snoc x (y ∷ xs) d h =
      ground (arith, Distinct-snoc x xs d.1, contains-snoc y x xs, eq_lawful x y, eq_lawful y x)

module _ {ℓ} {A : Type ℓ} (eq before : A → A → Bool) (x : A) where
  contains-insert_by :
      (y : A) (xs : List A) → contains eq x (insert_by before y xs) ≡ eq y x || contains eq x xs
  unfolding insert_by contains
  contains-insert_by y [] = refl
  contains-insert_by y (z ∷ xs) = ground (arith, contains-insert_by y xs)

  contains-sort_onto :
      (acc xs : List A)
      → contains eq x (sort_onto before acc xs) ≡ contains eq x acc || contains eq x xs
  unfolding sort_onto contains
  contains-sort_onto acc [] = ground arith
  contains-sort_onto acc (y ∷ xs) =
      ground (arith, contains-sort_onto (insert_by before y acc) xs, contains-insert_by y acc)

  -- Sorting keeps the entries.
  pub contains-sort_by : (xs : List A) → contains eq x (sort_by before xs) ≡ contains eq x xs
  unfolding sort_by contains
  contains-sort_by xs = contains-sort_onto [] xs

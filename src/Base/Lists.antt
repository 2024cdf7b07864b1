-- ===== src/Base/Lists.antt =====
-- Lists measured by native numbers, filtered by Boolean tests, and Python's stable sort.
use mathlib.Core.Path.{subst}
use Prim.Native.Nat.{ℕ, zero, suc, ◌+◌, ◌-◌, ◌≤◌}
use mathlib.Core.Path.{◌≡◌}
use mathlib.Core.Logic.{◌↔◌}
use mathlib.Core.Bool.{Bool, true, false, ◌||◌}
use mathlib.Core.Option.{Option, none, some}
use mathlib.Core.List.{List, [], ◌∷◌, ◌++◌}
use native.Mathlib.Omega.{arith}
use ads_b_flight_intelligenc.Base.Tests.{if◌then◌else◌}

module _ {ℓ} {A : Type ℓ} where
  abbrev pub length : List A → ℕ
  length [] = 0
  length (x ∷ xs) = suc (length xs)

  abbrev pub get_elem? : List A → ℕ → Option A
  get_elem? [] i = none
  get_elem? (x ∷ xs) zero = some x
  get_elem? (x ∷ xs) (suc i) = get_elem? xs i

  -- `xs[-1]`
  abbrev pub last_of : A → List A → A
  last_of x [] = x
  last_of x (y ∷ ys) = last_of y ys

  abbrev pub get_last? : List A → Option A
  get_last? [] = none
  get_last? (x ∷ xs) = some (last_of x xs)

  abbrev pub drop : ℕ → List A → List A
  drop zero xs = xs
  drop (suc n) [] = []
  drop (suc n) (x ∷ xs) = drop n xs

  -- `xs[:n]`
  abbrev pub take : ℕ → List A → List A
  take zero xs = []
  take (suc n) [] = []
  take (suc n) (x ∷ xs) = x ∷ take n xs

  -- `[x for x in xs if test(x)]`
  abbrev pub filter : (A → Bool) → List A → List A
  filter p [] = []
  filter p (x ∷ xs) = let rest = filter p xs in if p x then x ∷ rest else rest

  -- `any(test(x) for x in xs)`
  abbrev pub any_of : (A → Bool) → List A → Bool
  any_of p [] = false
  any_of p (x ∷ xs) = p x || any_of p xs

  -- The values of a list that satisfy a predicate.
  abbrev pub All {κ} : (A → Type κ) → List A → Type κ
  All P [] = Unit
  All P (x ∷ xs) = P x × All P xs

  -- Insertion into a sorted list, after the entries that are not greater: with `sort_by` below this
  -- is Python's `sorted`, which is stable.
  unfoldable pub insert_by : (A → A → Bool) → A → List A → List A
  insert_by before x [] = x ∷ []
  insert_by before x (y ∷ ys) = if before x y then x ∷ y ∷ ys else y ∷ insert_by before x ys

module _ {ℓ} {A : Type ℓ} where
  unfoldable pub sort_onto : (A → A → Bool) → List A → List A → List A
  sort_onto before acc [] = acc
  sort_onto before acc (x ∷ xs) = sort_onto before (insert_by before x acc) xs

  unfoldable pub sort_by : (A → A → Bool) → List A → List A
  unfolding sort_onto insert_by
  sort_by before xs = sort_onto before [] xs

module _ {ℓ} {A : Type ℓ} where
  pub length-append : (xs ys : List A) → length (xs ++ ys) ≡ length xs + length ys
  length-append [] ys = omega arith
  length-append (x ∷ xs) ys = omega (arith, length-append xs ys)

  pub length-drop : (n : ℕ) (xs : List A) → length (drop n xs) ≡ length xs - n
  length-drop zero xs = omega arith
  length-drop (suc n) [] = omega arith
  length-drop (suc n) (x ∷ xs) = omega (arith, length-drop n xs)

  pub length-filter-le : (p : A → Bool) (xs : List A) → length (filter p xs) ≤ length xs
  length-filter-le p [] = omega arith
  length-filter-le p (x ∷ xs) = ground (arith, length-filter-le p xs)

  pub any_of-All : (p : A → Bool) (xs : List A) → any_of p xs ≡ false ↔ All (λ x. p x ≡ false) xs
  any_of-All p [] = ground arith
  any_of-All p (x ∷ xs) = ground (arith, any_of-All p xs)

  pub All-append {κ} : (P : A → Type κ) (xs ys : List A) → All P xs → All P ys → All P (xs ++ ys)
  All-append P [] ys h k = k
  All-append P (x ∷ xs) ys h k = (h.0, All-append P xs ys h.1 k)

  pub All-drop {κ} : (P : A → Type κ) (n : ℕ) (xs : List A) → All P xs → All P (drop n xs)
  All-drop P zero xs h = h
  All-drop P (suc n) [] h = tt
  All-drop P (suc n) (x ∷ xs) h = All-drop P n xs h.1

  All-last_of {κ} : (P : A → Type κ) (x : A) (xs : List A) → P x → All P xs → P (last_of x xs)
  All-last_of P x [] h k = h
  All-last_of P x (y ∷ ys) h k = All-last_of P y ys k.0 k.1

  pub get_last?-All {κ} :
      (P : A → Type κ) (xs : List A) (y : A) → All P xs → get_last? xs ≡ some y → P y
  get_last?-All P [] y h k = absurd (cc)
  get_last?-All P (x ∷ xs) y h k =
      let same : last_of x xs ≡ y = ground arith in subst P same (All-last_of P x xs h.0 h.1)

  pub All-filter {κ} :
      (P : A → Type κ) (p : A → Bool) (xs : List A) → All P xs → All P (filter p xs)
  All-filter P p [] h = h
  All-filter P p (x ∷ xs) h =
      elim (p x) as (λ b. All P (if b then x ∷ filter p xs else filter p xs)) [
        | true ↦ (h.0, All-filter P p xs h.1)
        | false ↦ All-filter P p xs h.1
      ]

-- `if test: items.append(item)`, as the items that it appends
abbrev pub when {ℓ} : {A : Type ℓ} → Bool → A → List A
when test item = if test then item ∷ [] else []

pub when-nil {ℓ} : {A : Type ℓ} (b : Bool) (a : A) → (when b a ≡ []) ↔ (b ≡ false)
when-nil true a = ground arith
when-nil false a = ground arith

pub append-nil {ℓ} : {A : Type ℓ} (xs ys : List A) → (xs ++ ys ≡ []) ↔ ((xs ≡ []) × (ys ≡ []))
append-nil [] ys = ground arith
append-nil (x ∷ xs) ys = ground arith

pub append_when-nil {ℓ} :
    {A : Type ℓ} (b : Bool) (a : A) (ys : List A)
    → (when b a ++ ys ≡ []) ↔ ((b ≡ false) × (ys ≡ []))
append_when-nil true a ys = ground arith
append_when-nil false a ys = ground arith

-- ===== src/Base/Dict.antt =====
-- Python's `dict` with text keys, in insertion order.
use Prim.Native.Nat.{◌+◌, ◌≤◌}
use Prim.Native.String.{String}
use mathlib.Core.Path.{◌≡◌, refl, ◌∙◌, subst}
use mathlib.Core.Bool.{Bool, true, false, ◌&&◌, ◌||◌}
use mathlib.Core.Option.{Option, none, some}
use mathlib.Core.List.{List, [], ◌∷◌}
use native.Mathlib.Omega.{arith}
use text.Mathlib.Text.{◌==◌ as str_eq}
use text.Mathlib.TextEquality.{eq_iff}
use ads_b_flight_intelligenc.Base.Tests.{if◌then◌else◌, is_some, str_lt, Bool-cases}
use mathlib.Core.Logic.{inl, inr}
use ads_b_flight_intelligenc.Base.Lists.{length, All, insert_by, sort_onto, sort_by}

-- The order of the items of a dictionary under `sorted`: their keys differ.
abbrev pub item_before {ℓ} : {V : Type ℓ} → String × V → String × V → Bool
item_before a b = str_lt a.0 b.0

abbrev pub Dict {ℓ} : Type ℓ → Type ℓ
Dict V = List (String × V)

module _ {ℓ} {V : Type ℓ} where
  -- d.get(k)
  unfoldable pub lookup : String → Dict V → Option V
  lookup k [] = none
  lookup k ((j, v) ∷ d) = if str_eq j k then some v else lookup k d

  -- d[k] = v: a known key keeps its place.
  unfoldable pub insert : String → V → Dict V → Dict V
  insert k v [] = (k, v) ∷ []
  insert k v ((j, w) ∷ d) = if str_eq j k then (k, v) ∷ d else (j, w) ∷ insert k v d

  -- del d[k], d.pop(k, None)
  unfoldable pub erase : String → Dict V → Dict V
  erase k [] = []
  erase k ((j, v) ∷ d) = let rest = erase k d in if str_eq j k then rest else (j, v) ∷ rest

module _ {ℓ} {V : Type ℓ} where
  pub lookup-insert :
      (k j : String) (v : V) (d : Dict V)
      → lookup j (insert k v d) ≡ (if str_eq k j then some v else lookup j d)
  unfolding lookup insert
  lookup-insert k j v [] = refl
  lookup-insert k j v ((i, w) ∷ d) =
      ground (arith, eq_iff k j, eq_iff i k, eq_iff i j, lookup-insert k j v d)

  pub lookup-erase :
      (k j : String) (d : Dict V) → lookup j (erase k d) ≡ (if str_eq k j then none else lookup j d)
  unfolding lookup erase
  lookup-erase k j [] = ground arith
  lookup-erase k j ((i, w) ∷ d) =
      ground (arith, eq_iff k j, eq_iff i k, eq_iff i j, lookup-erase k j d)

  pub length-insert_known :
      (k : String) (v : V) (d : Dict V)
      → is_some (lookup k d) ≡ true
      → length (insert k v d) ≡ length d
  unfolding lookup insert
  length-insert_known k v [] h = cc
  length-insert_known k v ((i, w) ∷ d) h = ground (arith, length-insert_known k v d)

  pub length-insert-le : (k : String) (v : V) (d : Dict V) → length (insert k v d) ≤ length d + 1
  unfolding insert
  length-insert-le k v [] = omega arith
  length-insert-le k v ((i, w) ∷ d) = ground (arith, length-insert-le k v d)

  pub length-erase-le : (k : String) (d : Dict V) → length (erase k d) ≤ length d
  unfolding erase
  length-erase-le k [] = omega arith
  length-erase-le k ((i, w) ∷ d) = ground (arith, length-erase-le k d)

  pub length-erase_known :
      (k : String) (d : Dict V) → is_some (lookup k d) ≡ true → length (erase k d) + 1 ≤ length d
  unfolding erase lookup
  length-erase_known k [] h = cc
  length-erase_known k ((i, w) ∷ d) h = ground (arith, length-erase_known k d, length-erase-le k d)

-- A dictionary holds a key once.
abbrev pub DistinctKeys {ℓ} : {V : Type ℓ} → Dict V → Type ℓ
DistinctKeys [] = Unit
DistinctKeys ((k, v) ∷ d) = (lookup k d ≡ none) × DistinctKeys d

module _ {ℓ} {V : Type ℓ} where
  pub insert-DistinctKeys :
      (k : String) (v : V) (d : Dict V) → DistinctKeys d → DistinctKeys (insert k v d)
  unfolding insert
  insert-DistinctKeys k v [] h = (unfold lookup in refl, tt)
  insert-DistinctKeys k v ((j, w) ∷ d) h = elim (Bool-cases (str_eq j k)) [
    | inl same ↦ rw (same, ← (eq_iff j k).0 same) h
    | inr other ↦ rw other (
      lookup-insert k j v d ∙ (unfold lookup in ground (arith, eq_iff j k, eq_iff k j, h.0)),
      insert-DistinctKeys k v d h.1,
    )
  ]

  pub erase-DistinctKeys : (k : String) (d : Dict V) → DistinctKeys d → DistinctKeys (erase k d)
  unfolding erase
  erase-DistinctKeys k [] h = tt
  erase-DistinctKeys k ((j, w) ∷ d) h = elim (Bool-cases (str_eq j k)) [
    | inl same ↦ rw same (erase-DistinctKeys k d h.1)
    | inr other ↦ rw other (lookup-erase k j d ∙ ground (arith, h.0), erase-DistinctKeys k d h.1)
  ]

  -- What holds of every value of a dictionary.
  abbrev pub Values {κ} : (V → Type κ) → Dict V → Type κ
  Values P = All (λ item. P item.1)

  pub lookup-Values {κ} :
      (P : V → Type κ) (k : String) (v : V) (d : Dict V) → Values P d → lookup k d ≡ some v → P v
  unfolding lookup
  lookup-Values P k v [] h e = absurd (cc)
  lookup-Values P k v ((j, w) ∷ d) h e = elim (Bool-cases (str_eq j k)) [
    | inl same ↦ subst P (ground arith) h.0
    | inr other ↦ lookup-Values P k v d h.1 (ground arith)
  ]

  pub insert-Values {κ} :
      (P : V → Type κ) (k : String) (v : V) (d : Dict V)
      → P v
      → Values P d
      → Values P (insert k v d)
  unfolding insert
  insert-Values P k v [] p h = (p, tt)
  insert-Values P k v ((j, w) ∷ d) p h = elim (Bool-cases (str_eq j k)) [
    | inl same ↦ rw same (p, h.1)
    | inr other ↦ rw other (h.0, insert-Values P k v d p h.1)
  ]

  pub erase-Values {κ} :
      (P : V → Type κ) (k : String) (d : Dict V) → Values P d → Values P (erase k d)
  unfolding erase
  erase-Values P k [] h = h
  erase-Values P k ((j, w) ∷ d) h = elim (Bool-cases (str_eq j k)) [
    | inl same ↦ rw same (erase-Values P k d h.1)
    | inr other ↦ rw other (h.0, erase-Values P k d h.1)
  ]

  -- Some item has the key and passes the test.
  unfoldable pub key_where : (V → Bool) → String → Dict V → Bool
  key_where p k [] = false
  key_where p k ((j, v) ∷ d) = (str_eq j k && p v) || key_where p k d

-- The value found, unless it passes the test.
abbrev pub without {ℓ} : {V : Type ℓ} → (V → Bool) → Option V → Option V
without p none = none
without p (some v) = if p v then none else some v

module _ {ℓ} {V : Type ℓ} (p : V → Bool) (k : String) where
  key_where-insert_by :
      (x : String × V) (d : Dict V)
      → key_where p k (insert_by item_before x d) ≡ key_where p k (x ∷ d)
  unfolding insert_by key_where
  key_where-insert_by x [] = refl
  key_where-insert_by x (y ∷ d) = ground (arith, key_where-insert_by x d)

  key_where-sort_onto :
      (acc d : Dict V)
      → key_where p k (sort_onto item_before acc d) ≡ key_where p k acc || key_where p k d
  unfolding sort_onto key_where
  key_where-sort_onto acc [] = ground arith
  key_where-sort_onto acc (x ∷ d) =
      ground (arith, key_where-sort_onto (insert_by item_before x acc) d, key_where-insert_by x acc)

  -- Sorting the items changes none of this.
  pub key_where-sort_by : (d : Dict V) → key_where p k (sort_by item_before d) ≡ key_where p k d
  unfolding sort_by key_where
  key_where-sort_by d = key_where-sort_onto [] d

  key_where_absent : (d : Dict V) → lookup k d ≡ none → key_where p k d ≡ false
  unfolding key_where lookup
  key_where_absent [] h = refl
  key_where_absent ((j, v) ∷ d) h = ground (arith, key_where_absent d)

  pub key_where-lookup :
      (d : Dict V)
      → DistinctKeys d
      → (if key_where p k d then none else lookup k d) ≡ without p (lookup k d)
  unfolding key_where lookup
  key_where-lookup [] h = refl
  key_where-lookup ((j, v) ∷ d) h = elim (Bool-cases (str_eq j k)) [
    | inl same ↦ rw same (ground (arith, key_where_absent d (rw (← (eq_iff j k).0 same) h.0)))
    | inr other ↦ rw other (key_where-lookup d h.1)
  ]

module _ {ℓ} {V : Type ℓ} where
  -- Over distinct keys, what holds of every value that is found holds of every value.
  pub Values_of_lookup {κ} :
      (P : V → Type κ) (d : Dict V)
      → DistinctKeys d
      → ((k : String) (v : V) → lookup k d ≡ some v → P v)
      → Values P d
  unfolding lookup
  Values_of_lookup P [] h found = tt
  Values_of_lookup P ((j, w) ∷ d) h found = (
    found j w (ground (arith, eq_iff j j)),
    Values_of_lookup P d h.1 (λ k v here. found k v (ground (arith, eq_iff j k, h.0))),
  )

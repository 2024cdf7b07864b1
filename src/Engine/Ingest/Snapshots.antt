-- ===== src/Engine/Ingest/Snapshots.antt =====
-- What a published snapshot says: its state is decided by its own count and evidence.
use mathlib.Core.Path.{subst}
use mathlib.Core.List.{Perm, perm_middle}
use mathlib.Core.List.Perm
use ads_b_flight_intelligenc.Base.{
  ◌++◌, ap, inl, inr, Bool-cases, ◌+◌, ◌≤◌, ◌<◌, ◌≡◌, ◌↔◌, refl, Bool, true, List, [], ◌∷◌, String,
  arith, length, insert_by, sort_onto, sort_by,
}
use ads_b_flight_intelligenc.Base.Dict.{Dict}
use ads_b_flight_intelligenc.Observation.{TrackObservation}
use ads_b_flight_intelligenc.Engine.Models.{TrackState, IntegritySnapshot}
use ads_b_flight_intelligenc.Engine.Env.{Env}
use ads_b_flight_intelligenc.Engine.Track.{Track}
use ads_b_flight_intelligenc.Engine.Ingest.{
  state_of, snapshot_from, is_empty, values, evidence_before,
}

append-Perm : {A : Type 0} (xs : List A) {ys zs : List A} → Perm ys zs → Perm (xs ++ ys) (xs ++ zs)
append-Perm [] h = h
append-Perm (x ∷ xs) h = Perm.cons x (append-Perm xs h)

append-nil_right : {A : Type 0} (xs : List A) → xs ++ [] ≡ xs
append-nil_right [] = refl
append-nil_right (x ∷ xs) = ap (λ ys. x ∷ ys) (append-nil_right xs)

module _ {A : Type 0} (before : A → A → Bool) where
  length-insert_by : (x : A) (xs : List A) → length (insert_by before x xs) ≡ length xs + 1
  unfolding insert_by
  length-insert_by x [] = omega arith
  length-insert_by x (y ∷ xs) = ground (arith, length-insert_by x xs)

  length-sort_onto : (acc xs : List A) → length (sort_onto before acc xs) ≡ length acc + length xs
  unfolding sort_onto
  length-sort_onto acc [] = omega arith
  length-sort_onto acc (x ∷ xs) =
      omega (arith, length-sort_onto (insert_by before x acc) xs, length-insert_by x acc)

  length-sort_by : (xs : List A) → length (sort_by before xs) ≡ length xs
  unfolding sort_by
  length-sort_by xs = omega (arith, length-sort_onto [] xs)

module _ {A : Type 0} (before : A → A → Bool) where
  insert_by-Perm : (x : A) (xs : List A) → Perm (insert_by before x xs) (x ∷ xs)
  unfolding insert_by
  insert_by-Perm x [] = Perm.refl (x ∷ [])
  insert_by-Perm x (y ∷ ys) = elim (Bool-cases (before x y)) [
    | inl h ↦ rw h (Perm.refl (x ∷ y ∷ ys))
    | inr h ↦ rw h (Perm.trans (Perm.cons y (insert_by-Perm x ys)) (Perm.swap x y ys))
  ]

  sort_onto-Perm : (acc xs : List A) → Perm (sort_onto before acc xs) (xs ++ acc)
  unfolding sort_onto
  sort_onto-Perm acc [] = Perm.refl acc
  sort_onto-Perm acc (x ∷ xs) =
      Perm.trans (sort_onto-Perm (insert_by before x acc) xs)
        (Perm.trans (append-Perm xs (insert_by-Perm x acc)) (perm_middle xs acc))

  sort_by-Perm : (xs : List A) → Perm (sort_by before xs) xs
  unfolding sort_by
  sort_by-Perm xs = subst (Perm (sort_by before xs)) (append-nil_right xs) (sort_onto-Perm [] xs)

length-values : {V : Type 0} (d : Dict V) → length (values d) ≡ length d
length-values [] = refl
length-values (item ∷ d) = omega (arith, length-values d)

length_pos_iff : {A : Type 0} (xs : List A) → (is_empty xs ≡ true) ↔ (length xs ≡ 0)
length_pos_iff [] = (λ h. refl, λ h. refl)
length_pos_iff (x ∷ xs) = (λ h. absurd (cc), λ h. absurd (omega arith))

module _ (e : Env) (track_id : String) (t : Track e.floats.Number)
    (first current : TrackObservation e.floats.Number) where
  abbrev snapshot : IntegritySnapshot e.floats.Number
  snapshot = snapshot_from e track_id t first current

  shown : length snapshot.active_evidence ≡ length t.active
  unfolding snapshot_from
  shown = omega (arith, length-sort_by evidence_before (values t.active), length-values t.active)

  -- A snapshot lists the active evidence of its track, each piece as often as the track has it, and
  -- says INSUFFICIENT_DATA exactly for fewer observations than required, NOMINAL exactly for enough
  -- observations and no evidence, and QUESTIONABLE exactly for enough observations and some
  -- evidence.
  pub snapshot_from-state :
      Perm snapshot.active_evidence (values t.active)
      × ((snapshot.state ≡ TrackState.insufficient_data)
          ↔ (snapshot.observation_count < e.policy.runtime.minimum_observations))
      × ((snapshot.state ≡ TrackState.nominal) ↔ (
          (e.policy.runtime.minimum_observations ≤ snapshot.observation_count)
          × (length snapshot.active_evidence ≡ 0)))
      × ((snapshot.state ≡ TrackState.questionable) ↔ (
          (e.policy.runtime.minimum_observations ≤ snapshot.observation_count)
          × (0 < length snapshot.active_evidence)))
  unfolding snapshot_from state_of
  snapshot_from-state = (
    sort_by-Perm evidence_before (values t.active),
    (λ h. ground arith, λ h. ground arith),
    (
      λ h. ground (arith, shown, length_pos_iff t.active),
      λ h. ground (arith, shown, length_pos_iff t.active),
    ),
    (
      λ h. ground (arith, shown, length_pos_iff t.active),
      λ h. ground (arith, shown, length_pos_iff t.active),
    ),
  )

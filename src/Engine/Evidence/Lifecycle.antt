-- ===== src/Engine/Evidence/Lifecycle.antt =====
-- The life of a piece of evidence: it is opened once, updated without loss, and closed when it is
-- due.
use ads_b_flight_intelligenc.Base.{
  ℕ, ◌≤◌, ◌≡◌, refl, ◌∙◌, inl, inr, Bool, Option, none, some, List, [], ◌∷◌, map, String, str_eq,
  arith, leb, filter, sort_by, Bool-cases, if◌then◌else◌,
}
use ads_b_flight_intelligenc.Base.Dict.{
  item_before, Dict, lookup, erase, lookup-insert, lookup-erase, DistinctKeys, key_where,
  key_where-sort_by, key_where-lookup, without,
}
use ads_b_flight_intelligenc.Observation.{TrackObservation}
use ads_b_flight_intelligenc.Engine.Models.{
  EventType, IntegrityEvidence, severity_index, EvidenceSeverity,
}
use ads_b_flight_intelligenc.Engine.Env.{Env}
use ads_b_flight_intelligenc.Engine.Track.{Track}
use ads_b_flight_intelligenc.Engine.Evidence.{
  Candidate, max_severity, evidence_key, event_for, open_or_update, expire_items, expire,
}

abbrev is_due : {N : Type 0} → ℕ → IntegrityEvidence N → Bool
is_due now evidence = leb evidence.expires_at now

-- What `lookup` gives at `now`: nothing, once the evidence has expired.
abbrev pub unexpired :
    {N : Type 0} → ℕ → Option (IntegrityEvidence N) → Option (IntegrityEvidence N)
unexpired now found = without (λ evidence. leb evidence.expires_at now) found

module _ (e : Env) (track_id : String) (now : ℕ) where
  open e use {floats.{Number}}

  lookup-expire_items :
      (k : String) (items : List (String × IntegrityEvidence Number))
      (active : Dict (IntegrityEvidence Number))
      → lookup k (expire_items e track_id now items active).0
        ≡ (if key_where (is_due now) k items then none else lookup k active)
  unfolding expire_items key_where
  lookup-expire_items k [] active = refl
  lookup-expire_items k ((j, evidence) ∷ items) active =
      elim (Bool-cases (leb evidence.expires_at now)) [
        | inl due ↦
            rw due (
              lookup-expire_items k items (erase j active)
              ∙ ground (arith, lookup-erase j k active))
        | inr kept ↦ rw kept (lookup-expire_items k items active ∙ ground arith)
      ]

  -- Expiry drops exactly the evidence whose time has come, and keeps all other evidence as it is.
  pub lookup-expire :
      (t : Track Number) (k : String)
      → DistinctKeys t.active
      → lookup k (expire e track_id t now).0.active ≡ unexpired now (lookup k t.active)
  unfolding expire
  lookup-expire t k h =
      lookup-expire_items k (sort_by item_before t.active) t.active
      ∙ rw (key_where-sort_by (is_due now) k t.active) (key_where-lookup (is_due now) k t.active h)

  events-expire_items :
      (items : List (String × IntegrityEvidence Number)) (active : Dict (IntegrityEvidence Number))
      → (expire_items e track_id now items active).1
        ≡ map
            (λ item. event_for e EventType.evidence_closed track_id now item.1)
            (filter (λ item. leb item.1.expires_at now) items)
  unfolding expire_items
  events-expire_items [] active = refl
  events-expire_items ((j, evidence) ∷ items) active =
      elim (Bool-cases (leb evidence.expires_at now)) [
        | inl due ↦ rw (due, events-expire_items items (erase j active)) refl
        | inr kept ↦ rw (kept, events-expire_items items active) refl
      ]

  -- The events of an expiry are those of the due evidence, closed, in the order of its keys.
  pub events-expire :
      (t : Track Number)
      → (expire e track_id t now).1
        ≡ map
            (λ item. event_for e EventType.evidence_closed track_id now item.1)
            (filter (λ item. leb item.1.expires_at now) (sort_by item_before t.active))
  unfolding expire
  events-expire t = events-expire_items (sort_by item_before t.active) t.active

max_severity_bounds :
    (old new : EvidenceSeverity)
    → (severity_index old ≤ severity_index (max_severity old new))
      × (severity_index new ≤ severity_index (max_severity old new))
unfolding max_severity
max_severity_bounds old new = ground arith

module _ (e : Env) (track_id : String) where
  open e use {floats.{Number}}

  -- A find under an active key keeps the identity and the first time of the evidence, never lowers
  -- its severity, and leaves the evidence under every other key alone.
  pub open_or_update_known :
      (t : Track Number) (o : TrackObservation Number) (c : Candidate Number)
      (old : IntegrityEvidence Number)
      → lookup (evidence_key c) t.active ≡ some old
      → let (t', event) = open_or_update e track_id t o c in
        (event.event_type ≡ EventType.evidence_updated)
        × (event.evidence.evidence_id ≡ old.evidence_id)
        × (event.evidence.kind ≡ old.kind)
        × (event.evidence.first_observed_at ≡ old.first_observed_at)
        × (event.evidence.last_observed_at ≡ o.observed_at)
        × (severity_index old.severity ≤ severity_index event.evidence.severity)
        × (severity_index c.severity ≤ severity_index event.evidence.severity)
        × ((k : String)
            → lookup k t'.active
              ≡ (if str_eq (evidence_key c) k then some event.evidence else lookup k t.active))
  unfolding open_or_update
  open_or_update_known t o c old h =
      rw (h, open_or_update)
        (
          refl,
          refl,
          refl,
          refl,
          refl,
          (max_severity_bounds old.severity c.severity).0,
          (max_severity_bounds old.severity c.severity).1,
          λ k. lookup-insert (evidence_key c) k _ t.active,
        )

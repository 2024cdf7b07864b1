-- ===== src/Engine/Ingest/Tracks.antt =====
-- What `observe` does to one track: its memory and its queue stay within their bounds, and its
-- active evidence is what the observation leaves in force.
use ads_b_flight_intelligenc.Base.{
  ℕ, zero, suc, ◌-◌, ◌≤◌, ◌<◌, ◌≡◌, refl, ◌∙◌, ap, sym, inl, inr, ◌++◌, Option, none, some, List,
  [], ◌∷◌, String, arith, leb, length, length-append, drop, get_last?, last_of, Bool-cases,
  Option-cases, sort_by,
}
use ads_b_flight_intelligenc.Base.Dict.{
  Dict, lookup, insert, item_before, erase, DistinctKeys, Values, insert-DistinctKeys,
  erase-DistinctKeys, insert-Values, Values_of_lookup, without,
}
use ads_b_flight_intelligenc.Observation.{TrackObservation}
use ads_b_flight_intelligenc.Engine.Models.{IntegrityEvidence}
use ads_b_flight_intelligenc.Engine.Env.{Env}
use ads_b_flight_intelligenc.Engine.Track.{Track, append_bounded}
use ads_b_flight_intelligenc.Engine.Evidence.{
  Candidate, later, evidence_key, opened, updated, open_or_update, open_or_update_all, expire,
  expire_items,
}
use ads_b_flight_intelligenc.Engine.Evidence.Lifecycle.{lookup-expire}

module _ {ℓ} {A : Type ℓ} where
  last_of-snoc : (x y : A) (xs : List A) → last_of x (xs ++ y ∷ []) ≡ y
  last_of-snoc x y [] = refl
  last_of-snoc x y (z ∷ xs) = last_of-snoc z y xs

  get_last?-snoc : (y : A) (xs : List A) → get_last? (xs ++ y ∷ []) ≡ some y
  get_last?-snoc y [] = refl
  get_last?-snoc y (x ∷ xs) = ap some (last_of-snoc x y xs)

  drop_within :
      (n : ℕ) (y : A) (xs : List A) → n ≤ length xs → get_last? (drop n (xs ++ y ∷ [])) ≡ some y
  drop_within zero y xs h = get_last?-snoc y xs
  drop_within (suc n) y [] h = absurd (omega arith)
  drop_within (suc n) y (x ∷ xs) h = drop_within n y xs (omega arith)

  -- With a place at all, the newest entry of a bounded queue is the one appended last.
  pub get_last?-append_bounded :
      (m : ℕ) (y : A) (xs : List A) → 0 < m → get_last? (append_bounded m y xs) ≡ some y
  unfolding append_bounded
  get_last?-append_bounded m y xs h =
      drop_within (length (xs ++ y ∷ []) - m) y xs (omega (arith, length-append xs (y ∷ [])))

module _ (e : Env) (track_id : String) where
  open e use {floats.{Number}, policy}

  module _ (o : TrackObservation Number) where
    active-open_or_update :
        (t : Track Number) (c : Candidate Number)
        → (evidence : IntegrityEvidence Number) × ((open_or_update e track_id t o c).0
            ≡ record t { active = insert (evidence_key c) evidence t.active })
          × (evidence.expires_at ≡ later o.observed_at policy.timing.evidence_ttl)
    unfolding open_or_update
    active-open_or_update t c = elim (Option-cases (lookup (evidence_key c) t.active)) [
      | inl new ↦ (opened e track_id o c, rw (new, open_or_update) refl, refl)
      | inr (old, known) ↦ (updated e old o c, rw (known, open_or_update) refl, refl)
    ]

    -- The loop over the candidates touches the active evidence only, and what holds of the old
    -- evidence and of all that expires one lifetime from now holds of all of it.
    pub record Updates (P : IntegrityEvidence Number → Type 0) (t t' : Track Number) : Type 0 where
      pub observations : t'.observations ≡ t.observations
      pub ids : t'.seen_message_ids ≡ t.seen_message_ids
      pub order : t'.seen_message_order ≡ t.seen_message_order
      pub distinct : DistinctKeys t'.active
      pub evidence : Values P t'.active

    open_or_update-Updates :
        (P : IntegrityEvidence Number → Type 0)
        → ((evidence : IntegrityEvidence Number)
            → evidence.expires_at ≡ later o.observed_at policy.timing.evidence_ttl
            → P evidence)
        → (t : Track Number) (c : Candidate Number) → DistinctKeys t.active
        → Values P t.active
        → Updates P t (open_or_update e track_id t o c).0
    open_or_update-Updates P new t c d h =
        let (evidence, same, expires) = active-open_or_update t c in
        rw same (record {
          observations = refl;
          ids = refl;
          order = refl;
          distinct = insert-DistinctKeys (evidence_key c) evidence t.active d;
          evidence = insert-Values P (evidence_key c) evidence t.active (new evidence expires) h;
        })

    Updates-trans :
        (P : IntegrityEvidence Number → Type 0) (t t' t'' : Track Number)
        → Updates P t t'
        → Updates P t' t''
        → Updates P t t''
    Updates-trans P t t' t'' a b = record {
      observations = b.observations ∙ a.observations;
      ids = b.ids ∙ a.ids;
      order = b.order ∙ a.order;
      distinct = b.distinct;
      evidence = b.evidence;
    }

    pub open_or_update_all-Updates :
        (P : IntegrityEvidence Number → Type 0)
        → ((evidence : IntegrityEvidence Number)
            → evidence.expires_at ≡ later o.observed_at policy.timing.evidence_ttl
            → P evidence)
        → (t : Track Number) (cs : List (Candidate Number)) → DistinctKeys t.active
        → Values P t.active
        → Updates P t (open_or_update_all e track_id t o cs).0
    unfolding open_or_update_all
    open_or_update_all-Updates P new t [] d h = record {
      observations = refl;
      ids = refl;
      order = refl;
      distinct = d;
      evidence = h;
    }
    open_or_update_all-Updates P new t (c ∷ cs) d h =
        let first = open_or_update-Updates P new t c d h in
        let t' = (open_or_update e track_id t o c).0 in
        Updates-trans P t t' (open_or_update_all e track_id t' o cs).0 first
          (open_or_update_all-Updates P new t' cs first.distinct first.evidence)

  expire_items-DistinctKeys :
      (now : ℕ) (items active : Dict (IntegrityEvidence Number))
      → DistinctKeys active
      → DistinctKeys (expire_items e track_id now items active).0
  unfolding expire_items
  expire_items-DistinctKeys now [] active d = d
  expire_items-DistinctKeys now ((key, evidence) ∷ items) active d =
      elim (Bool-cases (leb evidence.expires_at now)) [
        | inl due ↦ rw due (
            expire_items-DistinctKeys now items (erase key active)
              (erase-DistinctKeys key active d))
        | inr kept ↦ rw kept (expire_items-DistinctKeys now items active d)
      ]

  pub expire-DistinctKeys :
      (now : ℕ) (t : Track Number)
      → DistinctKeys t.active
      → DistinctKeys (expire e track_id t now).0.active
  unfolding expire
  expire-DistinctKeys now t = expire_items-DistinctKeys now (sort_by item_before t.active) t.active

  -- After expiry all that is active expires later.
  pub expire-Values :
      (now : ℕ) (t : Track Number)
      → DistinctKeys t.active
      → Values (λ evidence. now < evidence.expires_at) (expire e track_id t now).0.active
  expire-Values now t d =
      Values_of_lookup (λ evidence. now < evidence.expires_at) (expire e track_id t now).0.active
        (expire-DistinctKeys now t d)
        λ k evidence found.
          still now evidence (lookup k t.active) (sym (lookup-expire e track_id now t k d) ∙ found)
    where
      still :
          (now : ℕ) (evidence : IntegrityEvidence Number)
          (before : Option (IntegrityEvidence Number))
          → without (λ x. leb x.expires_at now) before ≡ some evidence
          → now < evidence.expires_at
      still now evidence none h = absurd (cc)
      still now evidence (some x) h = ground arith

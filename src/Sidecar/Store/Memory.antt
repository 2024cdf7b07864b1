-- ===== src/Sidecar/Store/Memory.antt =====
-- The memory of events of sidecar/store.py: an event is kept once.
use mathlib.Core.Path.{subst}
use ads_b_flight_intelligenc.Base.{
  ℕ, suc, ◌+◌, ◌≤◌, ◌≡◌, ◌≢◌, refl, ◌∙◌, sym, inl, inr, Bool, true, false, not, ◌&&◌, String,
  str_eq, eq_iff, arith, length, ltb, Bool-cases, Option-cases,
}
use ads_b_flight_intelligenc.Base.Json.{Fields}
use ads_b_flight_intelligenc.Base.Result.{ok, Result-cases}
use ads_b_flight_intelligenc.Base.Sets.{contains, Distinct, contains-add}
use ads_b_flight_intelligenc.Engine.Track.{append_bounded, forget_oldest}
use ads_b_flight_intelligenc.Engine.Track.Memory.{
  length-append_bounded, Distinct-append_bounded, contains-forget_oldest,
}
use ads_b_flight_intelligenc.Sidecar.Store.{
  EventStore, StoreReaders, kept_events, event_id_of, is_known, note_id, rotated, written,
  open_segment, enforce_bounds, append_encoded, append, remember, size_of,
}

-- The set and the queue hold the same identifiers, each once, and no more events are kept than allowed.
pub record IsRemembered (s : EventStore) : Type 0 where
  pub bounded : length s.event_id_order ≤ kept_events
  pub recent : length s.recovered_events ≤ kept_events
  pub distinct : Distinct str_eq s.event_id_order
  pub same : (id : String) → contains str_eq id s.event_ids ≡ contains str_eq id s.event_id_order

record IsSameMemory (s s' : EventStore) : Type 0 where
  events_kept : s'.recovered_events ≡ s.recovered_events
  order_kept : s'.event_id_order ≡ s.event_id_order
  ids_kept : s'.event_ids ≡ s.event_ids

rotated-memory :
    (b : Bool) (now size : ℕ) (s : EventStore)
    → IsSameMemory s (enforce_bounds now (written now size (rotated b now s)))
unfolding enforce_bounds open_segment
rotated-memory true now size s = record { events_kept = refl; order_kept = refl; ids_kept = refl }
rotated-memory false now size s = record { events_kept = refl; order_kept = refl; ids_kept = refl }

module _ (r : StoreReaders) where
  -- The files do not touch the memory.
  append-memory :
      (now : ℕ) (fields : Fields) (s s' : EventStore)
      → append r now fields s ≡ ok s'
      → IsSameMemory s s'
  unfolding append append_encoded
  append-memory now fields s s' h = elim (Option-cases (r.encoded_size fields)) [
    | inl k ↦ absurd (ground arith)
    | inr (n, k) ↦ elim (Bool-cases (ltb s.segment_bytes (suc n))) [
      | inl large ↦ absurd (ground arith)
      | inr small ↦
          let b = ltb s.segment_bytes (size_of s.current s.segments + suc n) in
          let whole : enforce_bounds now (written now (suc n) (rotated b now s)) ≡ s' =
            ground arith in
          rw (← whole) (rotated-memory b now (suc n) s)
    ]
  ]

  note_id-IsRemembered :
      (id : String) (s : EventStore)
      → not (str_eq id "") && contains str_eq id s.event_ids ≡ false
      → IsRemembered s
      → IsRemembered (note_id r id s)
  note_id-IsRemembered id s new v = elim (Bool-cases (str_eq id "")) [
    | inl blank ↦ rw blank v
    | inr text ↦
        let absent : contains str_eq id s.event_ids ≡ false = ground arith in
        rw text (record {
          bounded = length-append_bounded kept_events id s.event_id_order;
          recent = v.recent;
          distinct =
              Distinct-append_bounded kept_events (omega arith) id s.event_id_order v.bounded
                v.distinct (sym (v.same id) ∙ absent);
          same = λ j.
              contains-forget_oldest kept_events (omega arith) id j s.event_id_order s.event_ids
                v.bounded v.distinct v.same;
        })
  ]

  note_id-known :
      (id : String) (s : EventStore)
      → str_eq id "" ≡ false
      → contains str_eq id (note_id r id s).event_ids ≡ true
  note_id-known id s text = rw text (
      rw (contains-add str_eq eq_iff id id (forget_oldest kept_events s.event_id_order s.event_ids))
        (ground (arith, eq_iff id id)))

  -- Remembering an event, where it does not raise, keeps the memory: bounded queues, each identifier
  -- once, and the set in step with its queue. It returns True exactly for an event that is not known, and
  -- is the identity on one that is; after it an event with an identifier is known.
  pub remember-IsRemembered :
      (now : ℕ) (fields : Fields) (s s' : EventStore) (new : Bool)
      → IsRemembered s
      → remember r now fields s ≡ ok (s', new)
      → IsRemembered s'
        × new ≡ not (is_known r fields s)
        × (is_known r fields s ≡ true → s' ≡ s)
        × (event_id_of r fields ≢ "" → is_known r fields s' ≡ true)
  unfolding remember
  remember-IsRemembered now fields s s' new v h = elim (Bool-cases (is_known r fields s)) [
    | inl k ↦
        let same : s ≡ s' = ground arith in
        let told : false ≡ new = ground arith in
        (
          subst IsRemembered same v,
          (ground arith),
          (λ q. sym same),
          λ text. subst (λ x. is_known r fields x ≡ true) same k,
        )
    | inr k ↦ elim (Result-cases (append r now fields s)) [
      | inr (e, a) ↦ absurd (ground arith)
      | inl (s1, a) ↦
          let kept = append-memory now fields s s1 a in
          let id = event_id_of r fields in
          let added : EventStore = record s1 {
            recovered_events = append_bounded kept_events fields s1.recovered_events;
          } in
          let whole : note_id r id added ≡ s' = ground arith in
          let told : true ≡ new = ground arith in
          let w : IsRemembered added = record {
            bounded = rw kept.order_kept v.bounded;
            recent = length-append_bounded kept_events fields s1.recovered_events;
            distinct = rw kept.order_kept v.distinct;
            same = λ j. rw (kept.ids_kept, kept.order_kept) (v.same j);
          } in
          (
            subst IsRemembered whole (note_id-IsRemembered id added (rw kept.ids_kept k) w),
            (ground arith),
            (λ q. absurd (cc)),
            λ text.
                let t : str_eq id "" ≡ false = ground (arith, eq_iff id "") in
                subst (λ x. is_known r fields x ≡ true) whole
                  (let noted = note_id-known id added t in ground arith),
          )
    ]
  ]

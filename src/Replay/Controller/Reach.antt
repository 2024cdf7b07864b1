-- ===== src/Replay/Controller/Reach.antt =====
-- What every state of a `ReplayController` of services/replay/controller.py satisfies that any
-- operations at any readings of the clock reach.
use ads_b_flight_intelligenc.Base.{
  ℕ, suc, ◌≤◌, ◌<◌, ◌≡◌, ◌≢◌, refl, inl, inr, Bool, true, false, not, none, some, List, [], ◌∷◌,
  arith, get_elem?, get_last?, length, Bool-cases, Option-cases, zero,
}
use ads_b_flight_intelligenc.Base.Int.{pos}
use ads_b_flight_intelligenc.Base.Result.{ok}
use ads_b_flight_intelligenc.Float.{Float}
use ads_b_flight_intelligenc.Replay.Playback.{bisect_left-le-length, offsets_of, is_supported}
use ads_b_flight_intelligenc.Replay.Recording.{Recording, RecordingEvent}
use ads_b_flight_intelligenc.Replay.Controller.{
  ReplayController, PlaybackState, playing, paused, completed, Operation, duration_of, min_of,
  current_position, before, is_due, moved, new_controller, poll_event, poll, apply, pause, resume,
  restart, seek, set_speed, freeze, after_seek, is_playing, is_paused, pauses, resumes, restarts,
  seeks, sets_speed, polls, played, started,
}

-- What `<` on floats satisfies, NaN included.
pub record IsOrdered (f : Float) : Type 0 where
  pub asymmetric : (a b : f.Number) → f.lt a b ≡ true → f.lt b a ≡ false
  pub zero_least : (n : ℕ) → f.lt (f.of_int (pos n)) (f.literal 0 1) ≡ false
  pub int_zero_least : (n : ℕ) → f.lt (f.of_int (pos n)) (f.of_int (pos 0)) ≡ false

length-offsets_of : (es : List RecordingEvent) → length (offsets_of es) ≡ length es
length-offsets_of [] = refl
length-offsets_of (e ∷ es) = omega (arith, length-offsets_of es)

get_elem?-none-length {ℓ} :
    {A : Type ℓ} (xs : List A) (i : ℕ) → get_elem? xs i ≡ none → length xs ≤ i
get_elem?-none-length [] i h = omega arith
get_elem?-none-length (x ∷ xs) zero h = absurd (cc)
get_elem?-none-length (x ∷ xs) (suc i) h = omega (arith, get_elem?-none-length xs i h)

get_elem?-some-length {ℓ} :
    {A : Type ℓ} (xs : List A) (i : ℕ) (a : A) → get_elem? xs i ≡ some a → i < length xs
get_elem?-some-length [] i a h = absurd (cc)
get_elem?-some-length (x ∷ xs) zero a h = omega arith
get_elem?-some-length (x ∷ xs) (suc i) a h = omega (arith, get_elem?-some-length xs i a h)

module _ (f : Float) where
  -- The index lies within the recording, a completed playback stands at its end, and the position does
  -- not pass the duration.
  pub record IsConsistent (c : ReplayController f) : Type 0 where
    pub index_bounded : c.event_index ≤ length c.recording.events
    pub completed_at_end : c.state ≡ completed → c.event_index ≡ length c.recording.events
    pub position_bounded : f.lt (duration_of f c) c.position_ms ≡ false

  -- A state that some operations lead to.
  pub data Reach (c : ReplayController f) : ReplayController f → Type 0 where
    here : Reach c c
    next : {d : ReplayController f} → Reach c d → (op : Operation f) → Reach c (apply f op d)

  module _ (o : IsOrdered f) where
    irreflexive : (a : f.Number) → f.lt a a ≡ false
    irreflexive a = elim (Bool-cases (f.lt a a)) [ inl h ↦ o.asymmetric a a h | inr h ↦ h ]

    min_of-le-first : (a b : f.Number) → f.lt a (min_of f a b) ≡ false
    min_of-le-first a b = elim (Bool-cases (f.lt b a)) [
      | inl h ↦ rw h (o.asymmetric b a h)
      | inr h ↦ rw h (irreflexive a)
    ]

    min_of-le-second : (a b : f.Number) → f.lt b (min_of f a b) ≡ false
    min_of-le-second a b = elim (Bool-cases (f.lt b a)) [
      | inl h ↦ rw h (irreflexive b)
      | inr h ↦ rw h h
    ]

    played-le-duration :
        (c : ReplayController f) (t : f.Number) → f.lt (duration_of f c) (played f c t) ≡ false
    played-le-duration c t =
        min_of-le-first (duration_of f c) (
          f.add c.position_ms (f.mul (f.mul (f.sub t c.anchor_time) (f.of_int (pos 1000))) c.speed))

    current_position_bounded :
        (c : ReplayController f) (t : f.Number)
        → IsConsistent c
        → f.lt (duration_of f c) (current_position f c t) ≡ false
    unfolding current_position
    current_position_bounded c t v = elim (Bool-cases (is_playing c.state)) [
      | inl h ↦ rw h (played-le-duration c t)
      | inr h ↦ rw h v.position_bounded
    ]

    pause-IsConsistent :
        (t1 t2 : f.Number) (c : ReplayController f)
        → IsConsistent c
        → IsConsistent (pause f t1 t2 c)
    unfolding pause freeze
    pause-IsConsistent t1 t2 c v = elim (Bool-cases (is_playing c.state)) [
      | inl h ↦ rw h (record {
        index_bounded = v.index_bounded;
        completed_at_end = λ k. absurd (cc);
        position_bounded = played-le-duration c t1;
      })
      | inr h ↦ rw h (record {
        index_bounded = v.index_bounded;
        completed_at_end = v.completed_at_end;
        position_bounded = v.position_bounded;
      })
    ]

    resume-IsConsistent :
        (t : f.Number) (c : ReplayController f) → IsConsistent c → IsConsistent (resume f t c)
    unfolding resume
    resume-IsConsistent t c v = elim (Bool-cases (is_paused c.state)) [
      | inl h ↦ rw h (record {
        index_bounded = v.index_bounded;
        completed_at_end = λ k. absurd (cc);
        position_bounded = v.position_bounded;
      })
      | inr h ↦ rw h (record {
        index_bounded = v.index_bounded;
        completed_at_end = v.completed_at_end;
        position_bounded = v.position_bounded;
      })
    ]

    restart-IsConsistent : (t : f.Number) (c : ReplayController f) → IsConsistent (restart f t c)
    unfolding restart
    restart-IsConsistent t c = record {
      index_bounded = omega arith;
      completed_at_end = λ k. absurd (cc);
      position_bounded = o.int_zero_least c.duration_ms;
    }

    after_seek-open : (s : PlaybackState) → after_seek s ≢ completed
    after_seek-open playing h = absurd (cc)
    after_seek-open paused h = absurd (cc)
    after_seek-open completed h = absurd (cc)

    moved-IsConsistent :
        (offset t : f.Number) (c : ReplayController f) → IsConsistent (moved f offset t c)
    unfolding moved
    moved-IsConsistent offset t c =
        let position = min_of f (f.mul offset (f.of_int (pos 1000))) (duration_of f c) in
        record {
          index_bounded =
              rw (← length-offsets_of c.recording.events)
                (bisect_left-le-length (before f position) (offsets_of c.recording.events));
          completed_at_end = λ k. absurd (after_seek-open c.state k);
          position_bounded =
              min_of-le-second (f.mul offset (f.of_int (pos 1000))) (duration_of f c);
        }

    seek-IsConsistent :
        (offset t : f.Number) (c : ReplayController f)
        → IsConsistent c
        → IsConsistent (apply f (seeks offset t) c)
    unfolding apply seek
    seek-IsConsistent offset t c v = elim (Bool-cases (f.lt offset (f.of_int (pos 0)))) [
      | inl h ↦ rw h v
      | inr h ↦ rw h (moved-IsConsistent offset t c)
    ]

    set_speed-IsConsistent :
        (speed t1 t2 : f.Number) (c : ReplayController f)
        → IsConsistent c
        → IsConsistent (apply f (sets_speed speed t1 t2) c)
    unfolding apply set_speed freeze
    set_speed-IsConsistent speed t1 t2 c v = elim (Bool-cases (not (is_supported f speed))) [
      | inl h ↦ rw h v
      | inr h ↦ rw h (record {
        index_bounded = v.index_bounded;
        completed_at_end = v.completed_at_end;
        position_bounded = current_position_bounded c t1 v;
      })
    ]

    poll_event-IsConsistent :
        (c : ReplayController f) (position : f.Number)
        → is_playing c.state ≡ true
        → IsConsistent c
        → IsConsistent (poll_event f c position (get_elem? c.recording.events c.event_index)).0
    poll_event-IsConsistent c position plays v =
        elim (Option-cases (get_elem? c.recording.events c.event_index)) [
          | inl h ↦
              let beyond = get_elem?-none-length c.recording.events c.event_index h in
              let within = v.index_bounded in
              rw h (record {
                index_bounded = v.index_bounded;
                completed_at_end = λ k. omega arith;
                position_bounded = irreflexive (duration_of f c);
              })
          | inr (e, h) ↦
              let within = get_elem?-some-length c.recording.events c.event_index e h in
              elim (Bool-cases (is_due f e position)) [
                | inl due ↦
                    rw (h, due)
                      (record {
                        index_bounded = omega arith;
                        completed_at_end = λ k. absurd (cc);
                        position_bounded = v.position_bounded;
                      })
                | inr late ↦ rw (h, late) v
              ]
        ]

    poll-IsConsistent :
        (t : f.Number) (c : ReplayController f) → IsConsistent c → IsConsistent (poll f t c).0
    unfolding poll
    poll-IsConsistent t c v =
        let v' : IsConsistent (record c { changed = false }) = record {
          index_bounded = v.index_bounded;
          completed_at_end = v.completed_at_end;
          position_bounded = v.position_bounded;
        } in
        elim (Bool-cases (is_playing c.state)) [
          | inl h ↦
              rw h (poll_event-IsConsistent (record c { changed = false }) (played f c t) h v')
          | inr h ↦ rw h v'
        ]

    apply-IsConsistent :
        (op : Operation f) (c : ReplayController f) → IsConsistent c → IsConsistent (apply f op c)
    unfolding apply
    apply-IsConsistent (pauses t1 t2) c v = pause-IsConsistent t1 t2 c v
    apply-IsConsistent (resumes t) c v = resume-IsConsistent t c v
    apply-IsConsistent (restarts t) c v = restart-IsConsistent t c
    apply-IsConsistent (seeks offset t) c v = seek-IsConsistent offset t c v
    apply-IsConsistent (sets_speed speed t1 t2) c v = set_speed-IsConsistent speed t1 t2 c v
    apply-IsConsistent (polls t) c v = poll-IsConsistent t c v

    Reach-IsConsistent : (c d : ReplayController f) → IsConsistent c → Reach c d → IsConsistent d
    Reach-IsConsistent c d v here = v
    Reach-IsConsistent c d v (next {d = d'} r op) =
        apply-IsConsistent op d' (Reach-IsConsistent c d' v r)

    new_controller-IsConsistent :
        (recording : Recording) (speed : f.Number) (loop : Bool) (delay t : f.Number)
        → (c : ReplayController f) → new_controller f recording speed loop delay t ≡ ok c
        → IsConsistent c
    unfolding new_controller
    new_controller-IsConsistent recording speed loop delay t c h =
        elim (Option-cases (get_last? (offsets_of recording.events))) [
          | inl k ↦ absurd (ground arith)
          | inr (d, k) ↦
              let whole : started f recording speed loop delay t d ≡ c = ground arith in
              rw (← whole) (record {
                index_bounded = omega arith;
                completed_at_end = λ q. absurd (cc);
                position_bounded = o.zero_least d;
              })
        ]

    -- Whatever operations follow the construction of a controller, at whatever readings of the clock,
    -- the index lies within the recording, the position does not pass the duration, and a completed
    -- playback stands after the last event. This holds for every recording and any float arithmetic in
    -- which `<` is asymmetric and no natural number is less than zero.
    pub controller-IsConsistent :
        (recording : Recording) (speed : f.Number) (loop : Bool) (delay t : f.Number)
        → (c d : ReplayController f) → new_controller f recording speed loop delay t ≡ ok c
        → Reach c d
        → IsConsistent d
    controller-IsConsistent recording speed loop delay t c d h r =
        Reach-IsConsistent c d (new_controller-IsConsistent recording speed loop delay t c h) r

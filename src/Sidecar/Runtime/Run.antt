-- ===== src/Sidecar/Runtime/Run.antt =====
-- The bounds of the runtime of sidecar/service.py, which hold whatever happens to it.
use ads_b_flight_intelligenc.Base.{
  ℕ, ◌≤◌, ◌≡◌, refl, Bool, true, false, if◌then◌else◌, inl, inr, not, none, List, [], ◌∷◌, arith,
  length, length-append, ltb, All-append, All-filter, Bool-cases, ◌==◌,
}
use ads_b_flight_intelligenc.Observation.{SourceType}
use ads_b_flight_intelligenc.Engine.Policy
use ads_b_flight_intelligenc.Engine.Env.{Env}
use ads_b_flight_intelligenc.Sidecar.Sbs.{SbsReaders, Raw}
use ads_b_flight_intelligenc.Sidecar.Store.{StoreReaders}
use ads_b_flight_intelligenc.Sidecar.Runtime.{
  SidecarRuntime, Outside, LineContext, Happening, enqueue, subscribe, unsubscribe, process_next,
  happen, run, line_read, line_processed, subscribed, unsubscribed, process_taken,
}
use ads_b_flight_intelligenc.Sidecar.Runtime.Running.{IsRunning, process_line-Runs}

module _ (e : Env) (r : SbsReaders e.floats.Number) (sr : StoreReaders) where
  module _ (valid : Policy.IsValid e.policy) where
    process_taken-IsRunning :
        (w : Outside e r sr) (now : ℕ) (queue : List (Raw r × ℕ)) (s : SidecarRuntime e r sr)
        → length queue ≤ s.queue_maxsize
        → s.processing ≡ true
        → IsRunning e r sr s
        → IsRunning e r sr (process_taken e r sr w now queue s)
    process_taken-IsRunning w now [] s short goes v = v
    process_taken-IsRunning w now ((raw, t) ∷ queue) s short goes v =
        let c : LineContext = record {
          received_at = t;
          source_type = SourceType.live_rf;
          recording_id = none;
        } in
        let s' : SidecarRuntime e r sr = record s { queue = queue } in
        let left = process_line-Runs e r sr valid w now c raw s' goes (record {
          engine_valid = v.engine_valid;
          events_remembered = v.events_remembered;
          events_stored = v.events_stored;
          states_bounded = v.states_bounded;
          queue_bounded = omega arith;
          subscribers_bounded = v.subscribers_bounded;
        }) in
        record {
          engine_valid = λ h. left.engine_valid (ground arith);
          events_remembered = left.events_remembered;
          events_stored = left.events_stored;
          states_bounded = left.states_bounded;
          queue_bounded = left.queue_bounded;
          subscribers_bounded = left.subscribers_bounded;
        }

    process_if-IsRunning :
        (b : Bool) (w : Outside e r sr) (now : ℕ) (s : SidecarRuntime e r sr)
        → s.processing ≡ b
        → IsRunning e r sr s
        → IsRunning e r sr (if b then process_taken e r sr w now s.queue s else s)
    process_if-IsRunning true w now s goes v =
        process_taken-IsRunning w now s.queue s v.queue_bounded goes v
    process_if-IsRunning false w now s over v = v

    enqueue-IsRunning :
        (raw : Raw r) (t : ℕ) (s : SidecarRuntime e r sr)
        → IsRunning e r sr s
        → IsRunning e r sr (enqueue e r sr raw t s).0
    unfolding enqueue
    enqueue-IsRunning raw t s v = elim (Bool-cases (ltb (length s.queue) s.queue_maxsize)) [
      | inl h ↦ rw h (record {
        engine_valid = v.engine_valid;
        events_remembered = v.events_remembered;
        events_stored = v.events_stored;
        states_bounded = v.states_bounded;
        queue_bounded = ground (arith, length-append s.queue ((raw, t) ∷ []));
        subscribers_bounded = v.subscribers_bounded;
      })
      | inr h ↦ rw h (record {
        engine_valid = v.engine_valid;
        events_remembered = v.events_remembered;
        events_stored = v.events_stored;
        states_bounded = v.states_bounded;
        queue_bounded = v.queue_bounded;
        subscribers_bounded = v.subscribers_bounded;
      })
    ]

    happen-IsRunning :
        (w : Outside e r sr) (h : Happening e r sr) (s : SidecarRuntime e r sr)
        → IsRunning e r sr s
        → IsRunning e r sr (happen e r sr w h s)
    unfolding happen process_next subscribe unsubscribe
    happen-IsRunning w (line_read raw t) s v = enqueue-IsRunning raw t s v
    happen-IsRunning w (line_processed now) s v = process_if-IsRunning s.processing w now s refl v
    happen-IsRunning w (subscribed number) s v = record {
      engine_valid = v.engine_valid;
      events_remembered = v.events_remembered;
      events_stored = v.events_stored;
      states_bounded = v.states_bounded;
      queue_bounded = v.queue_bounded;
      subscribers_bounded =
          All-append (λ q. length q.queued ≤ 128) s.subscribers
            (record { number = number; queued = [] } ∷ []) v.subscribers_bounded (omega arith, tt);
    }
    happen-IsRunning w (unsubscribed number) s v = record {
      engine_valid = v.engine_valid;
      events_remembered = v.events_remembered;
      events_stored = v.events_stored;
      states_bounded = v.states_bounded;
      queue_bounded = v.queue_bounded;
      subscribers_bounded =
          All-filter (λ q. length q.queued ≤ 128) (λ q. not (q.number == number)) s.subscribers
            v.subscribers_bounded;
    }

    -- Under a policy with the limits that policy.py requires, whatever happens to a runtime that is
    -- within its bounds, in any order - lines that arrive, lines that are processed, also where that
    -- raises, subscribers that come and go - it stays within them: the engine is valid as long as the
    -- process loop goes on, the memory of events is bounded and holds each identifier once, no file of
    -- events passes its size, no more states than tracks are held, and neither the queue of lines nor
    -- that of a subscriber passes its size.
    pub run-IsRunning :
        (w : Outside e r sr) (hs : List (Happening e r sr)) (s : SidecarRuntime e r sr)
        → IsRunning e r sr s
        → IsRunning e r sr (run e r sr w hs s)
    unfolding run
    run-IsRunning w [] s v = v
    run-IsRunning w (h ∷ hs) s v =
        run-IsRunning w hs (happen e r sr w h s) (happen-IsRunning w h s v)

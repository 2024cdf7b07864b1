-- ===== src/Replay/Cursor/Delivery.antt =====
-- Which events a `PlaybackCursor` of services/replay/recording.py delivers.
use ads_b_flight_intelligenc.Base.{
  ℕ, zero, suc, ◌+◌, ◌≤◌, ◌≡◌, refl, ◌∙◌, not, none, some, List, [], ◌∷◌, arith, get_elem?, drop,
  filter, length, Option-cases, inl, inr, sym,
}
use ads_b_flight_intelligenc.Base.Int.{ℤ, pos}
use ads_b_flight_intelligenc.Base.Result.{ok}
use ads_b_flight_intelligenc.Float.{Float}
use ads_b_flight_intelligenc.Replay.Playback.{drop-bisect_left, DownClosed, bisect_left, offsets_of}
use ads_b_flight_intelligenc.Replay.Recording.{RecordingEvent}
use ads_b_flight_intelligenc.Replay.Recording.Valid.{AscendingFrom}
use ads_b_flight_intelligenc.Replay.Cursor.{PlaybackCursor, before, seek, restart, next_event, play}

before-DownClosed : (playhead : ℤ) → DownClosed (before playhead)
before-DownClosed playhead a b h k = ground arith

drop-some :
    (es : List RecordingEvent) (i : ℕ) (e : RecordingEvent)
    → get_elem? es i ≡ some e
    → drop i es ≡ e ∷ drop (suc i) es
drop-some [] i e h = absurd (cc)
drop-some (x ∷ es) zero e h = ground arith
drop-some (x ∷ es) (suc i) e h = drop-some es i e h

drop-none : (es : List RecordingEvent) (i : ℕ) → get_elem? es i ≡ none → drop i es ≡ []
drop-none [] zero h = refl
drop-none [] (suc i) h = refl
drop-none (x ∷ es) zero h = absurd (cc)
drop-none (x ∷ es) (suc i) h = drop-none es i h

drop-length : (es : List RecordingEvent) (i : ℕ) → length es ≤ i → drop i es ≡ []
drop-length [] zero h = refl
drop-length [] (suc i) h = refl
drop-length (x ∷ es) zero h = absurd (omega arith)
drop-length (x ∷ es) (suc i) h = drop-length es i (omega arith)

module _ (f : Float) where
  open f use {Number}

  -- Enough calls deliver all events from the position on.
  play-drop :
      (n : ℕ) (c : PlaybackCursor f)
      → length c.recording.events ≤ n + c.position
      → play f n c ≡ drop c.position c.recording.events
  unfolding play next_event
  play-drop zero c h = sym (drop-length c.recording.events c.position (omega arith))
  play-drop (suc n) c h = elim (Option-cases (get_elem? c.recording.events c.position)) [
    | inl k ↦ rw (k, play, next_event) (sym (drop-none c.recording.events c.position k))
    | inr (e, k) ↦
        let c' = (next_event f c).0 in
        rw (k, play, next_event, drop-some c.recording.events c.position e k)
          (rw
            (play-drop n (record c { position = suc c.position; playhead_ms = pos e.offset_ms })
              (omega arith))
            refl)
  ]

  -- After a seek on a recording whose offsets never fall, enough calls deliver exactly the events that
  -- are not before the playhead sought, in their order.
  pub play-seek :
      (n : ℕ) (offset : Number) (c c' : PlaybackCursor f)
      → AscendingFrom none c.recording.events
      → seek f offset c ≡ ok c'
      → length c.recording.events ≤ n
      → play f n c' ≡ filter (λ e. not (before c'.playhead_ms e.offset_ms)) c.recording.events
  unfolding seek
  play-seek n offset c c' ascending sought enough =
      let playhead = f.round_int (f.mul offset (f.of_int (pos 1000))) in
      let events = c.recording.events in
      let target : PlaybackCursor f = record c {
        playhead_ms = playhead;
        position = bisect_left (before playhead) (offsets_of events);
      } in
      let here : c' ≡ target = ground arith in
      rw (here) (
        play-drop n target (omega arith)
        ∙ drop-bisect_left (before playhead) (before-DownClosed playhead) none events ascending)

  -- After a restart, enough calls deliver the whole recording.
  pub play-restart :
      (n : ℕ) (c : PlaybackCursor f)
      → length c.recording.events ≤ n
      → play f n (restart f c) ≡ c.recording.events
  unfolding restart
  play-restart n c enough =
      play-drop n (record c { position = 0; playhead_ms = pos 0 }) (omega arith)

-- ===== src/Replay/Recording/Valid.antt =====
-- What a recording that `Recording.from_dict` of services/replay/recording.py accepts is good for.
use ads_b_flight_intelligenc.Base.{
  ℕ, suc, ◌≤◌, ◌≡◌, ◌≢◌, refl, ◌⊎◌, inl, inr, true, false, Option, none, some, List, [], ◌∷◌,
  String, arith, Bool-cases, Option-cases,
}
use ads_b_flight_intelligenc.Base.Int.{ℤ, pos, negsuc}
use ads_b_flight_intelligenc.Base.Json.{Json, Fields, get}
use ads_b_flight_intelligenc.Base.Result.{ok, Result-cases, ok_injective}
use ads_b_flight_intelligenc.Base.Text.{has_char, is_ascii}
use ads_b_flight_intelligenc.Float.{Float}
use ads_b_flight_intelligenc.Replay.Recording.{
  RecordingEvent, Recording, Readers, offset_of, differs_from, check_times, parse_fields,
  parse_event, is_before, parse_events, from_fields, from_dict, as_count, as_text, as_fields,
  as_items, parse_timestamp, event_not_iso, event_no_timezone, not_iso, no_timezone,
}

-- The offsets never fall, from a first bound on.
abbrev pub AscendingFrom : Option ℕ → List RecordingEvent → Type 0
AscendingFrom previous [] = Unit
AscendingFrom none (e ∷ es) = AscendingFrom (some e.offset_ms) es
AscendingFrom (some p) (e ∷ es) = (p ≤ e.offset_ms) × AscendingFrom (some e.offset_ms) es

ascending_step :
    (previous : Option ℕ) (e : RecordingEvent) (es : List RecordingEvent)
    → is_before e.offset_ms previous ≡ false
    → AscendingFrom (some e.offset_ms) es
    → AscendingFrom previous (e ∷ es)
ascending_step none e es h k = k
ascending_step (some p) e es h k = (ground arith, k)

eq_of_differs_from : (z : ℤ) (m : ℕ) → differs_from z m ≡ false → z ≡ pos m
eq_of_differs_from (pos n) m h = ground arith
eq_of_differs_from (negsuc n) m h = cc

module _ (f : Float) (r : Readers) where
  -- An event stands at its offset from the start, and its message is one line of ASCII.
  pub record IsTimed (start_time : ℕ) (e : RecordingEvent) : Type 0 where
    pub on_time : offset_of f r e.observed_at start_time ≡ pos e.offset_ms
    pub ascii : is_ascii e.sbs_message ≡ true
    pub no_line_feed : has_char 10 e.sbs_message ≡ false
    pub no_return : has_char 13 e.sbs_message ≡ false

  abbrev pub AllTimed : ℕ → List RecordingEvent → Type 0
  AllTimed start_time [] = Unit
  AllTimed start_time (e ∷ es) = IsTimed start_time e × AllTimed start_time es

  pub record IsPlayable (recording : Recording) : Type 0 where
    pub some_event : recording.events ≢ []
    pub ascending : AscendingFrom none recording.events
    pub timed : AllTimed recording.start_time recording.events

  check_times-on_time :
      (index start_time offset : ℕ) (message : String) (observed_at : ℕ) (e : RecordingEvent)
      → check_times f r index start_time offset message observed_at ≡ ok e
      → (e.offset_ms ≡ offset)
        × (e.sbs_message ≡ message)
        × (offset_of f r e.observed_at start_time ≡ pos e.offset_ms)
  unfolding check_times
  check_times-on_time index start_time offset message observed_at e h =
      ground (arith, eq_of_differs_from (offset_of f r observed_at start_time) offset)

  parse_fields-IsTimed :
      (fields : Fields) (index start_time : ℕ) (e : RecordingEvent)
      → parse_fields f r fields index start_time ≡ ok e
      → IsTimed start_time e
  unfolding parse_fields
  parse_fields-IsTimed fields index start_time e h =
      elim (Option-cases (as_count (get "offset_ms" fields))) [
        | inl a ↦ ground arith
        | inr (offset, a) ↦ elim (Option-cases (as_text (get "sbs_message" fields))) [
          | inl b ↦ ground arith
          | inr (message, b) ↦
              elim (Result-cases (
                parse_timestamp f r (event_not_iso index) (event_no_timezone index)
                  (get "observed_at" fields))) [
                    | inr (error, c) ↦ ground arith
                    | inl (observed_at, c) ↦
                        ground
                          (arith, check_times-on_time index start_time offset message observed_at e)
                  ]
        ]
      ]

  parse_event-IsTimed :
      (event : Json) (index start_time : ℕ) (e : RecordingEvent)
      → parse_event f r event index start_time ≡ ok e
      → IsTimed start_time e
  unfolding parse_event
  parse_event-IsTimed event index start_time e h = elim (Option-cases (as_fields event)) [
    | inl a ↦ ground arith
    | inr (fields, a) ↦ ground (arith, parse_fields-IsTimed fields index start_time e)
  ]

  -- What the loop returns, of events that follow one with the offset `previous`.
  abbrev Parsed : ℕ → Option ℕ → List Json → List RecordingEvent → Type 0
  Parsed start_time previous es events =
      AscendingFrom previous events × AllTimed start_time events × ((es ≡ []) ⊎ (events ≢ []))

  parse_events-Parsed :
      (es : List Json) (index start_time : ℕ) (previous : Option ℕ) (events : List RecordingEvent)
      → parse_events f r es index previous start_time ≡ ok events
      → Parsed start_time previous es events
  unfolding parse_events
  parse_events-Parsed [] index start_time previous events h =
      rw (← ok_injective h) (tt, tt, inl refl)
  parse_events-Parsed (x ∷ es) index start_time previous events h =
      elim (Result-cases (parse_event f r x index start_time)) [
        | inr (error, a) ↦ ground arith
        | inl (e, a) ↦ elim (Bool-cases (is_before e.offset_ms previous)) [
          | inl late ↦ ground arith
          | inr ordered ↦
              elim (Result-cases (parse_events f r es (suc index) (some e.offset_ms) start_time)) [
                | inr (error, b) ↦ ground arith
                | inl (rest, b) ↦
                    let (ascending, timed, more) =
                      parse_events-Parsed es (suc index) start_time (some e.offset_ms) rest b in
                    let whole : events ≡ e ∷ rest = ground arith in
                    rw (whole) (
                      ascending_step previous e rest ordered ascending,
                      (parse_event-IsTimed x index start_time e a, timed),
                      inr (ground arith),
                    )
              ]
        ]
      ]

  as_items-nonempty : (value : Json) (items : List Json) → as_items value ≡ some items → items ≢ []
  as_items-nonempty value items h = ground arith

  from_fields-IsPlayable :
      (d : Fields) (recording : Recording) → from_fields f r d ≡ ok recording → IsPlayable recording
  unfolding from_fields
  from_fields-IsPlayable d recording h = elim (Option-cases (as_items (get "events" d))) [
    | inl a ↦ ground arith
    | inr (items, a) ↦
        elim (Result-cases (
          parse_timestamp f r (not_iso "start_time") (no_timezone "start_time")
            (get "start_time" d))) [
              | inr (error, b) ↦ ground arith
              | inl (start, b) ↦ elim (Result-cases (parse_events f r items 0 none start)) [
                | inr (error, c) ↦ ground arith
                | inl (events, c) ↦
                    let (ascending, timed, more) =
                      parse_events-Parsed items 0 start none events c in
                    let filled = as_items-nonempty (get "events" d) items a in
                    let same_events : recording.events ≡ events = ground arith in
                    let same_start : recording.start_time ≡ start = ground arith in
                    record {
                      some_event = ground arith;
                      ascending = rw (same_events) ascending;
                      timed = rw (same_events, same_start) timed;
                    }
              ]
            ]
  ]

  -- A recording that is accepted can be played: it has events, their offsets never fall, each stands
  -- at its rounded offset from the start, and each message is one line of ASCII.
  pub from_dict-IsPlayable :
      (document : Json) (recording : Recording)
      → from_dict f r document ≡ ok recording
      → IsPlayable recording
  unfolding from_dict from_fields
  from_dict-IsPlayable document recording h = elim (Option-cases (as_fields document)) [
    | inl a ↦ ground arith
    | inr (d, a) ↦ from_fields-IsPlayable d recording (ground arith)
  ]

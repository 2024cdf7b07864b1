-- ===== src/Replay/Cursor.antt =====
-- `PlaybackCursor` of services/replay/recording.py: the playback of one client.
pub mod Delivery
use ads_b_flight_intelligenc.Base.{
  ℕ, zero, suc, ◌+◌, Bool, not, Option, none, some, List, [], ◌∷◌, get_elem?,
}
use ads_b_flight_intelligenc.Base.Int.{ℤ, pos, ◌-ℤ◌, ltb_ℤ}
use ads_b_flight_intelligenc.Base.Result.{Result, ok, ◌>>◌, raise_if}
use ads_b_flight_intelligenc.Float.{Float}
use ads_b_flight_intelligenc.Replay.Playback.{is_supported, offsets_of, bisect_left}
use ads_b_flight_intelligenc.Replay.Recording.{Recording, RecordingEvent}

pub data CursorError : Type 0 where
  unsupported_speed negative_offset : CursorError

-- `offset < self._playhead_ms`
abbrev pub before : ℤ → ℕ → Bool
before playhead offset = ltb_ℤ (pos offset) playhead

-- `max(0, d)`
abbrev max_zero : ℤ → ℤ
max_zero (pos n) = pos n
max_zero _ = pos 0

module _ (f : Float) where
  open f use {Number, literal, of_int, lt, mul, div, round_int}

  pub record PlaybackCursor : Type 0 where
    pub recording : Recording
    pub position : ℕ
    pub playhead_ms : ℤ
    pub speed : Number

  pub record ScheduledEvent : Type 0 where
    pub delay_seconds : Number
    pub event : RecordingEvent

  unfoldable pub set_speed : Number → PlaybackCursor → Result CursorError PlaybackCursor
  set_speed speed c =
      raise_if (not (is_supported f speed)) unsupported_speed >> ok (record c { speed = speed })

  -- `PlaybackCursor.__init__`
  unfoldable pub new_cursor : Recording → Number → Result CursorError PlaybackCursor
  unfolding set_speed
  new_cursor recording speed =
      set_speed speed
        (record { recording = recording; position = 0; playhead_ms = pos 0; speed = literal 10 1 })

  unfoldable pub seek : Number → PlaybackCursor → Result CursorError PlaybackCursor
  unfolding bisect_left
  seek offset_seconds c =
      let playhead = round_int (mul offset_seconds (of_int (pos 1000))) in
      raise_if (lt offset_seconds (of_int (pos 0))) negative_offset
      >> ok (record c {
        playhead_ms = playhead;
        position = bisect_left (before playhead) (offsets_of c.recording.events);
      })

  unfoldable pub restart : PlaybackCursor → PlaybackCursor
  restart c = record c { position = 0; playhead_ms = pos 0 }

  abbrev scheduled : PlaybackCursor → RecordingEvent → ScheduledEvent
  scheduled c e = record {
    delay_seconds =
        div (div (of_int (max_zero (pos e.offset_ms -ℤ c.playhead_ms))) (of_int (pos 1000)))
          c.speed;
    event = e;
  }

  abbrev advance : PlaybackCursor → Option RecordingEvent → PlaybackCursor × Option ScheduledEvent
  advance c none = (c, none)
  advance c (some e) =
      (record c { position = suc c.position; playhead_ms = pos e.offset_ms }, some (scheduled c e))

  unfoldable pub next_event : PlaybackCursor → PlaybackCursor × Option ScheduledEvent
  next_event c = advance c (get_elem? c.recording.events c.position)

  -- The events of `n` calls, up to the first that has none.
  abbrev push_event : Option ScheduledEvent → List RecordingEvent → List RecordingEvent
  push_event none es = []
  push_event (some s) es = s.event ∷ es

  unfoldable pub play : ℕ → PlaybackCursor → List RecordingEvent
  unfolding next_event
  play zero c = []
  play (suc n) c = let (c', e) = next_event c in push_event e (play n c')

-- ===== src/Replay/Controller.antt =====
-- services/replay/controller.py: the playback clock that the stream and the control interface share.
-- An operation is given the readings of the clock, in seconds, that it takes; the lock makes it one
-- step. `changed` is the flag of the `asyncio.Event` on which the stream waits.
pub mod Reach
use ads_b_flight_intelligenc.Base.{
  ℕ, suc, Bool, true, false, not, Option, none, some, List, [], ◌∷◌, String, get_elem?, get_last?,
  length, ltb, if◌then◌else◌,
}
use ads_b_flight_intelligenc.Base.Int.{ℤ, pos}
use ads_b_flight_intelligenc.Base.Result.{Result, ok, raised, ◌>>=◌, ◌>>◌, raise_if}
use ads_b_flight_intelligenc.Float.{Float}
use ads_b_flight_intelligenc.Replay.Playback.{is_supported, offsets_of, bisect_left}
use ads_b_flight_intelligenc.Replay.Recording.{Recording, RecordingEvent, require}

pub data PlaybackState : Type 0 where
  playing paused completed : PlaybackState

pub data ControllerError : Type 0 where
  unsupported_speed negative_delay negative_offset no_events : ControllerError

abbrev pub is_playing : PlaybackState → Bool
is_playing playing = true
is_playing _ = false

abbrev pub is_paused : PlaybackState → Bool
is_paused paused = true
is_paused _ = false

-- `if self.state is PlaybackState.COMPLETED: self.state = PlaybackState.PAUSED`
abbrev pub after_seek : PlaybackState → PlaybackState
after_seek completed = paused
after_seek s = s

module _ (f : Float) where
  open f use {Number, literal, of_int, lt, le, add, sub, mul, div, round_int}

  pub record PlaybackSnapshot : Type 0 where
    pub recording_id : String
    pub title : String
    pub state : PlaybackState
    pub speed : Number
    pub position_ms : ℤ
    pub duration_ms : ℕ
    pub event_index : ℕ
    pub event_count : ℕ
    pub loop : Bool

  pub record ReplayController : Type 0 where
    pub recording : Recording
    pub speed : Number
    pub loop : Bool
    pub loop_delay_seconds : Number
    pub state : PlaybackState
    pub anchor_time : Number
    pub position_ms : Number
    pub event_index : ℕ
    pub duration_ms : ℕ
    pub changed : Bool

  -- `self._duration_ms`, where it is compared with a float
  abbrev pub duration_of : ReplayController → Number
  duration_of c = of_int (pos c.duration_ms)

  -- A controller that plays from the reading `t` of the clock on.
  abbrev pub started : Recording → Number → Bool → Number → Number → ℕ → ReplayController
  started recording speed loop loop_delay_seconds t duration = record {
    recording = recording;
    speed = speed;
    loop = loop;
    loop_delay_seconds = loop_delay_seconds;
    state = playing;
    anchor_time = t;
    position_ms = literal 0 1;
    event_index = 0;
    duration_ms = duration;
    changed = false;
  }

  -- `ReplayController.__init__`
  unfoldable pub new_controller :
      Recording → Number → Bool → Number → Number → Result ControllerError ReplayController
  new_controller recording speed loop loop_delay_seconds t = do
    raise_if (not (is_supported f speed)) unsupported_speed
    raise_if (lt loop_delay_seconds (of_int (pos 0))) negative_delay
    duration ← require no_events (get_last? (offsets_of recording.events))
    ok (started recording speed loop loop_delay_seconds t duration)

  -- `min(a, b)`, which is `a` unless `b` is less
  abbrev pub min_of : Number → Number → Number
  min_of a b = if lt b a then b else a

  -- The position while it plays.
  abbrev pub played : ReplayController → Number → Number
  played c t =
      min_of (duration_of c)
        (add c.position_ms (mul (mul (sub t c.anchor_time) (of_int (pos 1000))) c.speed))

  -- `_current_position`; the clock is read only while it plays
  unfoldable pub current_position : ReplayController → Number → Number
  current_position c t = if not (is_playing c.state) then c.position_ms else played c t

  -- `_freeze_position`
  unfoldable pub freeze : ReplayController → Number → Number → ReplayController
  unfolding current_position
  freeze c t1 t2 = record c { position_ms = current_position c t1; anchor_time = t2 }

  -- `_snapshot`
  unfoldable pub snapshot : ReplayController → Number → PlaybackSnapshot
  unfolding current_position
  snapshot c t = record {
    recording_id = c.recording.recording_id;
    title = c.recording.title;
    state = c.state;
    speed = c.speed;
    position_ms = round_int (current_position c t);
    duration_ms = c.duration_ms;
    event_index = c.event_index;
    event_count = length c.recording.events;
    loop = c.loop;
  }

  unfoldable pub pause : Number → Number → ReplayController → ReplayController
  unfolding freeze
  pause t1 t2 c =
      if is_playing c.state
      then record (freeze c t1 t2) { state = paused; changed = true }
      else record c { changed = true }

  unfoldable pub resume : Number → ReplayController → ReplayController
  resume t c =
      if is_paused c.state
      then record c { anchor_time = t; state = playing; changed = true }
      else record c { changed = true }

  unfoldable pub restart : Number → ReplayController → ReplayController
  restart t c = record c {
    position_ms = of_int (pos 0);
    event_index = 0;
    anchor_time = t;
    state = playing;
    changed = true;
  }

  -- `offset < self._position_ms`
  abbrev pub before : Number → ℕ → Bool
  before position offset = lt (of_int (pos offset)) position

  -- The state after a seek to an offset that is not negative.
  unfoldable pub moved : Number → Number → ReplayController → ReplayController
  unfolding bisect_left
  moved offset_seconds t c =
      let position = min_of (mul offset_seconds (of_int (pos 1000))) (duration_of c) in
      record c {
        position_ms = position;
        event_index = bisect_left (before position) (offsets_of c.recording.events);
        anchor_time = t;
        state = after_seek c.state;
        changed = true;
      }

  unfoldable pub seek : Number → Number → ReplayController → Result ControllerError ReplayController
  unfolding moved
  seek offset_seconds t c =
      raise_if (lt offset_seconds (of_int (pos 0))) negative_offset >> ok (moved offset_seconds t c)

  unfoldable pub set_speed :
      Number → Number → Number → ReplayController → Result ControllerError ReplayController
  unfolding freeze
  set_speed speed t1 t2 c =
      raise_if (not (is_supported f speed)) unsupported_speed
      >> ok (record (freeze c t1 t2) { speed = speed; changed = true })

  -- What one pass of the loop of `next_event` ends with: an event, or a wait, with its timeout and
  -- whether the playback restarts at the timeout.
  pub data Outcome : Type 0 where
    deliver : RecordingEvent → Outcome
    wait : Option Number → Bool → Outcome

  -- `event.offset_ms <= position_ms`
  abbrev pub is_due : RecordingEvent → Number → Bool
  is_due e position = le (of_int (pos e.offset_ms)) position

  abbrev pub poll_event :
      ReplayController → Number → Option RecordingEvent → ReplayController × Outcome
  poll_event c position none = (
    record c { position_ms = duration_of c; state = completed },
    wait (if c.loop then some c.loop_delay_seconds else none) c.loop,
  )
  poll_event c position (some e) =
      if is_due e position then (record c { event_index = suc c.event_index }, deliver e) else (
        c,
        wait
            (some (div (div (sub (of_int (pos e.offset_ms)) position) (of_int (pos 1000))) c.speed))
            false,
      )

  -- One pass of the loop of `next_event`, up to its wait.
  unfoldable pub poll : Number → ReplayController → ReplayController × Outcome
  unfolding current_position
  poll t c =
      let c' = record c { changed = false } in
      if is_playing c.state
      then poll_event c' (current_position c t) (get_elem? c.recording.events c.event_index)
      else (c', wait none false)

  -- The operations of a controller, with their clock readings. At the timeout of a wait that restarts,
  -- the stream restarts the playback.
  pub data Operation : Type 0 where
    pauses : Number → Number → Operation
    resumes : Number → Operation
    restarts : Number → Operation
    seeks : Number → Number → Operation
    sets_speed : Number → Number → Number → Operation
    polls : Number → Operation

  -- An operation that raises leaves the controller as it was.
  abbrev or_unchanged :
      ReplayController → Result ControllerError ReplayController → ReplayController
  or_unchanged c (ok c') = c'
  or_unchanged c (raised e) = c

  unfoldable pub apply : Operation → ReplayController → ReplayController
  unfolding pause resume restart seek set_speed poll
  apply (pauses t1 t2) c = pause t1 t2 c
  apply (resumes t) c = resume t c
  apply (restarts t) c = restart t c
  apply (seeks offset t) c = or_unchanged c (seek offset t c)
  apply (sets_speed speed t1 t2) c = or_unchanged c (set_speed speed t1 t2 c)
  apply (polls t) c = (poll t c).0

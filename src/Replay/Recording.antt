-- ===== src/Replay/Recording.antt =====
-- services/replay/recording.py: what a recording is, and the validation of its document. The hash of
-- the events, `datetime.fromisoformat` (after a final `Z`) and `datetime.strptime` are parameters.
pub mod Valid
use Prim.Native.String
use ads_b_flight_intelligenc.Base.{
  ℕ, suc, Bool, true, false, not, ◌||◌, ◌++◌, Option, none, some, List, [], ◌∷◌, String, str_eq,
  length, get_elem?, ltb, when, is_some, if◌then◌else◌, ◌==◌, format,
}
use ads_b_flight_intelligenc.Base.Int.{ℤ, pos, negsuc, sub_ℕ, pos_part, neg_part}
use ads_b_flight_intelligenc.Base.Json.{
  Json, Items, Fields, null, boolean, integer, real, str, array, object, nil, cons, to_list, get,
}
use ads_b_flight_intelligenc.Base.Moment.{Moment, aware, naive}
use ads_b_flight_intelligenc.Base.Result.{Result, ok, raised, ◌>>=◌, ◌>>◌, raise_if}
use ads_b_flight_intelligenc.Base.Text.{has_char, is_ascii, split}
use ads_b_flight_intelligenc.Float.{Float}

pub record RecordingSource : Type 0 where
  pub kind : String
  pub name : String
  pub license_id : String
  pub attribution : String

pub record RecordingEvent : Type 0 where
  pub offset_ms : ℕ
  pub observed_at : ℕ
  pub sbs_message : String

pub record Recording : Type 0 where
  pub recording_id : String
  pub title : String
  pub description : String
  pub created_at : ℕ
  pub start_time : ℕ
  pub source : RecordingSource
  pub receiver_id : Option String
  pub events_sha256 : String
  pub events : List RecordingEvent

-- `RecordingValidationError`, by its text; an event's is given the number of the event.
pub data RecordingError : Type 0 where
  not_an_object unsupported_schema source_not_an_object no_events hash_mismatch : RecordingError
  not_iso no_timezone : String → RecordingError
  events_not_ordered bad_receiver_id : RecordingError
  missing_text : List String → RecordingError
  event_not_an_object bad_offset not_one_message not_ascii : ℕ → RecordingError
  event_not_iso event_no_timezone offset_mismatch : ℕ → RecordingError
  not_a_record bad_sbs_time sbs_time_mismatch : ℕ → RecordingError

-- What the validation calls of Python.
pub record Readers : Type 0 where
  -- `_events_hash`
  pub events_hash : List Json → String
  -- `datetime.fromisoformat(value.replace("Z", "+00:00"))`
  pub fromisoformat : String → Option Moment
  -- `datetime.strptime(value, "%Y/%m/%d %H:%M:%S.%f")`, read as UTC
  pub strptime : String → Option ℕ
  -- `str.strip`
  pub strip : String → String

abbrev moment_of : RecordingError → RecordingError → Option Moment → Result RecordingError ℕ
moment_of not_one no_zone none = raised not_one
moment_of not_one no_zone (some (naive t)) = raised no_zone
moment_of not_one no_zone (some (aware t)) = ok t

-- `isinstance(value, str)`
abbrev pub as_text : Json → Option String
as_text (str s) = some s
as_text _ = none

-- `isinstance(value, int) and not isinstance(value, bool) and value >= 0`
abbrev pub as_count : Json → Option ℕ
as_count (integer (pos n)) = some n
as_count _ = none

abbrev pub as_fields : Json → Option Fields
as_fields (object fields) = some fields
as_fields _ = none

-- `isinstance(value, list)`, of a list that is not empty
abbrev pub as_items : Json → Option (List Json)
as_items (array (cons x xs)) = some (x ∷ to_list xs)
as_items _ = none

abbrev pub require {ℓ} : {A : Type ℓ} {E : Type 0} → E → Option A → Result E A
require error none = raised error
require error (some a) = ok a

-- `document.get("schema_version") != SCHEMA_VERSION`
abbrev pub is_text : String → Json → Bool
is_text s (str t) = str_eq t s
is_text s _ = false

-- `expected_offset != offset_ms`
abbrev pub differs_from : ℤ → ℕ → Bool
differs_from (pos n) m = not (n == m)
differs_from (negsuc n) m = true

-- `fields[6]` and `fields[7]`, joined, of a record with at least eight fields whose first is MSG
abbrev pub sbs_time : List String → Option String
sbs_time (kind ∷ a ∷ b ∷ c ∷ d ∷ e ∷ date ∷ time ∷ more) =
    if str_eq kind "MSG" then some (format (date ∷ " " ∷ time ∷ [])) else none
sbs_time _ = none

-- `"\n" in message or "\r" in message`
abbrev pub is_broken : String → Bool
is_broken message = has_char 10 message || has_char 13 message

-- `event.offset_ms < previous_offset`, which is -1 before the first event
abbrev pub is_before : ℕ → Option ℕ → Bool
is_before offset none = false
is_before offset (some previous) = ltb offset previous

abbrev pub raise_missing : List String → Result RecordingError (Unit {0})
raise_missing [] = ok tt
raise_missing (name ∷ names) = raised (missing_text (name ∷ names))

abbrev pub text_of : Json → String
text_of (str s) = s
text_of _ = ""

module _ (f : Float) (r : Readers) where
  open f use {of_micros, of_int, mul, round_int}
  open r use {events_hash, fromisoformat, strptime, strip}

  -- `_parse_timestamp`, with its two errors
  abbrev pub parse_timestamp : RecordingError → RecordingError → Json → Result RecordingError ℕ
  parse_timestamp not_one no_zone (str s) = moment_of not_one no_zone (fromisoformat s)
  parse_timestamp not_one no_zone _ = raised not_one

  -- `round((observed_at - start_time).total_seconds() * 1_000)`
  abbrev pub offset_of : ℕ → ℕ → ℤ
  offset_of observed_at start_time =
      round_int (mul (of_micros (sub_ℕ observed_at start_time)) (of_int (pos 1000)))

  -- The checks of an event's times.
  unfoldable pub check_times : ℕ → ℕ → ℕ → String → ℕ → Result RecordingError RecordingEvent
  unfolding split format
  check_times index start_time offset_ms message observed_at = do
    raise_if (differs_from (offset_of observed_at start_time) offset_ms) (offset_mismatch index)
    time ← require (not_a_record index) (sbs_time (split 44 message))
    sbs_observed_at ← require (bad_sbs_time index) (strptime time)
    raise_if (not (sbs_observed_at == observed_at)) (sbs_time_mismatch index)
    ok (record { offset_ms = offset_ms; observed_at = observed_at; sbs_message = message })

  unfoldable pub parse_fields : Fields → ℕ → ℕ → Result RecordingError RecordingEvent
  unfolding check_times has_char is_ascii
  parse_fields fields index start_time = do
    offset_ms ← require (bad_offset index) (as_count (get "offset_ms" fields))
    message ← require (not_one_message index) (as_text (get "sbs_message" fields))
    raise_if (is_broken message) (not_one_message index)
    raise_if (not (is_ascii message)) (not_ascii index)
    observed_at ←
        parse_timestamp (event_not_iso index) (event_no_timezone index) (get "observed_at" fields)
    check_times index start_time offset_ms message observed_at

  -- `Recording._parse_event`
  unfoldable pub parse_event : Json → ℕ → ℕ → Result RecordingError RecordingEvent
  unfolding parse_fields
  parse_event event index start_time = do
    fields ← require (event_not_an_object index) (as_fields event)
    parse_fields fields index start_time

  -- The loop over the events.
  unfoldable pub parse_events :
      List Json → ℕ → Option ℕ → ℕ → Result RecordingError (List RecordingEvent)
  unfolding parse_event
  parse_events [] index previous start_time = ok []
  parse_events (e ∷ es) index previous start_time = do
    event ← parse_event e index start_time
    raise_if (is_before event.offset_ms previous) events_not_ordered
    rest ← parse_events es (suc index) (some event.offset_ms) start_time
    ok (event ∷ rest)

  -- `isinstance(value, str) and value.strip()`, and the name where it fails
  abbrev present : Json → Bool
  present (str s) = not (str_eq (strip s) "")
  present _ = false

  abbrev missing_name : String → Json → List String
  missing_name name value = when (not (present value)) name

  abbrev missing_names : Fields → Fields → List String
  missing_names d s =
      missing_name "recording_id" (get "recording_id" d)
      ++ (missing_name "title" (get "title" d)
          ++ (missing_name "description" (get "description" d)
              ++ (missing_name "source.kind" (get "kind" s)
                  ++ (missing_name "source.name" (get "name" s)
                      ++ (missing_name "source.license_id" (get "license_id" s)
                          ++ missing_name "source.attribution" (get "attribution" s))))))

  -- `receiver_id`: null, or a text that is not blank
  abbrev receiver_of : Json → Result RecordingError (Option String)
  receiver_of null = ok none
  receiver_of (str s) = if str_eq (strip s) "" then raised bad_receiver_id else ok (some s)
  receiver_of _ = raised bad_receiver_id

  unfoldable pub from_fields : Fields → Result RecordingError Recording
  unfolding parse_events
  from_fields d = do
    raise_if (not (is_text "1.0" (get "schema_version" d))) unsupported_schema
    s ← require source_not_an_object (as_fields (get "source" d))
    items ← require no_events (as_items (get "events" d))
    raise_if (not (is_text (events_hash items) (get "events_sha256" d))) hash_mismatch
    start_time ←
        parse_timestamp (not_iso "start_time") (no_timezone "start_time") (get "start_time" d)
    events ← parse_events items 0 none start_time
    raise_missing (missing_names d s)
    receiver_id ← receiver_of (get "receiver_id" d)
    created_at ←
        parse_timestamp (not_iso "created_at") (no_timezone "created_at") (get "created_at" d)
    ok (record {
      recording_id = text_of (get "recording_id" d);
      title = text_of (get "title" d);
      description = text_of (get "description" d);
      created_at = created_at;
      start_time = start_time;
      source = record {
        kind = text_of (get "kind" s);
        name = text_of (get "name" s);
        license_id = text_of (get "license_id" s);
        attribution = text_of (get "attribution" s);
      };
      receiver_id = receiver_id;
      events_sha256 = events_hash items;
      events = events;
    })

  -- `Recording.from_dict`
  unfoldable pub from_dict : Json → Result RecordingError Recording
  unfolding from_fields
  from_dict document = do d ← require not_an_object (as_fields document); from_fields d

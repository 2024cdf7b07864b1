-- ===== src/Replay/Tests.antt =====
-- A recording of two events, played.
use ads_b_flight_intelligenc.Base.{ℕ, ◌≡◌, refl, false, not, none, some, [], ◌∷◌, arith, filter}
use ads_b_flight_intelligenc.Base.Int.{pos}
use ads_b_flight_intelligenc.Base.Result.{ok}
use ads_b_flight_intelligenc.Float.{micros, Float}
use ads_b_flight_intelligenc.Replay.Recording.{Recording, RecordingEvent, Readers, from_dict}
use ads_b_flight_intelligenc.Replay.Cursor.{PlaybackCursor, before, seek, play}
use ads_b_flight_intelligenc.Replay.Cursor.Delivery.{play-seek}
use ads_b_flight_intelligenc.Replay.Controller.{
  ReplayController, pauses, polls, seeks, apply, new_controller, started,
}
use ads_b_flight_intelligenc.Replay.Controller.Reach.{
  IsOrdered, IsConsistent, here, next, controller-IsConsistent,
}
use ads_b_flight_intelligenc.Base.Moment.{aware}
use ads_b_flight_intelligenc.Replay.Recording.Valid.{IsPlayable, from_dict-IsPlayable}
use ads_b_flight_intelligenc.Base.Json.{Json, object, field, end, integer, str, array, cons, nil}

abbrev event_at : ℕ → RecordingEvent
event_at t = record { offset_ms = t; observed_at = t; sbs_message = "MSG" }

abbrev recording : Recording
recording = record {
  recording_id = "r1";
  title = "t";
  description = "d";
  created_at = 0;
  start_time = 0;
  source = record { kind = "k"; name = "n"; license_id = "l"; attribution = "a" };
  receiver_id = none;
  events_sha256 = "";
  events = event_at 0 ∷ event_at 1_000 ∷ [];
}

abbrev cursor : PlaybackCursor micros
cursor = record { recording = recording; position = 0; playhead_ms = pos 0; speed = pos 10 }

abbrev sought : PlaybackCursor micros
sought = record { recording = recording; position = 1; playhead_ms = pos 1_000; speed = pos 10 }

seek-second : seek micros (pos 0) cursor ≡ ok sought
unfolding seek
seek-second = refl

play-seek_example :
    play micros 2 sought
    ≡ filter (λ e. not (before (pos 1_000) e.offset_ms)) (event_at 0 ∷ event_at 1_000 ∷ [])
play-seek_example =
    play-seek micros 2 (pos 0) cursor sought (omega arith, tt) seek-second (omega arith)

micros-IsOrdered : IsOrdered micros
micros-IsOrdered = record {
  asymmetric = λ a b h. ground arith;
  zero_least = λ n. ground arith;
  int_zero_least = λ n. ground arith;
}

abbrev controller : ReplayController micros
controller = started micros recording (pos 10) false (pos 0) (pos 0) 1_000

new_controller-started :
    new_controller micros recording (pos 10) false (pos 0) (pos 0) ≡ ok controller
unfolding new_controller
new_controller-started = refl

abbrev moved_on : ReplayController micros
moved_on =
    apply micros (seeks (pos 0) (pos 3))
      (apply micros (pauses (pos 1) (pos 1)) (apply micros (polls (pos 0)) controller))

controller-IsConsistent_example : IsConsistent micros moved_on
controller-IsConsistent_example =
    controller-IsConsistent micros micros-IsOrdered recording (pos 10) false (pos 0) (pos 0)
      controller moved_on new_controller-started
      (next (next (next here (polls (pos 0))) (pauses (pos 1) (pos 1))) (seeks (pos 0) (pos 3)))

-- A document of one event.
abbrev readers : Readers
readers = record {
  events_hash = λ events. "h";
  fromisoformat = λ text. some (aware 7);
  strptime = λ text. some 7;
  strip = λ text. text;
}

abbrev event_document : Json
event_document = object (
    field "offset_ms" (integer (pos 0))
      (field "sbs_message" (str "MSG,a,b,c,d,e,f,g") (field "observed_at" (str "t") end)))

abbrev document : Json
document = object (
    field "schema_version" (str "1.0") (
      field "recording_id" (str "r") (
        field "title" (str "t") (
          field "description" (str "d") (
            field "created_at" (str "t") (
              field "start_time" (str "t") (
                field "events_sha256" (str "h") (
                  field "events" (array (cons event_document nil)) (
                    field "source"
                      (object (
                        field "kind" (str "k") (
                          field "name" (str "n")
                            (field "license_id" (str "l") (field "attribution" (str "a") end)))))
                      end)))))))))

abbrev read : Recording
read = record {
  recording_id = "r";
  title = "t";
  description = "d";
  created_at = 7;
  start_time = 7;
  source = record { kind = "k"; name = "n"; license_id = "l"; attribution = "a" };
  receiver_id = none;
  events_sha256 = "h";
  events = record { offset_ms = 0; observed_at = 7; sbs_message = "MSG,a,b,c,d,e,f,g" } ∷ [];
}

abbrev undelayed : Float
undelayed = record micros { mul = λ x y. x }

document-read : from_dict undelayed readers document ≡ ok read
unfolding from_dict
document-read = refl

from_dict-IsPlayable_example : IsPlayable undelayed readers read
from_dict-IsPlayable_example = from_dict-IsPlayable undelayed readers document read document-read

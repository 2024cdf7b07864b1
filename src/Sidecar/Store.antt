-- ===== src/Sidecar/Store.antt =====
-- sidecar/store.py: the events, in segments that are files of a directory and in memory. A segment
-- is its number, its size and the time of its last write. `json.dumps` is a parameter. A write and
-- the bounds after it read one clock. The recovery of files at the start is left out.
pub mod Bounds
pub mod Memory
use ads_b_flight_intelligenc.Base.{
  ℕ, suc, ◌+◌, ◌-◌, Bool, true, false, not, ◌||◌, ◌&&◌, ◌++◌, Option, none, some, List, [], ◌∷◌,
  String, str_eq, length, ltb, leb, ◌==◌, filter, if◌then◌else◌,
}
use ads_b_flight_intelligenc.Base.Int.{ℤ, pos, sub_ℕ, ltb_ℤ}
use ads_b_flight_intelligenc.Base.Json.{
  Json, Fields, null, boolean, integer, real, str, array, object, nil, end, get,
}
use ads_b_flight_intelligenc.Base.Result.{Result, ok, raised, ◌>>=◌, ◌>>◌, raise_if}
use ads_b_flight_intelligenc.Base.Sets.{contains, add, discard}
use ads_b_flight_intelligenc.Engine.Track.{append_bounded, forget_oldest}

pub record Segment : Type 0 where
  pub number : ℕ
  pub size : ℕ
  pub modified : ℕ

-- `ValueError`, of `json.dumps` and of the check of the size
pub data StoreError : Type 0 where
  not_encodable event_too_large : StoreError

pub record EventStore : Type 0 where
  -- `retention`, in microseconds
  pub retention : ℕ
  pub max_bytes : ℕ
  pub segment_bytes : ℕ
  pub sequence : ℕ
  pub current : ℕ
  -- the files, in the order of their names, which is that of their numbers
  pub segments : List Segment
  pub recovered_events : List Fields
  pub event_id_order : List String
  pub event_ids : List String

-- The `maxlen` of the two deques.
abbrev pub kept_events : ℕ
kept_events = 10_000

pub record StoreReaders : Type 0 where
  -- `len(json.dumps(record, …).encode())`, where it does not raise
  pub encoded_size : Fields → Option ℕ
  -- `str(value)` of what is no text
  pub text_of : Json → String
  -- whether a number that is no integer, by its text, is zero
  pub is_zero : String → Bool

abbrev pub total_size : List Segment → ℕ
total_size [] = 0
total_size (g ∷ gs) = g.size + total_size gs

-- `self._path.stat().st_size`; the current segment is among the files
unfoldable pub size_of : ℕ → List Segment → ℕ
size_of number [] = 0
size_of number (g ∷ gs) = if g.number == number then g.size else size_of number gs

abbrev pub is_current : ℕ → Segment → Bool
is_current current g = g.number == current

-- The segments that the retention keeps.
unfoldable pub unexpired_segments : ℕ → ℕ → ℕ → List Segment → List Segment
unexpired_segments current retention now =
    filter (λ g. is_current current g || not (ltb_ℤ (pos g.modified) (sub_ℕ now retention)))

-- The loop of `enforce_bounds`: the oldest segments go until the total fits.
unfoldable pub shrink : ℕ → ℕ → ℕ → List Segment → List Segment
shrink current max_bytes total [] = []
shrink current max_bytes total (g ∷ gs) = elim (leb total max_bytes) [
  | true ↦ g ∷ gs
  | false ↦ elim (is_current current g) [
    | true ↦ g ∷ shrink current max_bytes total gs
    | false ↦ shrink current max_bytes (total - g.size) gs
  ]
]

unfoldable pub enforce_bounds : ℕ → EventStore → EventStore
unfolding unexpired_segments shrink
enforce_bounds now s =
    let kept = unexpired_segments s.current s.retention now s.segments in
    record s { segments = shrink s.current s.max_bytes (total_size kept) kept }

-- `_open_segment`, of a number that no file has
unfoldable pub open_segment : ℕ → EventStore → EventStore
open_segment now s = record s {
  current = s.sequence;
  sequence = suc s.sequence;
  segments = s.segments ++ record { number = s.sequence; size = 0; modified = now } ∷ [];
}

-- `self._handle.write(encoded + "\n")`
unfoldable pub write : ℕ → ℕ → ℕ → List Segment → List Segment
write current now size [] = []
write current now size (g ∷ gs) =
    let rest = write current now size gs in
    if is_current current g
    then record g { size = g.size + size; modified = now } ∷ gs
    else g ∷ rest

abbrev pub rotated : Bool → ℕ → EventStore → EventStore
rotated true now s = open_segment now s
rotated false now s = s

abbrev pub written : ℕ → ℕ → EventStore → EventStore
written now size s = record s { segments = write s.current now size s.segments }

-- `append`, of a record that takes `encoded` bytes without its end of line
unfoldable pub append_encoded : ℕ → ℕ → EventStore → Result StoreError EventStore
unfolding size_of open_segment write enforce_bounds
append_encoded now encoded s =
    let size = suc encoded in
    raise_if (ltb s.segment_bytes size) event_too_large
    >> ok (
        enforce_bounds now (
          written now size
            (rotated (ltb s.segment_bytes (size_of s.current s.segments + size)) now s)))

abbrev pub require_size : Option ℕ → Result StoreError ℕ
require_size none = raised not_encodable
require_size (some n) = ok n

module _ (r : StoreReaders) where
  unfoldable pub append : ℕ → Fields → EventStore → Result StoreError EventStore
  unfolding append_encoded
  append now fields s = do
    encoded ← require_size (r.encoded_size fields)
    append_encoded now encoded s

  -- `str(record.get("event_id") or "")`
  abbrev id_of_json : Json → String
  id_of_json null = ""
  id_of_json (str s) = s
  id_of_json (boolean false) = ""
  id_of_json (integer (pos n)) = if n == 0 then "" else r.text_of (integer (pos n))
  id_of_json (real x) = if r.is_zero x then "" else r.text_of (real x)
  id_of_json (array nil) = ""
  id_of_json (object end) = ""
  id_of_json value = r.text_of value

  abbrev pub event_id_of : Fields → String
  event_id_of fields = id_of_json (get "event_id" fields)

  -- What `remember` notes of a record that was appended.
  abbrev pub note_id : String → EventStore → EventStore
  note_id id s = if str_eq id "" then s else record s {
    event_id_order = append_bounded kept_events id s.event_id_order;
    event_ids = add str_eq id (forget_oldest kept_events s.event_id_order s.event_ids);
  }

  abbrev pub note_event : Fields → EventStore → EventStore
  note_event fields s =
      note_id (event_id_of fields)
        (record s { recovered_events = append_bounded kept_events fields s.recovered_events })

  -- `event_id and event_id in self._event_ids`
  abbrev pub is_known : Fields → EventStore → Bool
  is_known fields s =
      not (str_eq (event_id_of fields) "") && contains str_eq (event_id_of fields) s.event_ids

  unfoldable pub remember : ℕ → Fields → EventStore → Result StoreError (EventStore × Bool)
  unfolding append append_bounded forget_oldest add contains
  remember now fields s =
      if is_known fields s
      then ok (s, false)
      else append now fields s >>= λ s'. ok (note_event fields s', true)

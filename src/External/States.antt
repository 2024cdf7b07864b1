-- ===== src/External/States.antt =====
-- `_parse_states` of backend/app/services/external_observations.py: the observations in the answer of
-- the feed. Python's `float`, `str`, `int` and `datetime.fromtimestamp` and the construction of an
-- observation by pydantic, which checks its fields and gives it an identifier, are parameters.
use ads_b_flight_intelligenc.Base.{
  Bool, ℕ, false, Option, none, some, List, [], ◌∷◌, String, str_eq, length, get_elem?, ltb, ◌==◌,
  if◌then◌else◌, format,
}
use ads_b_flight_intelligenc.Base.Int.{ℤ, pos}
use ads_b_flight_intelligenc.Base.Json.{
  real, Json, null, boolean, integer, str, array, object, end, to_list, get,
}
use ads_b_flight_intelligenc.Base.Result.{Result, ok, raised, ◌>>=◌}
use ads_b_flight_intelligenc.Float.{Float}
use ads_b_flight_intelligenc.Observation.{TrackObservation, Provenance, SourceType, QualityFlag}

-- The class of an exception, as far as an `except` clause tells.
pub data ExceptionKind : Type 0 where
  http_error type_error value_error index_error other_error : ExceptionKind

pub record Exception : Type 0 where
  pub kind : ExceptionKind
  pub name : String

-- The arguments of `TrackObservation(...)`.
pub record RawState (N : Type 0) : Type 0 where
  pub provenance : Provenance
  pub icao_hex : String
  pub observed_at : ℕ
  pub received_at : ℕ
  pub callsign : Json
  pub latitude : Option N
  pub longitude : Option N
  pub altitude_ft : Option ℤ
  pub ground_speed_knots : Option N
  pub track_degrees : Option N
  pub vertical_rate_fpm : Option ℤ
  pub squawk : Json
  pub quality_flags : List QualityFlag
  pub raw_message_id : String

pub record Readers (N : Type 0) : Type 0 where
  -- `float(value)`
  pub float_of : Json → Result Exception N
  -- `datetime.fromtimestamp(x, tz=timezone.utc)`
  pub fromtimestamp : N → Result Exception ℕ
  -- `str(value)`, `str(value).strip().upper()`
  pub text_of : Json → String
  pub address_of : Json → String
  -- `TrackObservation(...)`
  pub construct : RawState N → Result Exception (TrackObservation N)
  -- `int(value)`, where it does not raise
  pub int_of : String → Option ℤ
  -- whether a number that is no integer, by its text, is zero
  pub is_zero : String → Bool
  -- `value.upper()`, `f"{x:.3f}"`
  pub upper : String → String
  pub fixed3 : N → String

abbrev raise_type {ℓ} : {A : Type ℓ} → Result Exception A
raise_type = raised (record { kind = type_error; name = "TypeError" })

abbrev pub opensky_provenance : Provenance
opensky_provenance = record {
  source_type = SourceType.external_feed;
  source_id = "opensky-live-states";
  receiver_id = none;
  recording_id = none;
  provider = some "OpenSky Network";
  license_id = some "OpenSky terms (research/non-commercial use)";
}

-- `row[i]`, within the row
abbrev pub cell : List Json → ℕ → Json
cell row i = elim (get_elem? row i) [ none ↦ null | some value ↦ value ]

-- `row[3] if row[3] is not None else row[4]`
abbrev or_else : Json → Json → Json
or_else null other = other
or_else value other = value

-- The rows of the answer that are lists of at least 17 values.
abbrev pub as_row : Json → Option (List Json)
as_row (array items) = let row = to_list items in if ltb (length row) 17 then none else some row
as_row _ = none

-- `payload.get("states") or []`, where it is a list; `is_zero` reads a number that is no integer
abbrev pub rows_of : (String → Bool) → Json → Result Exception (List Json)
rows_of is_zero (array items) = ok (to_list items)
rows_of is_zero null = ok []
rows_of is_zero (boolean false) = ok []
rows_of is_zero (integer (pos n)) = if n == 0 then ok [] else raise_type
rows_of is_zero (real x) = if is_zero x then ok [] else raise_type
rows_of is_zero (str s) = if str_eq s "" then ok [] else raise_type
rows_of is_zero (object end) = ok []
rows_of is_zero _ = raise_type

-- `payload.get(...)` of what is no dictionary
abbrev pub no_dictionary : Exception
no_dictionary = record { kind = other_error; name = "AttributeError" }

abbrev pub states_of : Json → Result Exception Json
states_of (object fields) = ok (get "states" fields)
states_of _ = raised no_dictionary

module _ (f : Float) (r : Readers f.Number) where
  open f use {Number, literal, mul, round_int}

  -- `_optional_float`
  abbrev pub optional_float : Json → Result Exception (Option Number)
  optional_float null = ok none
  optional_float value = r.float_of value >>= λ x. ok (some x)

  -- The three conversions of a number that may be missing.
  abbrev scaled : Number → Option Number → Option Number
  scaled factor none = none
  scaled factor (some x) = some (mul x factor)

  abbrev rounded : Number → Option Number → Option ℤ
  rounded factor none = none
  rounded factor (some x) = some (round_int (mul x factor))

  -- The latitude and the longitude, or neither where one is missing.
  abbrev pub both : Option Number → Option Number → Option Number × Option Number
  both (some a) (some b) = (some a, some b)
  both _ _ = (none, none)

  abbrev flags_of : Option Number → List QualityFlag
  flags_of none = QualityFlag.partial ∷ []
  flags_of (some x) = []

  -- A row whose time is `stamp`.
  unfoldable pub parse_row : ℕ → List Json → Json → Result Exception (TrackObservation Number)
  unfolding format
  parse_row received_at row stamp = do
    seconds ← r.float_of stamp
    observed_at ← r.fromtimestamp seconds
    latitude ← optional_float (cell row 6)
    longitude ← optional_float (cell row 5)
    altitude ← optional_float (cell row 7)
    speed ← optional_float (cell row 9)
    track ← optional_float (cell row 10)
    climb ← optional_float (cell row 11)
    let place = both latitude longitude
    let address = r.address_of (cell row 0)
    r.construct (record {
      provenance = opensky_provenance;
      icao_hex = address;
      observed_at = observed_at;
      received_at = received_at;
      callsign = cell row 1;
      latitude = place.0;
      longitude = place.1;
      altitude_ft = rounded (literal 328_084 5) altitude;
      ground_speed_knots = scaled (literal 194_384 5) speed;
      track_degrees = track;
      vertical_rate_fpm = rounded (literal 1_968_504 4) climb;
      squawk = cell row 14;
      quality_flags = flags_of place.0;
      raw_message_id = format ("opensky:" ∷ address ∷ ":" ∷ r.text_of stamp ∷ []);
    })

  -- A row without a time is passed over.
  abbrev pub parse_timed : ℕ → List Json → Json → Result Exception (List (TrackObservation Number))
  parse_timed received_at row null = ok []
  parse_timed received_at row stamp = parse_row received_at row stamp >>= λ o. ok (o ∷ [])

  abbrev pub parse_cells :
      ℕ → Option (List Json) → Result Exception (List (TrackObservation Number))
  parse_cells received_at none = ok []
  parse_cells received_at (some row) =
      parse_timed received_at row (or_else (cell row 3) (cell row 4))

  unfoldable pub parse_rows : ℕ → List Json → Result Exception (List (TrackObservation Number))
  unfolding parse_row
  parse_rows received_at [] = ok []
  parse_rows received_at (row ∷ rows) = do
    found ← parse_cells received_at (as_row row)
    rest ← parse_rows received_at rows
    ok (elim found [ [] ↦ rest | o ∷ more ↦ o ∷ rest ])

  -- `_parse_states`
  unfoldable pub parse_states : ℕ → Json → Result Exception (List (TrackObservation Number))
  unfolding parse_rows
  parse_states received_at payload = do
    states ← states_of payload
    rows ← rows_of r.is_zero states
    parse_rows received_at rows

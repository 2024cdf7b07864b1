-- ===== src/Sidecar/Sbs.antt =====
-- sidecar/sbs.py: a line of the SBS stream, and the state of an aircraft that the lines add up to. The
-- decoding of bytes and Python's `strip`, `upper`, `int`, `float` and `strptime` and the hash of a
-- line are parameters.
pub mod Parsed
use Prim.Native.Char.{Char, code}
use Prim.Native.String
use ads_b_flight_intelligenc.Base.{
  ℕ, Bool, true, false, not, ◌||◌, Option, none, some, List, [], ◌∷◌, String, str_eq, length,
  get_elem?, ltb, ◌==◌, if◌then◌else◌, format, ◌&&◌,
}
use ads_b_flight_intelligenc.Base.Int.{ℤ}
use ads_b_flight_intelligenc.Base.Dict.{Dict, lookup, insert}
use ads_b_flight_intelligenc.Base.Result.{Result, ok, raised, ◌>>=◌, ◌>>◌, raise_if}
use ads_b_flight_intelligenc.Base.Text.{split, is_hex}

pub data ParseFailure : Type 0 where
  encoding too_long too_few_fields unsupported_type invalid_aircraft_id : ParseFailure
  invalid_timestamp invalid_value : ParseFailure

-- A value of the dictionary of an aircraft.
pub data SbsValue (N : Type 0) : Type 0 where
  absent : SbsValue N
  words : String → SbsValue N
  whole : ℤ → SbsValue N
  decimal : N → SbsValue N
  instant : ℕ → SbsValue N

pub record SbsReaders (N : Type 0) : Type 1 where
  pub Bytes : Type 0
  -- `len(raw)`, `raw.decode("utf-8", errors="strict")`
  pub size : Bytes → ℕ
  pub decode : Bytes → Option String
  -- `len(line.encode("utf-8"))`
  pub encoded_size : String → ℕ
  pub strip : String → String
  pub upper : String → String
  -- the length of a text
  pub count : String → ℕ
  -- `hashlib.sha256(text.encode()).hexdigest()`
  pub sha256 : String → String
  -- `datetime.strptime(text, pattern)`, read as UTC
  pub strptime : String → String → Option ℕ
  -- `int(text)`, `float(text)`, where they do not raise
  pub int_of : String → Option ℤ
  pub float_of : String → Option N

-- `key.startswith("_")`
unfoldable pub is_private : String → Bool
is_private String.[] = false
is_private (String.◌∷◌ c text) = code c == 95

-- `value is not None`
abbrev pub is_present : {N : Type 0} → SbsValue N → Bool
is_present absent = false
is_present _ = true

-- `dict(existing or {"hex": update["hex"]})`, where `none` is the KeyError
abbrev pub existing_or :
    {N : Type 0} → Option (Dict (SbsValue N)) → Option (SbsValue N) → Option (Dict (SbsValue N))
existing_or (some (item ∷ items)) hex = some (item ∷ items)
existing_or _ none = none
existing_or _ (some hex) = some (("hex", hex) ∷ [])

-- The loop of `merge_state`.
unfoldable pub merge_items :
    {N : Type 0} → Dict (SbsValue N) → Dict (SbsValue N) → Dict (SbsValue N)
unfolding insert is_private
merge_items merged [] = merged
merge_items merged ((key, value) ∷ update) =
    if is_present value && not (is_private key)
    then merge_items (insert key value merged) update
    else merge_items merged update

-- the last two lines of `merge_state`
abbrev pub with_keys :
    {N : Type 0}
    → Option (SbsValue N)
    → Option (SbsValue N)
    → Dict (SbsValue N)
    → Option (Dict (SbsValue N))
with_keys (some time) (some message) merged =
    some (insert "_raw_message_id" message (insert "_observed_at" time merged))
with_keys _ _ merged = none

-- `merge_state`, where `none` is the KeyError for an update that lacks one of the keys it reads
unfoldable pub merge_state :
    {N : Type 0} → Option (Dict (SbsValue N)) → Dict (SbsValue N) → Option (Dict (SbsValue N))
unfolding merge_items insert lookup
merge_state existing update = elim (existing_or existing (lookup "hex" update)) [
  | none ↦ none
  | some start ↦
      with_keys (lookup "_observed_at" update) (lookup "_raw_message_id" update)
        (merge_items start update)
]

abbrev pub require_field : ParseFailure → Option ℕ → Result ParseFailure ℕ
require_field failure none = raised failure
require_field failure (some t) = ok t

abbrev pub field_at : List String → ℕ → String
field_at parts i = elim (get_elem? parts i) [ none ↦ "" | some part ↦ part ]

-- The three converters.
pub data Converter : Type 0 where
  as_str as_int as_float : Converter

module _ {N : Type 0} (r : SbsReaders N) where
  -- The line, as bytes or as text.
  pub data Raw : Type 0 where
    bytes : r.Bytes → Raw
    text_line : String → Raw

  -- `_timestamp`
  abbrev first_some : Option ℕ → Option ℕ → Option ℕ
  first_some none other = other
  first_some (some t) other = some t

  unfoldable pub timestamp : String → String → Option ℕ
  unfolding format
  timestamp date_value time_value =
      let text = format (r.strip date_value ∷ " " ∷ r.strip time_value ∷ []) in
      first_some (r.strptime text "%Y/%m/%d %H:%M:%S.%f") (r.strptime text "%Y/%m/%d %H:%M:%S")

  abbrev pub convert : Converter → String → Option (SbsValue N)
  convert as_str text = some (words text)
  convert as_int text = elim (r.int_of text) [ none ↦ none | some n ↦ some (whole n) ]
  convert as_float text = elim (r.float_of text) [ none ↦ none | some x ↦ some (decimal x) ]

  abbrev pub fields : List (ℕ × String × Converter)
  fields =
      (10, "flight", as_str)
      ∷ (11, "altitude", as_int)
      ∷ (12, "gs", as_float)
      ∷ (13, "track", as_float)
      ∷ (14, "lat", as_float)
      ∷ (15, "lon", as_float)
      ∷ (16, "vert_rate", as_int)
      ∷ (17, "squawk", as_str)
      ∷ []

  abbrev pub keep_value :
      String → Option (SbsValue N) → Dict (SbsValue N) → Result ParseFailure (Dict (SbsValue N))
  keep_value name none known = raised invalid_value
  keep_value name (some value) known = ok (insert name value known)

  -- One pass of the loop: a field that is missing or blank is passed over.
  unfoldable pub read_field :
      List String
      → ℕ
      → String
      → Converter
      → Dict (SbsValue N)
      → Result ParseFailure (Dict (SbsValue N))
  unfolding insert
  read_field parts index name converter known =
      let part = r.strip (field_at parts index) in
      if not (ltb index (length parts)) || str_eq part ""
      then ok known
      else keep_value name (convert converter part) known

  unfoldable pub read_fields :
      List String
      → List (ℕ × String × Converter)
      → Dict (SbsValue N)
      → Result ParseFailure (Dict (SbsValue N))
  unfolding read_field
  read_fields parts [] known = ok known
  read_fields parts ((index, name, converter) ∷ more) known =
      read_field parts index name converter known >>= read_fields parts more

  abbrev pub read_line : Raw → Result ParseFailure String
  read_line (bytes raw) =
      raise_if (ltb 4096 (r.size raw)) too_long
      >> elim (r.decode raw) [ none ↦ raised encoding | some line ↦ ok line ]
  read_line (text_line line) = raise_if (ltb 4096 (r.encoded_size line)) too_long >> ok line

  -- The data that every line has.
  abbrev pub line_data : String → ℕ → String → Dict (SbsValue N)
  line_data aircraft_id observed_at normalized =
      ("hex", words aircraft_id)
      ∷ ("_observed_at", instant observed_at)
      ∷ ("_raw_message_id", words (r.sha256 normalized))
      ∷ []

  unfoldable pub parse_parts : String → List String → Result ParseFailure (Dict (SbsValue N))
  unfolding timestamp read_fields is_hex
  parse_parts normalized parts = do
    raise_if (ltb (length parts) 11) too_few_fields
    raise_if (not (str_eq (field_at parts 0) "MSG")) unsupported_type
    let aircraft_id = r.upper (r.strip (field_at parts 4))
    raise_if (not (r.count aircraft_id == 6) || not (is_hex aircraft_id)) invalid_aircraft_id
    observed_at ← require_field invalid_timestamp (timestamp (field_at parts 6) (field_at parts 7))
    read_fields parts fields (line_data aircraft_id observed_at normalized)

  -- `parse_sbs_line`: the data, or the failure
  unfoldable pub parse_sbs_line : Raw → Result ParseFailure (Dict (SbsValue N))
  unfolding parse_parts split
  parse_sbs_line raw = do line ← read_line raw; parse_parts (r.strip line) (split 44 (r.strip line))

-- ===== src/Sidecar/Sbs/Parsed.antt =====
-- What sidecar/sbs.py accepts, and what the merged state of an aircraft holds.
use mathlib.Core.Path.{subst}
use ads_b_flight_intelligenc.Base.{
  ℕ, ◌≡◌, ◌≢◌, refl, ◌∙◌, sym, inl, inr, true, false, not, ◌&&◌, ◌||◌, Option, none, some, List, [],
  ◌∷◌, String, str_eq, eq_iff, arith, length, ltb, ◌==◌, Bool-cases, Option-cases, if◌then◌else◌,
  ap,
}
use ads_b_flight_intelligenc.Base.Dict.{
  Dict, lookup, insert, lookup-insert, DistinctKeys, insert-DistinctKeys,
}
use ads_b_flight_intelligenc.Base.Result.{ok, Result-cases, ok_injective}
use ads_b_flight_intelligenc.Base.Text.{is_hex, split}
use ads_b_flight_intelligenc.Sidecar.Sbs.{
  SbsValue, SbsReaders, Raw, Converter, is_private, is_present, merge_items, merge_state,
  read_field, read_fields, parse_parts, parse_sbs_line, line_data, keep_value, fields, field_at,
  words, instant, convert, timestamp, read_line,
}

other_key : (j k : String) → is_private j ≡ true → is_private k ≡ false → str_eq j k ≡ false
other_key j k h h' = elim (Bool-cases (str_eq j k)) [
  | inl same ↦ let e : j ≡ k = (eq_iff j k).0 same in absurd (cc)
  | inr other ↦ other
]

module _ {N : Type 0} where
  -- A new value over an old one.
  abbrev pub over : Option (SbsValue N) → Option (SbsValue N) → Option (SbsValue N)
  over none old = old
  over (some value) old = if is_present value then some value else old

  merge_items-lookup :
      (k : String) (merged update : Dict (SbsValue N))
      → is_private k ≡ false
      → DistinctKeys update
      → lookup k (merge_items merged update) ≡ over (lookup k update) (lookup k merged)
  unfolding merge_items lookup
  merge_items-lookup k merged [] h d = refl
  merge_items-lookup k merged ((key, value) ∷ update) h d =
      let inserted = merge_items-lookup k (insert key value merged) update h d.1 in
      let passed = merge_items-lookup k merged update h d.1 in
      let looked = lookup-insert key k value merged in
      elim (Bool-cases (str_eq key k)) [
        | inl same ↦
            let e : key ≡ k = (eq_iff key k).0 same in
            let gone : lookup k update ≡ none = rw (← e) d.0 in
            let shown : is_private key ≡ false = rw e h in
            elim (Bool-cases (is_present value)) [
              | inl p ↦
                  rw (p, shown, same, merge_items) (rw p (inserted ∙ rw (gone, looked, same) refl))
              | inr p ↦ rw (p, same, merge_items) (rw p (passed ∙ rw gone refl))
            ]
        | inr other ↦ elim (Bool-cases (is_present value && not (is_private key))) [
          | inl p ↦ rw (p, other, merge_items) (inserted ∙ rw (looked, other) refl)
          | inr p ↦ rw (p, other, merge_items) passed
        ]
      ]

  -- The state merged of one that is not empty and an update with a time, a message identifier and each
  -- key once is made without a KeyError. It has, under each key that does not begin with an underscore,
  -- the value of the update if the update has one there, and else the value that it had; and it has the
  -- time and the message identifier of the update.
  pub merge_state-lookup :
      (existing update : Dict (SbsValue N)) (time message : SbsValue N)
      → existing ≢ []
      → DistinctKeys update
      → lookup "_observed_at" update ≡ some time
      → lookup "_raw_message_id" update ≡ some message
      → (merged : Dict (SbsValue N)) × (merge_state (some existing) update ≡ some merged)
        × ((k : String)
            → is_private k ≡ false
            → lookup k merged ≡ over (lookup k update) (lookup k existing))
        × (lookup "_observed_at" merged ≡ some time)
        × (lookup "_raw_message_id" merged ≡ some message)
  unfolding merge_state is_private
  merge_state-lookup [] update time message some_item d t m = absurd (some_item refl)
  merge_state-lookup (item ∷ items) update time message some_item d t m =
      let merged = merge_items (item ∷ items) update in
      let stamped = insert "_observed_at" time merged in
      (
        insert "_raw_message_id" message stamped,
        rw (t, m) refl,
        λ k h.
            lookup-insert "_raw_message_id" k message stamped
            ∙ rw (other_key "_raw_message_id" k refl h) (
                lookup-insert "_observed_at" k time merged
                ∙ rw (other_key "_observed_at" k refl h)
                    (merge_items-lookup k (item ∷ items) update h d)),
        lookup-insert "_raw_message_id" "_observed_at" message stamped
            ∙ lookup-insert "_observed_at" "_observed_at" time merged,
        lookup-insert "_raw_message_id" "_raw_message_id" message stamped,
      )

-- A key under which no field of a line is kept.
abbrev pub IsOwn : String → List (ℕ × String × Converter) → Type 0
IsOwn k [] = Unit
IsOwn k (f ∷ fs) = str_eq f.1 k ≡ false × IsOwn k fs

module _ {N : Type 0} (r : SbsReaders N) where
  -- What a field leaves of the data.
  record Extends (k : String) (known found : Dict (SbsValue N)) : Type 0 where
    kept : lookup k found ≡ lookup k known
    distinct : DistinctKeys known → DistinctKeys found

  keep_value-Extends :
      (k name : String) (value : Option (SbsValue N)) (known found : Dict (SbsValue N))
      → str_eq name k ≡ false
      → keep_value r name value known ≡ ok found
      → Extends k known found
  keep_value-Extends k name none known found own h = absurd (cc)
  keep_value-Extends k name (some value) known found own h =
      let e : insert name value known ≡ found = ground arith in
      record {
        kept = ap (lookup k) (sym e) ∙ (lookup-insert name k value known ∙ rw own refl);
        distinct = λ d. subst DistinctKeys e (insert-DistinctKeys name value known d);
      }

  read_field-Extends :
      (k : String) (parts : List String) (index : ℕ) (name : String) (converter : Converter)
      (known found : Dict (SbsValue N))
      → str_eq name k ≡ false
      → read_field r parts index name converter known ≡ ok found
      → Extends k known found
  unfolding read_field
  read_field-Extends k parts index name converter known found own h =
      let part = r.strip (field_at parts index) in
      elim (Bool-cases (not (ltb index (length parts)) || str_eq part "")) [
        | inl q ↦
            let e : known ≡ found = ground arith in
            record { kept = ap (lookup k) (sym e); distinct = λ d. subst DistinctKeys e d }
        | inr q ↦
            keep_value-Extends k name (convert r converter part) known found own (ground arith)
      ]

  read_fields-Extends :
      (k : String) (parts : List String) (fs : List (ℕ × String × Converter))
      (known found : Dict (SbsValue N))
      → IsOwn k fs
      → read_fields r parts fs known ≡ ok found
      → Extends k known found
  unfolding read_fields
  read_fields-Extends k parts [] known found own h =
      let e : known ≡ found = ok_injective h in
      record { kept = ap (lookup k) (sym e); distinct = λ d. subst DistinctKeys e d }
  read_fields-Extends k parts ((index, name, converter) ∷ more) known found own h =
      elim (Result-cases (read_field r parts index name converter known)) [
        | inr (e, q) ↦ absurd (ground arith)
        | inl (next, q) ↦
            let first = read_field-Extends k parts index name converter known next own.0 q in
            let rest = read_fields-Extends k parts more next found own.1 (ground arith) in
            record {
              kept = rest.kept ∙ first.kept;
              distinct = λ d. rest.distinct (first.distinct d);
            }
      ]

  -- Data that names an aircraft by six hexadecimal digits, and a time.
  pub record IsIdentified (found : Dict (SbsValue N)) : Type 0 where
    pub aircraft_id : String
    pub observed_at : ℕ
    pub hex : lookup "hex" found ≡ some (words aircraft_id)
    pub time : lookup "_observed_at" found ≡ some (instant observed_at)
    pub digits : is_hex aircraft_id ≡ true
    pub six : r.count aircraft_id ≡ 6
    pub distinct : DistinctKeys found

  line_data-DistinctKeys :
      (aircraft_id : String) (t : ℕ) (normalized : String)
      → DistinctKeys (line_data r aircraft_id t normalized)
  unfolding lookup
  line_data-DistinctKeys aircraft_id t normalized = (refl, (refl, (refl, tt)))

  line_data-hex :
      (aircraft_id : String) (t : ℕ) (normalized : String)
      → lookup "hex" (line_data r aircraft_id t normalized) ≡ some (words aircraft_id)
        × lookup "_observed_at" (line_data r aircraft_id t normalized) ≡ some (instant t)
  unfolding lookup
  line_data-hex aircraft_id t normalized = (refl, refl)

  parse_parts-IsIdentified :
      (normalized : String) (parts : List String) (found : Dict (SbsValue N))
      → parse_parts r normalized parts ≡ ok found
      → IsIdentified found
  unfolding parse_parts
  parse_parts-IsIdentified normalized parts found h =
      let id = r.upper (r.strip (field_at parts 4)) in
      elim (Bool-cases (ltb (length parts) 11)) [
        | inl a ↦ absurd (ground arith)
        | inr a ↦ elim (Bool-cases (str_eq (field_at parts 0) "MSG")) [
          | inr b ↦ absurd (ground arith)
          | inl b ↦ elim (Bool-cases (not (r.count id == 6) || not (is_hex id))) [
            | inl c ↦ absurd (ground arith)
            | inr c ↦ elim (Option-cases (timestamp r (field_at parts 6) (field_at parts 7))) [
              | inl d ↦ absurd (ground arith)
              | inr (t, d) ↦
                  let read : read_fields r parts (fields r) (line_data r id t normalized)
                      ≡ ok found =
                    ground arith in
                  let hex_kept =
                    read_fields-Extends "hex" parts (fields r) (line_data r id t normalized) found
                      (refl, (refl, (refl, (refl, (refl, (refl, (refl, (refl, tt)))))))) read in
                  let time_kept =
                    read_fields-Extends "_observed_at" parts (fields r)
                      (line_data r id t normalized) found
                      (refl, (refl, (refl, (refl, (refl, (refl, (refl, (refl, tt)))))))) read in
                  let (hex_known, time_known) = line_data-hex id t normalized in
                  record {
                    aircraft_id = id;
                    observed_at = t;
                    hex = hex_kept.kept ∙ hex_known;
                    time = time_kept.kept ∙ time_known;
                    digits = ground arith;
                    six = ground arith;
                    distinct = hex_kept.distinct (line_data-DistinctKeys id t normalized);
                  }
            ]
          ]
        ]
      ]

  -- A line that is accepted names its aircraft by six hexadecimal digits and has a time, and its data
  -- has each key once.
  pub parse_sbs_line-IsIdentified :
      (raw : Raw r) (found : Dict (SbsValue N))
      → parse_sbs_line r raw ≡ ok found
      → IsIdentified found
  unfolding parse_sbs_line
  parse_sbs_line-IsIdentified raw found h = elim (Result-cases (read_line r raw)) [
    | inr (e, q) ↦ absurd (ground arith)
    | inl (line, q) ↦
        parse_parts-IsIdentified (r.strip line) (split 44 (r.strip line)) found (ground arith)
  ]

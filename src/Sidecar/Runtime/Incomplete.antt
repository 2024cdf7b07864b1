-- ===== src/Sidecar/Runtime/Incomplete.antt =====
-- A line that sidecar/service.py accepts and whose observation it cannot build.
use mathlib.Core.Path.{subst}
use ads_b_flight_intelligenc.Base.{
  ℕ, ◌≡◌, ◌≢◌, refl, sym, Bool, true, false, not, none, some, String, eq_iff, arith,
}
use ads_b_flight_intelligenc.Base.Dict.{Dict, lookup}
use ads_b_flight_intelligenc.Base.Result.{Result, ok, raised, ◌>>=◌, ◌>>◌, raise_if}
use ads_b_flight_intelligenc.Observation.{
  TrackObservation, SourceType, ValidationError, incomplete_position, validate_source_context,
  require_complete_position,
}
use ads_b_flight_intelligenc.Engine.Env.{Env}
use ads_b_flight_intelligenc.Sidecar.Sbs.{SbsValue, SbsReaders, Raw, parse_sbs_line, decimal}
use ads_b_flight_intelligenc.Sidecar.Store.{StoreReaders}
use ads_b_flight_intelligenc.Sidecar.Runtime.{
  SidecarRuntime, SidecarError, Outside, LineContext, evaluate_observation, process_parsed,
  process_line, process_update, in_range, provenance_in_range, stated, merged_with, time_of,
  sbs_state_to_observation, or_empty, words_of, adapted, field_out_of_range, invalid, as_invalid,
}

module _ (e : Env) (r : SbsReaders e.floats.Number) (sr : StoreReaders) where
  raised-evaluate :
      (w : Outside e r sr) (now : ℕ) (c : LineContext)
      (o : Result SidecarError (TrackObservation e.floats.Number)) (s : SidecarRuntime e r sr)
      (error : SidecarError)
      → o ≡ raised error
      → (evaluate_observation e r sr w now c o s).1 ≡ raised error
  raised-evaluate w now c o s error h = rw h refl

  one_coordinate :
      (o : TrackObservation e.floats.Number) (x : e.floats.Number)
      → o.latitude ≡ some x
      → o.longitude ≡ none
      → require_complete_position o ≡ raised incomplete_position
  unfolding require_complete_position
  one_coordinate o x h k = ground arith

  chain-raised :
      {A B : Type 0} (b' : Bool) (p : Result ValidationError A) (b : Bool)
      (q : Result ValidationError B) (a : A) (error : ValidationError)
      → b' ≡ false
      → p ≡ ok a
      → b ≡ false
      → q ≡ raised error
      → (raise_if b' field_out_of_range
          >> (as_invalid e r sr p >>= λ z. raise_if b field_out_of_range >> as_invalid e r sr q))
        ≡ raised (invalid error)
  chain-raised b' p b q a error g h k l = rw (g, h, k, l) refl

  abbrev pub live_at : ℕ → LineContext
  live_at t = record { received_at = t; source_type = SourceType.live_rf; recording_id = none }

  -- The fields of the observation and of its provenance pass their checks.
  abbrev pub IsInRange : TrackObservation e.floats.Number → Type 0
  IsInRange o = (provenance_in_range e r sr o.provenance ≡ true) × (in_range e r sr o ≡ true)

  incomplete-refused :
      (w : Outside e r sr) (t : ℕ) (receiver_id : String) (state : Dict (SbsValue e.floats.Number))
      (time : ℕ) (message_id : String) (x : e.floats.Number)
      → receiver_id ≢ ""
      → IsInRange (adapted e r sr w (live_at t) receiver_id state time message_id)
      → lookup "lat" state ≡ some (decimal x)
      → lookup "lon" state ≡ none
      → sbs_state_to_observation e r sr w (live_at t) receiver_id state time message_id
        ≡ raised (invalid incomplete_position)
  unfolding sbs_state_to_observation adapted validate_source_context
  incomplete-refused w t receiver_id state time message_id x named fits lat lon =
      let c = live_at t in
      let o = adapted e r sr w c receiver_id state time message_id in
      chain-raised (not (provenance_in_range e r sr o.provenance))
        (validate_source_context o.provenance) (not (in_range e r sr o))
        (require_complete_position o) o.provenance incomplete_position (rw fits.0 refl)
        (ground (arith, eq_iff receiver_id "")) (rw fits.1 refl)
        (one_coordinate o x (rw lat refl) (rw lon refl))

  -- Processing a live line that the parser accepts raises if the merged state of its aircraft has a
  -- latitude and no longitude, the receiver has an identifier, and the fields of the observation that
  -- is built of the two are in range.
  pub process_line-incomplete :
      (w : Outside e r sr) (now t : ℕ) (raw : Raw r) (s : SidecarRuntime e r sr)
      (update merged : Dict (SbsValue e.floats.Number)) (x : e.floats.Number)
      → parse_sbs_line r raw ≡ ok update
      → merged_with e r sr update s ≡ some merged
      → s.receiver_id ≢ ""
      → IsInRange (
          adapted e r sr w
            (live_at t)
            s.receiver_id
            merged
            (time_of (lookup "_observed_at" update))
            (or_empty (words_of (lookup "_raw_message_id" update))))
      → lookup "lat" merged ≡ some (decimal x)
      → lookup "lon" merged ≡ none
      → (process_line e r sr w now (live_at t) raw s).1 ≡ raised (invalid incomplete_position)
  unfolding process_line
  process_line-incomplete w now t raw s update merged x parsed known named fits lat lon =
      let c = live_at t in
      let time = time_of (lookup "_observed_at" update) in
      let message_id = or_empty (words_of (lookup "_raw_message_id" update)) in
      let refused =
        incomplete-refused w t s.receiver_id merged time message_id x named fits lat lon in
      subst (λ p. (process_parsed e r sr w now c p s).1 ≡ raised (invalid incomplete_position))
        (sym parsed)
        (subst
          (λ m. (process_update e r sr w now c update m s).1 ≡ raised (invalid incomplete_position))
          (sym known)
          (raised-evaluate w now c
            (sbs_state_to_observation e r sr w c s.receiver_id merged time message_id)
            (stated e r sr update merged s) (invalid incomplete_position) refused))

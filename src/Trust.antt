-- ===== src/Trust.antt =====
-- backend/app/services/trust_assessment.py: the evidence states of an aircraft are combined into one
-- trust state. A reason is a constructor in place of its text. `upper` is `str.upper`.
pub mod Evidence
pub mod States
pub mod Validation
mod Tests
use Prim.Native.Char.{Char, code}
use Prim.Native.String
use ads_b_flight_intelligenc.Base.{
  ℕ, Bool, true, false, not, ◌&&◌, ◌||◌, ◌++◌, Option, none, some, List, [], ◌∷◌, String, leb, when,
  ◌==◌, is_some, if◌then◌else◌,
}
use ads_b_flight_intelligenc.Base.Text.{is_hex}
use ads_b_flight_intelligenc.Base.Moment.{Moment, require_aware}
use ads_b_flight_intelligenc.Base.Result.{Result, ok, raised, ◌>>=◌, ◌>>◌, raise_if}
use ads_b_flight_intelligenc.Float.{Float}
use ads_b_flight_intelligenc.Kinematics.{EvaluationStatus}
use ads_b_flight_intelligenc.Corroboration.{CorroborationState}
use ads_b_flight_intelligenc.Station.{StationHealthState}

pub data TrustState : Type 0 where
  trusted questionable low_confidence insufficient_data : TrustState

pub data TrustReason : Type 0 where
  pair_flagged window_flagged sources_conflict : TrustReason
  no_pair no_window no_corroboration no_station : TrustReason
  limited_corroboration : CorroborationState → TrustReason
  limited_station : StationHealthState → TrustReason
  checks_pass source_corroborates station_healthy : TrustReason

pub data TrustError : Type 0 where
  bad_icao naive_evaluated_at lone_ml_field bad_probability attribute_error : TrustError

pub record TrustAssessmentPolicy : Type 0 where
  pub version : String

pub record TrustAssessmentInputs (N : Type 0) : Type 0 where
  pub icao_hex : String
  pub evaluated_at : Moment
  pub pair_status : Option EvaluationStatus
  pub window_status : Option EvaluationStatus
  pub corroboration_state : Option CorroborationState
  pub station_state : Option StationHealthState
  pub pair_evaluation_id : Option String
  pub window_evaluation_id : Option String
  pub local_observation_id : Option String
  pub external_observation_id : Option String
  pub station_node_id : Option String
  pub ml_probability : Option N
  pub ml_model_version : Option String

pub record TrustAssessmentResult (N : Type 0) : Type 0 where
  pub state : TrustState
  pub policy_version : String
  pub icao_hex : String
  pub evaluated_at : Moment
  pub reasons : List TrustReason
  pub inputs : TrustAssessmentInputs N

-- `==` of two tests
abbrev pub bool_eq : Bool → Bool → Bool
bool_eq true b = b
bool_eq false b = not b

-- `is EvaluationStatus.FLAGGED`
abbrev pub is_flagged : Option EvaluationStatus → Bool
is_flagged (some EvaluationStatus.flagged) = true
is_flagged _ = false

abbrev pub is_conflicting : Option CorroborationState → Bool
is_conflicting (some CorroborationState.conflicting) = true
is_conflicting _ = false

-- `in {None, EvaluationStatus.INSUFFICIENT_DATA}`
abbrev pub is_inconclusive : Option EvaluationStatus → Bool
is_inconclusive none = true
is_inconclusive (some EvaluationStatus.insufficient_data) = true
is_inconclusive _ = false

module _ {N : Type 0} where
  unfoldable pub contradiction_reasons : TrustAssessmentInputs N → List TrustReason
  contradiction_reasons i =
      when (is_flagged i.pair_status) pair_flagged
      ++ (when (is_flagged i.window_status) window_flagged
          ++ when (is_conflicting i.corroboration_state) sources_conflict)

  unfoldable pub missing_reasons : TrustAssessmentInputs N → List TrustReason
  missing_reasons i =
      when (is_inconclusive i.pair_status) no_pair
      ++ (when (is_inconclusive i.window_status) no_window
          ++ (when (not (is_some i.corroboration_state)) no_corroboration
              ++ when (not (is_some i.station_state)) no_station))

-- The four states that limit the evidence.
abbrev pub corroboration_limits : Option CorroborationState → List TrustReason
corroboration_limits (some CorroborationState.local_only) =
    limited_corroboration CorroborationState.local_only ∷ []
corroboration_limits (some CorroborationState.external_only) =
    limited_corroboration CorroborationState.external_only ∷ []
corroboration_limits (some CorroborationState.stale) =
    limited_corroboration CorroborationState.stale ∷ []
corroboration_limits (some CorroborationState.unavailable) =
    limited_corroboration CorroborationState.unavailable ∷ []
corroboration_limits _ = []

-- `None` has no `value`: `inputs.station_state.value` raises there.
abbrev pub station_limits : Option StationHealthState → Result TrustError (List TrustReason)
station_limits none = raised attribute_error
station_limits (some StationHealthState.healthy) = ok []
station_limits (some s) = ok (limited_station s ∷ [])

module _ (f : Float) (upper : String → String) where
  open f use {Number, literal, le}

  abbrev Inputs : Type 0
  Inputs = TrustAssessmentInputs Number

  unfoldable pub confidence_reasons : Inputs → Result TrustError (List TrustReason)
  confidence_reasons i = do
    station ← station_limits i.station_state
    ok (corroboration_limits i.corroboration_state ++ station)

  -- `not 0 <= p <= 1`
  abbrev pub is_out_of_range : Option Number → Bool
  is_out_of_range none = false
  is_out_of_range (some p) = not (le (literal 0 0) p && le p (literal 1 0))

  -- `_validate`
  unfoldable pub validate : Inputs → Result TrustError (Unit {0})
  unfolding is_hex
  validate i = do
    raise_if (not (String.count i.icao_hex == 6) || not (is_hex (upper i.icao_hex))) bad_icao
    now ← require_aware naive_evaluated_at i.evaluated_at
    raise_if (not (bool_eq (not (is_some i.ml_probability)) (not (is_some i.ml_model_version))))
        lone_ml_field
    raise_if (is_out_of_range i.ml_probability) bad_probability

  -- `_result`
  unfoldable pub trust_result :
      TrustState → List TrustReason → Inputs → TrustAssessmentPolicy → TrustAssessmentResult Number
  trust_result state reasons i policy = record {
    state = state;
    policy_version = policy.version;
    icao_hex = upper i.icao_hex;
    evaluated_at = i.evaluated_at;
    reasons = reasons;
    inputs = i;
  }

  -- `if reasons: return state with them`, and else what follows
  abbrev pub or_else :
      List TrustReason
      → TrustState
      → Result TrustError (TrustState × List TrustReason)
      → Result TrustError (TrustState × List TrustReason)
  or_else [] state next = next
  or_else (r ∷ rs) state next = ok (state, r ∷ rs)

  -- The tests of `assess_trust`, in their order.
  unfoldable pub decide : Inputs → Result TrustError (TrustState × List TrustReason)
  unfolding contradiction_reasons missing_reasons confidence_reasons
  decide i = or_else (contradiction_reasons i) questionable (
      or_else (missing_reasons i) insufficient_data (do
        limits ← confidence_reasons i
        or_else limits low_confidence
            (ok (trusted, checks_pass ∷ source_corroborates ∷ station_healthy ∷ []))))

  unfoldable pub assess_trust :
      Inputs → TrustAssessmentPolicy → Result TrustError (TrustAssessmentResult Number)
  unfolding validate decide trust_result
  assess_trust i policy = do
    validate i
    (state, reasons) ← decide i
    ok (trust_result state reasons i policy)

-- ===== src/Trust/Tests.antt =====
-- A trust assessment at concrete inputs.
use ads_b_flight_intelligenc.Base.{◌≡◌, ◌↔◌, refl, true, none, some, String}
use ads_b_flight_intelligenc.Base.Int.{ℤ}
use ads_b_flight_intelligenc.Base.Moment.{aware}
use ads_b_flight_intelligenc.Base.Result.{ok, is_ok}
use ads_b_flight_intelligenc.Float.{micros}
use ads_b_flight_intelligenc.Kinematics.{EvaluationStatus}
use ads_b_flight_intelligenc.Corroboration.{CorroborationState}
use ads_b_flight_intelligenc.Station.{StationHealthState}
use ads_b_flight_intelligenc.Trust.{
  TrustState, TrustAssessmentInputs, TrustAssessmentPolicy, validate, assess_trust,
}
use ads_b_flight_intelligenc.Trust.Evidence.{Decides}
use ads_b_flight_intelligenc.Trust.States.{state_of, assess_trust-state_iff}
use ads_b_flight_intelligenc.Trust.Validation.{IsAccepted, assess_trust-is_ok_iff}

-- The addresses here are in capitals already.
abbrev upper : String → String
upper text = text

abbrev policy : TrustAssessmentPolicy
policy = record { version = "1.0-development" }

abbrev evidence : TrustAssessmentInputs ℤ
evidence = record {
  icao_hex = "A0B1C2";
  evaluated_at = aware 5;
  pair_status = some EvaluationStatus.pass;
  window_status = some EvaluationStatus.pass;
  corroboration_state = some CorroborationState.corroborated;
  station_state = some StationHealthState.stale;
  pair_evaluation_id = none;
  window_evaluation_id = none;
  local_observation_id = none;
  external_observation_id = none;
  station_node_id = some "roof";
  ml_probability = none;
  ml_model_version = none;
}

evidence-valid : validate micros upper evidence ≡ ok tt
unfolding validate
evidence-valid = refl

assess_trust-state_iff_example :
    (state_of micros upper (assess_trust micros upper evidence policy)
      ≡ some TrustState.low_confidence)
    ↔ Decides evidence TrustState.low_confidence
assess_trust-state_iff_example =
    assess_trust-state_iff micros upper evidence policy TrustState.low_confidence evidence-valid

assess_trust-is_ok_iff_example :
    (is_ok (assess_trust micros upper evidence policy) ≡ true) ↔ IsAccepted micros upper evidence
assess_trust-is_ok_iff_example = assess_trust-is_ok_iff micros upper evidence policy

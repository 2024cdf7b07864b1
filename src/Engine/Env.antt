-- ===== src/Engine/Env.antt =====
-- What the engine takes from outside it: the numbers, the functions of Python's library on texts,
-- and the evaluators of backend/integrity_core/evaluators.py, as the interface that
-- backend/app/services/kinematics.py and windowed_kinematics.py implement.
use ads_b_flight_intelligenc.Base.{ℕ, String, List, Option}
use ads_b_flight_intelligenc.Float.{Float}
use ads_b_flight_intelligenc.Observation.{TrackObservation}
use ads_b_flight_intelligenc.Kinematics.{EvaluationStatus}
use ads_b_flight_intelligenc.Engine.Policy.{IntegrityPolicy}

-- A failed rule of either evaluator: `rule.value`, the value, its threshold, the explanation.
pub record FailedRule (N : Type 0) : Type 0 where
  pub rule : String
  pub value : N
  pub threshold : N
  pub explanation : String

pub record WindowOutcome (N : Type 0) : Type 0 where
  pub status : EvaluationStatus
  pub failed_rules : List (FailedRule N)

pub record Evaluators (N : Type 0) : Type 0 where
  -- `evaluate_pair(previous, current, policy=…).failed_rules`, and `evaluate_window`: `none` where the
  -- call raises
  pub pair : TrackObservation N → TrackObservation N → Option (List (FailedRule N))
  pub window : List (TrackObservation N) → Option (WindowOutcome N)

pub record Texts : Type 0 where
  -- `str(uuid5(namespace, name))`
  pub uuid5 : String → String → String
  -- `datetime.isoformat()`
  pub isoformat : ℕ → String
  -- `str.lower`
  pub lower : String → String
  -- `str` of a number
  pub decimal : ℕ → String

pub record Env : Type 1 where
  pub floats : Float
  pub texts : Texts
  pub evaluators : Evaluators floats.Number
  pub policy : IntegrityPolicy

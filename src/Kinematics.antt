-- ===== src/Kinematics.antt =====
-- backend/app/services/kinematics.py: the statuses of an evaluation, which the engine and the trust
-- assessment read; Pair has the evaluation of two observations.
pub mod Pair
pub mod Status
pub mod Window
mod Tests

pub data EvaluationStatus : Type 0 where
  pass flagged insufficient_data : EvaluationStatus

-- ===== src/Engine/Models.antt =====
-- backend/integrity_core/models.py, with the texts of the enumerations' members.
use ads_b_flight_intelligenc.Base.{ℕ, String, List}
use ads_b_flight_intelligenc.Base.Dict.{Dict}

pub data TrackState : Type 0 where
  nominal questionable insufficient_data : TrackState

pub data EvidenceKind : Type 0 where
  pair_kinematic window_kinematic timing_duplicate timing_non_increasing : EvidenceKind
  timing_out_of_order timing_excessive_latency timing_gap : EvidenceKind

pub data EvidenceSeverity : Type 0 where
  info warning critical : EvidenceSeverity

pub data EventType : Type 0 where
  evidence_opened evidence_updated evidence_closed : EventType

-- `kind.value`
unfoldable pub kind_text : EvidenceKind → String
kind_text EvidenceKind.pair_kinematic = "PAIR_KINEMATIC"
kind_text EvidenceKind.window_kinematic = "WINDOW_KINEMATIC"
kind_text EvidenceKind.timing_duplicate = "TIMING_DUPLICATE"
kind_text EvidenceKind.timing_non_increasing = "TIMING_NON_INCREASING"
kind_text EvidenceKind.timing_out_of_order = "TIMING_OUT_OF_ORDER"
kind_text EvidenceKind.timing_excessive_latency = "TIMING_EXCESSIVE_LATENCY"
kind_text EvidenceKind.timing_gap = "TIMING_GAP"

-- `event_type.value`
unfoldable pub event_text : EventType → String
event_text EventType.evidence_opened = "evidence_opened"
event_text EventType.evidence_updated = "evidence_updated"
event_text EventType.evidence_closed = "evidence_closed"

-- `list(EvidenceSeverity).index(item)`
abbrev pub severity_index : EvidenceSeverity → ℕ
severity_index EvidenceSeverity.info = 0
severity_index EvidenceSeverity.warning = 1
severity_index EvidenceSeverity.critical = 2

pub record IntegrityEvidence (N : Type 0) : Type 0 where
  pub evidence_id : String
  pub kind : EvidenceKind
  pub severity : EvidenceSeverity
  pub first_observed_at : ℕ
  pub last_observed_at : ℕ
  pub expires_at : ℕ
  pub summary : String
  pub measured : Dict N
  pub thresholds : Dict N

pub record IntegritySnapshot (N : Type 0) : Type 0 where
  pub track_id : String
  pub observed_at : ℕ
  pub state : TrackState
  pub observation_count : ℕ
  pub window_seconds : N
  pub policy_version : String
  pub active_evidence : List (IntegrityEvidence N)
  pub limitations : List String

pub record IntegrityEvent (N : Type 0) : Type 0 where
  pub event_id : String
  pub event_type : EventType
  pub observed_at : ℕ
  pub track_id : String
  pub state : TrackState
  pub evidence : IntegrityEvidence N

-- ===== src/Engine/Policy.antt =====
-- backend/integrity_core/policy.py: the limits that the engine reads, and what
-- `policy_from_dict` requires of them. Durations are whole microseconds.
use ads_b_flight_intelligenc.Base.{ℕ, ◌≤◌, String}
use ads_b_flight_intelligenc.Base.Int.{ℤ, pos, ◌≤ℤ◌}

pub record TimingPolicy : Type 0 where
  pub maximum_reordering : ℤ
  pub maximum_latency : ℤ
  pub gap : ℤ
  pub evidence_ttl : ℤ

pub record RuntimePolicy : Type 0 where
  pub minimum_observations : ℕ
  pub maximum_tracks : ℕ
  pub maximum_observations_per_track : ℕ
  pub inactive_track : ℤ

-- The part of `WindowPolicy` that the engine reads.
pub record WindowLimits : Type 0 where
  pub minimum_observations : ℕ
  pub maximum_observations : ℕ
  pub maximum_duration : ℤ

pub record IntegrityPolicy : Type 0 where
  pub schema_version : String
  pub policy_version : String
  pub timing : TimingPolicy
  pub window : WindowLimits
  pub runtime : RuntimePolicy

-- What `policy_from_dict` requires of the limits, whatever else it checks.
pub record IsValid (p : IntegrityPolicy) : Type 0 where
  pub two_observations : 2 ≤ p.runtime.minimum_observations
  pub one_track : 1 ≤ p.runtime.maximum_tracks
  pub two_kept : 2 ≤ p.runtime.maximum_observations_per_track
  pub reordering_nonneg : pos 0 ≤ℤ p.timing.maximum_reordering
  pub latency_nonneg : pos 0 ≤ℤ p.timing.maximum_latency
  pub gap_nonneg : pos 0 ≤ℤ p.timing.gap
  pub ttl_nonneg : pos 0 ≤ℤ p.timing.evidence_ttl

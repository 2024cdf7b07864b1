-- ===== src/Station/Limits.antt =====
-- When the heartbeat and the receiver pipeline give no reason in `evaluate_station_health` of
-- backend/app/services/station_health.py.
use ads_b_flight_intelligenc.Base.{
  ℕ, ◌<◌, ◌≡◌, ◌↔◌, inl, inr, Bool, true, false, not, ◌||◌, ◌++◌, Option, none, some, List, [], ◌∷◌,
  arith, ltb, leb, Bool-cases, when, when-nil, append-nil, append_when-nil, if◌then◌else◌,
}
use ads_b_flight_intelligenc.Base.Int.{ℤ, pos, sub_ℕ, ltb_ℤ, leb_ℤ, ◌≤ℤ◌, ◌<ℤ◌, ltb_ℤ_iff}
use ads_b_flight_intelligenc.Station.{
  StationTelemetry, ReceiverPipelineTelemetry, ReceiverConnection, StationHealthState,
  StationHealthPolicy, HealthReason, limit_reasons, pipeline_reasons, is_connected, is_silent,
  judge_reasons, pipeline_too_old, pipeline_reports, judge_telemetry, skew,
}

-- What the heartbeat must satisfy.
pub record WithinLimits (policy : StationHealthPolicy) (t : StationTelemetry) : Type 0 where
  pub strong_signal : policy.weak_rssi_dbm <ℤ t.rssi_dbm
  pub enough_heap : policy.minimum_free_heap_bytes ≤ℤ pos t.free_heap_bytes
  pub empty_queue : t.offline_queue_depth ≡ 0
  pub no_resets : t.watchdog_reset_count ≡ 0

-- Not more than two seconds ahead of the clock, and not older than the limit.
abbrev pub IsFresh : ℤ → ℕ → ℕ → Type 0
IsFresh limit observed_at now = (skew ≤ℤ sub_ℕ now observed_at) × (sub_ℕ now observed_at ≤ℤ limit)

abbrev pub IsHeard : ℤ → Option ℤ → Type 0
IsHeard limit none = Unit
IsHeard limit (some age) = age ≤ℤ limit

-- What the receiver pipeline must satisfy, if it has reported.
abbrev pub PipelineWithinLimits :
    StationHealthPolicy → Option ReceiverPipelineTelemetry → ℕ → Type 0
PipelineWithinLimits policy none now = Unit
PipelineWithinLimits policy (some p) now =
    IsFresh policy.pipeline_stale_after p.observed_at now
    × (p.connection ≡ ReceiverConnection.connected)
    × (p.queue_depth < p.queue_capacity)
    × IsHeard policy.receiver_silence_after p.last_message_age

ltb_ℤ-false : (a b : ℤ) → (ltb_ℤ a b ≡ false) ↔ (b ≤ℤ a)
ltb_ℤ-false a b = ground arith

leb_ℤ-false : (a b : ℤ) → (leb_ℤ a b ≡ false) ↔ (b <ℤ a)
leb_ℤ-false a b = ground arith

ltb-zero : (n : ℕ) → (ltb 0 n ≡ false) ↔ (n ≡ 0)
ltb-zero n = ground arith

leb-false : (a b : ℕ) → (leb a b ≡ false) ↔ (b < a)
leb-false a b = ground arith

-- No limit of the heartbeat gives a reason exactly if it is within them all.
limit_reasons-nil :
    (policy : StationHealthPolicy) (t : StationTelemetry)
    → (limit_reasons policy t ≡ []) ↔ WithinLimits policy t
unfolding limit_reasons
limit_reasons-nil policy t = grind (
  arith,
  append_when-nil,
  when-nil,
  leb_ℤ-false t.rssi_dbm policy.weak_rssi_dbm,
  ltb_ℤ-false (pos t.free_heap_bytes) policy.minimum_free_heap_bytes,
  ltb-zero t.offline_queue_depth,
  ltb-zero t.watchdog_reset_count,
)

is_connected_iff :
    (c : ReceiverConnection) → (not (is_connected c) ≡ false) ↔ (c ≡ ReceiverConnection.connected)
is_connected_iff ReceiverConnection.connected = ground arith
is_connected_iff ReceiverConnection.degraded = ground arith
is_connected_iff ReceiverConnection.disconnected = ground arith

is_silent_iff : (age : Option ℤ) (limit : ℤ) → (is_silent age limit ≡ false) ↔ IsHeard limit age
is_silent_iff none limit = ground arith
is_silent_iff (some age) limit = ground (arith, ltb_ℤ-false limit age)

IsFresh-iff :
    (limit : ℤ) (t now : ℕ)
    → (ltb_ℤ (sub_ℕ now t) skew || ltb_ℤ limit (sub_ℕ now t) ≡ false) ↔ IsFresh limit t now
IsFresh-iff limit t now =
    ground (arith, ltb_ℤ-false (sub_ℕ now t) skew, ltb_ℤ-false limit (sub_ℕ now t))

connection-nil :
    (test : Bool) (c : ReceiverConnection)
    → ((if test then pipeline_too_old ∷ [] else when (not (is_connected c)) (pipeline_reports c))
        ≡ [])
      ↔ ((test ≡ false) × (c ≡ ReceiverConnection.connected))
connection-nil true c = ground arith
connection-nil false c = grind (arith, when-nil, is_connected_iff c)

-- No limit of the receiver pipeline gives a reason exactly if it is within them all.
pipeline_reasons-nil :
    (policy : StationHealthPolicy) (p : Option ReceiverPipelineTelemetry) (now : ℕ)
    → (pipeline_reasons policy p now ≡ []) ↔ PipelineWithinLimits policy p now
unfolding pipeline_reasons
pipeline_reasons-nil policy none now = ground arith
pipeline_reasons-nil policy (some p) now = grind (
  arith,
  append-nil,
  append_when-nil,
  when-nil,
  connection-nil,
  IsFresh-iff policy.pipeline_stale_after p.observed_at now,
  leb-false p.queue_capacity p.queue_depth,
  is_silent_iff p.last_message_age policy.receiver_silence_after,
)

judge_reasons-healthy :
    (rs : List HealthReason) → ((judge_reasons rs).0 ≡ StationHealthState.healthy) ↔ (rs ≡ [])
judge_reasons-healthy [] = ground arith
judge_reasons-healthy (r ∷ rs) = ground arith

-- A heartbeat is judged healthy exactly if it is fresh and every limit is met.
pub judge_telemetry-healthy :
    (policy : StationHealthPolicy) (t : StationTelemetry) (p : Option ReceiverPipelineTelemetry)
    (now : ℕ)
    → ((judge_telemetry policy t p now).0 ≡ StationHealthState.healthy) ↔ (
        IsFresh policy.stale_after t.observed_at now
        × WithinLimits policy t
        × PipelineWithinLimits policy p now)
unfolding judge_telemetry
judge_telemetry-healthy policy t p now =
    let age = sub_ℕ now t.observed_at in
    elim (Bool-cases (ltb_ℤ age skew)) [
      | inl ahead ↦ rw ahead grind (arith, ltb_ℤ_iff age skew, ltb_ℤ-false age skew)
      | inr f ↦ rw f elim (Bool-cases (ltb_ℤ policy.stale_after age)) [
        | inl old ↦ rw old grind (arith, ltb_ℤ_iff policy.stale_after age)
        | inr g ↦ rw g grind (
          arith,
          judge_reasons-healthy (limit_reasons policy t ++ pipeline_reasons policy p now),
          append-nil (limit_reasons policy t) (pipeline_reasons policy p now),
          limit_reasons-nil policy t,
          pipeline_reasons-nil policy p now,
          ltb_ℤ-false age skew,
          ltb_ℤ-false policy.stale_after age,
        )
      ]
    ]

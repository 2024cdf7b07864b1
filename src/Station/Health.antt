-- ===== src/Station/Health.antt =====
-- What the states of backend/app/services/station_health.py mean: when a report is judged at all,
-- and exactly when a station is healthy or offline.
use ads_b_flight_intelligenc.Base.{
  ℕ, ◌≤◌, ◌≡◌, ◌≢◌, ◌↔◌, refl, inl, inr, Bool, true, false, Option, none, some, List, [], ◌∷◌,
  String, arith, leb, Bool-cases, Option-cases, is_some, if◌then◌else◌,
}
use ads_b_flight_intelligenc.Base.Int.{sub_ℕ, ltb_ℤ}
use ads_b_flight_intelligenc.Base.Moment.{Moment, aware, naive}
use ads_b_flight_intelligenc.Base.Result.{Result, ok, raised, is_ok}
use ads_b_flight_intelligenc.Station.{
  StationTelemetry, StationPresence, ReceiverPipelineTelemetry, PresenceStatus, StationHealthState,
  StationHealthPolicy, StationHealthResult, HealthReason, HealthError, Reports, is_offline,
  judge_presence, judge_reasons, judge_telemetry, judge_online, health_result, evaluate_at,
  evaluate_station_health, skew, offline_reason, mixed_nodes,
}
use ads_b_flight_intelligenc.Station.Limits.{
  IsFresh, WithinLimits, PipelineWithinLimits, judge_telemetry-healthy,
}
use ads_b_flight_intelligenc.Station.Nodes.{IsFrom, mixed_nodes_iff}

abbrev pub state_of : Result HealthError StationHealthResult → Option StationHealthState
state_of (ok r) = some r.state
state_of (raised e) = none

-- The broker reports the station offline, and no telemetry is newer than this report.
abbrev pub IsReportedOffline : Option StationTelemetry → Option StationPresence → Type 0
IsReportedOffline telemetry none = ⊥
IsReportedOffline none (some p) = p.status ≡ PresenceStatus.offline
IsReportedOffline (some t) (some p) =
    (p.status ≡ PresenceStatus.offline) × (t.observed_at ≤ p.observed_at)

is_offline_iff : (s : PresenceStatus) → (is_offline s ≡ true) ↔ (s ≡ PresenceStatus.offline)
is_offline_iff PresenceStatus.online = ground arith
is_offline_iff PresenceStatus.offline = ground arith

offline_reason_iff :
    (telemetry : Option StationTelemetry) (presence : Option StationPresence)
    → (offline_reason telemetry presence ≢ none) ↔ IsReportedOffline telemetry presence
offline_reason_iff none none = ground arith
offline_reason_iff (some t) none = ground arith
offline_reason_iff none (some p) = elim (Bool-cases (is_offline p.status)) [
  | inl h ↦ rw h ground (arith, is_offline_iff p.status)
  | inr h ↦ rw h ground (arith, is_offline_iff p.status)
]
offline_reason_iff (some t) (some p) = elim (Bool-cases (is_offline p.status)) [
  | inl h ↦ elim (Bool-cases (leb t.observed_at p.observed_at)) [
    | inl k ↦ rw (h, k) ground (arith, is_offline_iff p.status)
    | inr k ↦ rw (h, k) ground (arith, is_offline_iff p.status)
  ]
  | inr h ↦ rw h ground (arith, is_offline_iff p.status)
]

unfoldable judged_state : StationHealthPolicy → Reports → ℕ → StationHealthState
unfolding judge_online
judged_state policy r now = (judge_presence policy r now (offline_reason r.telemetry r.presence)).0

abbrev reports :
    Option StationTelemetry → Option StationPresence → Option ReceiverPipelineTelemetry → Reports
reports t p q = record { telemetry = t; presence = p; pipeline = q }

abbrev state_unless : Bool → StationHealthState → Option StationHealthState
state_unless test s = if test then none else some s

-- The state of a report: none if it mixes nodes.
evaluate_at-reports :
    (policy : StationHealthPolicy) (t : Option StationTelemetry) (p : Option StationPresence)
    (q : Option ReceiverPipelineTelemetry) (now : ℕ)
    → state_of (evaluate_at policy (reports t p q) now)
      ≡ state_unless (mixed_nodes (reports t p q)) (judged_state policy (reports t p q) now)
unfolding evaluate_at judged_state health_result judge_online
evaluate_at-reports policy none none none now = refl
evaluate_at-reports policy none none (some q) now = refl
evaluate_at-reports policy none (some p) q now =
    elim (Bool-cases (mixed_nodes (reports none (some p) q))) [
      | inl h ↦ rw (h, evaluate_at, judged_state) refl
      | inr h ↦ rw (h, evaluate_at, judged_state) refl
    ]
evaluate_at-reports policy (some t) none q now =
    elim (Bool-cases (mixed_nodes (reports (some t) none q))) [
      | inl h ↦ rw (h, evaluate_at, judged_state) refl
      | inr h ↦ rw (h, evaluate_at, judged_state) refl
    ]
evaluate_at-reports policy (some t) (some p) q now =
    elim (Bool-cases (mixed_nodes (reports (some t) (some p) q))) [
      | inl h ↦ rw (h, evaluate_at, judged_state) refl
      | inr h ↦ rw (h, evaluate_at, judged_state) refl
    ]

evaluate_at-state :
    (policy : StationHealthPolicy) (r : Reports) (now : ℕ)
    → state_of (evaluate_at policy r now) ≡ state_unless (mixed_nodes r) (judged_state policy r now)
evaluate_at-state policy r now = evaluate_at-reports policy r.telemetry r.presence r.pipeline now

-- There is a heartbeat, it is fresh, and all that is reported is within the limits.
abbrev pub IsWell :
    StationHealthPolicy → Option StationTelemetry → Option ReceiverPipelineTelemetry → ℕ → Type 0
IsWell policy none pipeline now = ⊥
IsWell policy (some t) pipeline now =
    IsFresh policy.stale_after t.observed_at now
    × WithinLimits policy t
    × PipelineWithinLimits policy pipeline now

judge_online-healthy :
    (policy : StationHealthPolicy) (t : Option StationTelemetry)
    (p : Option ReceiverPipelineTelemetry) (now : ℕ)
    → ((judge_online policy t p now).0 ≡ StationHealthState.healthy) ↔ IsWell policy t p now
unfolding judge_online
judge_online-healthy policy none p now = ground arith
judge_online-healthy policy (some t) p now = judge_telemetry-healthy policy t p now

judge_reasons-not_offline :
    (rs : List HealthReason) → (judge_reasons rs).0 ≢ StationHealthState.offline
judge_reasons-not_offline [] = ground arith
judge_reasons-not_offline (r ∷ rs) = ground arith

judge_online-not_offline :
    (policy : StationHealthPolicy) (t : Option StationTelemetry)
    (p : Option ReceiverPipelineTelemetry) (now : ℕ)
    → (judge_online policy t p now).0 ≢ StationHealthState.offline
unfolding judge_online judge_telemetry
judge_online-not_offline policy none p now = ground arith
judge_online-not_offline policy (some t) p now =
    let age = sub_ℕ now t.observed_at in
    elim (Bool-cases (ltb_ℤ age skew)) [
      | inl h ↦ rw h ground arith
      | inr h ↦ elim (Bool-cases (ltb_ℤ policy.stale_after age)) [
        | inl k ↦ rw (h, k) ground arith
        | inr k ↦ rw (h, k) (judge_reasons-not_offline _)
      ]
    ]

judged_state-healthy :
    (policy : StationHealthPolicy) (r : Reports) (now : ℕ)
    → (judged_state policy r now ≡ StationHealthState.healthy)
      ↔ ((¬ IsReportedOffline r.telemetry r.presence) × IsWell policy r.telemetry r.pipeline now)
unfolding judged_state
judged_state-healthy policy r now = elim (Option-cases (offline_reason r.telemetry r.presence)) [
  | inl h ↦
      rw (h, judged_state) ground
        (
          arith,
          offline_reason_iff r.telemetry r.presence,
          judge_online-healthy policy r.telemetry r.pipeline now,
        )
  | inr (reason, h) ↦ rw (h, judged_state) ground (arith, offline_reason_iff r.telemetry r.presence)
]

judged_state-offline :
    (policy : StationHealthPolicy) (r : Reports) (now : ℕ)
    → (judged_state policy r now ≡ StationHealthState.offline)
      ↔ IsReportedOffline r.telemetry r.presence
unfolding judged_state
judged_state-offline policy r now = elim (Option-cases (offline_reason r.telemetry r.presence)) [
  | inl h ↦
      rw (h, judged_state) ground
        (
          arith,
          offline_reason_iff r.telemetry r.presence,
          judge_online-not_offline policy r.telemetry r.pipeline now,
        )
  | inr (reason, h) ↦ rw (h, judged_state) ground (arith, offline_reason_iff r.telemetry r.presence)
]

state_unless_iff :
    (test : Bool) (s u : StationHealthState)
    → (state_unless test s ≡ some u) ↔ ((test ≡ false) × (s ≡ u))
state_unless_iff true s u = ground arith
state_unless_iff false s u = ground arith

-- A station is healthy exactly if all messages are from one node, the broker does not report it
-- offline after its last heartbeat, and there is a heartbeat that is fresh and within the limits, as
-- is the receiver pipeline if it has reported.
pub evaluate_station_health-healthy_iff :
    (policy : StationHealthPolicy) (r : Reports) (now : ℕ)
    → (state_of (evaluate_station_health policy r (aware now)) ≡ some StationHealthState.healthy)
      ↔ (((node : String) × IsFrom r node)
          × (¬ IsReportedOffline r.telemetry r.presence)
          × IsWell policy r.telemetry r.pipeline now)
unfolding evaluate_station_health
evaluate_station_health-healthy_iff policy r now = rw (evaluate_at-state policy r now) ground (
  arith,
  state_unless_iff (mixed_nodes r) (judged_state policy r now) StationHealthState.healthy,
  mixed_nodes_iff r,
  judged_state-healthy policy r now,
)

-- A station is offline exactly if all messages are from one node and the broker reports it offline,
-- with no heartbeat observed after this report.
pub evaluate_station_health-offline_iff :
    (policy : StationHealthPolicy) (r : Reports) (now : ℕ)
    → (state_of (evaluate_station_health policy r (aware now)) ≡ some StationHealthState.offline)
      ↔ (((node : String) × IsFrom r node) × IsReportedOffline r.telemetry r.presence)
unfolding evaluate_station_health
evaluate_station_health-offline_iff policy r now = rw (evaluate_at-state policy r now) ground (
  arith,
  state_unless_iff (mixed_nodes r) (judged_state policy r now) StationHealthState.offline,
  mixed_nodes_iff r,
  judged_state-offline policy r now,
)

is_ok-state_of :
    (result : Result HealthError StationHealthResult) → is_ok result ≡ is_some (state_of result)
is_ok-state_of (ok a) = refl
is_ok-state_of (raised e) = refl

state_unless-some :
    (test : Bool) (s : StationHealthState) → (is_some (state_unless test s) ≡ true) ↔ (test ≡ false)
state_unless-some true s = ground arith
state_unless-some false s = ground arith

-- The evaluation returns exactly if its time has a zone and all messages are from one node; else it
-- raises.
pub evaluate_station_health-is_ok_iff :
    (policy : StationHealthPolicy) (r : Reports) (at : Moment)
    → (is_ok (evaluate_station_health policy r at) ≡ true)
      ↔ (((now : ℕ) × (at ≡ aware now)) × ((node : String) × IsFrom r node))
unfolding evaluate_station_health
evaluate_station_health-is_ok_iff policy r (naive t) = ground arith
evaluate_station_health-is_ok_iff policy r (aware now) =
    let test = is_ok-state_of (evaluate_at policy r now) in
    rw (test, evaluate_at-state policy r now)
      (
        λ h. (
          (now, refl),
          ground (
            arith,
            state_unless-some (mixed_nodes r) (judged_state policy r now),
            mixed_nodes_iff r,
          ),
        ),
        λ h. ground (
          arith,
          state_unless-some (mixed_nodes r) (judged_state policy r now),
          mixed_nodes_iff r,
        ),
      )

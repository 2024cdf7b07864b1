-- ===== src/Engine/Evidence.antt =====
-- `_severity`, `_event`, `_open_or_update` and `_expire` of backend/integrity_core/engine.py.
pub mod Lifecycle
use ads_b_flight_intelligenc.Base.{
  ℕ, Bool, true, false, ◌&&◌, List, [], ◌∷◌, none, some, String, format, str_lt, leb, sort_by,
  if◌then◌else◌,
}
use ads_b_flight_intelligenc.Base.Int.{ℤ, pos, pos_part, ◌+ℤ◌}
use ads_b_flight_intelligenc.Base.Dict.{item_before, Dict, lookup, insert, erase}
use ads_b_flight_intelligenc.Observation.{TrackObservation}
use ads_b_flight_intelligenc.Engine.Models.{
  TrackState, EvidenceKind, EvidenceSeverity, EventType, kind_text, event_text, severity_index,
  IntegrityEvidence, IntegrityEvent,
}
use ads_b_flight_intelligenc.Engine.Env.{Env}
use ads_b_flight_intelligenc.Engine.Track.{Track}

abbrev pub evidence_namespace : String
evidence_namespace = "b046df2b-77bc-49f8-93ae-7d49cfafec37"

abbrev pub event_namespace : String
event_namespace = "4309d0fb-d55e-4199-9219-7e7932285348"

-- What a test has found: the arguments of `_open_or_update` after the observation.
pub record Candidate (N : Type 0) : Type 0 where
  pub kind : EvidenceKind
  pub discriminator : String
  pub summary : String
  pub measured : Dict N
  pub thresholds : Dict N
  pub severity : EvidenceSeverity

-- `instant + timedelta(…)`
unfoldable pub later : ℕ → ℤ → ℕ
later t d = pos_part (pos t +ℤ d)

-- `key = f"{kind.value}:{discriminator}"`
unfoldable pub evidence_key : {N : Type 0} → Candidate N → String
unfolding kind_text format
evidence_key c = format (kind_text c.kind ∷ ":" ∷ c.discriminator ∷ [])

-- `max(old, new, key=…)` keeps the first of two that are equal.
unfoldable pub max_severity : EvidenceSeverity → EvidenceSeverity → EvidenceSeverity
max_severity old new = if leb (severity_index new) (severity_index old) then old else new

unfoldable pub event_state : EventType → TrackState
event_state EventType.evidence_closed = TrackState.nominal
event_state _ = TrackState.questionable

module _ (e : Env) where
  open e use {floats.{Number, of_int, lt, le, mul}, texts.{uuid5, isoformat}, policy}

  unfoldable pub severity_of : Number → Number → EvidenceSeverity
  severity_of value threshold =
      if lt (of_int (pos 0)) threshold && le (mul threshold (of_int (pos 2))) value
      then EvidenceSeverity.critical
      else EvidenceSeverity.warning

  -- `_event`
  unfoldable pub event_for :
      EventType → String → ℕ → IntegrityEvidence Number → IntegrityEvent Number
  unfolding event_text event_state format
  event_for event_type track_id observed_at evidence = record {
    event_id = uuid5 event_namespace (
        format
          (event_text event_type ∷ ":" ∷ evidence.evidence_id ∷ ":" ∷ isoformat observed_at ∷ []));
    event_type = event_type;
    observed_at = observed_at;
    track_id = track_id;
    state = event_state event_type;
    evidence = evidence;
  }

  unfoldable pub opened :
      String → TrackObservation Number → Candidate Number → IntegrityEvidence Number
  unfolding evidence_key format later
  opened track_id o c = record {
    evidence_id = uuid5 evidence_namespace (
        format (
          policy.policy_version
          ∷ ":"
          ∷ track_id
          ∷ ":"
          ∷ evidence_key c
          ∷ ":"
          ∷ o.observation_id
          ∷ []));
    kind = c.kind;
    severity = c.severity;
    first_observed_at = o.observed_at;
    last_observed_at = o.observed_at;
    expires_at = later o.observed_at policy.timing.evidence_ttl;
    summary = c.summary;
    measured = c.measured;
    thresholds = c.thresholds;
  }

  unfoldable pub updated :
      IntegrityEvidence Number
      → TrackObservation Number
      → Candidate Number
      → IntegrityEvidence Number
  unfolding max_severity later
  updated existing o c = record existing {
    severity = max_severity existing.severity c.severity;
    last_observed_at = o.observed_at;
    expires_at = later o.observed_at policy.timing.evidence_ttl;
    summary = c.summary;
    measured = c.measured;
    thresholds = c.thresholds;
  }

  unfoldable pub open_or_update :
      String
      → Track Number
      → TrackObservation Number
      → Candidate Number
      → Track Number × IntegrityEvent Number
  unfolding opened updated event_for evidence_key
  open_or_update track_id t o c = elim (lookup (evidence_key c) t.active) [
    | none ↦
        let evidence = opened track_id o c in
        (
          record t { active = insert (evidence_key c) evidence t.active },
          event_for EventType.evidence_opened track_id o.observed_at evidence,
        )
    | some existing ↦
        let evidence = updated existing o c in
        (
          record t { active = insert (evidence_key c) evidence t.active },
          event_for EventType.evidence_updated track_id o.observed_at evidence,
        )
  ]

  -- the loop of `ingest` over the candidates
  unfoldable pub open_or_update_all :
      String
      → Track Number
      → TrackObservation Number
      → List (Candidate Number)
      → Track Number × List (IntegrityEvent Number)
  open_or_update_all track_id t o [] = (t, [])
  open_or_update_all track_id t o (c ∷ cs) =
      let (t', event) = open_or_update track_id t o c in
      let (t'', events) = open_or_update_all track_id t' o cs in (t'', event ∷ events)

  -- the loop of `_expire`, over the items that were active
  unfoldable pub expire_items :
      String
      → ℕ
      → List (String × IntegrityEvidence Number)
      → Dict (IntegrityEvidence Number)
      → Dict (IntegrityEvidence Number) × List (IntegrityEvent Number)
  unfolding event_for
  expire_items track_id now [] active = (active, [])
  expire_items track_id now ((key, evidence) ∷ items) active =
      let due = leb evidence.expires_at now in
      let (active', events) =
        expire_items track_id now items (if due then erase key active else active) in
      (
        active',
        if due then event_for EventType.evidence_closed track_id now evidence ∷ events else events,
      )

  -- `_expire`
  unfoldable pub expire : String → Track Number → ℕ → Track Number × List (IntegrityEvent Number)
  unfolding expire_items
  expire track_id t now =
      let (active', events) = expire_items track_id now (sort_by item_before t.active) t.active in
      (record t { active = active' }, events)

-- ===== src/Engine/Candidates.antt =====
-- The tests of `IntegrityEngine.ingest` in backend/integrity_core/engine.py, in their order: a
-- duplicate message, the times of the previous and the new observation, the pair evaluator, the
-- latency of the source, and the window evaluator.
pub mod Timing
pub mod Kinematic
mod Tests
use ads_b_flight_intelligenc.Base.{
  ℕ, ◌-◌, Bool, true, false, not, ◌&&◌, ◌||◌, ◌++◌, Option, none, some, List, [], ◌∷◌, map, String,
  leb, ◌==◌, length, drop, filter, get_last?, is_some, when, if◌then◌else◌,
}
use ads_b_flight_intelligenc.Base.Int.{ℤ, pos, ◌-ℤ◌, sub_ℕ, ltb_ℤ, leb_ℤ, neg, abs}
use ads_b_flight_intelligenc.Observation.{TrackObservation, is_replay}
use ads_b_flight_intelligenc.Kinematics.{EvaluationStatus}
use ads_b_flight_intelligenc.Engine.Models.{EvidenceKind, EvidenceSeverity}
use ads_b_flight_intelligenc.Engine.Env.{Env, FailedRule, WindowOutcome}
use ads_b_flight_intelligenc.Engine.Track.{Track, is_duplicate}
use ads_b_flight_intelligenc.Engine.Evidence.{Candidate, severity_of}

abbrev pub is_flagged : EvaluationStatus → Bool
is_flagged EvaluationStatus.flagged = true
is_flagged _ = false

-- `items[-n:]`, which is all of `items` for n = 0
abbrev pub take_last {ℓ} : {A : Type ℓ} → ℕ → List A → List A
take_last n items = if n == 0 then items else drop (length items - n) items

module _ (e : Env) where
  open e use {
    floats.{Number, of_int, of_micros, round3},
    texts.{lower},
    evaluators.{pair, window},
    policy,
  }

  unfoldable pub duplicate_candidate : Candidate Number
  duplicate_candidate = record {
    kind = EvidenceKind.timing_duplicate;
    discriminator = "message";
    summary = "A duplicate normalized source message was observed.";
    measured = ("duplicate_count", of_int (pos 1)) ∷ [];
    thresholds = ("duplicate_count", of_int (pos 0)) ∷ [];
    severity = EvidenceSeverity.warning;
  }

  unfoldable pub non_increasing_candidate : ℤ → Candidate Number
  non_increasing_candidate delta = record {
    kind = EvidenceKind.timing_non_increasing;
    discriminator = "source_time";
    summary = "Source event time did not advance between observations.";
    measured = ("delta_seconds", round3 (of_micros delta)) ∷ [];
    thresholds = ("minimum_delta_seconds", of_int (pos 0)) ∷ [];
    severity = EvidenceSeverity.warning;
  }

  unfoldable pub out_of_order_candidate : ℤ → Candidate Number
  out_of_order_candidate delta = record {
    kind = EvidenceKind.timing_out_of_order;
    discriminator = "source_time";
    summary = "An observation arrived outside the permitted reordering window.";
    measured = ("reordering_seconds", round3 (of_micros (abs delta))) ∷ [];
    thresholds = ("maximum_reordering_seconds", of_micros policy.timing.maximum_reordering) ∷ [];
    severity = EvidenceSeverity.warning;
  }

  unfoldable pub gap_candidate : ℤ → Candidate Number
  gap_candidate delta = record {
    kind = EvidenceKind.timing_gap;
    discriminator = "continuity";
    summary = "The track observation gap exceeded the continuity policy.";
    measured = ("gap_seconds", round3 (of_micros delta)) ∷ [];
    thresholds = ("maximum_gap_seconds", of_micros policy.timing.gap) ∷ [];
    severity = EvidenceSeverity.info;
  }

  unfoldable pub latency_candidate : ℤ → Candidate Number
  latency_candidate latency = record {
    kind = EvidenceKind.timing_excessive_latency;
    discriminator = "source_latency";
    summary = "Source-to-receiver latency exceeded the policy threshold.";
    measured = ("latency_seconds", round3 (of_micros latency)) ∷ [];
    thresholds = ("maximum_latency_seconds", of_micros policy.timing.maximum_latency) ∷ [];
    severity = EvidenceSeverity.warning;
  }

  unfoldable pub rule_candidate : EvidenceKind → FailedRule Number → Candidate Number
  unfolding severity_of
  rule_candidate kind r = record {
    kind = kind;
    discriminator = r.rule;
    summary = r.explanation;
    measured = (lower r.rule, r.value) ∷ [];
    thresholds = (lower r.rule, r.threshold) ∷ [];
    severity = severity_of e r.value r.threshold;
  }

  -- The rules that an evaluator reports. One that raises reports none: `ingest` then raises as well.
  abbrev pub reported : Option (List (FailedRule Number)) → List (FailedRule Number)
  reported none = []
  reported (some rules) = rules

  abbrev pub flagged_rules : Option (WindowOutcome Number) → List (FailedRule Number)
  flagged_rules none = []
  flagged_rules (some outcome) = if is_flagged outcome.status then outcome.failed_rules else []

  -- the tests of the new observation against the previous one
  unfoldable pub previous_candidates :
      TrackObservation Number → TrackObservation Number → List (Candidate Number)
  unfolding non_increasing_candidate out_of_order_candidate gap_candidate rule_candidate
  previous_candidates previous o =
      let delta = sub_ℕ o.observed_at previous.observed_at in
      when (leb_ℤ delta (pos 0)) (non_increasing_candidate delta)
      ++ (when (ltb_ℤ delta (neg policy.timing.maximum_reordering)) (out_of_order_candidate delta)
          ++ (when (ltb_ℤ policy.timing.gap delta) (gap_candidate delta)
              ++ map (rule_candidate EvidenceKind.pair_kinematic) (reported (pair previous o))))

  unfoldable pub pair_candidates :
      Option (TrackObservation Number) → TrackObservation Number → List (Candidate Number)
  unfolding previous_candidates
  pair_candidates none o = []
  pair_candidates (some previous) o = previous_candidates previous o

  unfoldable pub latency_candidates : TrackObservation Number → List (Candidate Number)
  unfolding latency_candidate
  latency_candidates o =
      let latency = sub_ℕ o.received_at o.observed_at in
      when (not (is_replay o.provenance.source_type) && ltb_ℤ policy.timing.maximum_latency latency)
        (latency_candidate latency)

  -- the observations of the track that lie in the window before the new one, which is among them
  unfoldable pub window_items :
      List (TrackObservation Number) → TrackObservation Number → List (TrackObservation Number)
  window_items observations o =
      let earliest = pos o.observed_at -ℤ policy.window.maximum_duration in
      take_last policy.window.maximum_observations (
        filter (λ item. leb_ℤ earliest (pos item.observed_at) && leb item.observed_at o.observed_at)
          observations)

  unfoldable pub window_candidates :
      List (TrackObservation Number) → TrackObservation Number → List (Candidate Number)
  unfolding window_items rule_candidate
  window_candidates observations o =
      let items = window_items observations o in
      if leb policy.window.minimum_observations (length items)
      then map (rule_candidate EvidenceKind.window_kinematic) (flagged_rules (window items))
      else []

  -- Whether an evaluator that `ingest` calls raises: `before` are the observations of the track,
  -- `observations` those with the new one appended.
  unfoldable pub evaluation_raises :
      List (TrackObservation Number)
      → List (TrackObservation Number)
      → TrackObservation Number
      → Bool
  unfolding window_items
  evaluation_raises before observations o =
      elim (get_last? before) [ none ↦ false | some previous ↦ not (is_some (pair previous o)) ]
      || (leb policy.window.minimum_observations (length (window_items observations o))
          && not (is_some (window (window_items observations o))))

  -- All that `ingest` finds where it does not raise: `t` is the track as the observation meets it,
  -- `observations` what it holds with the observation appended.
  unfoldable pub candidates :
      Track Number
      → List (TrackObservation Number)
      → TrackObservation Number
      → List (Candidate Number)
  unfolding is_duplicate duplicate_candidate pair_candidates latency_candidates window_candidates
  candidates t observations o =
      when (is_duplicate o.raw_message_id t) duplicate_candidate
      ++ (pair_candidates (get_last? t.observations) o
          ++ (latency_candidates o ++ window_candidates observations o))

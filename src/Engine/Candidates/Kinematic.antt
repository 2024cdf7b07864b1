-- ===== src/Engine/Candidates/Kinematic.antt =====
-- The engine with the evaluators that backend/integrity_core/evaluators.py gives it, those of
-- backend/app/services/kinematics.py and windowed_kinematics.py: what its kinematic evidence means.
use mathlib.Core.Path.{subst}
use ads_b_flight_intelligenc.Base.{
  sym, ◌≤◌, ◌≡◌, ◌≢◌, refl, ◌↔◌, true, false, Option, none, some, List, [], ◌∷◌, map, String, arith,
  leb, length, get_last?, Bool-cases, inl, inr,
}
use ads_b_flight_intelligenc.Base.Result.{Result, ok, raised, ok_injective}
use ads_b_flight_intelligenc.Float.{Float}
use ads_b_flight_intelligenc.Observation.{TrackObservation}
use ads_b_flight_intelligenc.Kinematics.{EvaluationStatus}
use ads_b_flight_intelligenc.Kinematics.Pair.{
  KinematicError, KinematicEvaluation, KinematicRule, KinematicPolicy, RuleResult, evaluate_pair,
  failed_rules, implied_ground_speed, reported_acceleration, turn_rate, derived_vertical_rate,
  speed_disagreement,
}
use ads_b_flight_intelligenc.Kinematics.Status.{IsVerdict, evaluate_pair-Concluded}
use ads_b_flight_intelligenc.Kinematics.Window.{
  WindowPolicy, WindowError, WindowEvaluation, WindowRuleResult, evaluate_window,
  window_failed_rules,
}
use ads_b_flight_intelligenc.Kinematics.Window.Judged.{IsWindowStatus, evaluate_window-Concluded}
use ads_b_flight_intelligenc.Engine.Models.{EvidenceKind}
use ads_b_flight_intelligenc.Engine.Policy.{IntegrityPolicy}
use ads_b_flight_intelligenc.Engine.Env.{Env, Texts, FailedRule, WindowOutcome, Evaluators}
use ads_b_flight_intelligenc.Engine.Track.{Track}
use ads_b_flight_intelligenc.Engine.Candidates.{
  reported, flagged_rules, is_flagged, duplicate_candidate, rule_candidate, previous_candidates,
  pair_candidates, window_items, window_candidates, candidates,
}
use ads_b_flight_intelligenc.Engine.Candidates.Timing.{
  kind_eq, has_kind, has_kind-append, has_kind-when, has_kind-previous, has_kind-latency,
  has_kind-window, clock_test, latency_test,
}

-- `rule.value`
abbrev pub rule_text : KinematicRule → String
rule_text implied_ground_speed = "IMPLIED_GROUND_SPEED"
rule_text reported_acceleration = "REPORTED_ACCELERATION"
rule_text turn_rate = "TURN_RATE"
rule_text derived_vertical_rate = "DERIVED_VERTICAL_RATE"
rule_text speed_disagreement = "SPEED_DISAGREEMENT"

is_flagged_iff : (s : EvaluationStatus) → is_flagged s ≡ true ↔ s ≡ EvaluationStatus.flagged
is_flagged_iff EvaluationStatus.pass = ground arith
is_flagged_iff EvaluationStatus.flagged = ground arith
is_flagged_iff EvaluationStatus.insufficient_data = ground arith

map-nil_iff : {A B : Type 0} (g : A → B) (xs : List A) → map g xs ≢ [] ↔ xs ≢ []
map-nil_iff g [] = ground arith
map-nil_iff g (x ∷ xs) = (λ h k. absurd (cc), λ h k. absurd (cc))

has_kind-found :
    (e : Env) (k : EvidenceKind) (rules : List (FailedRule e.floats.Number))
    → kind_eq k k ≡ true
    → has_kind k (map (rule_candidate e k) rules) ≡ true ↔ rules ≢ []
unfolding has_kind rule_candidate
has_kind-found e k [] h = ground arith
has_kind-found e k (r ∷ rules) h = ((λ a b. absurd (cc)), λ a. rw h refl)

module _ (f : Float) (texts : Texts) (general : f.Number → String) (policy : IntegrityPolicy)
    (pair_policy : KinematicPolicy f texts.uuid5 general)
    (window_policy : WindowPolicy f texts.uuid5) where
  open f use {Number}

  abbrev pair_rule : RuleResult f texts.uuid5 general → FailedRule Number
  pair_rule r = record {
    rule = rule_text r.rule;
    value = r.value;
    threshold = r.threshold;
    explanation = r.explanation;
  }

  abbrev window_rule : WindowRuleResult f texts.uuid5 → FailedRule Number
  window_rule r = record {
    rule = "CUMULATIVE_POSITION_RESIDUAL";
    value = r.value;
    threshold = r.threshold;
    explanation = r.explanation;
  }

  -- `none` where the call raises
  abbrev pub pair_outcome :
      Result KinematicError (KinematicEvaluation f texts.uuid5 general)
      → Option (List (FailedRule Number))
  pair_outcome (raised error) = none
  pair_outcome (ok v) = some (map pair_rule (failed_rules f texts.uuid5 general v))

  abbrev pub window_outcome :
      Result WindowError (WindowEvaluation f texts.uuid5) → Option (WindowOutcome Number)
  window_outcome (raised error) = none
  window_outcome (ok v) = some (record {
    status = v.status;
    failed_rules = map window_rule (window_failed_rules f texts.uuid5 v);
  })

  -- What the engine takes of the two evaluators.
  unfoldable pub evaluators : Evaluators Number
  unfolding evaluate_pair evaluate_window
  evaluators = record {
    pair = λ previous o. pair_outcome (evaluate_pair f texts.uuid5 general pair_policy previous o);
    window = λ items. window_outcome (evaluate_window f texts.uuid5 window_policy items);
  }

  abbrev pub composed : Env
  composed = record { floats = f; texts = texts; evaluators = evaluators; policy = policy }

  -- A window that can be judged, and whose residual passes the limit.
  abbrev pub IsDrift : List (TrackObservation Number) → Type 0
  IsDrift [] = ⊥
  IsDrift (first ∷ rest) =
      IsWindowStatus f texts.uuid5 window_policy first rest EvaluationStatus.flagged

  -- A previous observation that can be compared with the new one, and a rule that fails of them.
  abbrev pub IsImplausible : Option (TrackObservation Number) → TrackObservation Number → Type 0
  IsImplausible none o = ⊥
  IsImplausible (some previous) o =
      IsVerdict f texts.uuid5 general pair_policy previous o EvaluationStatus.flagged

  found_by_window :
      (result : Result WindowError (WindowEvaluation f texts.uuid5)) (P : Type 0)
      → (((v : WindowEvaluation f texts.uuid5) × (result ≡ ok v)
            × (v.status ≡ EvaluationStatus.flagged))
          ↔ P)
      → ((v : WindowEvaluation f texts.uuid5)
          → result ≡ ok v
          → v.status ≡ EvaluationStatus.flagged ↔ window_failed_rules f texts.uuid5 v ≢ [])
      → flagged_rules composed (window_outcome result) ≢ [] ↔ P
  found_by_window (raised error) P status rules =
      ((λ h. absurd (h refl)), λ p. let (v, same, _) = status.1 p in absurd (cc))
  found_by_window (ok v) P status rules =
      let flag = is_flagged_iff v.status in
      let some_rule = map-nil_iff window_rule (window_failed_rules f texts.uuid5 v) in
      elim (Bool-cases (is_flagged v.status)) [
        | inl h ↦
            rw h
              ((λ k. status.0 (v, refl, flag.0 h)), λ p. some_rule.1 ((rules v refl).0 (flag.0 h)))
        | inr h ↦ rw h (
          (λ k. absurd (k refl)),
          λ p.
              let (w, same, flagged) = status.1 p in
              let here : v.status ≡ EvaluationStatus.flagged =
                subst (λ u. u.status ≡ EvaluationStatus.flagged) (sym (ok_injective same))
                  flagged in
              absurd (cc (h, flag.1 here)),
        )
      ]

  found_by_pair :
      (result : Result KinematicError (KinematicEvaluation f texts.uuid5 general)) (P : Type 0)
      → (((v : KinematicEvaluation f texts.uuid5 general) × (result ≡ ok v)
            × (v.status ≡ EvaluationStatus.flagged))
          ↔ P)
      → ((v : KinematicEvaluation f texts.uuid5 general)
          → result ≡ ok v
          → v.status ≡ EvaluationStatus.flagged ↔ failed_rules f texts.uuid5 general v ≢ [])
      → reported composed (pair_outcome result) ≢ [] ↔ P
  found_by_pair (raised error) P status rules =
      ((λ h. absurd (h refl)), λ p. let (v, same, _) = status.1 p in absurd (cc))
  found_by_pair (ok v) P status rules =
      let some_rule = map-nil_iff pair_rule (failed_rules f texts.uuid5 general v) in
      (
        (λ k. status.0 (v, refl, (rules v refl).1 (some_rule.0 k))),
        λ p.
            let (w, same, flagged) = status.1 p in
            let here : v.status ≡ EvaluationStatus.flagged =
              subst (λ u. u.status ≡ EvaluationStatus.flagged) (sym (ok_injective same)) flagged in
            some_rule.1 ((rules v refl).0 here),
      )

  window_outcome_iff :
      (items : List (TrackObservation Number))
      → flagged_rules composed (composed.evaluators.window items) ≢ [] ↔ IsDrift items
  unfolding evaluators
  window_outcome_iff [] = ((λ h. absurd (h refl)), λ h. absurd h)
  window_outcome_iff (first ∷ rest) =
      let (_, status, rules) =
        evaluate_window-Concluded f texts.uuid5 window_policy first rest EvaluationStatus.flagged in
      found_by_window (evaluate_window f texts.uuid5 window_policy (first ∷ rest))
        (IsDrift (first ∷ rest)) status rules

  pair_outcome_iff :
      (previous o : TrackObservation Number)
      → reported composed (composed.evaluators.pair previous o) ≢ []
        ↔ IsImplausible (some previous) o
  unfolding evaluators
  pair_outcome_iff previous o =
      let (_, status, rules) =
        evaluate_pair-Concluded f texts.uuid5 general pair_policy previous o
          EvaluationStatus.flagged in
      found_by_pair (evaluate_pair f texts.uuid5 general pair_policy previous o)
        (IsImplausible (some previous) o) status rules

  module _ (t : Track Number) (observations : List (TrackObservation Number))
      (o : TrackObservation Number) where
    abbrev items : List (TrackObservation Number)
    items = window_items composed observations o

    -- What the window finds.
    has_kind-IsDrift :
        has_kind EvidenceKind.window_kinematic (window_candidates composed observations o) ≡ true
        ↔ policy.window.minimum_observations ≤ length items × IsDrift items
    unfolding window_candidates has_kind
    has_kind-IsDrift =
        let found = flagged_rules composed (composed.evaluators.window items) in
        let drift = window_outcome_iff items in
        let rules = has_kind-found composed EvidenceKind.window_kinematic found refl in
        elim (Bool-cases (leb policy.window.minimum_observations (length items))) [
          | inl h ↦
              let enough : policy.window.minimum_observations ≤ length items = ground arith in
              rw h ((λ a. (enough, drift.0 (rules.0 a))), λ a. rules.1 (drift.1 a.1))
          | inr h ↦ rw h ((λ a. absurd (cc)), λ a. absurd (ground arith))
        ]

    has_kind-rules_of_pair :
        (previous : TrackObservation Number)
        → has_kind EvidenceKind.pair_kinematic (previous_candidates composed previous o)
          ≡ has_kind EvidenceKind.pair_kinematic (
              map
                (rule_candidate composed EvidenceKind.pair_kinematic)
                (reported composed (composed.evaluators.pair previous o)))
    unfolding previous_candidates
    has_kind-rules_of_pair previous = simp (has_kind-append, has_kind-when) (ground arith)

    -- What the pair finds.
    has_kind-IsImplausible :
        (last : Option (TrackObservation Number))
        → has_kind EvidenceKind.pair_kinematic (pair_candidates composed last o) ≡ true
          ↔ IsImplausible last o
    unfolding pair_candidates has_kind
    has_kind-IsImplausible none = ground arith
    has_kind-IsImplausible (some previous) =
        let rules = reported composed (composed.evaluators.pair previous o) in
        let found = has_kind-found composed EvidenceKind.pair_kinematic rules refl in
        let implausible = pair_outcome_iff previous o in
        rw (has_kind-rules_of_pair previous)
          ((λ h. implausible.0 (found.0 h)), λ h. found.1 (implausible.1 h))

    has_kind-window_from_pair :
        (last : Option (TrackObservation Number))
        → has_kind EvidenceKind.window_kinematic (pair_candidates composed last o) ≡ false
    unfolding pair_candidates has_kind clock_test
    has_kind-window_from_pair none = refl
    has_kind-window_from_pair (some previous) =
        rw (has_kind-previous composed EvidenceKind.window_kinematic previous o refl) (ground arith)

    -- With the evaluators of the services, where they do not raise, an observation brings evidence of
    -- the window exactly if the observations around it are as many as the policy requires, can be judged
    -- and end further from the dead-reckoned position than allowed; and evidence of the pair exactly if
    -- the track has a last observation that can be compared with it and the motion that the two imply is
    -- above some limit of the policy.
    pub candidates-kinematic_iff :
        (has_kind EvidenceKind.window_kinematic (candidates composed t observations o) ≡ true
          ↔ policy.window.minimum_observations ≤ length items × IsDrift items)
        × (has_kind EvidenceKind.pair_kinematic (candidates composed t observations o) ≡ true
            ↔ IsImplausible (get_last? t.observations) o)
    unfolding candidates duplicate_candidate latency_test
    candidates-kinematic_iff = (
      rw
          (
            has_kind-append,
            has_kind-append,
            has_kind-append,
            has_kind-when,
            has_kind-window_from_pair (get_last? t.observations),
            has_kind-latency composed EvidenceKind.window_kinematic o,
          )
          (ground (arith, has_kind-IsDrift)),
      rw
          (
            has_kind-append,
            has_kind-append,
            has_kind-append,
            has_kind-when,
            has_kind-latency composed EvidenceKind.pair_kinematic o,
            has_kind-window composed EvidenceKind.pair_kinematic observations o refl,
          )
          (ground (arith, has_kind-IsImplausible (get_last? t.observations))),
    )

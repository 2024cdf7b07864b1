-- ===== src/Kinematics/Status.antt =====
-- What the status of an evaluation of backend/app/services/kinematics.py means.
use mathlib.Core.Path.{subst}
use ads_b_flight_intelligenc.Base.{
  ◌≡◌, ◌++◌, ◌||◌, ◌⊎◌, refl, sym, ap, ◌∙◌, if◌then◌else◌, ◌≢◌, ◌↔◌, inl, inr, true, false, Option,
  none, some, List, [], ◌∷◌, String, eq_iff, arith, Bool-cases, Option-cases, is_some, filter,
}
use ads_b_flight_intelligenc.Base.Int.{ℤ, pos}
use ads_b_flight_intelligenc.Base.Result.{Result, ok, raised, Result-cases, ok_injective}
use ads_b_flight_intelligenc.Float.{Float}
use ads_b_flight_intelligenc.Observation.{TrackObservation}
use ads_b_flight_intelligenc.Kinematics.{EvaluationStatus}
use ads_b_flight_intelligenc.Kinematics.Pair.{
  KinematicPolicy, KinematicEvaluation, KinematicError, domain_error, RuleResult, distance_nm,
  implied_speed_of, max_of, or_zero, compared, turn_of, climb_of, speed_results, reported_results,
  turn_results, climb_results, result_of, same_provenance, lacks_position, failed, failed_rules,
  any_failed, delta_of, unfit, results_of, evaluate_pair,
}

lacks_position_iff :
    {N : Type 0} (a b : Option N)
    → (lacks_position a b ≡ false) ↔ ((is_some a ≡ true) × (is_some b ≡ true))
lacks_position_iff none b = ground arith
lacks_position_iff (some a) none = ground arith
lacks_position_iff (some a) (some b) = ground arith

module _ (f : Float) (uuid5 : String → String → String) (general : f.Number → String) where
  open f use {Number, of_int, lt, le, div, mul, sub, magnitude}

  abbrev Observed : Type 0
  Observed = TrackObservation Number

  abbrev Policy : Type 0
  Policy = KinematicPolicy f uuid5 general

  abbrev Results : Type 0
  Results = List (RuleResult f uuid5 general)

  -- Two observations that can be compared.
  pub record IsFit (policy : Policy) (previous current : Observed) : Type 0 where
    pub same_address : previous.icao_hex ≡ current.icao_hex
    pub same_source : same_provenance previous.provenance current.provenance ≡ true
    pub forward : le (delta_of f uuid5 general previous current) (of_int (pos 0)) ≡ false
    pub long_enough :
        lt (delta_of f uuid5 general previous current) policy.minimum_interval_seconds ≡ false
    pub short_enough :
        lt policy.maximum_interval_seconds (delta_of f uuid5 general previous current) ≡ false
    pub positions : (is_some previous.latitude ≡ true) × (is_some current.latitude ≡ true)

  -- No test gives a reason exactly if the observations can be compared.
  unfit-none :
      (policy : Policy) (previous current : Observed)
      → (unfit f uuid5 general policy previous current ≡ none) ↔ IsFit policy previous current
  unfolding unfit
  unfit-none policy previous current = ground (
    arith,
    eq_iff previous.icao_hex current.icao_hex,
    lacks_position_iff previous.latitude current.latitude,
  )

  any_failed-filter :
      (results : Results)
      → (any_failed f uuid5 general results ≡ false)
        ↔ (filter (failed f uuid5 general) results ≡ [])
  any_failed-filter [] = ground arith
  any_failed-filter (r ∷ rs) = elim (Bool-cases (failed f uuid5 general r)) [
    | inl h ↦ rw h ground arith
    | inr h ↦ rw h ground (arith, any_failed-filter rs)
  ]

  -- The rules that fail at the distance `d`. The two speeds: a change of speed, or a difference from
  -- the implied speed, above its limit.
  abbrev pub IsSpeedFailure :
      Policy → Observed → Observed → Number → Option Number → Option Number → Type 0
  IsSpeedFailure policy previous current d (some before) (some after) =
      (lt policy.maximum_acceleration_knots_per_second
          (div (magnitude (sub after before)) (delta_of f uuid5 general previous current))
        ≡ true)
      ⊎ (lt
            (max_of f uuid5 general policy.minimum_speed_disagreement_knots
              (mul after policy.speed_disagreement_fraction))
            (magnitude (sub (implied_speed_of f uuid5 general previous current d) after))
          ≡ true)
  IsSpeedFailure policy previous current d _ _ = ⊥

  -- A turn above its limit, at a speed at which turns are checked.
  abbrev pub IsTurnFailure : Policy → Observed → Observed → Option Number → Option Number → Type 0
  IsTurnFailure policy previous current (some before) (some after) =
      (le policy.minimum_speed_for_turn_check_knots (
          max_of f uuid5 general (or_zero f uuid5 general previous.ground_speed_knots)
            (or_zero f uuid5 general current.ground_speed_knots))
        ≡ true)
      × (lt policy.maximum_turn_rate_degrees_per_second
            (turn_of f uuid5 general previous current before after)
          ≡ true)
  IsTurnFailure policy previous current _ _ = ⊥

  -- A vertical rate above its limit.
  abbrev pub IsClimbFailure : Policy → Observed → Observed → Option ℤ → Option ℤ → Type 0
  IsClimbFailure policy previous current (some before) (some after) =
      lt policy.maximum_vertical_rate_fpm (climb_of f uuid5 general previous current before after)
      ≡ true
  IsClimbFailure policy previous current _ _ = ⊥

  abbrev pub IsFailure : Policy → Observed → Observed → Number → Type 0
  IsFailure policy previous current d =
      (lt policy.maximum_implied_speed_knots
          (div (mul d (of_int (pos 3600))) (delta_of f uuid5 general previous current))
        ≡ true)
      ⊎ IsSpeedFailure policy previous current d previous.ground_speed_knots
          current.ground_speed_knots
      ⊎ IsTurnFailure policy previous current previous.track_degrees current.track_degrees
      ⊎ IsClimbFailure policy previous current previous.altitude_ft current.altitude_ft

  any_failed-append :
      (xs ys : Results)
      → any_failed f uuid5 general (xs ++ ys)
        ≡ any_failed f uuid5 general xs || any_failed f uuid5 general ys
  any_failed-append [] ys = refl
  any_failed-append (x ∷ xs) ys = ground (arith, any_failed-append xs ys)

  module _ (policy : Policy) (previous current : Observed) where
    speed_results-failed :
        (speed : Number)
        → (any_failed f uuid5 general (speed_results f uuid5 general policy previous current speed)
            ≡ true)
          ↔ (lt policy.maximum_implied_speed_knots speed ≡ true)
    unfolding speed_results result_of
    speed_results-failed speed = ground arith

    reported_results-failed :
        (d : Number) (a b : Option Number)
        → (any_failed f uuid5 general (
              reported_results f uuid5 general policy previous current
                (implied_speed_of f uuid5 general previous current d)
                a
                b)
            ≡ true)
          ↔ IsSpeedFailure policy previous current d a b
    unfolding reported_results result_of
    reported_results-failed d none b = ground arith
    reported_results-failed d (some a) none = ground arith
    reported_results-failed d (some a) (some b) = ground arith

    turn_results-failed :
        (a b : Option Number)
        → (any_failed f uuid5 general (turn_results f uuid5 general policy previous current a b)
            ≡ true)
          ↔ IsTurnFailure policy previous current a b
    unfolding turn_results result_of
    turn_results-failed none b = ground arith
    turn_results-failed (some a) none = ground arith
    turn_results-failed (some a) (some b) = ground arith

    climb_results-failed :
        (a b : Option ℤ)
        → (any_failed f uuid5 general (climb_results f uuid5 general policy previous current a b)
            ≡ true)
          ↔ IsClimbFailure policy previous current a b
    unfolding climb_results result_of
    climb_results-failed none b = ground arith
    climb_results-failed (some a) none = ground arith
    climb_results-failed (some a) (some b) = ground arith

    results_of-failed :
        (d : Number)
        → (any_failed f uuid5 general (results_of f uuid5 general policy previous current d) ≡ true)
          ↔ IsFailure policy previous current d
    unfolding results_of
    results_of-failed d =
        let speed = implied_speed_of f uuid5 general previous current d in
        rw (any_failed-append, any_failed-append, any_failed-append)
          (ground (
            arith,
            speed_results-failed speed,
            reported_results-failed d previous.ground_speed_knots current.ground_speed_knots,
            turn_results-failed previous.track_degrees current.track_degrees,
            climb_results-failed previous.altitude_ft current.altitude_ft,
          ))

    -- What an outcome of the evaluation says, by its status.
    abbrev pub IsVerdict : EvaluationStatus → Type 0
    IsVerdict EvaluationStatus.insufficient_data = ¬ IsFit policy previous current
    IsVerdict EvaluationStatus.flagged =
        IsFit policy previous current
        × (d : Number) × (distance_nm f uuid5 general previous current ≡ ok d)
        × IsFailure policy previous current d
    IsVerdict EvaluationStatus.pass =
        IsFit policy previous current
        × (d : Number) × (distance_nm f uuid5 general previous current ≡ ok d)
        × (¬ IsFailure policy previous current d)

    abbrev pub HasStatus :
        Result KinematicError (KinematicEvaluation f uuid5 general) → EvaluationStatus → Type 0
    HasStatus result s =
        (v : KinematicEvaluation f uuid5 general) × (result ≡ ok v) × (v.status ≡ s)

    abbrev Concluded :
        Result KinematicError (KinematicEvaluation f uuid5 general) → EvaluationStatus → Type 0
    Concluded result s =
        ((result ≡ raised domain_error) ↔ (
          IsFit policy previous current
          × (distance_nm f uuid5 general previous current ≡ raised domain_error)))
        × (HasStatus result s ↔ IsVerdict s)
        × ((v : KinematicEvaluation f uuid5 general)
            → result ≡ ok v
            → (v.status ≡ EvaluationStatus.flagged) ↔ (failed_rules f uuid5 general v ≢ []))

    HasStatus-ok :
        (v : KinematicEvaluation f uuid5 general) (s : EvaluationStatus)
        → HasStatus (ok v) s ↔ (v.status ≡ s)
    HasStatus-ok v s = ((λ h. cc), λ h. (v, refl, h))

    insufficient-IsVerdict :
        (s : EvaluationStatus)
        → (¬ IsFit policy previous current)
        → (EvaluationStatus.insufficient_data ≡ s) ↔ IsVerdict s
    insufficient-IsVerdict EvaluationStatus.insufficient_data h = ((λ x. h), λ x. refl)
    insufficient-IsVerdict EvaluationStatus.flagged h = ((λ x. absurd (cc)), λ x. absurd (h x.0))
    insufficient-IsVerdict EvaluationStatus.pass h = ((λ x. absurd (cc)), λ x. absurd (h x.0))

    module _ (d : Number) (fit : IsFit policy previous current)
        (near : distance_nm f uuid5 general previous current ≡ ok d) where
      same_distance :
          (d' : Number) → (distance_nm f uuid5 general previous current ≡ ok d') → d' ≡ d
      same_distance d' h = cc (h, near)

      flagged-IsVerdict :
          (s : EvaluationStatus)
          → IsFailure policy previous current d
          → (EvaluationStatus.flagged ≡ s) ↔ IsVerdict s
      flagged-IsVerdict EvaluationStatus.insufficient_data h =
          ((λ x. absurd (cc)), λ x. absurd (x fit))
      flagged-IsVerdict EvaluationStatus.flagged h = ((λ x. (fit, d, near, h)), λ x. refl)
      flagged-IsVerdict EvaluationStatus.pass h = (
        (λ x. absurd (cc)),
        λ (_, d', near', unfailed).
            absurd (
              unfailed
                (subst (IsFailure policy previous current) (sym (same_distance d' near')) h)),
      )

      pass-IsVerdict :
          (s : EvaluationStatus)
          → (¬ IsFailure policy previous current d)
          → (EvaluationStatus.pass ≡ s) ↔ IsVerdict s
      pass-IsVerdict EvaluationStatus.insufficient_data h =
          ((λ x. absurd (cc)), λ x. absurd (x fit))
      pass-IsVerdict EvaluationStatus.pass h = ((λ x. (fit, d, near, h)), λ x. refl)
      pass-IsVerdict EvaluationStatus.flagged h = (
        (λ x. absurd (cc)),
        λ (_, d', near', failure).
            absurd (h (subst (IsFailure policy previous current) (same_distance d' near') failure)),
      )

      compared-Concluded :
          (v : KinematicEvaluation f uuid5 general) (s : EvaluationStatus)
          → v.rule_results ≡ results_of f uuid5 general policy previous current d
          → (v.status ≡ (
              if any_failed f uuid5 general v.rule_results
              then EvaluationStatus.flagged
              else EvaluationStatus.pass))
          → Concluded (ok v) s
      compared-Concluded v s rules status =
          let failure = results_of-failed d in
          let none_failed = any_failed-filter v.rule_results in
          let has = HasStatus-ok v s in
          elim (Bool-cases (any_failed f uuid5 general v.rule_results)) [
            | inl k ↦
                let flagged : v.status ≡ EvaluationStatus.flagged = ground arith in
                let failing : IsFailure policy previous current d =
                  failure.0 (sym (ap (any_failed f uuid5 general) rules) ∙ k) in
                let says = flagged-IsVerdict s failing in
                let rest : v.rule_results ≢ [] = ground arith in
                (
                  ((λ x. absurd (cc)), λ x. absurd (cc (x.1, near))),
                  ((λ h. says.0 (sym flagged ∙ has.0 h)), λ h. has.1 (flagged ∙ says.1 h)),
                  λ w same.
                      subst
                        (λ u.
                          (u.status ≡ EvaluationStatus.flagged)
                          ↔ (failed_rules f uuid5 general u ≢ []))
                        (ok_injective same) (ground (arith, none_failed)),
                )
            | inr k ↦
                let pass : v.status ≡ EvaluationStatus.pass = ground arith in
                let fine : ¬ IsFailure policy previous current d = λ failing.
                  absurd (cc (ap (any_failed f uuid5 general) rules, failure.1 failing, k)) in
                let says = pass-IsVerdict s fine in
                (
                  ((λ x. absurd (cc)), λ x. absurd (cc (x.1, near))),
                  ((λ h. says.0 (sym pass ∙ has.0 h)), λ h. has.1 (pass ∙ says.1 h)),
                  λ w same.
                      subst
                        (λ u.
                          (u.status ≡ EvaluationStatus.flagged)
                          ↔ (failed_rules f uuid5 general u ≢ []))
                        (ok_injective same) (ground (arith, none_failed)),
                )
          ]

    insufficient-Concluded :
        (v : KinematicEvaluation f uuid5 general) (s : EvaluationStatus)
        → (¬ IsFit policy previous current)
        → v.rule_results ≡ []
        → v.status ≡ EvaluationStatus.insufficient_data
        → Concluded (ok v) s
    insufficient-Concluded v s unfit rules status =
        let says = insufficient-IsVerdict s unfit in
        let has = HasStatus-ok v s in
        (
          ((λ x. absurd (cc)), λ x. absurd (unfit x.0)),
          ((λ h. says.0 (sym status ∙ has.0 h)), λ h. has.1 (status ∙ says.1 h)),
          λ w same.
              subst
                (λ u. (u.status ≡ EvaluationStatus.flagged) ↔ (failed_rules f uuid5 general u ≢ []))
                (ok_injective same) (rw (rules, status) ((λ x. absurd (cc)), λ x. absurd (x refl))),
        )

    raised-IsVerdict :
        (s : EvaluationStatus)
        → IsFit policy previous current
        → distance_nm f uuid5 general previous current ≡ raised domain_error
        → ¬ IsVerdict s
    raised-IsVerdict EvaluationStatus.insufficient_data fit far h = h fit
    raised-IsVerdict EvaluationStatus.flagged fit far (_, d, near, _) = absurd (cc (near, far))
    raised-IsVerdict EvaluationStatus.pass fit far (_, d, near, _) = absurd (cc (near, far))

    raised-Concluded :
        (s : EvaluationStatus)
        → IsFit policy previous current
        → distance_nm f uuid5 general previous current ≡ raised domain_error
        → Concluded (raised domain_error) s
    raised-Concluded s fit far = (
      ((λ x. (fit, far)), λ x. refl),
      ((λ (v, same, _). absurd (cc)), λ x. absurd (raised-IsVerdict s fit far x)),
      λ w same. absurd (cc),
    )

    -- The evaluation, in the words of `Concluded`.
    pub evaluate_pair-Concluded :
        (s : EvaluationStatus) → Concluded (evaluate_pair f uuid5 general policy previous current) s
    unfolding evaluate_pair
    evaluate_pair-Concluded s =
        let fit = unfit-none policy previous current in
        elim (Option-cases (unfit f uuid5 general policy previous current)) [
          | inr (reason, h) ↦
              rw (h, evaluate_pair)
                (insufficient-Concluded _ s (λ x. absurd (cc (h, fit.1 x))) refl refl)
          | inl h ↦ elim (Result-cases (distance_nm f uuid5 general previous current)) [
            | inr (domain_error, far) ↦
                let whole : evaluate_pair f uuid5 general policy previous current
                    ≡ raised domain_error =
                  rw (h, far, evaluate_pair) refl in
                subst (λ result. Concluded result s) (sym whole) (raised-Concluded s (fit.0 h) far)
            | inl (d, near) ↦
                let v = compared f uuid5 general policy previous current d in
                let whole : evaluate_pair f uuid5 general policy previous current ≡ ok v =
                  rw (h, near, evaluate_pair) refl in
                subst (λ result. Concluded result s) (sym whole)
                  (compared-Concluded d (fit.0 h) near v s refl refl)
          ]
        ]

    -- The evaluation raises exactly where the two observations can be compared and their distance
    -- cannot be computed. It returns INSUFFICIENT_DATA exactly for observations that cannot be compared;
    -- of two that can, at a distance that can be computed, it returns FLAGGED exactly if the implied
    -- speed, the change of the reported speed, its difference from the implied speed, the turn at a speed
    -- at which turns are checked, or the vertical rate is above its limit, and PASS exactly if none is.
    -- It returns an evaluation with a failed rule exactly if it returns FLAGGED.
    pub evaluate_pair-status_iff :
        (s : EvaluationStatus)
        → ((evaluate_pair f uuid5 general policy previous current ≡ raised domain_error) ↔ (
            IsFit policy previous current
            × (distance_nm f uuid5 general previous current ≡ raised domain_error)))
          × (HasStatus (evaluate_pair f uuid5 general policy previous current) s ↔ IsVerdict s)
          × (((v : KinematicEvaluation f uuid5 general) × (evaluate_pair f uuid5 general policy
                    previous current
                  ≡ ok v)
                × (failed_rules f uuid5 general v ≢ []))
              ↔ HasStatus
                  (evaluate_pair f uuid5 general policy previous current)
                  EvaluationStatus.flagged)
    evaluate_pair-status_iff s =
        let (raises, status, rules) = evaluate_pair-Concluded s in
        (
          raises,
          status,
          (
            (λ (v, same, h). (v, same, (rules v same).1 h)),
            λ (v, same, h). (v, same, (rules v same).0 h),
          ),
        )

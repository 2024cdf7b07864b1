-- ===== src/Kinematics/Window/Judged.antt =====
-- What the status of an evaluation of backend/app/services/windowed_kinematics.py means.
use mathlib.Core.Path.{subst}
use ads_b_flight_intelligenc.Base.{
  Bool, ◌∙◌, sym, if◌then◌else◌, ◌≤◌, ◌<◌, ◌≡◌, ◌≢◌, ◌↔◌, refl, inl, inr, true, false, not, none,
  List, [], ◌∷◌, String, arith, Bool-cases, Option-cases, length, any_of-All, All, last_of,
}
use ads_b_flight_intelligenc.Base.Result.{Result, ok, raised, Result-cases, ok_injective}
use ads_b_flight_intelligenc.Float.{Float}
use ads_b_flight_intelligenc.Observation.{TrackObservation}
use ads_b_flight_intelligenc.Kinematics.{EvaluationStatus}
use ads_b_flight_intelligenc.Kinematics.Window.{
  WindowPolicy, WindowEvaluation, is_foreign, is_stalled, is_complete, seconds_between, Place,
  place_of, judged, predict, place_distance, WindowError, window_result, is_residual, unfit_window,
  evaluate_window, window_failed_rules, window_evaluation,
}

module _ (f : Float) (uuid5 : String → String → String) where
  open f use {Number, of_int, lt, le}

  abbrev Observed : Type 0
  Observed = TrackObservation Number

  abbrev Policy : Type 0
  Policy = WindowPolicy f uuid5

  -- Each observation is later than the one before it.
  abbrev pub IncreasingFrom : Observed → List Observed → Type 0
  IncreasingFrom previous [] = Unit
  IncreasingFrom previous (o ∷ os) = previous.observed_at < o.observed_at × IncreasingFrom o os

  is_stalled_iff :
      (previous : Observed) (os : List Observed)
      → is_stalled f uuid5 previous os ≡ false ↔ IncreasingFrom previous os
  unfolding is_stalled
  is_stalled_iff previous [] = ground arith
  is_stalled_iff previous (o ∷ os) = ground (arith, is_stalled_iff o os)

  -- A window that can be judged.
  pub record IsJudged (policy : Policy) (first : Observed) (rest : List Observed) : Type 0 where
    pub enough : policy.minimum_observations ≤ length (first ∷ rest)
    pub not_more : length (first ∷ rest) ≤ policy.maximum_observations
    pub one_source : All (λ o. is_foreign f uuid5 first o ≡ false) rest
    pub long_enough :
        lt (seconds_between f uuid5 first (last_of first rest)) policy.minimum_duration_seconds
        ≡ false
    pub short_enough :
        lt policy.maximum_duration_seconds (seconds_between f uuid5 first (last_of first rest))
        ≡ false
    pub increasing : IncreasingFrom first rest
    pub complete : All (λ o. not (is_complete f uuid5 o) ≡ false) (first ∷ rest)

  unfit_window-none :
      (policy : Policy) (first : Observed) (rest : List Observed)
      → unfit_window f uuid5 policy first rest ≡ none ↔ IsJudged policy first rest
  unfolding unfit_window
  unfit_window-none policy first rest = ground (
    arith,
    any_of-All (is_foreign f uuid5 first) rest,
    any_of-All (λ o. not (is_complete f uuid5 o)) (first ∷ rest),
    is_stalled_iff first rest,
  )

  module _ (policy : Policy) (first : Observed) (rest : List Observed) where
    -- The residual of the window: the distance from the place that the velocities lead to.
    abbrev pub HasResidual : Number → Type 0
    HasResidual d =
        (p : Place f uuid5) × (predict f uuid5 (place_of f uuid5 first) first rest ≡ ok p)
        × (place_distance f uuid5 p (place_of f uuid5 (last_of first rest)) ≡ ok d)

    -- The computation of the residual leaves the domain of a function of `math`.
    abbrev pub IsOutOfDomain : Type 0
    IsOutOfDomain = ¬ ((d : Number) × HasResidual d)

    abbrev pub IsWindowStatus : EvaluationStatus → Type 0
    IsWindowStatus EvaluationStatus.insufficient_data = ¬ IsJudged policy first rest
    IsWindowStatus EvaluationStatus.flagged =
        IsJudged policy first rest
        × (d : Number) × HasResidual d
        × (lt policy.maximum_position_residual_nm d ≡ true)
    IsWindowStatus EvaluationStatus.pass =
        IsJudged policy first rest
        × (d : Number) × HasResidual d
        × (lt policy.maximum_position_residual_nm d ≡ false)

    abbrev pub HasWindowStatus :
        Result WindowError (WindowEvaluation f uuid5) → EvaluationStatus → Type 0
    HasWindowStatus result s = (v : WindowEvaluation f uuid5) × (result ≡ ok v) × (v.status ≡ s)

    abbrev pub Raises : Result WindowError (WindowEvaluation f uuid5) → Type 0
    Raises result = (error : WindowError) × (result ≡ raised error)

    abbrev pub Concluded : Result WindowError (WindowEvaluation f uuid5) → EvaluationStatus → Type 0
    Concluded result s =
        (Raises result ↔ (IsJudged policy first rest × IsOutOfDomain))
        × (HasWindowStatus result s ↔ IsWindowStatus s)
        × ((v : WindowEvaluation f uuid5)
            → result ≡ ok v
            → (v.status ≡ EvaluationStatus.flagged) ↔ (window_failed_rules f uuid5 v ≢ []))

    HasWindowStatus-ok :
        (v : WindowEvaluation f uuid5) (s : EvaluationStatus)
        → HasWindowStatus (ok v) s ↔ (v.status ≡ s)
    HasWindowStatus-ok v s = ((λ h. cc), λ h. (v, refl, h))

    same_residual : (d d' : Number) → HasResidual d → HasResidual d' → d ≡ d'
    same_residual d d' (p, h, k) (p', h', k') = let same : p ≡ p' = cc in cc

    unjudged-IsWindowStatus :
        (s : EvaluationStatus)
        → (¬ IsJudged policy first rest)
        → (EvaluationStatus.insufficient_data ≡ s) ↔ IsWindowStatus s
    unjudged-IsWindowStatus EvaluationStatus.insufficient_data h = ((λ x. h), λ x. refl)
    unjudged-IsWindowStatus EvaluationStatus.flagged h = ((λ x. absurd (cc)), λ x. absurd (h x.0))
    unjudged-IsWindowStatus EvaluationStatus.pass h = ((λ x. absurd (cc)), λ x. absurd (h x.0))

    module _ (fit : IsJudged policy first rest) (d : Number) (found : HasResidual d) where
      status_at-IsWindowStatus :
          (s : EvaluationStatus) (b : Bool)
          → lt policy.maximum_position_residual_nm d ≡ b
          → ((if b then EvaluationStatus.flagged else EvaluationStatus.pass) ≡ s) ↔ IsWindowStatus s
      status_at-IsWindowStatus EvaluationStatus.insufficient_data true h =
          ((λ x. absurd (cc)), λ x. absurd (x fit))
      status_at-IsWindowStatus EvaluationStatus.insufficient_data false h =
          ((λ x. absurd (cc)), λ x. absurd (x fit))
      status_at-IsWindowStatus EvaluationStatus.flagged true h =
          ((λ x. (fit, d, found, h)), λ x. refl)
      status_at-IsWindowStatus EvaluationStatus.pass false h =
          ((λ x. (fit, d, found, h)), λ x. refl)
      status_at-IsWindowStatus EvaluationStatus.flagged false h = (
        (λ x. absurd (cc)),
        λ (_, d', found', k). let same = same_residual d d' found found' in absurd (cc),
      )
      status_at-IsWindowStatus EvaluationStatus.pass true h = (
        (λ x. absurd (cc)),
        λ (_, d', found', k). let same = same_residual d d' found found' in absurd (cc),
      )

      judged-Concluded :
          (v : WindowEvaluation f uuid5) (s : EvaluationStatus)
          → v.status ≡ (window_result f uuid5 policy first rest d).status
          → v.rule_results ≡ window_result f uuid5 policy first rest d ∷ []
          → Concluded (ok v) s
      unfolding window_result is_residual
      judged-Concluded v s status rules =
          let above = lt policy.maximum_position_residual_nm d in
          let has = HasWindowStatus-ok v s in
          let says = status_at-IsWindowStatus s above refl in
          (
            ((λ x. absurd (cc (x.1))), λ x. absurd (x.1 (d, found))),
            ((λ h. says.0 (sym status ∙ has.0 h)), λ h. has.1 (status ∙ says.1 h)),
            λ w same.
                subst
                  (λ u.
                    (u.status ≡ EvaluationStatus.flagged) ↔ (window_failed_rules f uuid5 u ≢ []))
                  (ok_injective same)
                  (rw (status, rules)
                    (elim (Bool-cases above) [
                      | inl k ↦ rw k ground arith
                      | inr k ↦ rw k ground arith
                    ])),
          )

    unjudged-Concluded :
        (v : WindowEvaluation f uuid5) (s : EvaluationStatus)
        → (¬ IsJudged policy first rest)
        → v.rule_results ≡ []
        → v.status ≡ EvaluationStatus.insufficient_data
        → Concluded (ok v) s
    unjudged-Concluded v s unfit rules status =
        let says = unjudged-IsWindowStatus s unfit in
        let has = HasWindowStatus-ok v s in
        (
          ((λ x. absurd (cc (x.1))), λ x. absurd (unfit x.0)),
          ((λ h. says.0 (sym status ∙ has.0 h)), λ h. has.1 (status ∙ says.1 h)),
          λ w same.
              subst
                (λ u. (u.status ≡ EvaluationStatus.flagged) ↔ (window_failed_rules f uuid5 u ≢ []))
                (ok_injective same) (rw (rules, status) ((λ x. absurd (cc)), λ x. absurd (x refl))),
        )

    unmeasured-IsWindowStatus :
        (s : EvaluationStatus) → IsJudged policy first rest → IsOutOfDomain → ¬ IsWindowStatus s
    unmeasured-IsWindowStatus EvaluationStatus.insufficient_data fit out h = h fit
    unmeasured-IsWindowStatus EvaluationStatus.flagged fit out (_, d, found, _) = out (d, found)
    unmeasured-IsWindowStatus EvaluationStatus.pass fit out (_, d, found, _) = out (d, found)

    raised-Concluded :
        (error : WindowError) (s : EvaluationStatus)
        → IsJudged policy first rest
        → IsOutOfDomain
        → Concluded (raised error) s
    raised-Concluded error s fit out = (
      ((λ x. (fit, out)), λ x. (error, refl)),
      ((λ (v, same, _). absurd (cc)), λ x. absurd (unmeasured-IsWindowStatus s fit out x)),
      λ w same. absurd (cc),
    )

    far_out :
        (p : Place f uuid5) (error : WindowError)
        → predict f uuid5 (place_of f uuid5 first) first rest ≡ ok p
        → place_distance f uuid5 p (place_of f uuid5 (last_of first rest)) ≡ raised error
        → IsOutOfDomain
    far_out p error near out (d, (p', near', far)) =
        let same : p' ≡ p = cc in absurd (cc (far, out, same))

    near-Concluded :
        (s : EvaluationStatus)
        → unfit_window f uuid5 policy first rest ≡ none
        → (p : Place f uuid5) → predict f uuid5 (place_of f uuid5 first) first rest ≡ ok p
        → Concluded (evaluate_window f uuid5 policy (first ∷ rest)) s
    unfolding evaluate_window
    near-Concluded s h p near =
        let fit = (unfit_window-none policy first rest).0 h in
        elim (Result-cases (place_distance f uuid5 p (place_of f uuid5 (last_of first rest)))) [
          | inr (error, out) ↦
              let whole : evaluate_window f uuid5 policy (first ∷ rest) ≡ raised error =
                rw (h, near, out) refl in
              subst (λ result. Concluded result s) (sym whole)
                (raised-Concluded error s fit (far_out p error near out))
          | inl (d, far) ↦
              let v = judged f uuid5 policy first rest p d in
              let whole : evaluate_window f uuid5 policy (first ∷ rest) ≡ ok v =
                rw (h, near, far) refl in
              subst (λ result. Concluded result s) (sym whole)
                (unfold window_evaluation in judged-Concluded fit d (p, near, far) v s refl refl)
        ]

    -- The evaluation, in the words of `Concluded`.
    pub evaluate_window-Concluded :
        (s : EvaluationStatus) → Concluded (evaluate_window f uuid5 policy (first ∷ rest)) s
    unfolding evaluate_window window_evaluation
    evaluate_window-Concluded s =
        let fit = unfit_window-none policy first rest in
        elim (Option-cases (unfit_window f uuid5 policy first rest)) [
          | inr (reason, h) ↦
              rw h (unjudged-Concluded _ s (λ x. absurd (cc (h, fit.1 x))) refl refl)
          | inl h ↦ elim (Result-cases (predict f uuid5 (place_of f uuid5 first) first rest)) [
            | inr (error, out) ↦
                let whole : evaluate_window f uuid5 policy (first ∷ rest) ≡ raised error =
                  rw (h, out) refl in
                subst (λ result. Concluded result s) (sym whole)
                  (raised-Concluded error s (fit.0 h) λ (d, (p, near, _)). absurd (cc (near, out)))
            | inl (p, near) ↦ near-Concluded s h p near
          ]
        ]

    -- The evaluation of a window that is not empty raises exactly if the window can be judged and the
    -- computation of its residual leaves the domain of a function of `math`. It returns
    -- INSUFFICIENT_DATA exactly for a window that cannot be judged: of too few or too many
    -- observations, of several aircraft or sources, too short or too long, with timestamps that do not
    -- increase, or with an observation that lacks position, speed or track. Of the others whose
    -- residual is computed, it returns FLAGGED exactly if the residual is above the limit of the policy,
    -- and PASS exactly if not. It returns an
    -- evaluation with a failed rule exactly if it returns FLAGGED.
    pub evaluate_window-status_iff :
        (s : EvaluationStatus)
        → (((error : WindowError) × (evaluate_window f uuid5 policy (first ∷ rest) ≡ raised error))
            ↔ (IsJudged policy first rest × IsOutOfDomain))
          × (HasWindowStatus (evaluate_window f uuid5 policy (first ∷ rest)) s ↔ IsWindowStatus s)
          × (((v : WindowEvaluation f uuid5) × (evaluate_window f uuid5 policy (first ∷ rest)
                  ≡ ok v)
                × (window_failed_rules f uuid5 v ≢ []))
              ↔ HasWindowStatus
                  (evaluate_window f uuid5 policy (first ∷ rest))
                  EvaluationStatus.flagged)
    evaluate_window-status_iff s =
        let (raises, status, rules) = evaluate_window-Concluded s in
        (
          raises,
          status,
          (
            (λ (v, same, h). (v, same, (rules v same).1 h)),
            λ (v, same, h). (v, same, (rules v same).0 h),
          ),
        )

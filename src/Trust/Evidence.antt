-- ===== src/Trust/Evidence.antt =====
-- The evidence that `assess_trust` of backend/app/services/trust_assessment.py reads, and the reasons
-- that its three tests collect from it.
use ads_b_flight_intelligenc.Base.{
  ◌≡◌, ◌≢◌, ◌↔◌, refl, ◌⊎◌, inl, inr, Bool, true, false, not, Option, none, some, List, [], ◌∷◌,
  arith, Bool-cases, Option-cases, is_some, when-nil, append_when-nil,
}
use ads_b_flight_intelligenc.Base.Result.{ok}
use ads_b_flight_intelligenc.Kinematics.{EvaluationStatus}
use ads_b_flight_intelligenc.Corroboration.{CorroborationState}
use ads_b_flight_intelligenc.Station.{StationHealthState}
use ads_b_flight_intelligenc.Trust.{
  TrustState, TrustReason, TrustAssessmentInputs, contradiction_reasons, missing_reasons,
  is_flagged, is_conflicting, is_inconclusive, corroboration_limits, station_limits,
}

-- What the evidence contradicts.
abbrev pub IsContradicted :
    Option EvaluationStatus → Option EvaluationStatus → Option CorroborationState → Type 0
IsContradicted pair window corroboration =
    (pair ≡ some EvaluationStatus.flagged)
    ⊎ (window ≡ some EvaluationStatus.flagged)
    ⊎ (corroboration ≡ some CorroborationState.conflicting)

abbrev pub IsInconclusive : Option EvaluationStatus → Type 0
IsInconclusive status = (status ≡ none) ⊎ (status ≡ some EvaluationStatus.insufficient_data)

-- The states of the four kinds of evidence, and no more, say what is decided.
abbrev pub IsDecision :
    Option EvaluationStatus
    → Option EvaluationStatus
    → Option CorroborationState
    → Option StationHealthState
    → TrustState
    → Type 0
IsDecision pair window corroboration station TrustState.questionable =
    IsContradicted pair window corroboration
IsDecision pair window corroboration station TrustState.insufficient_data =
    (¬ IsContradicted pair window corroboration)
    × (IsInconclusive pair ⊎ (IsInconclusive window ⊎ ((corroboration ≡ none) ⊎ (station ≡ none))))
IsDecision pair window corroboration station TrustState.trusted =
    (pair ≡ some EvaluationStatus.pass)
    × (window ≡ some EvaluationStatus.pass)
    × (corroboration ≡ some CorroborationState.corroborated)
    × (station ≡ some StationHealthState.healthy)
IsDecision pair window corroboration station TrustState.low_confidence =
    (pair ≡ some EvaluationStatus.pass)
    × (window ≡ some EvaluationStatus.pass)
    × (corroboration ≢ none)
    × (corroboration ≢ some CorroborationState.conflicting)
    × (station ≢ none)
    × ((corroboration ≢ some CorroborationState.corroborated)
        ⊎ (station ≢ some StationHealthState.healthy))

pub is_flagged_iff :
    (s : Option EvaluationStatus) → (is_flagged s ≡ false) ↔ (s ≢ some EvaluationStatus.flagged)
is_flagged_iff none = ground arith
is_flagged_iff (some EvaluationStatus.pass) = ground arith
is_flagged_iff (some EvaluationStatus.flagged) = ground arith
is_flagged_iff (some EvaluationStatus.insufficient_data) = ground arith

is_conflicting_iff :
    (s : Option CorroborationState)
    → (is_conflicting s ≡ false) ↔ (s ≢ some CorroborationState.conflicting)
is_conflicting_iff none = ground arith
is_conflicting_iff (some CorroborationState.corroborated) = ground arith
is_conflicting_iff (some CorroborationState.local_only) = ground arith
is_conflicting_iff (some CorroborationState.external_only) = ground arith
is_conflicting_iff (some CorroborationState.conflicting) = ground arith
is_conflicting_iff (some CorroborationState.stale) = ground arith
is_conflicting_iff (some CorroborationState.unavailable) = ground arith

is_inconclusive_iff : (s : Option EvaluationStatus) → (is_inconclusive s ≡ true) ↔ IsInconclusive s
is_inconclusive_iff none = ground arith
is_inconclusive_iff (some EvaluationStatus.pass) = ground arith
is_inconclusive_iff (some EvaluationStatus.flagged) = ground arith
is_inconclusive_iff (some EvaluationStatus.insufficient_data) = ground arith

-- A status that is neither flagged nor inconclusive has passed.
pub passed :
    (s : Option EvaluationStatus)
    → is_flagged s ≡ false
    → is_inconclusive s ≡ false
    → s ≡ some EvaluationStatus.pass
passed none h k = absurd (cc)
passed (some EvaluationStatus.pass) h k = refl
passed (some EvaluationStatus.flagged) h k = absurd (cc)
passed (some EvaluationStatus.insufficient_data) h k = absurd (cc)

pub corroboration_limits-nil :
    (s : Option CorroborationState)
    → s ≢ none
    → s ≢ some CorroborationState.conflicting
    → (corroboration_limits s ≡ []) ↔ (s ≡ some CorroborationState.corroborated)
corroboration_limits-nil none h k = ground arith
corroboration_limits-nil (some CorroborationState.corroborated) h k = ground arith
corroboration_limits-nil (some CorroborationState.local_only) h k = ground arith
corroboration_limits-nil (some CorroborationState.external_only) h k = ground arith
corroboration_limits-nil (some CorroborationState.conflicting) h k = ground arith
corroboration_limits-nil (some CorroborationState.stale) h k = ground arith
corroboration_limits-nil (some CorroborationState.unavailable) h k = ground arith

pub station_limits-nil :
    (s : Option StationHealthState)
    → s ≢ none
    → (rs : List TrustReason) × (station_limits s ≡ ok rs)
      × ((rs ≡ []) ↔ (s ≡ some StationHealthState.healthy))
station_limits-nil none h = absurd (h refl)
station_limits-nil (some StationHealthState.healthy) h = (_, refl, ground arith)
station_limits-nil (some StationHealthState.degraded) h = (_, refl, ground arith)
station_limits-nil (some StationHealthState.stale) h = (_, refl, ground arith)
station_limits-nil (some StationHealthState.offline) h = (_, refl, ground arith)
station_limits-nil (some StationHealthState.no_data) h = (_, refl, ground arith)

pub List-cases :
    (rs : List TrustReason)
    → (rs ≡ []) ⊎ ((r : TrustReason) × (rest : List TrustReason) × (rs ≡ r ∷ rest))
List-cases [] = inl refl
List-cases (r ∷ rest) = inr (r, rest, refl)

not-false : (b : Bool) → (not b ≡ false) ↔ (b ≡ true)
not-false true = ground arith
not-false false = ground arith

is_some_iff {ℓ} : {A : Type ℓ} (o : Option A) → (is_some o ≡ true) ↔ (o ≢ none)
is_some_iff none = ground arith
is_some_iff (some a) = ground arith

flagged_cases :
    (s : Option EvaluationStatus)
    → (s ≡ some EvaluationStatus.flagged) ⊎ (s ≢ some EvaluationStatus.flagged)
flagged_cases none = inr (ground arith)
flagged_cases (some EvaluationStatus.pass) = inr (ground arith)
flagged_cases (some EvaluationStatus.flagged) = inl refl
flagged_cases (some EvaluationStatus.insufficient_data) = inr (ground arith)

conflict_cases :
    (s : Option CorroborationState)
    → (s ≡ some CorroborationState.conflicting) ⊎ (is_conflicting s ≡ false)
conflict_cases none = inr refl
conflict_cases (some CorroborationState.corroborated) = inr refl
conflict_cases (some CorroborationState.local_only) = inr refl
conflict_cases (some CorroborationState.external_only) = inr refl
conflict_cases (some CorroborationState.conflicting) = inl refl
conflict_cases (some CorroborationState.stale) = inr refl
conflict_cases (some CorroborationState.unavailable) = inr refl

module _ {N : Type 0} where
  abbrev pub Decides : TrustAssessmentInputs N → TrustState → Type 0
  Decides i s = IsDecision i.pair_status i.window_status i.corroboration_state i.station_state s

  pub contradiction_reasons-nil :
      (i : TrustAssessmentInputs N)
      → (contradiction_reasons i ≡ [])
        ↔ (¬ IsContradicted i.pair_status i.window_status i.corroboration_state)
  unfolding contradiction_reasons
  contradiction_reasons-nil i = grind (
    arith,
    append_when-nil,
    when-nil,
    is_flagged_iff i.pair_status,
    is_flagged_iff i.window_status,
    is_conflicting_iff i.corroboration_state,
  )

  pub missing_reasons-nil :
      (i : TrustAssessmentInputs N)
      → (missing_reasons i ≡ []) ↔ (
          (is_inconclusive i.pair_status ≡ false)
          × (is_inconclusive i.window_status ≡ false)
          × (i.corroboration_state ≢ none)
          × (i.station_state ≢ none))
  unfolding missing_reasons
  missing_reasons-nil i = grind (
    arith,
    append_when-nil,
    when-nil,
    not-false,
    is_some_iff i.corroboration_state,
    is_some_iff i.station_state,
  )

  pub contradiction_cases :
      (i : TrustAssessmentInputs N)
      → IsContradicted i.pair_status i.window_status i.corroboration_state
        ⊎ (¬ IsContradicted i.pair_status i.window_status i.corroboration_state)
  contradiction_cases i = elim (flagged_cases i.pair_status) [
    | inl h ↦ inl (inl h)
    | inr h ↦ elim (flagged_cases i.window_status) [
      | inl k ↦ inl (inr (inl k))
      | inr k ↦ elim (conflict_cases i.corroboration_state) [
        | inl m ↦ inl (inr (inr m))
        | inr m ↦ inr (ground (arith, is_conflicting_iff i.corroboration_state))
      ]
    ]
  ]

  abbrev IsMissing : TrustAssessmentInputs N → Type 0
  IsMissing i =
      IsInconclusive i.pair_status
      ⊎ (IsInconclusive i.window_status
          ⊎ ((i.corroboration_state ≡ none) ⊎ (i.station_state ≡ none)))

  pub IsMissing-cases :
      (i : TrustAssessmentInputs N)
      → (IsMissing i × (missing_reasons i ≢ [])) ⊎ (missing_reasons i ≡ [])
  IsMissing-cases i =
      let complete = missing_reasons-nil i in
      elim (Bool-cases (is_inconclusive i.pair_status)) [
        | inl h ↦ inl (inl ((is_inconclusive_iff _).0 h), ground (arith, complete))
        | inr h ↦ elim (Bool-cases (is_inconclusive i.window_status)) [
          | inl k ↦ inl (inr (inl ((is_inconclusive_iff _).0 k)), ground (arith, complete))
          | inr k ↦ elim (Option-cases i.corroboration_state) [
            | inl m ↦ inl (inr (inr (inl m)), ground (arith, complete))
            | inr (c, m) ↦ elim (Option-cases i.station_state) [
              | inl n ↦ inl (inr (inr (inr n)), ground (arith, complete))
              | inr (s, n) ↦ inr (complete.1 (h, k, ground arith, ground arith))
            ]
          ]
        ]
      ]

pub Decision-unique :
    (pair window : Option EvaluationStatus) (c : Option CorroborationState)
    (station : Option StationHealthState) (a b : TrustState)
    → IsDecision pair window c station a
    → IsDecision pair window c station b
    → a ≡ b
Decision-unique pair window c station TrustState.trusted TrustState.trusted h k = refl
Decision-unique pair window c station TrustState.trusted TrustState.questionable h k = ground arith
Decision-unique pair window c station TrustState.trusted TrustState.low_confidence h k =
    ground arith
Decision-unique pair window c station TrustState.trusted TrustState.insufficient_data h k =
    ground arith
Decision-unique pair window c station TrustState.questionable TrustState.trusted h k = ground arith
Decision-unique pair window c station TrustState.questionable TrustState.questionable h k = refl
Decision-unique pair window c station TrustState.questionable TrustState.low_confidence h k =
    ground arith
Decision-unique pair window c station TrustState.questionable TrustState.insufficient_data h k =
    ground arith
Decision-unique pair window c station TrustState.low_confidence TrustState.trusted h k =
    ground arith
Decision-unique pair window c station TrustState.low_confidence TrustState.questionable h k =
    ground arith
Decision-unique pair window c station TrustState.low_confidence TrustState.low_confidence h k = refl
Decision-unique pair window c station TrustState.low_confidence TrustState.insufficient_data h k =
    ground arith
Decision-unique pair window c station TrustState.insufficient_data TrustState.trusted h k =
    ground arith
Decision-unique pair window c station TrustState.insufficient_data TrustState.questionable h k =
    ground arith
Decision-unique pair window c station TrustState.insufficient_data TrustState.low_confidence h k =
    ground arith
Decision-unique pair window c station TrustState.insufficient_data TrustState.insufficient_data h
      k =
    refl

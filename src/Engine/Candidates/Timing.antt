-- ===== src/Engine/Candidates/Timing.antt =====
-- The timing evidence among the candidates: it is decided by the clock alone, whatever the
-- evaluators find.
use ads_b_flight_intelligenc.Base.{
  when, ℕ, ◌≡◌, refl, ◌∙◌, ◌↔◌, Bool, true, false, not, ◌&&◌, ◌||◌, ◌++◌, Option, some, List, [],
  ◌∷◌, map, arith, leb, length, ◌==◌, get_last?, Bool-cases, inl, inr,
}
use ads_b_flight_intelligenc.Base.Int.{
  ℤ, pos, sub_ℕ, ltb_ℤ, leb_ℤ, neg, ◌<ℤ◌, ◌≤ℤ◌, ltb_ℤ_iff, leb_ℤ_iff,
}
use ads_b_flight_intelligenc.Observation.{TrackObservation, is_replay}
use ads_b_flight_intelligenc.Engine.Models.{EvidenceKind}
use ads_b_flight_intelligenc.Engine.Env.{Env, FailedRule}
use ads_b_flight_intelligenc.Engine.Track.{Track, is_duplicate}
use ads_b_flight_intelligenc.Engine.Evidence.{Candidate}
use ads_b_flight_intelligenc.Engine.Candidates.{
  reported, flagged_rules, duplicate_candidate, rule_candidate, previous_candidates,
  pair_candidates, latency_candidates, window_items, window_candidates, candidates,
}

abbrev kind_index : EvidenceKind → ℕ
kind_index EvidenceKind.pair_kinematic = 0
kind_index EvidenceKind.window_kinematic = 1
kind_index EvidenceKind.timing_duplicate = 2
kind_index EvidenceKind.timing_non_increasing = 3
kind_index EvidenceKind.timing_out_of_order = 4
kind_index EvidenceKind.timing_excessive_latency = 5
kind_index EvidenceKind.timing_gap = 6

abbrev pub kind_eq : EvidenceKind → EvidenceKind → Bool
kind_eq a b = kind_index a == kind_index b

-- Some candidate is of the kind.
unfoldable pub has_kind : {N : Type 0} → EvidenceKind → List (Candidate N) → Bool
has_kind k [] = false
has_kind k (c ∷ cs) = kind_eq c.kind k || has_kind k cs

pub has_kind-append :
    {N : Type 0} (k : EvidenceKind) (xs ys : List (Candidate N))
    → has_kind k (xs ++ ys) ≡ has_kind k xs || has_kind k ys
unfolding has_kind
has_kind-append k [] ys = refl
has_kind-append k (c ∷ xs) ys = ground (arith, has_kind-append k xs ys)

pub has_kind-when :
    {N : Type 0} (k : EvidenceKind) (b : Bool) (c : Candidate N)
    → has_kind k (when b c) ≡ b && kind_eq c.kind k
unfolding has_kind
has_kind-when k b c = ground arith

and_iff : {P : Type 0} (a b : Bool) → ((b ≡ true) ↔ P) → (not a && b ≡ true) ↔ ((a ≡ false) × P)
and_iff true b h = (λ x. absurd (cc), λ x. absurd (cc x.0))
and_iff false b h = (λ x. (refl, h.0 x), λ x. h.1 x.1)

-- The verdict of the one test whose kind is asked for, among the five.
module _ (a b c d l : Bool) where
  first_test : (a && true) || (((b && false) || ((c && false) || (d && false))) || (l && false)) ≡ a
  first_test = ground arith

  second_test :
      (a && false) || (((b && true) || ((c && false) || (d && false))) || (l && false)) ≡ b
  second_test = ground arith

  third_test : (a && false) || (((b && false) || ((c && true) || (d && false))) || (l && false)) ≡ c
  third_test = ground arith

  fourth_test :
      (a && false) || (((b && false) || ((c && false) || (d && true))) || (l && false)) ≡ d
  fourth_test = ground arith

  fifth_test : (a && false) || (((b && false) || ((c && false) || (d && false))) || (l && true)) ≡ l
  fifth_test = ground arith

module _ (e : Env) (k : EvidenceKind) where
  open e use {floats.{Number}, policy}

  pub has_kind-rules :
      (kind : EvidenceKind) (rules : List (FailedRule Number))
      → kind_eq kind k ≡ false
      → has_kind k (map (rule_candidate e kind) rules) ≡ false
  unfolding has_kind rule_candidate
  has_kind-rules kind [] h = refl
  has_kind-rules kind (r ∷ rules) h = ground (arith, has_kind-rules kind rules h)

  pub has_kind-window :
      (observations : List (TrackObservation Number)) (o : TrackObservation Number)
      → kind_eq EvidenceKind.window_kinematic k ≡ false
      → has_kind k (window_candidates e observations o) ≡ false
  unfolding has_kind window_candidates
  has_kind-window observations o h =
      let items = window_items e observations o in
      let rules = flagged_rules e (e.evaluators.window items) in
      elim (Bool-cases (leb policy.window.minimum_observations (length items))) [
        | inl enough ↦ rw enough (has_kind-rules EvidenceKind.window_kinematic rules h)
        | inr few ↦ rw few refl
      ]

  unfoldable pub clock_test :
      EvidenceKind → TrackObservation Number → TrackObservation Number → Bool
  clock_test kind previous o =
      let delta = sub_ℕ o.observed_at previous.observed_at in
      (leb_ℤ delta (pos 0) && kind_eq EvidenceKind.timing_non_increasing kind)
      || ((ltb_ℤ delta (neg policy.timing.maximum_reordering)
            && kind_eq EvidenceKind.timing_out_of_order kind)
          || (ltb_ℤ policy.timing.gap delta && kind_eq EvidenceKind.timing_gap kind))

  pub has_kind-previous :
      (previous o : TrackObservation Number)
      → kind_eq EvidenceKind.pair_kinematic k ≡ false
      → has_kind k (previous_candidates e previous o) ≡ clock_test k previous o
  unfolding previous_candidates clock_test
  has_kind-previous previous o np =
      simp
        (
          has_kind-append,
          has_kind-when,
          has_kind-rules EvidenceKind.pair_kinematic (reported e (e.evaluators.pair previous o)) np,
        )
        (ground arith)

  has_kind-pair :
      (last : Option (TrackObservation Number)) (previous o : TrackObservation Number)
      → kind_eq EvidenceKind.pair_kinematic k ≡ false
      → last ≡ some previous
      → has_kind k (pair_candidates e last o) ≡ clock_test k previous o
  unfolding pair_candidates
  has_kind-pair last previous o np known = rw known (has_kind-previous previous o np)

  unfoldable pub latency_test : EvidenceKind → TrackObservation Number → Bool
  latency_test kind o =
      (not (is_replay o.provenance.source_type)
        && ltb_ℤ policy.timing.maximum_latency (sub_ℕ o.received_at o.observed_at))
      && kind_eq EvidenceKind.timing_excessive_latency kind

  pub has_kind-latency :
      (o : TrackObservation Number) → has_kind k (latency_candidates e o) ≡ latency_test k o
  unfolding latency_candidates latency_test
  has_kind-latency o = has_kind-when k _ _

  -- Of a kind that no evaluator gives, what `candidates` finds is what the clock tests find.
  has_kind-candidates :
      (t : Track Number) (observations : List (TrackObservation Number))
      (previous o : TrackObservation Number)
      → kind_eq EvidenceKind.pair_kinematic k ≡ false
      → kind_eq EvidenceKind.window_kinematic k ≡ false
      → get_last? t.observations ≡ some previous
      → has_kind k (candidates e t observations o)
        ≡ (is_duplicate o.raw_message_id t && kind_eq EvidenceKind.timing_duplicate k)
          || (clock_test k previous o || latency_test k o)
  unfolding candidates duplicate_candidate
  has_kind-candidates t observations previous o np nw known =
      rw
        (
          has_kind-append,
          has_kind-append,
          has_kind-append,
          has_kind-when,
          has_kind-pair (get_last? t.observations) previous o np known,
          has_kind-latency o,
          has_kind-window observations o nw,
        )
        (ground arith)

module _ (e : Env) (t : Track e.floats.Number)
    (observations : List (TrackObservation e.floats.Number))
    (previous o : TrackObservation e.floats.Number) where
  open e use {policy}

  abbrev found : List (Candidate e.floats.Number)
  found = candidates e t observations o

  abbrev delta : ℤ
  delta = sub_ℕ o.observed_at previous.observed_at

  -- The five tests.
  abbrev duplicate : Bool
  duplicate = is_duplicate o.raw_message_id t

  abbrev backwards : Bool
  backwards = leb_ℤ delta (pos 0)

  abbrev disordered : Bool
  disordered = ltb_ℤ delta (neg policy.timing.maximum_reordering)

  abbrev apart : Bool
  apart = ltb_ℤ policy.timing.gap delta

  abbrev late : Bool
  late =
      not (is_replay o.provenance.source_type)
      && ltb_ℤ policy.timing.maximum_latency (sub_ℕ o.received_at o.observed_at)

  duplicate-found :
      get_last? t.observations ≡ some previous
      → has_kind EvidenceKind.timing_duplicate found ≡ duplicate
  unfolding clock_test latency_test
  duplicate-found known =
      has_kind-candidates e EvidenceKind.timing_duplicate t observations previous o refl refl known
      ∙ first_test duplicate backwards disordered apart late

  non_increasing_found :
      get_last? t.observations ≡ some previous
      → has_kind EvidenceKind.timing_non_increasing found ≡ backwards
  unfolding clock_test latency_test
  non_increasing_found known =
      has_kind-candidates e EvidenceKind.timing_non_increasing t observations previous o refl refl
        known
      ∙ second_test duplicate backwards disordered apart late

  out_of_order_found :
      get_last? t.observations ≡ some previous
      → has_kind EvidenceKind.timing_out_of_order found ≡ disordered
  unfolding clock_test latency_test
  out_of_order_found known =
      has_kind-candidates e EvidenceKind.timing_out_of_order t observations previous o refl refl
        known
      ∙ third_test duplicate backwards disordered apart late

  gap_found :
      get_last? t.observations ≡ some previous → has_kind EvidenceKind.timing_gap found ≡ apart
  unfolding clock_test latency_test
  gap_found known =
      has_kind-candidates e EvidenceKind.timing_gap t observations previous o refl refl known
      ∙ fourth_test duplicate backwards disordered apart late

  latency_found :
      get_last? t.observations ≡ some previous
      → has_kind EvidenceKind.timing_excessive_latency found ≡ late
  unfolding clock_test latency_test
  latency_found known =
      has_kind-candidates e EvidenceKind.timing_excessive_latency t observations previous o refl
        refl known
      ∙ fifth_test duplicate backwards disordered apart late

  -- Against a previous observation, the timing evidence found is decided exactly by the message
  -- memory and the clock, whatever the evaluators find: a duplicate by the memory, non-increasing
  -- time by no advance, disorder by a step back beyond the reordering window, a gap by an advance
  -- beyond the limit, and latency, which a replay is not held to, by its limit.
  pub candidates-timing :
      get_last? t.observations ≡ some previous
      → ((has_kind EvidenceKind.timing_duplicate found ≡ true)
          ↔ (is_duplicate o.raw_message_id t ≡ true))
        × ((has_kind EvidenceKind.timing_non_increasing found ≡ true) ↔ (delta ≤ℤ pos 0))
        × ((has_kind EvidenceKind.timing_out_of_order found ≡ true)
            ↔ (delta <ℤ neg policy.timing.maximum_reordering))
        × ((has_kind EvidenceKind.timing_gap found ≡ true) ↔ (policy.timing.gap <ℤ delta))
        × ((has_kind EvidenceKind.timing_excessive_latency found ≡ true) ↔ (
            (is_replay o.provenance.source_type ≡ false)
            × (policy.timing.maximum_latency <ℤ sub_ℕ o.received_at o.observed_at)))
  candidates-timing known = (
    rw (duplicate-found known) (λ h. h, λ h. h),
    rw (non_increasing_found known) (leb_ℤ_iff delta (pos 0)),
    rw (out_of_order_found known) (ltb_ℤ_iff delta (neg policy.timing.maximum_reordering)),
    rw (gap_found known) (ltb_ℤ_iff policy.timing.gap delta),
    rw (latency_found known) (
        and_iff (is_replay o.provenance.source_type) _
          (ltb_ℤ_iff policy.timing.maximum_latency (sub_ℕ o.received_at o.observed_at))),
  )

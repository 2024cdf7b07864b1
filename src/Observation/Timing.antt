-- ===== src/Observation/Timing.antt =====
-- `TrackObservation.timing_quality_flags` of backend/app/schemas/observation.py. Tolerances are
-- whole microseconds.
use ads_b_flight_intelligenc.Base.{
  ℕ, ◌≡◌, ◌↔◌, Bool, true, false, ◌&&◌, ◌||◌, Option, none, some, List, arith, leb, ◌==◌,
  if◌then◌else◌,
}
use ads_b_flight_intelligenc.Base.Int.{ℤ, pos, ltb_ℤ, sub_ℕ, ◌≤ℤ◌}
use ads_b_flight_intelligenc.Base.Result.{Result, ok, ◌>>=◌, ◌>>◌, raise_if}
use ads_b_flight_intelligenc.Base.Moment.{Moment, aware, require_aware}
use ads_b_flight_intelligenc.Base.Sets.{contains, add, contains-add}
use ads_b_flight_intelligenc.Observation.{TrackObservation, QualityFlag}

pub data TimingError : Type 0 where
  naive_reference naive_previous negative_tolerance : TimingError

abbrev pub flag_index : QualityFlag → ℕ
flag_index QualityFlag.clock_skew = 0
flag_index QualityFlag.duplicate = 1
flag_index QualityFlag.out_of_order = 2
flag_index QualityFlag.partial = 3
flag_index QualityFlag.stale = 4
flag_index QualityFlag.unverified = 5

abbrev pub flag_eq : QualityFlag → QualityFlag → Bool
flag_eq a b = flag_index a == flag_index b

-- `if test: flags.add(flag)`
abbrev add_if : Bool → QualityFlag → List QualityFlag → List QualityFlag
add_if test flag flags = if test then add flag_eq flag flags else flags

abbrev require_previous : Option Moment → Result TimingError (Option ℕ)
require_previous none = ok none
require_previous (some m) = do t ← require_aware naive_previous m; ok (some t)

abbrev not_after : ℕ → Option ℕ → Bool
not_after t none = false
not_after t (some previous) = leb t previous

unfoldable pub timing_quality_flags :
    {N : Type 0}
    → TrackObservation N
    → Moment
    → Option Moment
    → ℤ
    → ℤ
    → Result TimingError (List QualityFlag)
unfolding add
timing_quality_flags o reference_time previous_observed_at stale_after skew_tolerance = do
  now ← require_aware naive_reference reference_time
  previous ← require_previous previous_observed_at
  raise_if (ltb_ℤ stale_after (pos 0) || ltb_ℤ skew_tolerance (pos 0)) negative_tolerance
  let stale = add_if (ltb_ℤ stale_after (sub_ℕ now o.observed_at)) QualityFlag.stale o.quality_flags
  let skewed =
      add_if (ltb_ℤ skew_tolerance (sub_ℕ o.observed_at o.received_at)) QualityFlag.clock_skew stale
  ok (add_if (not_after o.observed_at previous) QualityFlag.out_of_order skewed)

flag_eq_iff : (a b : QualityFlag) → (flag_eq a b ≡ true) ↔ (a ≡ b)
flag_eq_iff a b = ground arith

contains-add_if :
    (b : Bool) (f g : QualityFlag) (xs : List QualityFlag)
    → contains flag_eq f (add_if b g xs) ≡ contains flag_eq f xs || (b && flag_eq g f)
contains-add_if true f g xs = contains-add flag_eq flag_eq_iff f g xs
contains-add_if false f g xs = ground arith

-- Why a flag is raised: the observation is older than the tolerance, it is dated after its receipt
-- by more than the tolerance, or it is not later than the previous one.
abbrev pub reason : {N : Type 0} → TrackObservation N → ℕ → Option ℕ → ℤ → ℤ → QualityFlag → Bool
reason o now previous stale_after skew QualityFlag.stale =
    ltb_ℤ stale_after (sub_ℕ now o.observed_at)
reason o now previous stale_after skew QualityFlag.clock_skew =
    ltb_ℤ skew (sub_ℕ o.observed_at o.received_at)
reason o now previous stale_after skew QualityFlag.out_of_order = not_after o.observed_at previous
reason o now previous stale_after skew _ = false

abbrev flags_of : {N : Type 0} → TrackObservation N → ℕ → Option ℕ → ℤ → ℤ → List QualityFlag
flags_of o now previous stale_after skew =
    add_if (not_after o.observed_at previous) QualityFlag.out_of_order (
      add_if (ltb_ℤ skew (sub_ℕ o.observed_at o.received_at)) QualityFlag.clock_skew
        (add_if (ltb_ℤ stale_after (sub_ℕ now o.observed_at)) QualityFlag.stale o.quality_flags))

flags_of-contains :
    {N : Type 0} (o : TrackObservation N) (now : ℕ) (previous : Option ℕ) (stale_after skew : ℤ)
    (f : QualityFlag)
    → contains flag_eq f (flags_of o now previous stale_after skew)
      ≡ contains flag_eq f o.quality_flags || reason o now previous stale_after skew f
flags_of-contains o now previous stale_after skew f =
    rw (contains-add_if, contains-add_if, contains-add_if) (ground arith)

abbrev pub as_moment : Option ℕ → Option Moment
as_moment none = none
as_moment (some t) = some (aware t)

-- For aware instants and tolerances that are not negative the call returns, and a flag is in the
-- result exactly if the observation carried it or its own reason holds: no flag is lost, and
-- exactly staleness, clock skew and order can add one.
pub timing_quality_flags-contains :
    {N : Type 0} (o : TrackObservation N) (now : ℕ) (previous : Option ℕ) (stale_after skew : ℤ)
    → pos 0 ≤ℤ stale_after
    → pos 0 ≤ℤ skew
    → (flags : List QualityFlag) × (timing_quality_flags o
          (aware now)
          (as_moment previous)
          stale_after
          skew
        ≡ ok flags)
      × ((f : QualityFlag)
          → contains flag_eq f flags
            ≡ contains flag_eq f o.quality_flags || reason o now previous stale_after skew f)
unfolding timing_quality_flags
timing_quality_flags-contains o now none stale_after skew h k = (
  flags_of o now none stale_after skew,
  ground arith,
  flags_of-contains o now none stale_after skew,
)
timing_quality_flags-contains o now (some t) stale_after skew h k = (
  flags_of o now (some t) stale_after skew,
  ground arith,
  flags_of-contains o now (some t) stale_after skew,
)

-- ===== src/Base/Moment.antt =====
-- Python's `datetime`. An aware one is an instant: microseconds since the first instant that the
-- type has, in UTC. A naive one is only ever rejected.
use Prim.Native.Nat.{ℕ}
use mathlib.Core.Bool.{Bool, true, ◌&&◌}
use mathlib.Core.Path.{◌≡◌}
use mathlib.Core.Logic.{◌↔◌}
use native.Mathlib.Omega.{arith}
use ads_b_flight_intelligenc.Base.Int.{ℤ, pos, ◌≤ℤ◌, leb_ℤ}
use ads_b_flight_intelligenc.Base.Result.{Result, ok, raised}

pub data Moment : Type 0 where
  aware : ℕ → Moment
  naive : ℕ → Moment

-- `if value.tzinfo is None or value.utcoffset() is None: raise …`
abbrev pub require_aware : {E : Type 0} → E → Moment → Result E ℕ
require_aware e (aware t) = ok t
require_aware e (naive t) = raised e

-- `datetime.max`
abbrev pub last_moment : ℕ
last_moment = 315_537_897_599_999_999

-- The instants that a `datetime` can hold: arithmetic that leaves them raises OverflowError.
abbrev pub IsMoment : ℤ → Type 0
IsMoment t = (pos 0 ≤ℤ t) × (t ≤ℤ pos last_moment)

abbrev pub is_moment : ℤ → Bool
is_moment t = leb_ℤ (pos 0) t && leb_ℤ t (pos last_moment)

pub is_moment_iff : (t : ℤ) → (is_moment t ≡ true) ↔ IsMoment t
is_moment_iff t = ground arith

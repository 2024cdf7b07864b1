-- ===== src/Float.antt =====
-- Python's `float`, as an interface: the numbers that the program measures are taken as a type
-- with the operations that the code calls. No law is assumed of them, so that what is proved over
-- a `Float` holds with rounding, infinities and NaN.
use ads_b_flight_intelligenc.Base.{ℕ, Bool, false, ◌&&◌}
use ads_b_flight_intelligenc.Base.Int.{ℤ, pos, ◌+ℤ◌, ◌-ℤ◌, ltb_ℤ, leb_ℤ}

pub record Float : Type 1 where
  pub Number : Type 0
  -- the literal m / 10 ^ e
  pub literal : ℕ → ℕ → Number
  -- an `int` where a `float` is wanted
  pub of_int : ℤ → Number
  -- `timedelta.total_seconds()` of a duration in microseconds
  pub of_micros : ℤ → Number
  -- `timedelta(seconds=x)`, in microseconds
  pub to_micros : Number → ℤ
  -- `round(x)`
  pub round_int : Number → ℤ
  -- `round(x, 6)`
  pub round6 : Number → Number
  -- `round(x, 3)`
  pub round3 : Number → Number
  -- `x < y`, `x <= y`
  pub lt : Number → Number → Bool
  pub le : Number → Number → Bool
  pub add : Number → Number → Number
  pub sub : Number → Number → Number
  pub mul : Number → Number → Number
  pub div : Number → Number → Number
  -- `x == y`
  pub eq : Number → Number → Bool
  -- `x == 0`
  pub is_zero : Number → Bool
  -- `x % y`
  pub mod_of : Number → Number → Number
  -- `abs(x)`
  pub magnitude : Number → Number
  -- `x ** 2`
  pub square : Number → Number
  -- of the module `math`
  pub sqrt : Number → Number
  -- where `math.sqrt` and `math.asin` raise ValueError
  pub sqrt_fails : Number → Bool
  pub asin_fails : Number → Bool
  pub sin : Number → Number
  pub cos : Number → Number
  pub asin : Number → Number
  pub atan2 : Number → Number → Number
  pub radians : Number → Number
  pub degrees : Number → Number

-- Numbers in whole micro-units: the operations that are exact there, and for the others any value.
-- It shows that the interface can be met, and serves the tests.
abbrev pub micros : Float
micros = record {
  Number = ℤ;
  literal = λ m e. pos m;
  of_int = λ n. n;
  of_micros = λ d. d;
  to_micros = λ x. x;
  round_int = λ x. x;
  round6 = λ x. x;
  round3 = λ x. x;
  lt = ltb_ℤ;
  le = leb_ℤ;
  add = λ x y. x +ℤ y;
  sub = λ x y. x -ℤ y;
  mul = λ x y. x +ℤ y;
  div = λ x y. x;
  eq = λ x y. leb_ℤ x y && leb_ℤ y x;
  is_zero = λ x. leb_ℤ x (pos 0);
  mod_of = λ x y. x;
  magnitude = λ x. x;
  square = λ x. x;
  sqrt = λ x. x;
  sqrt_fails = λ x. false;
  asin_fails = λ x. false;
  sin = λ x. x;
  cos = λ x. x;
  asin = λ x. x;
  atan2 = λ x y. x;
  radians = λ x. x;
  degrees = λ x. x;
}

-- ===== src/Trust/Validation.antt =====
-- Which inputs `assess_trust` of backend/app/services/trust_assessment.py accepts.
use Prim.Native.String
use ads_b_flight_intelligenc.Base.{
  ℕ, ◌≡◌, ◌↔◌, refl, inl, inr, Bool, true, false, not, ◌||◌, ◌==◌, Option, none, some, String,
  arith, is_some,
}
use ads_b_flight_intelligenc.Base.Text.{is_hex}
use ads_b_flight_intelligenc.Base.Moment.{Moment, aware, naive, require_aware}
use ads_b_flight_intelligenc.Base.Result.{
  Result, raised, ◌>>=◌, ◌>>◌, raise_if, is_ok, Result-cases,
}
use ads_b_flight_intelligenc.Float.{Float}
use ads_b_flight_intelligenc.Trust.{
  TrustError, TrustAssessmentInputs, TrustAssessmentPolicy, validate, assess_trust, bool_eq,
  is_out_of_range,
}
use ads_b_flight_intelligenc.Trust.States.{decide_lem}

module _ (f : Float) (upper : String → String) where
  open f use {Number, literal, le}

  abbrev Inputs : Type 0
  Inputs = TrustAssessmentInputs Number

  abbrev pub IsProbability : Option Number → Type 0
  IsProbability none = Unit
  IsProbability (some p) = (le (literal 0 0) p ≡ true) × (le p (literal 1 0) ≡ true)

  is_out_of_range_iff : (p : Option Number) → (is_out_of_range f upper p ≡ false) ↔ IsProbability p
  is_out_of_range_iff none = ground arith
  is_out_of_range_iff (some p) = ground arith

  bool_eq_iff : (a b : Bool) → (not (bool_eq (not a) (not b)) ≡ false) ↔ (a ≡ b)
  bool_eq_iff true true = ground arith
  bool_eq_iff true false = ground arith
  bool_eq_iff false true = ground arith
  bool_eq_iff false false = ground arith

  -- What `_validate` asks of the inputs.
  pub record IsAccepted (i : Inputs) : Type 0 where
    pub six_characters : String.count i.icao_hex ≡ 6
    pub hexadecimal : is_hex (upper i.icao_hex) ≡ true
    pub has_zone : (now : ℕ) × (i.evaluated_at ≡ aware now)
    pub ml_complete : is_some i.ml_probability ≡ is_some i.ml_model_version
    pub probability : IsProbability i.ml_probability

  raise_if-then :
      {A : Type 0} (b : Bool) (e : TrustError) (r : Result TrustError A)
      → (is_ok (raise_if b e >> r) ≡ true) ↔ ((b ≡ false) × (is_ok r ≡ true))
  raise_if-then true e r = ground arith
  raise_if-then false e r = ground arith

  raise_if-ok : (b : Bool) (e : TrustError) → (is_ok (raise_if b e) ≡ true) ↔ (b ≡ false)
  raise_if-ok true e = ground arith
  raise_if-ok false e = ground arith

  icao_iff : (n : ℕ) (b : Bool) → ((not (n == 6) || not b) ≡ false) ↔ ((n ≡ 6) × (b ≡ true))
  icao_iff n b = ground arith

  abbrev bad_address : Inputs → Bool
  bad_address i = not (String.count i.icao_hex == 6) || not (is_hex (upper i.icao_hex))

  never_ok :
      (b : Bool) (e e' : TrustError) → is_ok {A = Unit {0}} (raise_if b e >> raised e') ≡ false
  never_ok true e e' = refl
  never_ok false e e' = refl

  abbrev lone : Inputs → Bool
  lone i = not (bool_eq (not (is_some i.ml_probability)) (not (is_some i.ml_model_version)))

  -- The three tests of a time with a zone, and of one without.
  abbrev tests : Inputs → Moment → Result TrustError (Unit {0})
  tests i at =
      raise_if (not (String.count i.icao_hex == 6) || not (is_hex (upper i.icao_hex)))
        TrustError.bad_icao
      >> (require_aware TrustError.naive_evaluated_at at >>= λ now.
          raise_if (lone i) TrustError.lone_ml_field
          >> raise_if (is_out_of_range f upper i.ml_probability) TrustError.bad_probability)

  tests-is_ok :
      (i : Inputs) (at : Moment) → i.evaluated_at ≡ at → (is_ok (tests i at) ≡ true) ↔ IsAccepted i
  tests-is_ok i (naive t) h = (
    λ k.
        let never : is_ok (tests i (naive t)) ≡ false =
          never_ok (bad_address i) TrustError.bad_icao TrustError.naive_evaluated_at in
        absurd (cc),
    λ c. let (now, aware_at) = c.has_zone in absurd (cc),
  )
  tests-is_ok i (aware t) h = (
    λ k.
        let (a, rest) = (raise_if-then _ _ _).0 k in
        let (b, c) = (raise_if-then _ _ _).0 rest in
        let (six, hex) = (icao_iff (String.count i.icao_hex) (is_hex (upper i.icao_hex))).0 a in
        record {
          six_characters = six;
          hexadecimal = hex;
          has_zone = (t, h);
          ml_complete = (bool_eq_iff _ _).0 b;
          probability = (is_out_of_range_iff i.ml_probability).0 ((raise_if-ok _ _).0 c);
        },
    λ c. (raise_if-then _ _ _).1 (
      (icao_iff (String.count i.icao_hex) (is_hex (upper i.icao_hex))).1
          (c.six_characters, c.hexadecimal),
      (raise_if-then _ _ _).1 (
        (bool_eq_iff _ _).1 c.ml_complete,
        (raise_if-ok _ _).1 ((is_out_of_range_iff i.ml_probability).1 c.probability),
      ),
    ),
  )

  validate-is_ok : (i : Inputs) → (is_ok (validate f upper i) ≡ true) ↔ IsAccepted i
  unfolding validate
  validate-is_ok i = tests-is_ok i i.evaluated_at refl

  -- What follows the validation never raises.
  is_ok-assess_trust :
      (i : Inputs) (policy : TrustAssessmentPolicy)
      → is_ok (assess_trust f upper i policy) ≡ is_ok (validate f upper i)
  unfolding assess_trust
  is_ok-assess_trust i policy =
      let (s, rs, e, d) = decide_lem f upper i in
      elim (Result-cases (validate f upper i)) [
        | inl (u, v) ↦ rw (v, e, assess_trust) refl
        | inr (error, v) ↦ rw (v, assess_trust) refl
      ]

  -- An assessment returns exactly if the address has six characters, in capitals has only hexadecimal
  -- digits, the time has a zone, and the ML probability and model come together, the probability
  -- between 0 and 1; else it raises.
  pub assess_trust-is_ok_iff :
      (i : Inputs) (policy : TrustAssessmentPolicy)
      → (is_ok (assess_trust f upper i policy) ≡ true) ↔ IsAccepted i
  unfolding assess_trust
  assess_trust-is_ok_iff i policy = rw (is_ok-assess_trust i policy) (validate-is_ok i)

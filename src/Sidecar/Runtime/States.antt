-- ===== src/Sidecar/Runtime/States.antt =====
-- The bound on the states of aircraft that sidecar/service.py keeps.
use ads_b_flight_intelligenc.Base.{
  ℕ, ◌+◌, ◌≤◌, ◌<◌, ◌≡◌, inl, inr, true, [], ◌∷◌, String, eq_iff, arith, length, ltb, is_some,
  Bool-cases,
}
use ads_b_flight_intelligenc.Base.Dict.{Dict, lookup, insert, length-insert-le, length-erase_known}
use ads_b_flight_intelligenc.Sidecar.Sbs.{SbsValue}
use ads_b_flight_intelligenc.Sidecar.Runtime.{
  keep_state, without_oldest, oldest_from, time_of, seen_earlier,
}

module _ {N : Type 0} (all : Dict (Dict (SbsValue N))) where
  oldest_from-known :
      (best : ℕ × String) (states : Dict (Dict (SbsValue N)))
      → is_some (lookup best.1 all) ≡ true
      → ((k : String) → is_some (lookup k states) ≡ true → is_some (lookup k all) ≡ true)
      → is_some (lookup (oldest_from best states).1 all) ≡ true
  unfolding oldest_from
  oldest_from-known best [] h among = h
  oldest_from-known best ((hex, state) ∷ states) h among =
      let time = time_of (lookup "_observed_at" state) in
      let here : is_some (lookup hex all) ≡ true =
        among hex (unfold lookup in ground (arith, eq_iff hex hex)) in
      let later : (k : String) → is_some (lookup k states) ≡ true → is_some (lookup k all) ≡ true =
        λ k q. among k (unfold lookup in ground arith) in
      elim (Bool-cases (seen_earlier (time, hex) best)) [
        | inl q ↦ rw (q, oldest_from) (oldest_from-known (time, hex) states here later)
        | inr q ↦ rw (q, oldest_from) (oldest_from-known best states h later)
      ]

without_oldest-shorter :
    {N : Type 0} (states : Dict (Dict (SbsValue N)))
    → 0 < length states
    → length (without_oldest states) + 1 ≤ length states
without_oldest-shorter [] h = absurd (omega arith)
without_oldest-shorter ((hex, state) ∷ states) h =
    let all = (hex, state) ∷ states in
    let here : is_some (lookup hex all) ≡ true = unfold lookup in ground (arith, eq_iff hex hex) in
    let later : (k : String) → is_some (lookup k states) ≡ true → is_some (lookup k all) ≡ true =
      λ k q. unfold lookup in ground arith in
    length-erase_known (oldest_from (time_of (lookup "_observed_at" state), hex) states).1 all
      (oldest_from-known all (time_of (lookup "_observed_at" state), hex) states here later)

pub keep_state-bounded :
    {N : Type 0} (maximum : ℕ) (hex : String) (merged : Dict (SbsValue N))
    (states : Dict (Dict (SbsValue N)))
    → length states ≤ maximum
    → length (keep_state maximum hex merged states) ≤ maximum
unfolding keep_state
keep_state-bounded maximum hex merged states h =
    let kept = insert hex merged states in
    let grown = length-insert-le hex merged states in
    elim (Bool-cases (ltb maximum (length kept))) [
      | inl q ↦
          let shorter = without_oldest-shorter kept (ground arith) in
          rw (q, keep_state) (omega arith)
      | inr q ↦ rw (q, keep_state) (ground arith)
    ]

-- ===== src/Sidecar/Store/Bounds.antt =====
-- The bound on the files of sidecar/store.py.
use ads_b_flight_intelligenc.Base.{
  ℕ, suc, ◌+◌, ◌-◌, ◌≤◌, ◌≡◌, ◌⊎◌, inl, inr, Bool, true, not, ◌||◌, ◌++◌, List, [], ◌∷◌, arith, All,
  ltb, leb, ◌==◌, filter, Bool-cases, ◌<◌, All-filter, All-append, Option-cases,
}
use ads_b_flight_intelligenc.Base.Int.{pos, sub_ℕ, ltb_ℤ}
use ads_b_flight_intelligenc.Base.Json.{Fields}
use ads_b_flight_intelligenc.Base.Result.{ok}
use ads_b_flight_intelligenc.Sidecar.Store.{
  Segment, EventStore, StoreReaders, total_size, is_current, unexpired_segments, shrink,
  enforce_bounds, open_segment, write, append_encoded, append, size_of, rotated, written,
}

-- The files fit, or no file but the current one is left.
abbrev pub Fits : ℕ → ℕ → List Segment → Type 0
Fits current max_bytes gs = total_size gs ≤ max_bytes ⊎ All (λ g. is_current current g ≡ true) gs

-- `kept` is the size of the segments that stand before.
shrink-fits :
    (current max_bytes kept total : ℕ) (gs : List Segment)
    → total ≡ kept + total_size gs
    → kept + total_size (shrink current max_bytes total gs) ≤ max_bytes
      ⊎ All (λ g. is_current current g ≡ true) (shrink current max_bytes total gs)
unfolding shrink
shrink-fits current max_bytes kept total [] e = inr tt
shrink-fits current max_bytes kept total (g ∷ gs) e = elim (Bool-cases (leb total max_bytes)) [
  | inl h ↦ rw (h, shrink) (inl (ground arith))
  | inr h ↦ elim (Bool-cases (is_current current g)) [
    | inl k ↦
        rw (h, k, shrink)
          (elim (shrink-fits current max_bytes (kept + g.size) total gs (omega arith)) [
            | inl a ↦ inl (omega arith)
            | inr b ↦ inr (k, b)
          ])
    | inr k ↦
        rw (h, k, shrink) (shrink-fits current max_bytes kept (total - g.size) gs (omega arith))
  ]
]

-- What is left of the segments had been among them.
shrink-All :
    (P : Segment → Type 0) (current max_bytes total : ℕ) (gs : List Segment)
    → All P gs
    → All P (shrink current max_bytes total gs)
unfolding shrink
shrink-All P current max_bytes total [] h = h
shrink-All P current max_bytes total (g ∷ gs) h = elim (Bool-cases (leb total max_bytes)) [
  | inl a ↦ rw (a, shrink) h
  | inr a ↦ elim (Bool-cases (is_current current g)) [
    | inl k ↦ rw (a, k, shrink) (h.0, shrink-All P current max_bytes total gs h.1)
    | inr k ↦ rw (a, k, shrink) (shrink-All P current max_bytes (total - g.size) gs h.1)
  ]
]

-- No segment passes its size, and the next number is that of no file.
pub record IsStored (s : EventStore) : Type 0 where
  pub small : All (λ g. g.size ≤ s.segment_bytes) s.segments
  pub numbered : All (λ g. g.number < s.sequence) s.segments

enforce_bounds-IsStored : (now : ℕ) (s : EventStore) → IsStored s → IsStored (enforce_bounds now s)
unfolding enforce_bounds unexpired_segments
enforce_bounds-IsStored now s v =
    let keeps : Segment → Bool =
      λ g. is_current s.current g || not (ltb_ℤ (pos g.modified) (sub_ℕ now s.retention)) in
    let kept = filter keeps s.segments in
    record {
      small =
          shrink-All (λ g. g.size ≤ s.segment_bytes) s.current s.max_bytes (total_size kept) kept
            (All-filter (λ g. g.size ≤ s.segment_bytes) keeps s.segments v.small);
      numbered =
          shrink-All (λ g. g.number < s.sequence) s.current s.max_bytes (total_size kept) kept
            (All-filter (λ g. g.number < s.sequence) keeps s.segments v.numbered);
    }

write-small :
    (current now size bound : ℕ) (gs : List Segment)
    → size_of current gs + size ≤ bound
    → All (λ g. g.size ≤ bound) gs
    → All (λ g. g.size ≤ bound) (write current now size gs)
unfolding write size_of
write-small current now size bound [] fits h = tt
write-small current now size bound (g ∷ gs) fits h = elim (Bool-cases (is_current current g)) [
  | inl k ↦ rw (k, write) (ground arith, h.1)
  | inr k ↦ rw (k, write) (h.0, write-small current now size bound gs (ground arith) h.1)
]

write-numbered :
    (current now size bound : ℕ) (gs : List Segment)
    → All (λ g. g.number < bound) gs
    → All (λ g. g.number < bound) (write current now size gs)
unfolding write
write-numbered current now size bound [] h = tt
write-numbered current now size bound (g ∷ gs) h = elim (Bool-cases (is_current current g)) [
  | inl k ↦ rw (k, write) h
  | inr k ↦ rw (k, write) (h.0, write-numbered current now size bound gs h.1)
]

size_of-snoc :
    (number now : ℕ) (gs : List Segment)
    → All (λ g. g.number < number) gs
    → size_of number (gs ++ record { number = number; size = 0; modified = now } ∷ []) ≡ 0
unfolding size_of
size_of-snoc number now [] h = ground arith
size_of-snoc number now (g ∷ gs) h = elim (Bool-cases (g.number == number)) [
  | inl k ↦ let low = h.0 in absurd (ground arith)
  | inr k ↦ rw (k, size_of) (size_of-snoc number now gs h.1)
]

later :
    (bound : ℕ) (gs : List Segment)
    → All (λ g. g.number < bound) gs
    → All (λ g. g.number < suc bound) gs
later bound [] h = tt
later bound (g ∷ gs) h = (let low = h.0 in omega arith, later bound gs h.1)

open_segment-IsStored : (now : ℕ) (s : EventStore) → IsStored s → IsStored (open_segment now s)
unfolding open_segment
open_segment-IsStored now s v = record {
  small =
      All-append (λ g. g.size ≤ s.segment_bytes) s.segments
        (record { number = s.sequence; size = 0; modified = now } ∷ []) v.small (omega arith, tt);
  numbered =
      All-append (λ g. g.number < suc s.sequence) s.segments
        (record { number = s.sequence; size = 0; modified = now } ∷ [])
        (later s.sequence s.segments v.numbered) (omega arith, tt);
}

written-IsStored :
    (now size : ℕ) (s : EventStore)
    → size_of s.current s.segments + size ≤ s.segment_bytes
    → IsStored s
    → IsStored (written now size s)
written-IsStored now size s fits v = record {
  small = write-small s.current now size s.segment_bytes s.segments fits v.small;
  numbered = write-numbered s.current now size s.sequence s.segments v.numbered;
}

opened-fits :
    (now size : ℕ) (s : EventStore)
    → size ≤ s.segment_bytes
    → IsStored s
    → size_of (open_segment now s).current (open_segment now s).segments + size
      ≤ (open_segment now s).segment_bytes
unfolding open_segment
opened-fits now size s small v =
    let empty = size_of-snoc s.sequence now s.segments v.numbered in omega arith

rotated-IsStored :
    (now size : ℕ) (s : EventStore)
    → size ≤ s.segment_bytes
    → IsStored s
    → IsStored (
        written now size
          (rotated (ltb s.segment_bytes (size_of s.current s.segments + size)) now s))
rotated-IsStored now size s small v =
    elim (Bool-cases (ltb s.segment_bytes (size_of s.current s.segments + size))) [
      | inr h ↦ rw h (written-IsStored now size s (ground arith) v)
      | inl h ↦ rw h (
          written-IsStored now size (open_segment now s) (opened-fits now size s small v)
            (open_segment-IsStored now s v))
    ]

-- After the bounds are enforced the files fit.
enforce_bounds-Fits :
    (now : ℕ) (s : EventStore) → Fits s.current s.max_bytes (enforce_bounds now s).segments
unfolding enforce_bounds
enforce_bounds-Fits now s =
    let kept = unexpired_segments s.current s.retention now s.segments in
    elim (shrink-fits s.current s.max_bytes 0 (total_size kept) kept (omega arith)) [
      | inl a ↦ inl (omega arith)
      | inr b ↦ inr b
    ]

-- Appending a record, where it does not raise, keeps every segment within its size and the next number
-- above those of all files. After it the files take at most `max_bytes`, or only the current one is
-- left.
pub append-IsStored :
    (r : StoreReaders) (now : ℕ) (fields : Fields) (s s' : EventStore)
    → IsStored s
    → append r now fields s ≡ ok s'
    → IsStored s' × Fits s'.current s'.max_bytes s'.segments
unfolding append append_encoded
append-IsStored r now fields s s' v h = elim (Option-cases (r.encoded_size fields)) [
  | inl k ↦ absurd (ground arith)
  | inr (n, k) ↦ elim (Bool-cases (ltb s.segment_bytes (suc n))) [
    | inl large ↦ absurd (ground arith)
    | inr small ↦
        let s1 =
          written now (suc n)
            (rotated (ltb s.segment_bytes (size_of s.current s.segments + suc n)) now s) in
        let whole : enforce_bounds now s1 ≡ s' = ground arith in
        rw (← whole) (
          enforce_bounds-IsStored now s1 (rotated-IsStored now (suc n) s (ground arith) v),
          enforce_bounds-Fits now s1,
        )
  ]
]

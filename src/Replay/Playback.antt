-- ===== src/Replay/Playback.antt =====
-- What the cursor and the controller of services/replay share: the speeds, and the search by offset.
use ads_b_flight_intelligenc.Base.{
  ℕ, suc, ◌≤◌, ◌≡◌, refl, Bool, true, false, not, ◌||◌, Option, none, some, List, [], ◌∷◌, map,
  arith, drop, filter, length, Bool-cases, if◌then◌else◌, inl, inr,
}
use ads_b_flight_intelligenc.Float.{Float}
use ads_b_flight_intelligenc.Replay.Recording.{RecordingEvent}
use ads_b_flight_intelligenc.Replay.Recording.Valid.{AscendingFrom}

-- `speed in SUPPORTED_SPEEDS`
abbrev pub is_supported : (f : Float) → f.Number → Bool
is_supported f speed =
    f.eq speed (f.literal 5 1)
    || (f.eq speed (f.literal 10 1)
        || (f.eq speed (f.literal 20 1) || f.eq speed (f.literal 100 1)))

-- `[event.offset_ms for event in recording.events]`
abbrev pub offsets_of : List RecordingEvent → List ℕ
offsets_of = map (λ e. e.offset_ms)

-- `bisect_left(offsets, x)` on offsets that never fall, of the test `offset < x`: how many offsets
-- pass before the first that does not.
unfoldable pub bisect_left : (ℕ → Bool) → List ℕ → ℕ
bisect_left below [] = 0
bisect_left below (x ∷ xs) = let rest = suc (bisect_left below xs) in if below x then rest else 0

pub bisect_left-le-length : (below : ℕ → Bool) (xs : List ℕ) → bisect_left below xs ≤ length xs
unfolding bisect_left
bisect_left-le-length below [] = omega arith
bisect_left-le-length below (x ∷ xs) = ground (arith, bisect_left-le-length below xs)

-- A test that holds below every number at which it holds.
abbrev pub DownClosed : (ℕ → Bool) → Type 0
DownClosed below = (a b : ℕ) → a ≤ b → below b ≡ true → below a ≡ true

AscendingFrom-tail :
    (previous : Option ℕ) (e : RecordingEvent) (es : List RecordingEvent)
    → AscendingFrom previous (e ∷ es)
    → AscendingFrom (some e.offset_ms) es
AscendingFrom-tail none e es h = h
AscendingFrom-tail (some p) e es h = h.1

module _ (below : ℕ → Bool) (closed : DownClosed below) where
  filter-above :
      (p : ℕ) (es : List RecordingEvent)
      → below p ≡ false
      → AscendingFrom (some p) es
      → filter (λ e. not (below e.offset_ms)) es ≡ es
  filter-above p [] h k = refl
  filter-above p (e ∷ es) h k = elim (Bool-cases (below e.offset_ms)) [
    | inl low ↦ absurd (cc (closed p e.offset_ms k.0 low))
    | inr high ↦ rw (high, filter-above e.offset_ms es high k.1) refl
  ]

  -- What stands from the position found on is what does not pass the test.
  pub drop-bisect_left :
      (previous : Option ℕ) (es : List RecordingEvent)
      → AscendingFrom previous es
      → drop (bisect_left below (offsets_of es)) es ≡ filter (λ e. not (below e.offset_ms)) es
  unfolding bisect_left
  drop-bisect_left previous [] h = refl
  drop-bisect_left previous (e ∷ es) h =
      let later = AscendingFrom-tail previous e es h in
      elim (Bool-cases (below e.offset_ms)) [
        | inl low ↦ rw (low, bisect_left) (drop-bisect_left (some e.offset_ms) es later)
        | inr high ↦ rw (high, bisect_left) (rw (filter-above e.offset_ms es high later) refl)
      ]

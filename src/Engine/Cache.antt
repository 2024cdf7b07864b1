-- ===== src/Engine/Cache.antt =====
-- `_purge_inactive` and `_evict_if_needed` of backend/integrity_core/engine.py. `none` stands for
-- the exception that Python raises: an IndexError for a track without an observation, or a
-- ValueError for the least of no tracks, or an OverflowError for a
-- cutoff that no `datetime` holds.
pub mod Purge
pub mod Eviction
use ads_b_flight_intelligenc.Base.{
  ℕ, zero, suc, Bool, true, false, ◌&&◌, ◌||◌, Option, none, some, List, [], ◌∷◌, String, str_lt,
  ltb, leb, ◌==◌, length, get_last?, sort_by, is_some, if◌then◌else◌,
}
use ads_b_flight_intelligenc.Base.Int.{ℤ, pos, ◌-ℤ◌, ltb_ℤ}
use ads_b_flight_intelligenc.Base.Moment.{is_moment}
use ads_b_flight_intelligenc.Base.Dict.{Dict, lookup, erase}
use ads_b_flight_intelligenc.Engine.Models.{IntegritySnapshot}
use ads_b_flight_intelligenc.Engine.Track.{Track}

-- The mutable fields of `IntegrityEngine`.
pub record EngineState (N : Type 0) : Type 0 where
  pub tracks : Dict (Track N)
  pub snapshots : Dict (IntegritySnapshot N)

infixl 5 ◌>>=◌
abbrev pub ◌>>=◌ {ℓ κ} : {A : Type ℓ} {B : Type κ} → Option A → (A → Option B) → Option B
none >>= f = none
some a >>= f = f a

-- `del self._tracks[id]`, `self._snapshots.pop(id, None)`
unfoldable pub forget : {N : Type 0} → String → EngineState N → EngineState N
forget id s = record s { tracks = erase id s.tracks; snapshots = erase id s.snapshots }

unfoldable pub forget_all : {N : Type 0} → List String → EngineState N → EngineState N
unfolding forget
forget_all [] s = s
forget_all (id ∷ ids) s = forget_all ids (forget id s)

-- `(time, id) < (time', id')`
abbrev pub seen_before : ℕ × String → ℕ × String → Bool
seen_before a b = ltb a.0 b.0 || (a.0 == b.0 && str_lt a.1 b.1)

-- the result of arithmetic on a `datetime`
abbrev pub moment : ℤ → Option ℤ
moment t = if is_moment t then some t else none

module _ {N : Type 0} where
  -- `track.observations[-1].observed_at`
  abbrev pub last_seen : Track N → Option ℕ
  last_seen t = elim (get_last? t.observations) [ none ↦ none | some o ↦ some o.observed_at ]

  unfoldable pub stale_ids : ℤ → Dict (Track N) → Option (List String)
  stale_ids cutoff [] = some []
  stale_ids cutoff ((id, t) ∷ tracks) = do
    time ← last_seen t
    rest ← stale_ids cutoff tracks
    some (if ltb_ℤ (pos time) cutoff then id ∷ rest else rest)

  unfoldable pub purge_inactive : ℤ → ℕ → EngineState N → Option (EngineState N)
  unfolding stale_ids forget_all
  purge_inactive inactive now s = do
    cutoff ← moment (pos now -ℤ inactive)
    stale ← stale_ids cutoff s.tracks
    some (forget_all (sort_by str_lt stale) s)

  unfoldable pub oldest_from : ℕ × String → Dict (Track N) → Option (ℕ × String)
  oldest_from best [] = some best
  oldest_from best ((id, t) ∷ tracks) = do
    time ← last_seen t
    oldest_from (if seen_before (time, id) best then (time, id) else best) tracks

  -- `min(self._tracks, key=…)`
  unfoldable pub oldest : Dict (Track N) → Option (ℕ × String)
  unfolding oldest_from
  oldest [] = none
  oldest ((id, t) ∷ tracks) = do time ← last_seen t; oldest_from (time, id) tracks

  -- the `while` loop, on fuel
  unfoldable pub evict : ℕ → ℕ → EngineState N → Option (EngineState N)
  unfolding oldest forget
  evict zero maximum s = none
  evict (suc fuel) maximum s = elim (leb maximum (length s.tracks)) [
    | false ↦ some s
    | true ↦ do least ← oldest s.tracks; evict fuel maximum (forget least.1 s)
  ]

  unfoldable pub evict_if_needed : ℕ → String → EngineState N → Option (EngineState N)
  unfolding evict lookup
  evict_if_needed maximum incoming s =
      if is_some (lookup incoming s.tracks) then some s else evict (suc (length s.tracks)) maximum s

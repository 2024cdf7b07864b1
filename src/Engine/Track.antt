-- ===== src/Engine/Track.antt =====
-- `_Track` of backend/integrity_core/engine.py: a bounded queue of observations, the active
-- evidence by key, and the identifiers of the messages seen, as a set and in order.
pub mod Memory
use ads_b_flight_intelligenc.Base.{
  ℕ, ◌-◌, Bool, false, ◌&&◌, ◌++◌, Option, none, some, List, [], ◌∷◌, String, str_eq, ltb, ◌==◌,
  length, drop, get_last?, if◌then◌else◌,
}
use ads_b_flight_intelligenc.Base.Dict.{Dict}
use ads_b_flight_intelligenc.Base.Sets.{contains, add, discard}
use ads_b_flight_intelligenc.Observation.{TrackObservation}
use ads_b_flight_intelligenc.Engine.Models.{IntegrityEvidence}

pub record Track (N : Type 0) : Type 0 where
  pub observations : List (TrackObservation N)
  pub active : Dict (IntegrityEvidence N)
  pub seen_message_ids : List String
  pub seen_message_order : List String

-- `deque.append` on a deque with `maxlen`
unfoldable pub append_bounded {ℓ} : {A : Type ℓ} → ℕ → A → List A → List A
append_bounded maxlen x xs = let ys = xs ++ x ∷ [] in drop (length ys - maxlen) ys

-- the value that `setdefault` stores for a new track
unfoldable pub fresh_track : {N : Type 0} → Track N
fresh_track = record {
  observations = [];
  active = [];
  seen_message_ids = [];
  seen_message_order = [];
}

-- `bool(raw_id and raw_id in track.seen_message_ids)`
unfoldable pub is_duplicate : {N : Type 0} → Option String → Track N → Bool
unfolding contains
is_duplicate none t = false
is_duplicate (some raw_id) t =
    if str_eq raw_id "" then false else contains str_eq raw_id t.seen_message_ids

-- the oldest identifier leaves the set when the queue is about to drop it
unfoldable pub forget_oldest : ℕ → List String → List String → List String
unfolding discard
forget_oldest maxlen [] ids = ids
forget_oldest maxlen (oldest ∷ order) ids =
    if ltb 0 maxlen && length (oldest ∷ order) == maxlen then discard str_eq oldest ids else ids

-- `seen_message_order.append`, `seen_message_ids.add`
unfoldable pub remember : {N : Type 0} → ℕ → String → Track N → Track N
unfolding append_bounded forget_oldest add
remember maxlen raw_id t = record t {
  seen_message_order = append_bounded maxlen raw_id t.seen_message_order;
  seen_message_ids =
      add str_eq raw_id (forget_oldest maxlen t.seen_message_order t.seen_message_ids);
}

-- `if raw_id and not is_duplicate: …`
unfoldable pub note_message : {N : Type 0} → ℕ → Option String → Track N → Track N
unfolding is_duplicate remember
note_message maxlen none t = t
note_message maxlen (some raw_id) t =
    if str_eq raw_id ""
    then t
    else if is_duplicate (some raw_id) t
    then t
    else remember maxlen raw_id t

-- ===== src/Engine/Track/Memory.antt =====
-- The memory of messages: `seen_message_ids` is the set of the last distinct messages, which
-- `seen_message_order` lists, and it is bounded.
use ads_b_flight_intelligenc.Base.{
  ℕ, suc, ◌-◌, ◌≤◌, ◌<◌, ◌≡◌, refl, ◌≢◌, sym, ◌∙◌, inl, inr, true, false, ◌++◌, Option, none, some,
  List, [], ◌∷◌, String, str_eq, eq_iff, ◌==◌, arith, length, length-append, length-drop,
  Bool-cases,
}
use ads_b_flight_intelligenc.Base.Sets.{
  contains, add, Distinct, contains-add, contains-snoc, contains-discard, Distinct-snoc,
}
use ads_b_flight_intelligenc.Engine.Track.{
  Track, append_bounded, is_duplicate, forget_oldest, remember, note_message,
}

pub append_bounded-room {ℓ} :
    {A : Type ℓ} (m : ℕ) (x : A) (xs : List A)
    → length xs < m
    → append_bounded m x xs ≡ xs ++ x ∷ []
unfolding append_bounded
append_bounded-room m x xs h =
    let e : length (xs ++ x ∷ []) - m ≡ 0 = omega (arith, length-append xs (x ∷ [])) in rw e refl

pub append_bounded-full {ℓ} :
    {A : Type ℓ} (m : ℕ) (x o : A) (xs : List A)
    → length (o ∷ xs) ≡ m
    → append_bounded m x (o ∷ xs) ≡ xs ++ x ∷ []
unfolding append_bounded
append_bounded-full m x o xs h =
    let e : suc (length (xs ++ x ∷ [])) - m ≡ 1 = omega (arith, length-append xs (x ∷ [])) in
    rw e refl

pub length-append_bounded {ℓ} :
    {A : Type ℓ} (m : ℕ) (x : A) (xs : List A) → length (append_bounded m x xs) ≤ m
unfolding append_bounded
length-append_bounded m x xs = omega (arith, length-drop (length (xs ++ x ∷ []) - m) (xs ++ x ∷ []))

-- The set and the queue hold the same messages, each once, and at most `maxlen` of them.
pub record IsMemory {N : Type 0} (maxlen : ℕ) (t : Track N) : Type 0 where
  pub bounded : length t.seen_message_order ≤ maxlen
  pub distinct : Distinct str_eq t.seen_message_order
  pub same :
      (id : String)
      → contains str_eq id t.seen_message_ids ≡ contains str_eq id t.seen_message_order

module _ (maxlen : ℕ) (positive : 0 < maxlen) (raw_id : String) where
  -- The queue after a new message.
  pub Distinct-append_bounded :
      (order : List String)
      → length order ≤ maxlen
      → Distinct str_eq order
      → contains str_eq raw_id order ≡ false
      → Distinct str_eq (append_bounded maxlen raw_id order)
  unfolding contains
  Distinct-append_bounded [] fits d new =
      rw (append_bounded-room maxlen raw_id [] positive) (refl, tt)
  Distinct-append_bounded (o ∷ order) fits d new =
      elim (Bool-cases (length (o ∷ order) == maxlen)) [
        | inl full ↦
            rw (append_bounded-full maxlen raw_id o order (ground arith))
              (Distinct-snoc str_eq eq_iff raw_id order d.1 (ground arith))
        | inr room ↦
            rw (append_bounded-room maxlen raw_id (o ∷ order) (ground arith))
              (Distinct-snoc str_eq eq_iff raw_id (o ∷ order) d new)
      ]

  pub contains-forget_oldest :
      (id : String) (order ids : List String)
      → length order ≤ maxlen
      → Distinct str_eq order
      → ((j : String) → contains str_eq j ids ≡ contains str_eq j order)
      → contains str_eq id (add str_eq raw_id (forget_oldest maxlen order ids))
        ≡ contains str_eq id (append_bounded maxlen raw_id order)
  unfolding forget_oldest
  contains-forget_oldest id [] ids fits d same =
      rw
        (
          append_bounded-room maxlen raw_id [] positive,
          contains-add str_eq eq_iff id raw_id ids,
          contains-snoc str_eq eq_iff id raw_id [],
        )
        (ground (arith, same id))
  contains-forget_oldest id (o ∷ order) ids fits d same =
      elim (Bool-cases (length (o ∷ order) == maxlen)) [
        | inl full ↦
            rw
              (
                append_bounded-full maxlen raw_id o order (ground arith),
                contains-add str_eq eq_iff,
                contains-snoc str_eq eq_iff,
              )
              (unfold contains in
                ground (arith, same id, contains-discard str_eq eq_iff id o ids, eq_iff o id))
        | inr room ↦
            rw
              (
                append_bounded-room maxlen raw_id (o ∷ order) (ground arith),
                contains-add str_eq eq_iff,
                contains-snoc str_eq eq_iff,
              )
              (ground (arith, same id))
      ]

  remember-IsMemory :
      {N : Type 0} (t : Track N)
      → contains str_eq raw_id t.seen_message_ids ≡ false
      → IsMemory maxlen t
      → IsMemory maxlen (remember maxlen raw_id t)
  unfolding remember
  remember-IsMemory t new v = record {
    bounded = length-append_bounded maxlen raw_id t.seen_message_order;
    distinct =
        Distinct-append_bounded t.seen_message_order v.bounded v.distinct
          (sym (v.same raw_id) ∙ new);
    same = λ id.
        contains-forget_oldest id t.seen_message_order t.seen_message_ids v.bounded v.distinct
          v.same;
  }

contains-remember :
    {N : Type 0} (maxlen : ℕ) (raw_id : String) (t : Track N)
    → contains str_eq raw_id (remember maxlen raw_id t).seen_message_ids ≡ true
unfolding remember
contains-remember maxlen raw_id t =
    rw (contains-add str_eq eq_iff) (ground (arith, eq_iff raw_id raw_id))

-- Noting a message, new or not, keeps the memory: a set that is in step with its bounded queue.
pub note_message-IsMemory :
    {N : Type 0} (maxlen : ℕ) (raw_id : Option String) (t : Track N)
    → 0 < maxlen
    → IsMemory maxlen t
    → IsMemory maxlen (note_message maxlen raw_id t)
unfolding note_message
note_message-IsMemory maxlen none t positive v = v
note_message-IsMemory maxlen (some raw_id) t positive v = elim (Bool-cases (str_eq raw_id "")) [
  | inl blank ↦ rw blank v
  | inr text ↦ elim (Bool-cases (contains str_eq raw_id t.seen_message_ids)) [
    | inl old ↦ rw (text, old) v
    | inr new ↦ rw (text, new) (remember-IsMemory maxlen positive raw_id t new v)
  ]
]

-- A message whose identifier is not empty counts as a duplicate right after it was noted.
pub is_duplicate-note_message :
    {N : Type 0} (maxlen : ℕ) (raw_id : String) (t : Track N)
    → raw_id ≢ ""
    → is_duplicate (some raw_id) (note_message maxlen (some raw_id) t) ≡ true
unfolding note_message is_duplicate
is_duplicate-note_message maxlen raw_id t text =
    ground (arith, eq_iff raw_id "", contains-remember maxlen raw_id t)

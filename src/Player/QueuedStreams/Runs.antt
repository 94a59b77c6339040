-- ===== src/Player/QueuedStreams/Runs.antt =====
-- Sequences of operations on the queued streams (src/player_data.cc).
use drcpd.Common.{
  ℕ, ◌≡◌, inl, inr, refl, Bool, ◌||◌, is_empty, if◌then◌else◌, Option, none, some, List, [], ◌∷◌,
  Bool-cases,
}
use drcpd.Player.QueuedStreams.{
  QueuedStream, QueuedStreams, same_id, front, construct, append, remove_front, remove_anywhere,
  shift_unless, shift, shift_if_not_flying, clear, clear_if,
}
use drcpd.Player.QueuedStreams.FreeId.{RunsOn}
use drcpd.Player.QueuedStreams.Laws.{
  Inv, construct-Inv, shift_unless_right, shift_right, flying-Inv, remove_anywhere_right, clear-Inv,
}
use drcpd.Player.QueuedStreams.Append.{clear_if-Inv, append_right}
use drcpd.Player.QueuedStreams.Drop.{remove_front-Dropped}

-- What the player's data and its control do to the queued streams. The front is removed only while
-- the queue is not empty, as `player_dropped_from_queue` makes sure.
pub data Op (P : Type 0) : Type 0 where
  appends : ℕ → P → Op P
  drops : List ℕ → Op P
  rejects : ℕ → Op P
  shifts : Option ℕ → Op P
  shifts_unless : Option ℕ → Op P
  shifts_if_not_flying clears : Op P
  clears_if : (QueuedStream P → Bool) → Op P

module _ {P : Type 0} (next_id : ℕ → ℕ) where
  -- The state after an exception is the one before: all of them are thrown before any change.
  abbrev after : {A : Type 0} → QueuedStreams P → Option (QueuedStreams P × A) → QueuedStreams P
  after q none = q
  after q (some r) = r.0

  -- A search for an unused ID that does not end has no state after it.
  pub apply : QueuedStreams P → Op P → Option (QueuedStreams P)
  apply q (appends list_id payload) = elim (append next_id q list_id payload) [
    | none ↦ none
    | some (q', id) ↦ some q'
  ]
  apply q (drops ids) =
      some (if is_empty q.queue_ then q else elim (remove_front q ids) [ none ↦ q | some r ↦ r.0 ])
  apply q (rejects id) = some (remove_anywhere q id).0
  apply q (shifts id) = some (after q (shift q id))
  apply q (shifts_unless id) = some (after q (shift_unless q id))
  apply q shifts_if_not_flying = some (shift_if_not_flying q).0
  apply q clears = some (clear q).0
  apply q (clears_if pred) = some (clear_if q pred).0

  pub run : QueuedStreams P → List (Op P) → Option (QueuedStreams P)
  run q [] = some q
  run q (op ∷ ops) = elim (apply q op) [ none ↦ none | some q' ↦ run q' ops ]

  module _ (ids_run_on : RunsOn next_id 21) where
    apply-Inv :
        (q : QueuedStreams P) (op : Op P)
        → Inv q
        → (q' : QueuedStreams P) × (apply q op ≡ some q') × Inv q'
    unfolding apply
    apply-Inv q (appends list_id payload) v =
        let (r, e, v', full, room) = append_right next_id q list_id payload ids_run_on v in
        (r.0, rw (e, apply) refl, v')
    apply-Inv q (drops ids) v = elim (Bool-cases (is_empty q.queue_)) [
      | inl t ↦ (q, rw t refl, v)
      | inr t ↦ elim (remove_front-Dropped q ids v) [
        | inl (e, head, flying) ↦ (q, rw (t, e) refl, v)
        | inr (r, e, v') ↦ (r.0, rw (t, e) refl, v')
      ]
    ]
    apply-Inv q (rejects id) v = ((remove_anywhere q id).0, refl, (remove_anywhere_right q id v).0)
    apply-Inv q (shifts id) v =
        let (thrown, shifted) = shift_right q id v in
        elim (Bool-cases (same_id (front q.queue_) id || same_id q.stream_in_flight_ id)) [
          | inl e ↦ let (r, f, v') = shifted e in (r.0, rw f refl, v')
          | inr e ↦ (q, rw (thrown e) refl, v)
        ]
    apply-Inv q (shifts_unless id) v =
        let (r, e, v', rest) = shift_unless_right q id v in (r.0, rw e refl, v')
    apply-Inv q shifts_if_not_flying v =
        ((shift_if_not_flying q).0, refl, flying-Inv q q.stream_in_flight_ v)
    apply-Inv q clears v = ((clear q).0, refl, clear-Inv q)
    apply-Inv q (clears_if pred) v = ((clear_if q pred).0, refl, clear_if-Inv q pred v)

    run-Inv :
        (q : QueuedStreams P) (ops : List (Op P))
        → Inv q
        → (q' : QueuedStreams P) × (run q ops ≡ some q') × Inv q'
    unfolding run
    run-Inv q [] v = (q, refl, v)
    run-Inv q (op ∷ ops) v =
        let (q1, e, v1) = apply-Inv q op v in
        let (q2, f, v2) = run-Inv q1 ops v1 in (q2, rw (e, run) f, v2)

    -- If no ID comes again within 21 steps, and the front is removed only while the queue is not
    -- empty, then any operations on new queued streams run to their end, and afterwards the IDs in the queue and in flight are those of the streams, each
    -- of them there once, and at most 20 of them are in the queue.
    pub run-construct-Inv :
        (id : ℕ) (ops : List (Op P))
        → (q : QueuedStreams P) × (run (construct id) ops ≡ some q) × Inv q
    run-construct-Inv id ops = run-Inv (construct id) ops (construct-Inv id)

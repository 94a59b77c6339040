-- ===== src/Player/QueuedStreams/Laws.antt =====
-- What holds of the queued streams (src/player_data.cc) between two operations.
use drcpd.Common.{
  ℕ, ◌+◌, ◌-◌, ◌≤◌, ◌<◌, ◌≡◌, inl, inr, refl, sym, Bool, true, false, not, ◌&&◌, ◌||◌, Option, none,
  some, List, ◌∷◌, arith, ◌==◌, if◌then◌else◌, if_elim, ◌↔◌, length, is_empty, Bool-cases,
}
use drcpd.Player.QueuedStreams.{
  QueuedStream, QueuedStreams, about_to_die, is_in, same_id, front, tail, erase_first, ids_of,
  construct, find_stream, without, erase_stream, remove_anywhere, take_next, land, shift_unless,
  shift, shift_if_not_flying, clear,
}
use drcpd.Player.QueuedStreams.Counts.{
  count, in_flight, is_in-count, count-take_next, length-tail, count-erase_first,
  length-erase_first, erase_first_absent, find_stream-count, count-without,
}

module _ {P : Type 0} where
  -- Each stream is in the queue or in flight, once; each ID there is that of a stream; and the
  -- queue is not too long.
  pub record Inv (q : QueuedStreams P) : Type 0 where
    pub known :
        (id : ℕ)
        → in_flight id q.stream_in_flight_ + count id q.queue_ ≡ count id (ids_of q.streams_)
    pub once : (id : ℕ) → count id (ids_of q.streams_) ≤ 1
    pub bounded : length q.queue_ ≤ 20

  pub construct-Inv : (id : ℕ) → Inv (construct id)
  unfolding construct ids_of
  construct-Inv id = record { known = λ i. refl; once = λ i. omega arith; bounded = omega arith }

  pub erase-Inv :
      (q : QueuedStreams P) (id : ℕ) (flight : Option ℕ) (queue : List ℕ)
      → Inv q
      → 0 < count id (ids_of q.streams_)
      → ((i : ℕ)
          → in_flight i flight + count i queue
            ≡ in_flight i q.stream_in_flight_ + count i q.queue_ - (if id == i then 1 else 0))
      → length queue ≤ 20
      → (s : QueuedStream P) × (find_stream q.streams_ id ≡ some s)
        × Inv (record q {
          streams_ = without q.streams_ id;
          on_remove_cb_ = s ∷ q.on_remove_cb_;
          stream_in_flight_ = flight;
          queue_ = queue;
        })
  erase-Inv q id flight queue v h k b =
      let (s, found) = find_stream-count q.streams_ id h in
      (
        s,
        found,
        record {
          known = λ i. omega (arith, count-without i q.streams_ id, k i, v.known i);
          once = λ i. omega (arith, count-without i q.streams_ id, v.once i);
          bounded = b;
        },
      )

  -- Shifting the queue never throws: the stream in flight is known.
  land_by :
      (q : QueuedStreams P) (flight : Option ℕ)
      → Inv (record q { stream_in_flight_ = flight })
      → let q1 = record q { stream_in_flight_ = flight } in
        (r : QueuedStreams P × Option (QueuedStream P)) × (land q1 flight ≡ some r)
        × Inv (take_next r.0)
  unfolding land erase_stream take_next
  land_by q none v = (
    (record q { stream_in_flight_ = none }, none),
    refl,
    record {
      known = λ i. omega (arith, count-take_next i q.queue_, v.known i);
      once = v.once;
      bounded = omega (arith, length-tail q.queue_, v.bounded);
    },
  )
  land_by q (some id) v =
      let (s, found, v') =
        erase-Inv (record q { stream_in_flight_ = some id }) id (front q.queue_) (tail q.queue_) v
          (ground (arith, v.known id)) (λ i. omega (arith, count-take_next i q.queue_))
          (omega (arith, length-tail q.queue_, v.bounded)) in
      (
        (
          record q {
            streams_ = without q.streams_ id;
            on_remove_cb_ = s ∷ q.on_remove_cb_;
            stream_in_flight_ = some id;
          },
          some (record s { state_ = about_to_die }),
        ),
        rw (found, land) refl,
        v',
      )

  -- Shifting to the next stream never throws: the stream in flight is known. The invariant is
  -- kept, and nothing changes if the stream asked for is in flight already.
  pub shift_unless_right :
      (q : QueuedStreams P) (id : Option ℕ)
      → Inv q
      → (r : QueuedStreams P × Option (QueuedStream P)) × (shift_unless q id ≡ some r)
        × Inv r.0
        × (((not (same_id id none) && same_id id q.stream_in_flight_) ≡ true) → r ≡ (q, none))
  unfolding shift_unless
  shift_unless_right q id v =
      elim (Bool-cases (not (same_id id none) && same_id id q.stream_in_flight_)) [
        | inl e ↦ ((q, none), rw e refl, v, λ h. refl)
        | inr e ↦
            let (r, landed, v') = land_by q q.stream_in_flight_ v in
            ((take_next r.0, r.1), rw (e, landed) refl, v', λ h. absurd (ground (arith, e)))
      ]

  -- Shifting to an expected stream throws exactly if that is neither the front of the queue nor
  -- in flight, where an empty queue or nothing in flight is for the invalid ID.
  pub shift_right :
      (q : QueuedStreams P) (id : Option ℕ)
      → Inv q
      → let expected = same_id (front q.queue_) id || same_id q.stream_in_flight_ id in
        (expected ≡ false → shift q id ≡ none)
        × (expected ≡ true
            → (r : QueuedStreams P × Option (QueuedStream P)) × (shift q id ≡ some r) × Inv r.0)
  unfolding shift
  shift_right q id v =
      let (r, e, v', same) = shift_unless_right q id v in
      (λ h. ground (arith, h), λ h. (r, ground (arith, h, e), v'))

  pub flying-Inv :
      (q : QueuedStreams P) (flight : Option ℕ)
      → let q' = record q { stream_in_flight_ = flight } in Inv q' → Inv (shift_if_not_flying q').0
  unfolding shift_if_not_flying take_next
  flying-Inv q (some id) v = v
  flying-Inv q none v =
      if_elim (λ (r : QueuedStreams P × Bool). Inv r.0) (is_empty q.queue_) v
        (record {
          known = λ i. omega (arith, count-take_next i q.queue_, v.known i);
          once = v.once;
          bounded = omega (arith, length-tail q.queue_, v.bounded);
        })

  -- A rejected stream of the queue is removed, wherever it stands there.
  pub remove_anywhere_right :
      (q : QueuedStreams P) (id : ℕ)
      → Inv q
      → let (q', s) = remove_anywhere q id in
        Inv q' × (q'.queue_ ≡ erase_first q.queue_ id) × ((s ≡ none) ↔ (is_in q.queue_ id ≡ false))
  unfolding remove_anywhere erase_stream
  remove_anywhere_right q id v = elim (Bool-cases (is_in q.queue_ id)) [
    | inl e ↦
        let there : 0 < count id q.queue_ = ground (arith, is_in-count q.queue_ id) in
        let (s, found, v') =
          erase-Inv q id q.stream_in_flight_ (erase_first q.queue_ id) v (omega (arith, v.known id))
            (λ i. ground (arith, count-erase_first i q.queue_ id))
            (omega (arith, length-erase_first q.queue_ id, v.bounded)) in
        rw (e, found) (v', refl, ground arith)
    | inr e ↦ rw e (v, sym (erase_first_absent q.queue_ id e), ground arith)
  ]

  pub clear-Inv : (q : QueuedStreams P) → Inv (clear q).0
  unfolding clear ids_of
  clear-Inv q = record { known = λ i. refl; once = λ i. omega arith; bounded = omega arith }

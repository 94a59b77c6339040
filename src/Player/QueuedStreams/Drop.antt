-- ===== src/Player/QueuedStreams/Drop.antt =====
-- Dropping from the front of the queued streams (src/player_data.cc).
use drcpd.Common.{
  ℕ, ◌≡◌, ◌⊎◌, inl, inr, refl, true, false, ◌&&◌, Option, none, some, List, [], ◌∷◌, arith,
  is_empty, Bool-cases,
}
use drcpd.Player.QueuedStreams.{
  QueuedStream, QueuedStreams, about_to_die, is_in, remove_id, same_id, front, tail, without,
  erase_stream, choose, is_idle, remove_front,
}
use drcpd.Player.QueuedStreams.Laws.{Inv, erase-Inv}

module _ {P : Type 0} where
  -- What dropping from the front comes to: an exception if neither the front of the queue nor the
  -- stream in flight is in the set, and else a state with the invariant.
  abbrev pub Dropped : QueuedStreams P → List ℕ → Type 0
  Dropped q ids =
      ((remove_front q ids ≡ none)
        × ((x : ℕ) → front q.queue_ ≡ some x → is_in ids x ≡ false)
        × ((x : ℕ) → q.stream_in_flight_ ≡ some x → is_in ids x ≡ false))
      ⊎ ((r : QueuedStreams P × Option (QueuedStream P) × List ℕ) × (remove_front q ids ≡ some r)
          × Inv r.0)

  drop_front :
      (q : QueuedStreams P) (x : ℕ) (queue : List ℕ) (ids : List ℕ)
      → let q' = record q { queue_ = x ∷ queue } in Inv q' → is_in ids x ≡ true → Dropped q' ids
  unfolding remove_front choose is_idle erase_stream tail
  drop_front q x queue ids v e =
      let (s, found, v') =
        erase-Inv (record q { queue_ = x ∷ queue }) x q.stream_in_flight_ queue v
          (ground (arith, v.known x)) (λ i. ground arith) (omega (arith, v.bounded)) in
      inr (
        (
          record q {
            streams_ = without q.streams_ x;
            queue_ = queue;
            on_remove_cb_ = s ∷ q.on_remove_cb_;
          },
          some (record s { state_ = about_to_die }),
          remove_id ids x,
        ),
        rw (e, found) refl,
        v',
      )

  drop_flight :
      (q : QueuedStreams P) (id : ℕ) (ids : List ℕ)
      → let q' = record q { stream_in_flight_ = some id } in
        Inv q' → choose q.queue_ (some id) ids ≡ some (id, false) → Dropped q' ids
  unfolding remove_front is_idle erase_stream same_id
  drop_flight q id ids v e =
      let (s, found, v') =
        erase-Inv (record q { stream_in_flight_ = some id }) id none q.queue_ v
          (ground (arith, v.known id)) (λ i. ground arith) v.bounded in
      let busy : (is_empty q.queue_ && false) ≡ false = ground arith in
      inr (
        (
          record q {
            streams_ = without q.streams_ id;
            stream_in_flight_ = none;
            on_remove_cb_ = s ∷ q.on_remove_cb_;
          },
          some (record s { state_ = about_to_die }),
          remove_id ids id,
        ),
        rw (busy, e, found) refl,
        v',
      )

  remove_front_by :
      (q : QueuedStreams P) (queue : List ℕ) (flight : Option ℕ) (ids : List ℕ)
      → let q' = record q { queue_ = queue; stream_in_flight_ = flight } in Inv q' → Dropped q' ids
  unfolding remove_front choose is_idle same_id front
  remove_front_by q [] none ids v =
      inr ((record q { queue_ = []; stream_in_flight_ = none }, none, ids), refl, v)
  remove_front_by q [] (some id) ids v = elim (Bool-cases (is_in ids id)) [
    | inl e ↦ drop_flight (record q { queue_ = [] }) id ids v (rw e refl)
    | inr e ↦ inl (rw e refl, λ y h. absurd (ground arith), λ y h. ground arith)
  ]
  remove_front_by q (x ∷ queue) none ids v = elim (Bool-cases (is_in ids x)) [
    | inl e ↦ drop_front (record q { stream_in_flight_ = none }) x queue ids v e
    | inr e ↦ inl (rw e refl, λ y h. ground arith, λ y h. absurd (ground arith))
  ]
  remove_front_by q (x ∷ queue) (some id) ids v = elim (Bool-cases (is_in ids x)) [
    | inl e ↦ drop_front (record q { stream_in_flight_ = some id }) x queue ids v e
    | inr e ↦ elim (Bool-cases (is_in ids id)) [
      | inl f ↦ drop_flight (record q { queue_ = x ∷ queue }) id ids v (rw (e, f) refl)
      | inr f ↦ inl (rw (e, f) refl, λ y h. ground arith, λ y h. ground arith)
    ]
  ]

  -- Dropping from the front of the queue throws only if neither the front nor the stream in
  -- flight is in the set: all that it removes is known. Otherwise the invariant is kept.
  pub remove_front-Dropped : (q : QueuedStreams P) (ids : List ℕ) → Inv q → Dropped q ids
  remove_front-Dropped q ids v = remove_front_by q q.queue_ q.stream_in_flight_ ids v

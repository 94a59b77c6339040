-- ===== src/Player/QueuedStreams/Append.antt =====
-- Clearing a part of the queued streams and appending to them (src/player_data.cc).
use drcpd.Common.{
  ℕ, suc, ◌-◌, ◌≤◌, ◌<◌, ◌≡◌, inl, inr, refl, Bool, true, false, not, Option, none, some, List, [],
  ◌∷◌, ◌++◌, arith, leb, ◌==◌, length, length-append, is_empty, Bool-cases,
}
use drcpd.Player.QueuedStreams.{
  floating, QueuedStream, QueuedStreams, is_in, ids_of, is_full, append, select, keep_known,
  flight_known, clear_if,
}
use drcpd.Player.QueuedStreams.Counts.{
  is_in-count, count-append, length-count, length-ids_of, count-keep_known, length-keep_known,
  in_flight-flight_known, count-select, length-select, select_all,
}
use drcpd.Player.QueuedStreams.FreeId.{RunsOn, free_id_unused, free_id_found}
use drcpd.Player.QueuedStreams.Laws.{Inv}

empty_list : {A : Type 0} (xs : List A) → is_empty xs ≡ true → xs ≡ []
empty_list [] h = refl
empty_list (x ∷ xs) h = absurd (ground arith)

module _ {P : Type 0} where
  remaining-Inv :
      (q : QueuedStreams P) (pred : QueuedStream P → Bool) (log : List (QueuedStream P))
      → Inv q
      → let remaining = select pred q.streams_ in
        Inv (record q {
          streams_ = remaining;
          queue_ = keep_known (ids_of remaining) q.queue_;
          stream_in_flight_ = flight_known (ids_of remaining) q.stream_in_flight_;
          on_remove_cb_ = log;
        })
  remaining-Inv q pred log v =
      let known = ids_of (select pred q.streams_) in
      record {
        known = λ i. ground (
          arith,
          count-keep_known known i q.queue_,
          in_flight-flight_known known i q.stream_in_flight_,
          is_in-count known i,
          count-select i pred q.streams_,
          v.known i,
          v.once i,
        );
        once = λ i. omega (arith, count-select i pred q.streams_, v.once i);
        bounded = omega (arith, length-keep_known known q.queue_, v.bounded);
      }

  pub clear_if-Inv :
      (q : QueuedStreams P) (pred : QueuedStream P → Bool) → Inv q → Inv (clear_if q pred).0
  unfolding clear_if ids_of
  clear_if-Inv q pred v =
      let remaining = select (λ s. not (pred s)) q.streams_ in
      elim (Bool-cases (is_empty remaining)) [
        | inl e ↦
            rw (e, empty_list remaining e)
              (record { known = λ i. refl; once = λ i. omega arith; bounded = omega arith })
        | inr e ↦ elim (Bool-cases (length q.streams_ - length remaining == 0)) [
          | inl f ↦
              rw
                (
                  e,
                  f,
                  select_all (λ s. not (pred s)) q.streams_
                      (ground (arith, length-select (λ s. not (pred s)) q.streams_)),
                )
                (record { known = v.known; once = v.once; bounded = v.bounded })
          | inr f ↦
              rw (e, f)
                (remaining-Inv q (λ s. not (pred s)) (select pred q.streams_ ++ q.on_remove_cb_) v)
        ]
      ]

  size_by :
      (q : QueuedStreams P) (flight : Option ℕ)
      → Inv (record q { stream_in_flight_ = flight })
      → length q.streams_ ≤ 21
  size_by q none v = omega (
    arith,
    length-ids_of q.streams_,
    length-count (ids_of q.streams_) q.queue_ (λ i. omega (arith, v.known i)),
    v.bounded,
  )
  size_by q (some id) v = omega (
    arith,
    length-ids_of q.streams_,
    length-count (ids_of q.streams_) (id ∷ q.queue_) (λ i. omega (arith, v.known i)),
    v.bounded,
  )

  appended-Inv :
      (q : QueuedStreams P) (s : QueuedStream P) (next : ℕ)
      → Inv q
      → length q.queue_ < 20
      → is_in (ids_of q.streams_) s.stream_id_ ≡ false
      → Inv (record q {
        streams_ = s ∷ q.streams_;
        queue_ = q.queue_ ++ s.stream_id_ ∷ [];
        next_free_stream_id_ = next;
      })
  unfolding ids_of
  appended-Inv q s next v h e = record {
    known = λ i. omega (arith, count-append i q.queue_ (s.stream_id_ ∷ []), v.known i);
    once = λ i. ground (arith, is_in-count (ids_of q.streams_) s.stream_id_, v.once i);
    bounded = omega (arith, length-append q.queue_ (s.stream_id_ ∷ []), h);
  }

  -- If no ID comes again within 21 steps, appending finds an unused ID for the stream and puts it
  -- at the end of the queue, unless that is full; then nothing changes. The invariant is kept.
  pub append_right :
      (next_id : ℕ → ℕ) (q : QueuedStreams P) (list_id : ℕ) (payload : P)
      → RunsOn next_id 21
      → Inv q
      → (r : QueuedStreams P × Option ℕ) × (append next_id q list_id payload ≡ some r)
        × Inv r.0
        × ((20 ≤ length q.queue_) → r ≡ (q, none))
        × ((length q.queue_ < 20)
            → (id : ℕ) × (r.1 ≡ some id)
              × (is_in (ids_of q.streams_) id ≡ false)
              × (r.0.queue_ ≡ q.queue_ ++ id ∷ []))
  unfolding append is_full
  append_right next_id q list_id payload h v = elim (Bool-cases (leb 20 (length q.queue_))) [
    | inl e ↦ ((q, none), rw e refl, v, λ f. refl, λ f. absurd (ground arith))
    | inr e ↦
        let (id, found) =
          free_id_found next_id 21 (suc (length q.streams_)) (ids_of q.streams_)
            q.next_free_stream_id_ h (omega (arith, size_by q q.stream_in_flight_ v))
            (omega (arith, length-ids_of q.streams_)) in
        let unused =
          free_id_unused next_id (suc (length q.streams_)) (ids_of q.streams_)
            q.next_free_stream_id_ id found in
        let s : QueuedStream P = record {
          stream_id_ = id;
          list_id_ = list_id;
          state_ = floating;
          payload = payload;
        } in
        (
          (
            record q {
              streams_ = s ∷ q.streams_;
              queue_ = q.queue_ ++ id ∷ [];
              next_free_stream_id_ = next_id id;
            },
            some id,
          ),
          rw (e, found) refl,
          appended-Inv q s (next_id id) v (ground arith) unused,
          λ f. absurd (ground arith),
          λ f. (id, refl, unused, refl),
        )
  ]

-- ===== src/Player/Data/Drops.antt =====
-- Dropping streams from the player's queue (src/player_data.cc).
use drcpd.Common.{
  ◌++◌, ◌∙◌, ℕ, zero, suc, ◌-◌, ◌≤◌, ◌<◌, ◌≡◌, ◌⊎◌, inl, inr, refl, ap, sym, subst, Bool, true,
  false, ◌||◌, Option, none, some, List, [], ◌∷◌, arith, ◌==◌, if◌then◌else◌, length, is_empty,
  Option-cases, Bool-cases,
}
use drcpd.Player.QueuedStreams.{
  QueuedStream, QueuedStreams, remove_front, choose, is_idle, is_in, remove_id, ids_of, find_stream,
  erase_stream, clear,
}
use drcpd.Player.QueuedStreams.Counts.{count, count-without}
use drcpd.Player.QueuedStreams.Laws.{Inv, clear-Inv}
use drcpd.Player.QueuedStreams.Drop.{remove_front-Dropped}
use drcpd.Player.NowPlaying.{ours, invalid, foreign, AnyStream}
use drcpd.Player.Data.{
  Data, settle, player_failed, drop_ours, remove_data_for_stream, player_dropped_from_queue,
  ours_of,
}

remove_id_short : (ids : List ℕ) (id : ℕ) → length (remove_id ids id) ≤ length ids
unfolding remove_id
remove_id_short [] id = omega arith
remove_id_short (x ∷ ids) id = let r = remove_id_short ids id in ground arith

length-remove_id :
    (ids : List ℕ) (id : ℕ) → is_in ids id ≡ true → length (remove_id ids id) < length ids
unfolding is_in remove_id
length-remove_id [] id h = absurd (ground arith)
length-remove_id (x ∷ ids) id h = elim (Bool-cases (x == id)) [
  | inl t ↦ let r = remove_id_short ids id in ground arith
  | inr t ↦ let r = length-remove_id ids id (ground arith) in ground arith
]

is_in-remove_id :
    (ids : List ℕ) (id i : ℕ) → is_in ids i ≡ true → (i ≡ id) ⊎ (is_in (remove_id ids id) i ≡ true)
unfolding is_in remove_id
is_in-remove_id [] id i h = inr h
is_in-remove_id (x ∷ ids) id i h = elim (Bool-cases (x == i)) [
  | inl t ↦ elim (Bool-cases (x == id)) [ inl u ↦ inl (ground arith) | inr u ↦ inr (ground arith) ]
  | inr t ↦ elim (is_in-remove_id ids id i (ground arith)) [
    | inl u ↦ inl u
    | inr u ↦ inr (ground arith)
  ]
]

choose-is_in :
    (queue : List ℕ) (flight : Option ℕ) (ids : List ℕ) (id : ℕ) (b : Bool)
    → choose queue flight ids ≡ some (id, b)
    → is_in ids id ≡ true
unfolding choose
choose-is_in [] none ids id b e = absurd (ground arith)
choose-is_in [] (some x) ids id b e = ground arith
choose-is_in (y ∷ queue) none ids id b e = ground arith
choose-is_in (y ∷ queue) (some x) ids id b e = ground arith

is_in-ours_of :
    (before after : List AnyStream) (i : ℕ) → is_in (ours_of (before ++ ours i ∷ after)) i ≡ true
unfolding ours_of is_in
is_in-ours_of [] after i = ground arith
is_in-ours_of (invalid ∷ before) after i = is_in-ours_of before after i
is_in-ours_of (foreign id ∷ before) after i = is_in-ours_of before after i
is_in-ours_of (ours id ∷ before) after i = let ih = is_in-ours_of before after i in ground arith

module _ {P : Type 0} where
  -- What one round takes out, of the streams and of the set.
  taken :
      (q : QueuedStreams P) (ids : List ℕ) {q' : QueuedStreams P} {s : QueuedStream P}
      {rest : List ℕ}
      → remove_front q ids ≡ some (q', some s, rest)
      → (id : ℕ) × (rest ≡ remove_id ids id)
        × (is_in ids id ≡ true)
        × ((i : ℕ)
            → count i (ids_of q'.streams_)
              ≡ count i (ids_of q.streams_) - (if id == i then 1 else 0))
  unfolding remove_front erase_stream
  taken q ids e = elim (Bool-cases (is_idle q)) [
    | inl t ↦ absurd (ground arith)
    | inr t ↦ elim (Option-cases (choose q.queue_ q.stream_in_flight_ ids)) [
      | inl f ↦ absurd (ground arith)
      | inr ((id, b), f) ↦ elim (Option-cases (find_stream q.streams_ id)) [
        | inl g ↦ absurd (ground arith)
        | inr (s1, g) ↦ (
          id,
          ground arith,
          choose-is_in _ _ ids id b f,
          λ i. let r = count-without i q.streams_ id in ground arith,
        )
      ]
    ]
  ]

none_left : (id i a b c : ℕ) → i ≡ id → a ≤ b → b ≡ c - (if id == i then 1 else 0) → c ≤ 1 → a ≡ 0
none_left id i a b c w h e o = ground arith

empty-nil : (ids : List ℕ) → is_empty ids ≡ true → ids ≡ []
empty-nil [] e = refl
empty-nil (x ∷ ids) e = absurd (ground arith)

module _ {P U M S : Type 0} where
  pub settle-Inv :
      (d : Data P U M S) (q : QueuedStreams P) → Inv q → Inv (settle d q).queued_streams_
  unfolding settle
  settle-Inv d q v = record { known = v.known; once = v.once; bounded = v.bounded }

module _ {P U M S : Type 0} (normal_speed : S) where
  -- What is left after dropping `ids`: nothing if it failed, and else either the queue is empty, or
  -- none of the dropped streams is left.
  pub record Outcome (d : Data P U M S) (ids : List ℕ) (d' : Data P U M S) (ok : Bool)
      : Type 0 where
    pub kept : Inv d'.queued_streams_
    pub failed :
        ok ≡ false → (d'.queued_streams_.streams_ ≡ []) × (d'.playback_speed_ ≡ normal_speed)
    pub dropped :
        ok ≡ true
        → (d'.queued_streams_.queue_ ≡ [])
          ⊎ ((i : ℕ) → is_in ids i ≡ true → count i (ids_of d'.queued_streams_.streams_) ≡ 0)
    pub no_more :
        (i : ℕ)
        → count i (ids_of d'.queued_streams_.streams_) ≤ count i (ids_of d.queued_streams_.streams_)

  failed-Outcome :
      (d d0 : Data P U M S) (ids : List ℕ) → Outcome d ids (player_failed normal_speed d0) false
  unfolding player_failed clear settle ids_of
  failed-Outcome d d0 ids = record {
    kept = settle-Inv d0 (clear d0.queued_streams_).0 (clear-Inv d0.queued_streams_);
    failed = λ e. (refl, refl);
    dropped = λ e. absurd (ground (arith, e));
    no_more = λ i. omega arith;
  }

  done-Outcome :
      (d : Data P U M S) (ids : List ℕ)
      → Inv d.queued_streams_
      → (is_empty ids || is_empty d.queued_streams_.queue_) ≡ true
      → Outcome d ids d true
  unfolding is_in
  done-Outcome d [] v e = record {
    kept = v;
    failed = λ x. absurd (ground (arith, x));
    dropped = λ x. inr (λ i y. absurd (ground (arith, y)));
    no_more = λ i. omega arith;
  }
  done-Outcome d (x ∷ ids) v e = record {
    kept = v;
    failed = λ x. absurd (ground (arith, x));
    dropped = λ x. inl (empty-nil _ e);
    no_more = λ i. omega arith;
  }

  pub drop_ours_lem :
      (rounds : ℕ) (d : Data P U M S) (ids : List ℕ)
      → Inv d.queued_streams_
      → length ids ≤ rounds
      → (d' : Data P U M S) × (ok : Bool) × (drop_ours normal_speed rounds d ids ≡ some (d', ok))
        × Outcome d ids d' ok
  unfolding drop_ours settle
  drop_ours_lem zero d [] v h = (d, true, refl, done-Outcome d [] v refl)
  drop_ours_lem zero d (x ∷ ids) v h = absurd (omega arith)
  drop_ours_lem (suc rounds) d ids v h =
      elim (Bool-cases (is_empty ids || is_empty d.queued_streams_.queue_)) [
        | inl t ↦ (d, true, rw t refl, done-Outcome d ids v t)
        | inr t ↦ elim (remove_front-Dropped d.queued_streams_ ids v) [
          | inl (e, a, b) ↦
              (player_failed normal_speed d, false, rw (t, e) refl, failed-Outcome d d ids)
          | inr ((q, none, rest), e, v') ↦ (
            player_failed normal_speed (settle d q),
            false,
            rw (t, e) refl,
            failed-Outcome d (settle d q) ids,
          )
          | inr ((q, some s, rest), e, v') ↦
              let (id, r, inside, counts) = taken d.queued_streams_ ids e in
              let d1 = record (settle d q) {
                referenced_lists_ = remove_data_for_stream (settle d q).referenced_lists_ s;
              } in
              let short : length rest ≤ rounds =
                omega (arith, h, length-remove_id ids id inside, ap length r) in
              let (d', ok, e', o) = drop_ours_lem rounds d1 rest (settle-Inv d q v') short in
              let fewer : (i : ℕ)
                  → count i (ids_of d'.queued_streams_.streams_) ≤ count i (ids_of q.streams_) =
                λ i. o.no_more i in
              (
                d',
                ok,
                rw (t, e) e',
                record {
                  kept = o.kept;
                  failed = o.failed;
                  dropped = λ x. elim (o.dropped x) [
                    | inl z ↦ inl z
                    | inr z ↦ inr (λ i y. elim (is_in-remove_id ids id i y) [
                      | inl w ↦ none_left id i _ _ _ w (fewer i) (counts i) (v.once i)
                      | inr w ↦ z i (subst (λ (ys : List ℕ). is_in ys i ≡ true) (sym r) w)
                    ])
                  ];
                  no_more = λ i. omega (arith, fewer i, counts i);
                },
              )
        ]
      ]

  -- Dropping the streams that the player has dropped comes to an end. If it fails, all streams are
  -- gone and the speed is normal; if not, either nothing is queued any more, or none of the dropped
  -- streams is left. The invariant of the queued streams is kept in any case.
  pub player_dropped_from_queue_lem :
      (d : Data P U M S) (dropped : List AnyStream)
      → Inv d.queued_streams_
      → (d' : Data P U M S) × (ok : Bool) × (player_dropped_from_queue normal_speed d dropped
          ≡ some (d', ok))
        × Inv d'.queued_streams_
        × (ok ≡ false → (d'.queued_streams_.streams_ ≡ []) × (d'.playback_speed_ ≡ normal_speed))
        × (ok ≡ true
            → (d'.queued_streams_.queue_ ≡ [])
              ⊎ ((before after : List AnyStream) (i : ℕ)
                  → dropped ≡ before ++ ours i ∷ after
                  → count i (ids_of d'.queued_streams_.streams_) ≡ 0))
  unfolding player_dropped_from_queue
  player_dropped_from_queue_lem d dropped v =
      let ids = ours_of dropped in
      let (d', ok, e, o) = drop_ours_lem (length ids) d ids v (omega arith) in
      (
        d',
        ok,
        e,
        o.kept,
        o.failed,
        λ x. elim (o.dropped x) [
          | inl z ↦ inl z
          | inr z ↦ inr (λ before after i y.
              z i (ap (λ l. is_in (ours_of l) i) y ∙ is_in-ours_of before after i))
        ],
      )

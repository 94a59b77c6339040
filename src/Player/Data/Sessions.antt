-- ===== src/Player/Data/Sessions.antt =====
-- What any sequence of operations on new data comes to, and where the reference counts fall behind
-- (src/player_data.cc).
use drcpd.Common.{
  ℕ, ◌-◌, ◌≤◌, ◌≡◌, refl, ap, sym, subst, ◌∙◌, Bool, true, false, not, ◌&&◌, ◌||◌, Option, none,
  some, List, [], ◌∷◌, arith, ◌==◌, if_elim, All, Option-cases, Bool-cases, inl, inr,
}
use drcpd.Player.QueuedStreams.{
  QueuedStream, QueuedStreams, StreamState, ids_of, queued, current, clear, front, remove_anywhere,
  same_id, construct as streams_construct, append,
}
use drcpd.Player.QueuedStreams.FreeId.{RunsOn}
use drcpd.Player.QueuedStreams.Counts.{count}
use drcpd.Player.QueuedStreams.Laws.{
  Inv, construct-Inv, clear-Inv, flying-Inv, shift_right, remove_anywhere_right,
}
use drcpd.Player.QueuedStreams.Append.{clear_if-Inv, append_right}
use drcpd.Player.NowPlaying.{AnyStream, ours, foreign, invalid, make_from_generic_id}
use drcpd.Player.RefCounts.{ref_list_id, find_count}
use drcpd.Player.Data.{
  Data, PlayerState, settle, set_state, prepare_for_recovery, with_stream, update_stream,
  queued_stream_append, queued_stream_sent_to_player, queued_stream_playing_next,
  prepare_stream_for_recovery, queued_stream_remove, remove_all_queued_streams,
  player_rejected_unplayed_stream, player_failed, stream_has_changed, remove_data_for_stream,
}
use drcpd.Player.Data.Playback.{
  construct, set_player_state, change_player_state, player_finished_and_idle,
  player_now_playing_stream, player_has_stopped,
}
use drcpd.Player.Data.Refs.{unit_if, count_of, listed, remove_anywhere-Keeps, count-unref}
use drcpd.Player.Data.Laws.{Counted, settle-Counted}
use drcpd.Player.Data.Drops.{settle-Inv, player_dropped_from_queue_lem}
use drcpd.Player.Data.Runs.{
  Op, appends, sends, recovers, removes, plays_next, idles, stops, removes_all, plays, is_in_state,
  rejects, drops, apply, run, takes_back, run-Counted,
}

module _ {P : Type 0} where
  ids-with_stream :
      (streams : List (QueuedStream P)) (id : ℕ) (f : QueuedStream P → QueuedStream P)
      → ((s : QueuedStream P) → (f s).stream_id_ ≡ s.stream_id_)
      → ids_of (with_stream streams id f) ≡ ids_of streams
  unfolding with_stream ids_of
  ids-with_stream [] id f h = refl
  ids-with_stream (s ∷ streams) id f h =
      let r = ids-with_stream streams id f h in let e = h s in ground arith

  set_state-id :
      (s : QueuedStream P) (state : StreamState) → (set_state s state).0.stream_id_ ≡ s.stream_id_
  unfolding set_state
  set_state-id s state = ground arith

  recovery-id : (s : QueuedStream P) → (prepare_for_recovery s).stream_id_ ≡ s.stream_id_
  unfolding prepare_for_recovery
  recovery-id s = ground arith

module _ {P U M S : Type 0} where
  update_stream-Inv :
      (d : Data P U M S) (id : ℕ) (f : QueuedStream P → QueuedStream P)
      → ((s : QueuedStream P) → (f s).stream_id_ ≡ s.stream_id_)
      → Inv d.queued_streams_
      → Inv (update_stream d id f).queued_streams_
  unfolding update_stream
  update_stream-Inv d id f h v =
      let e = ids-with_stream d.queued_streams_.streams_ id f h in
      record {
        known = λ i. v.known i ∙ ap (count i) (sym e);
        once = λ i. omega (arith, v.once i, ap (count i) e);
        bounded = v.bounded;
      }

  rejected-Inv :
      (d : Data P U M S) (id : AnyStream)
      → Inv d.queued_streams_
      → Inv (player_rejected_unplayed_stream d id).queued_streams_
  unfolding player_rejected_unplayed_stream
  rejected-Inv d invalid v = v
  rejected-Inv d (foreign id) v = v
  rejected-Inv d (ours id) v =
      let w =
        settle-Inv d (remove_anywhere d.queued_streams_ id).0
          (remove_anywhere_right d.queued_streams_ id v).0 in
      elim (Option-cases (remove_anywhere d.queued_streams_ id).1) [
        | inl e ↦ rw (e, player_rejected_unplayed_stream) w
        | inr (s, e) ↦ rw (e, player_rejected_unplayed_stream) w
      ]

module _ {P U M S : Type 0} where
  weaker : {d : Data P U M S} → Counted true d → Counted false d
  weaker h = record {
    quiet = h.quiet;
    at_most = h.at_most;
    exact = λ e. absurd (ground (arith, e));
  }

module _ {P U : Type 0} where
  any_op : (ops : List (Op P U)) → All (λ op. (takes_back op && false) ≡ false) ops
  any_op [] = tt
  any_op (op ∷ ops) = (ground arith, any_op ops)

  none_back :
      (ops : List (Op P U))
      → All (λ op. takes_back op ≡ false) ops
      → All (λ op. (takes_back op && true) ≡ false) ops
  none_back [] h = tt
  none_back (op ∷ ops) (h, hs) = (ground arith, none_back ops hs)

module _ {P U M S : Type 0} (normal_speed : S) where
  failed-Inv : (d : Data P U M S) → Inv (player_failed normal_speed d).queued_streams_
  unfolding player_failed
  failed-Inv d = settle-Inv d (clear d.queued_streams_).0 (clear-Inv d.queued_streams_)

  changed-Inv :
      (d : Data P U M S) (id : AnyStream)
      → Inv d.queued_streams_
      → Inv (stream_has_changed normal_speed d id).0.queued_streams_
  unfolding stream_has_changed
  changed-Inv d id v =
      let i = make_from_generic_id id in
      let (thrown, shifted) = shift_right d.queued_streams_ i v in
      elim (Bool-cases (
        same_id (front d.queued_streams_.queue_) i
        || same_id d.queued_streams_.stream_in_flight_ i)) [
          | inl e ↦ let (r, f, v') = shifted e in rw (f, stream_has_changed) (settle-Inv d r.0 v')
          | inr e ↦ rw (thrown e, stream_has_changed) (failed-Inv d)
        ]

  state-Inv :
      (d : Data P U M S) (state : PlayerState)
      → Inv d.queued_streams_
      → Inv (change_player_state normal_speed d state).0.queued_streams_
  unfolding change_player_state
  state-Inv d state v =
      let e : (change_player_state normal_speed d state).0.queued_streams_ ≡ d.queued_streams_ =
        ground arith in
      subst Inv (sym e) v

  set_player_state-Inv :
      (d : Data P U M S) (id : AnyStream) (state : PlayerState)
      → Inv d.queued_streams_
      → Inv (set_player_state normal_speed d id state).0.queued_streams_
  unfolding set_player_state
  set_player_state-Inv d id state v = elim (Option-cases (make_from_generic_id id)) [
    | inl e ↦ rw (e, set_player_state) (state-Inv d state v)
    | inr (our_id, e) ↦
        rw (e, set_player_state)
          (if_elim (λ (r : Data P U M S × Bool). Inv r.0.queued_streams_)
            (not (same_id d.queued_streams_.stream_in_flight_ (some our_id))) (failed-Inv d)
            (state-Inv _ state (update_stream-Inv d our_id _ (λ s. set_state-id s current) v)))
  ]

  playing-Inv :
      (d : Data P U M S) (id : AnyStream) (url : U)
      → Inv d.queued_streams_
      → Inv (player_now_playing_stream normal_speed d id url).queued_streams_
  unfolding player_now_playing_stream
  playing-Inv d id url v = elim (Option-cases (make_from_generic_id id)) [
    | inl e ↦ rw (e, player_now_playing_stream) v
    | inr (our_id, e) ↦ rw (e, player_now_playing_stream) (changed-Inv d id v)
  ]

  module _ (next_id : ℕ → ℕ) (ids_run_on : RunsOn next_id 21) where
    appended-Inv :
        (d : Data P U M S) (list_id : ℕ) (payload : P) (r : QueuedStreams P × Option ℕ)
        → append next_id d.queued_streams_ list_id payload ≡ some r
        → Inv r.0
        → (r' : Data P U M S × Option ℕ) × (queued_stream_append next_id d list_id payload
            ≡ some r')
          × Inv r'.0.queued_streams_
    unfolding queued_stream_append
    appended-Inv d list_id payload (q, none) e v =
        ((settle d q, none), rw (e, queued_stream_append) refl, settle-Inv d q v)
    appended-Inv d list_id payload (q, some id) e v = (
      (
        record (settle d q) {
          referenced_lists_ = ref_list_id (settle d q).referenced_lists_ list_id;
        },
        some id,
      ),
      rw (e, queued_stream_append) refl,
      settle-Inv d q v,
    )

    append-Inv :
        (d : Data P U M S) (list_id : ℕ) (payload : P)
        → Inv d.queued_streams_
        → (r : Data P U M S × Option ℕ) × (queued_stream_append next_id d list_id payload ≡ some r)
          × Inv r.0.queued_streams_
    append-Inv d list_id payload v =
        let (r, e, v', full, room) =
          append_right next_id d.queued_streams_ list_id payload ids_run_on v in
        appended-Inv d list_id payload r e v'

    apply-Inv :
        (d : Data P U M S) (op : Op P U)
        → Inv d.queued_streams_
        → (d' : Data P U M S) × (apply next_id normal_speed d op ≡ some d') × Inv d'.queued_streams_
    unfolding apply queued_stream_sent_to_player prepare_stream_for_recovery queued_stream_remove
        queued_stream_playing_next remove_all_queued_streams player_finished_and_idle
        player_has_stopped
    apply-Inv d (appends list_id payload) v =
        let (r, e, v') = append-Inv d list_id payload v in (r.0, ground arith, v')
    apply-Inv d (sends id) v = (_, refl, update_stream-Inv d id _ (λ s. set_state-id s queued) v)
    apply-Inv d (recovers id) v = (_, refl, update_stream-Inv d id _ recovery-id v)
    apply-Inv d (removes id) v = (_, refl, settle-Inv d _ (clear_if-Inv d.queued_streams_ _ v))
    apply-Inv d plays_next v = (
      _,
      refl,
      settle-Inv d _ (flying-Inv d.queued_streams_ d.queued_streams_.stream_in_flight_ v),
    )
    apply-Inv d idles v = (_, refl, settle-Inv d _ (clear-Inv d.queued_streams_))
    apply-Inv d stops v = (_, refl, state-Inv d PlayerState.stopped v)
    apply-Inv d (removes_all true) v = (_, refl, settle-Inv d _ (clear-Inv d.queued_streams_))
    apply-Inv d (removes_all false) v =
        (_, refl, settle-Inv d _ (clear_if-Inv d.queued_streams_ _ v))
    apply-Inv d (plays id url) v = (_, refl, playing-Inv d id url v)
    apply-Inv d (is_in_state id state) v = (_, refl, set_player_state-Inv d id state v)
    apply-Inv d (rejects id) v = (_, refl, rejected-Inv d id v)
    apply-Inv d (drops ids) v =
        let (d', ok, e, v', f, g) = player_dropped_from_queue_lem normal_speed d ids v in
        (d', ground arith, v')

    run-Inv :
        (d : Data P U M S) (ops : List (Op P U))
        → Inv d.queued_streams_
        → (d' : Data P U M S) × (run next_id normal_speed d ops ≡ some d') × Inv d'.queued_streams_
    unfolding run
    run-Inv d [] v = (d, refl, v)
    run-Inv d (op ∷ ops) v =
        let (d1, e, v1) = apply-Inv d op v in
        let (d2, f, v2) = run-Inv d1 ops v1 in (d2, rw (e, run) f, v2)

    construct-Counted :
        (id : ℕ) → Counted {P = P} {U = U} {M = M} {S = S} true (construct normal_speed id)
    unfolding construct streams_construct listed count_of find_count
    construct-Counted id = record { quiet = refl; at_most = λ l. omega arith; exact = λ e l. refl }

    -- If no ID comes again within 21 steps, the search for a stream ID ends in any sequence of
    -- operations on new data. Afterwards, if none of the assertions of the code has failed
    -- meanwhile, which the operations do not check here, the IDs in the queue and in flight are
    -- those of the streams, each of them there once, and at most 20 in the queue, no list is
    -- referenced more often than there are streams of it, and if the player has taken back no
    -- stream, each list is referenced exactly as often.
    pub run-references :
        (id : ℕ) (ops : List (Op P U))
        → (d : Data P U M S) × (run next_id normal_speed (construct normal_speed id) ops ≡ some d)
          × Inv d.queued_streams_
          × ((l : ℕ) → count_of l d.referenced_lists_ ≤ listed l d.queued_streams_.streams_)
          × (All (λ op. takes_back op ≡ false) ops
              → (l : ℕ) → count_of l d.referenced_lists_ ≡ listed l d.queued_streams_.streams_)
    unfolding construct streams_construct
    run-references id ops =
        let (d, e, v) = run-Inv (construct normal_speed id) ops (construct-Inv id) in
        let c : Counted false d =
          run-Counted next_id normal_speed false _ ops (any_op ops) e
            (weaker (construct-Counted id)) in
        (
          d,
          e,
          v,
          c.at_most,
          λ h.
              (run-Counted next_id normal_speed true _ ops (none_back ops h) e
                  (construct-Counted id)).exact
                refl,
        )

module _ {P U M S : Type 0} where
  -- If the lists are counted exactly and the player rejects a queued stream, the reference to its
  -- list is given up twice: afterwards, one stream of the list is not counted, if there is one.
  pub reject_unrefs_twice :
      (d : Data P U M S) (id : ℕ) (s : QueuedStream P)
      → Counted true d
      → (remove_anywhere d.queued_streams_ id).1 ≡ some s
      → let d' = player_rejected_unplayed_stream d (ours id) in
        count_of s.list_id_ d'.referenced_lists_ ≡ listed s.list_id_ d'.queued_streams_.streams_ - 1
  unfolding player_rejected_unplayed_stream remove_data_for_stream unit_if
  reject_unrefs_twice d id s h e =
      let q = (remove_anywhere d.queued_streams_ id).0 in
      let v = settle-Counted true d q (remove_anywhere-Keeps d.queued_streams_ id) h in
      let l = s.list_id_ in
      let u : count_of l (remove_data_for_stream (settle d q).referenced_lists_ s)
          ≡ count_of l (settle d q).referenced_lists_ - unit_if (l == l) =
        count-unref (settle d q).referenced_lists_ l l in
      let one : unit_if (l == l) ≡ 1 = ground arith in
      let x = v.exact refl l in rw (e, player_rejected_unplayed_stream) (omega (arith, u, one, x))

-- ===== src/Player/Data/Runs.antt =====
-- Sequences of operations on the player's data, and the reference counts afterwards
-- (src/player_data.cc).
use drcpd.Common.{
  ℕ, ◌≤◌, ◌≡◌, refl, ap, sym, subst, ◌∙◌, Bool, true, false, not, ◌&&◌, Option, none, some, List,
  [], ◌∷◌, arith, length, if_elim, All, ◌>>=◌, Option-cases, inl, inr,
}
use drcpd.Player.QueuedStreams.{QueuedStreams, queued, current, clear, same_id}
use drcpd.Player.NowPlaying.{AnyStream, make_from_generic_id}
use drcpd.Player.RefCounts.{RefCounts, find_count}
use drcpd.Player.Data.{
  Data, PlayerState, settle, queued_stream_append, queued_stream_sent_to_player,
  queued_stream_playing_next, prepare_stream_for_recovery, queued_stream_remove,
  remove_all_queued_streams, player_rejected_unplayed_stream, stream_has_changed,
  player_dropped_from_queue, ours_of,
}
use drcpd.Player.Data.Playback.{
  set_player_state, change_player_state, player_finished_and_idle, player_now_playing_stream,
  player_has_stopped,
}
use drcpd.Player.Data.Refs.{count_of, listed, clear-Keeps, clear_if-Keeps, flying-Keeps}
use drcpd.Player.Data.Laws.{
  Counted, ResultCounted, settle-Counted, update_stream-Counted, append-Counted, rejected-Counted,
  failed-Counted, changed-Counted, drop_ours-Counted, set_state-list, recovery-list,
}

-- What the player's control and the player do to the data, as far as the streams are concerned.
pub data Op (P U : Type 0) : Type 0 where
  appends : ℕ → P → Op P U
  sends recovers removes : ℕ → Op P U
  plays_next idles stops : Op P U
  removes_all : Bool → Op P U
  plays : AnyStream → U → Op P U
  is_in_state : AnyStream → PlayerState → Op P U
  rejects : AnyStream → Op P U
  drops : List AnyStream → Op P U

-- The player takes back streams that were sent to it.
unfoldable pub takes_back : {P U : Type 0} → Op P U → Bool
takes_back (rejects id) = true
takes_back (drops ids) = true
takes_back (appends list_id payload) = false
takes_back (sends id) = false
takes_back (recovers id) = false
takes_back (removes id) = false
takes_back plays_next = false
takes_back idles = false
takes_back stops = false
takes_back (removes_all all) = false
takes_back (plays id url) = false
takes_back (is_in_state id state) = false

module _ {P U M S : Type 0} (next_id : ℕ → ℕ) (normal_speed : S) where
  unfoldable pub apply : Data P U M S → Op P U → Option (Data P U M S)
  apply d (appends list_id payload) =
      queued_stream_append next_id d list_id payload >>= λ r. some r.0
  apply d (sends id) = some (queued_stream_sent_to_player d id)
  apply d (recovers id) = some (prepare_stream_for_recovery d id)
  apply d (removes id) = some (queued_stream_remove d id)
  apply d plays_next = some (queued_stream_playing_next d)
  apply d idles = some (player_finished_and_idle normal_speed d)
  apply d stops = some (player_has_stopped normal_speed d)
  apply d (removes_all all) = some (remove_all_queued_streams d all)
  apply d (plays id url) = some (player_now_playing_stream normal_speed d id url)
  apply d (is_in_state id state) = some (set_player_state normal_speed d id state).0
  apply d (rejects id) = some (player_rejected_unplayed_stream d id)
  apply d (drops ids) = player_dropped_from_queue normal_speed d ids >>= λ r. some r.0

  unfoldable pub run : Data P U M S → List (Op P U) → Option (Data P U M S)
  run d [] = some d
  run d (op ∷ ops) = apply d op >>= λ d'. run d' ops

  abbrev Fits : Bool → Option (Data P U M S) → Type 0
  Fits b none = Unit
  Fits b (some d) = Counted b d

  result : (b : Bool) {d d' : Data P U M S} → some d ≡ some d' → Counted b d → Counted b d'
  result b e h = subst (Fits b) e h

  bound :
      {A : Type 0} (b : Bool) (r : Option (Data P U M S × A)) {d' : Data P U M S}
      → ResultCounted b r
      → (r >>= λ x. some x.0) ≡ some d'
      → Counted b d'
  unfolding ResultCounted
  bound b none h e = absurd (ground arith)
  bound b (some (d, a)) h e = result b e h

  idle-Counted : (b : Bool) (d : Data P U M S) → Counted b (player_finished_and_idle normal_speed d)
  unfolding player_finished_and_idle settle clear listed count_of find_count
  idle-Counted b d = record { quiet = refl; at_most = λ l. omega arith; exact = λ e l. refl }

  same_streams :
      (b : Bool) (d d' : Data P U M S)
      → d'.queued_streams_ ≡ d.queued_streams_
      → d'.referenced_lists_ ≡ d.referenced_lists_
      → Counted b d
      → Counted b d'
  same_streams b d d' e f h = record {
    quiet = ap (λ (q : QueuedStreams P). q.on_remove_cb_) e ∙ h.quiet;
    at_most = λ l.
        subst (λ (q : QueuedStreams P). count_of l d'.referenced_lists_ ≤ listed l q.streams_)
          (sym e)
          (subst (λ (r : RefCounts). count_of l r ≤ listed l d.queued_streams_.streams_) (sym f)
            (h.at_most l));
    exact = λ x l.
        ap (count_of l) f ∙ h.exact x l ∙ ap (λ (q : QueuedStreams P). listed l q.streams_) (sym e);
  }

  change-Counted :
      (b : Bool) (d : Data P U M S) (state : PlayerState)
      → Counted b d
      → Counted b (change_player_state normal_speed d state).0
  unfolding change_player_state
  change-Counted b d state h = same_streams b d _ (ground arith) (ground arith) h

  set_player_state-Counted :
      (b : Bool) (d : Data P U M S) (id : AnyStream) (state : PlayerState)
      → Counted b d
      → Counted b (set_player_state normal_speed d id state).0
  unfolding set_player_state
  set_player_state-Counted b d id state h = elim (Option-cases (make_from_generic_id id)) [
    | inl e ↦ rw (e, set_player_state) (change-Counted b d state h)
    | inr (our_id, e) ↦
        rw (e, set_player_state)
          (if_elim (λ (r : Data P U M S × Bool). Counted b r.0)
            (not (same_id d.queued_streams_.stream_in_flight_ (some our_id)))
            (failed-Counted normal_speed b d h)
            (change-Counted b _ state
              (update_stream-Counted b d our_id _ (λ s. set_state-list s current) h)))
  ]

  playing-Counted :
      (b : Bool) (d : Data P U M S) (id : AnyStream) (url : U)
      → Counted b d
      → Counted b (player_now_playing_stream normal_speed d id url)
  unfolding player_now_playing_stream
  playing-Counted b d id url h = elim (Option-cases (make_from_generic_id id)) [
    | inl e ↦ rw (e, player_now_playing_stream) (same_streams b d _ refl refl h)
    | inr (our_id, e) ↦
        rw (e, player_now_playing_stream)
          (same_streams b (stream_has_changed normal_speed d id).0 _ refl refl
            (changed-Counted normal_speed b d id h))
  ]

  dropped-Counted :
      (d : Data P U M S) (ids : List AnyStream)
      → Counted false d
      → ResultCounted false (player_dropped_from_queue normal_speed d ids)
  unfolding player_dropped_from_queue
  dropped-Counted d ids h = drop_ours-Counted normal_speed (length (ours_of ids)) d (ours_of ids) h

  apply-Counted :
      (b : Bool) (d : Data P U M S) (op : Op P U) {d' : Data P U M S}
      → (takes_back op && b) ≡ false
      → apply d op ≡ some d'
      → Counted b d
      → Counted b d'
  unfolding apply takes_back queued_stream_sent_to_player prepare_stream_for_recovery
      queued_stream_remove queued_stream_playing_next remove_all_queued_streams
      player_finished_and_idle player_has_stopped
  apply-Counted b d (appends list_id payload) hb e h =
      bound b _ (append-Counted b next_id d list_id payload h) e
  apply-Counted b d (sends id) hb e h =
      result b e (update_stream-Counted b d id _ (λ s. set_state-list s queued) h)
  apply-Counted b d (recovers id) hb e h =
      result b e (update_stream-Counted b d id _ recovery-list h)
  apply-Counted b d (removes id) hb e h =
      result b e (settle-Counted b d _ (clear_if-Keeps d.queued_streams_ _) h)
  apply-Counted b d plays_next hb e h =
      result b e (settle-Counted b d _ (flying-Keeps d.queued_streams_) h)
  apply-Counted b d idles hb e h = result b e (idle-Counted b d)
  apply-Counted b d stops hb e h = result b e (
      same_streams b (change_player_state normal_speed d PlayerState.stopped).0 _ refl refl
        (change-Counted b d PlayerState.stopped h))
  apply-Counted b d (removes_all true) hb e h =
      result b e (settle-Counted b d _ (clear-Keeps d.queued_streams_) h)
  apply-Counted b d (removes_all false) hb e h =
      result b e (settle-Counted b d _ (clear_if-Keeps d.queued_streams_ _) h)
  apply-Counted b d (plays id url) hb e h = result b e (playing-Counted b d id url h)
  apply-Counted b d (is_in_state id state) hb e h =
      result b e (set_player_state-Counted b d id state h)
  apply-Counted true d (rejects id) hb e h = absurd (ground arith)
  apply-Counted false d (rejects id) hb e h = result false e (rejected-Counted d id h)
  apply-Counted true d (drops ids) hb e h = absurd (ground arith)
  apply-Counted false d (drops ids) hb e h = bound false _ (dropped-Counted d ids h) e

  pub run-Counted :
      (b : Bool) (d : Data P U M S) (ops : List (Op P U)) {d' : Data P U M S}
      → All (λ op. (takes_back op && b) ≡ false) ops
      → run d ops ≡ some d'
      → Counted b d
      → Counted b d'
  unfolding run
  run-Counted b d [] hb e h = result b e h
  run-Counted b d (op ∷ ops) (hb, hbs) e h = elim (Option-cases (apply d op)) [
    | inl f ↦ absurd (ground arith)
    | inr (d1, f) ↦
        run-Counted b d1 ops hbs
          (sym (ap (λ (r : Option (Data P U M S)). r >>= λ x. run x ops) f) ∙ e)
          (apply-Counted b d op hb f h)
  ]

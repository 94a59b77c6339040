-- ===== src/Player/Data.antt =====
-- src/player_data.hh and src/player_data.cc: the player's data, and how often each list is
-- referenced by the streams. `P` is what a queued stream carries besides its state, `U` the type of
-- URLs, `M` that of meta data, and `S` that of speeds, with their order. The calls of
-- `on_remove_cb_` are carried out at the end of an operation on the queued streams, as nothing
-- reads the reference counts before.
pub mod Asserted
pub mod Playback
pub mod Refs
pub mod Laws
pub mod Drops
pub mod Runs
pub mod Sessions
use drcpd.Common.{
  ℕ, zero, suc, ◌+◌, ◌-◌, Bool, true, false, not, ◌&&◌, ◌||◌, Option, none, some, List, [], ◌∷◌,
  leb, ltb, ◌==◌, if◌then◌else◌, is_empty, length,
}
use drcpd.Player.QueuedStreams.{
  QueuedStream, QueuedStreams, StreamState, construct as streams_construct, is_in, floating, queued,
  current, about_to_die, append, remove_front, remove_anywhere, shift, shift_if_not_flying, clear,
  clear_if, same_id,
}
use drcpd.Player.RefCounts.{RefCounts, ref_list_id, unref_list_id}
use drcpd.Player.NowPlaying.{
  AnyStream, invalid, ours, foreign, make_from_generic_id, NowPlayingInfo, now_playing,
  nothing as playing_nothing, is_stream, update_times, ReportedPlaybackState, ReportedRepeatMode,
  ReportedShuffleMode, reset, set, construct as playing_construct,
}

pub data UserIntention : Type 0 where
  nothing stopping pausing listening skipping_paused skipping_live : UserIntention

pub data PlayerState : Type 0 where
  stopped buffering playing paused : PlayerState

unfoldable pub same_state : StreamState → StreamState → Bool
same_state floating floating = true
same_state queued queued = true
same_state current current = true
same_state about_to_die about_to_die = true
same_state a b = false

pub record Data (P U M S : Type 0) : Type 0 where
  pub is_attached_ : Bool
  pub queued_streams_ : QueuedStreams P
  pub referenced_lists_ : RefCounts
  pub intention_ : UserIntention
  pub player_state_ : PlayerState
  pub now_playing_ : NowPlayingInfo U M
  pub reported_playback_state_ : ReportedPlaybackState
  pub playback_speed_ : S

-- The set of our streams among those dropped.
unfoldable pub ours_of : List AnyStream → List ℕ
ours_of [] = []
ours_of (invalid ∷ dropped) = ours_of dropped
ours_of (foreign id ∷ dropped) = ours_of dropped
ours_of (ours id ∷ dropped) =
    let rest = ours_of dropped in if is_in rest id then rest else id ∷ rest

module _ {P : Type 0} where
  -- The assertions on the previous state stand in `Asserted`: without them, a stream that was in
  -- another state changes its state, too.
  unfoldable pub set_state : QueuedStream P → StreamState → QueuedStream P × Bool
  unfolding same_state
  set_state s new_state =
      if same_state s.state_ about_to_die || same_state new_state s.state_
      then (s, false)
      else (record s { state_ = new_state }, true)

  unfoldable pub prepare_for_recovery : QueuedStream P → QueuedStream P
  unfolding same_state
  prepare_for_recovery s =
      if same_state s.state_ queued || same_state s.state_ current
      then record s { state_ = floating }
      else s

  unfoldable pub with_stream :
      List (QueuedStream P) → ℕ → (QueuedStream P → QueuedStream P) → List (QueuedStream P)
  with_stream [] id f = []
  with_stream (s ∷ streams) id f =
      let rest = with_stream streams id f in if s.stream_id_ == id then f s ∷ streams else s ∷ rest

  unfoldable pub remove_data_for_stream : RefCounts → QueuedStream P → RefCounts
  remove_data_for_stream counts s = unref_list_id counts s.list_id_

  unfoldable pub remove_all : RefCounts → List (QueuedStream P) → RefCounts
  remove_all counts [] = counts
  remove_all counts (s ∷ streams) = remove_all (remove_data_for_stream counts s) streams

module _ {P U M S : Type 0} where
  -- The queued streams after an operation on them, with the calls of `on_remove_cb_`.
  unfoldable pub settle : Data P U M S → QueuedStreams P → Data P U M S
  settle d q = record d {
    queued_streams_ = record q { on_remove_cb_ = [] };
    referenced_lists_ = remove_all d.referenced_lists_ q.on_remove_cb_;
  }

  -- The assertion that the list is valid stands in `Asserted`.
  unfoldable pub queued_stream_append :
      (ℕ → ℕ) → Data P U M S → ℕ → P → Option (Data P U M S × Option ℕ)
  queued_stream_append next_id d list_id payload =
      elim (append next_id d.queued_streams_ list_id payload) [
        | none ↦ none
        | some (q, none) ↦ some (settle d q, none)
        | some (q, some id) ↦ some (
          record (settle d q) {
            referenced_lists_ = ref_list_id (settle d q).referenced_lists_ list_id;
          },
          some id,
        )
      ]

  unfoldable pub update_stream : Data P U M S → ℕ → (QueuedStream P → QueuedStream P) → Data P U M S
  update_stream d id f = record d {
    queued_streams_ = record d.queued_streams_ {
      streams_ = with_stream d.queued_streams_.streams_ id f;
    };
  }

  unfoldable pub queued_stream_sent_to_player : Data P U M S → ℕ → Data P U M S
  queued_stream_sent_to_player d stream_id = update_stream d stream_id (λ s. (set_state s queued).0)

  unfoldable pub queued_stream_playing_next : Data P U M S → Data P U M S
  queued_stream_playing_next d = settle d (shift_if_not_flying d.queued_streams_).0

  unfoldable pub prepare_stream_for_recovery : Data P U M S → ℕ → Data P U M S
  prepare_stream_for_recovery d stream_id = update_stream d stream_id prepare_for_recovery

  unfoldable pub prepare_all : Data P U M S → List ℕ → Data P U M S
  prepare_all d [] = d
  prepare_all d (id ∷ ids) = prepare_all (prepare_stream_for_recovery d id) ids

  unfoldable pub queued_stream_remove : Data P U M S → ℕ → Data P U M S
  queued_stream_remove d stream_id =
      settle d (clear_if d.queued_streams_ (λ s. s.stream_id_ == stream_id)).0

  unfoldable pub remove_all_queued_streams : Data P U M S → Bool → Data P U M S
  unfolding same_id
  remove_all_queued_streams d also_remove_playing_stream =
      let head_id = d.queued_streams_.stream_in_flight_ in
      if also_remove_playing_stream
      then settle d (clear d.queued_streams_).0
      else settle d (clear_if d.queued_streams_ (λ s. not (same_id (some s.stream_id_) head_id))).0

  unfoldable pub player_rejected_unplayed_stream : Data P U M S → AnyStream → Data P U M S
  player_rejected_unplayed_stream d invalid = d
  player_rejected_unplayed_stream d (foreign id) = d
  player_rejected_unplayed_stream d (ours id) =
      let (q, removed) = remove_anywhere d.queued_streams_ id in
      elim removed [
        | none ↦ settle d q
        | some s ↦ record (settle d q) {
          referenced_lists_ = remove_data_for_stream (settle d q).referenced_lists_ s;
        }
      ]

  unfoldable pub set_intention : Data P U M S → UserIntention → Data P U M S
  set_intention d intention = record d { intention_ = intention }

module _ {P U M S : Type 0} (normal_speed : S) where
  unfoldable pub player_failed : Data P U M S → Data P U M S
  player_failed d = record (settle d (clear d.queued_streams_).0) { playback_speed_ = normal_speed }

  unfoldable pub stream_has_changed : Data P U M S → AnyStream → Data P U M S × Bool
  stream_has_changed d next_stream_id =
      elim (shift d.queued_streams_ (make_from_generic_id next_stream_id)) [
        | none ↦ (player_failed d, false)
        | some (q, s) ↦ (settle d q, true)
      ]

  -- One round for each of our dropped streams is enough, as each round takes one out of the set;
  -- no result if it is not.
  unfoldable pub drop_ours : ℕ → Data P U M S → List ℕ → Option (Data P U M S × Bool)
  drop_ours zero d ids =
      if is_empty ids || is_empty d.queued_streams_.queue_ then some (d, true) else none
  drop_ours (suc rounds) d ids =
      if is_empty ids || is_empty d.queued_streams_.queue_
      then some (d, true)
      else elim (remove_front d.queued_streams_ ids) [
        | none ↦ some (player_failed d, false)
        | some (q, none, rest) ↦ some (player_failed (settle d q), false)
        | some (q, some s, rest) ↦
            drop_ours rounds
              (record (settle d q) {
                referenced_lists_ = remove_data_for_stream (settle d q).referenced_lists_ s;
              })
              rest
      ]

  unfoldable pub player_dropped_from_queue :
      Data P U M S → List AnyStream → Option (Data P U M S × Bool)
  player_dropped_from_queue d dropped = let ids = ours_of dropped in drop_ours (length ids) d ids

-- ===== src/Player/Data/Playback.antt =====
-- src/player_data.hh and src/player_data.cc: what the player says of itself, and what is shown of it.
use drcpd.Common.{ℕ, Bool, true, false, not, ◌&&◌, ◌||◌, Option, none, some, [], if◌then◌else◌}
use drcpd.Player.QueuedStreams.{clear, same_id, current, construct as streams_construct}
use drcpd.Player.NowPlaying.{
  AnyStream, make_from_generic_id, now_playing, nothing as playing_nothing, is_stream, update_times,
  ReportedRepeatMode, ReportedShuffleMode, reset, set, construct as playing_construct,
}
use drcpd.Player.Data.{
  Data, UserIntention, PlayerState, settle, update_stream, set_state, player_failed,
  stream_has_changed, set_intention,
}

pub data VisibleStreamState : Type 0 where
  stopped buffering playing paused fast_forward fast_rewind : VisibleStreamState

unfoldable pub same_player_state : PlayerState → PlayerState → Bool
same_player_state PlayerState.stopped PlayerState.stopped = true
same_player_state PlayerState.buffering PlayerState.buffering = true
same_player_state PlayerState.playing PlayerState.playing = true
same_player_state PlayerState.paused PlayerState.paused = true
same_player_state a b = false

abbrev pub same_bool : Bool → Bool → Bool
same_bool true b = b
same_bool false b = not b

module _ {P U M S : Type 0} (normal_speed : S) where
  -- The first overload.
  unfoldable pub change_player_state : Data P U M S → PlayerState → Data P U M S × Bool
  unfolding same_player_state
  change_player_state d state =
      if same_player_state state d.player_state_
      then (d, false)
      else if same_player_state state PlayerState.stopped
      then (record d { player_state_ = state; playback_speed_ = normal_speed }, true)
      else (record d { player_state_ = state }, true)

  -- The second overload.
  unfoldable pub set_player_state : Data P U M S → AnyStream → PlayerState → Data P U M S × Bool
  unfolding same_id
  set_player_state d new_current_stream state = elim (make_from_generic_id new_current_stream) [
    | none ↦ change_player_state d state
    | some our_id ↦
        if not (same_id d.queued_streams_.stream_in_flight_ (some our_id))
        then (player_failed normal_speed d, false)
        else change_player_state (update_stream d our_id (λ s. (set_state s current).0)) state
  ]

  unfoldable pub player_now_playing_stream : Data P U M S → AnyStream → U → Data P U M S
  player_now_playing_stream d stream_id stream_url =
      let d' : Data P U M S = elim (make_from_generic_id stream_id) [
        | none ↦ d
        | some id ↦ (stream_has_changed normal_speed d stream_id).0
      ] in
      record d' { now_playing_ = now_playing d'.now_playing_ stream_id stream_url }

  unfoldable pub player_has_resumed : Data P U M S → Data P U M S
  player_has_resumed d = (change_player_state d PlayerState.playing).0

  unfoldable pub player_has_paused : Data P U M S → Data P U M S
  player_has_paused d = (change_player_state d PlayerState.paused).0

  unfoldable pub player_has_stopped : Data P U M S → Data P U M S
  player_has_stopped d =
      let d' = (change_player_state d PlayerState.stopped).0 in
      record d' { now_playing_ = playing_nothing d'.now_playing_ }

  unfoldable pub player_finished_and_idle : Data P U M S → Data P U M S
  player_finished_and_idle d = record (settle d (clear d.queued_streams_).0) {
    referenced_lists_ = [];
    now_playing_ = playing_nothing d.now_playing_;
    playback_speed_ = normal_speed;
  }

  unfoldable pub construct : ℕ → Data P U M S
  construct id = record {
    is_attached_ = false;
    queued_streams_ = streams_construct id;
    referenced_lists_ = [];
    intention_ = UserIntention.nothing;
    player_state_ = PlayerState.stopped;
    now_playing_ = playing_construct;
    reported_playback_state_ = reset;
    playback_speed_ = normal_speed;
  }

module _ {P U M S : Type 0} where
  unfoldable pub attached_to_player_notification : Data P U M S → Data P U M S
  attached_to_player_notification d = record d {
    reported_playback_state_ = reset;
    is_attached_ = true;
  }

  unfoldable pub detached_from_player_notification : Data P U M S → Data P U M S
  detached_from_player_notification d =
      set_intention (record d { is_attached_ = false; reported_playback_state_ = reset })
        UserIntention.nothing

  unfoldable pub set_reported_playback_state :
      Data P U M S → ReportedRepeatMode → ReportedShuffleMode → Data P U M S × Bool
  set_reported_playback_state d repeat_mode shuffle_mode =
      let (s, changed) = set d.reported_playback_state_ repeat_mode shuffle_mode in
      if d.is_attached_ then (record d { reported_playback_state_ = s }, changed) else (d, false)

  unfoldable pub update_track_times :
      Data P U M S → AnyStream → Option ℕ → Option ℕ → Data P U M S × Bool
  update_track_times d stream_id position duration =
      let (info, changed) = update_times d.now_playing_ position duration in
      if is_stream d.now_playing_ stream_id
      then (record d { now_playing_ = info }, changed)
      else (d, false)

module _ {S : Type 0} (le_speed : S → S → Bool) (normal_speed zero_speed : S) where
  unfoldable pub is_regular_speed : S → Bool
  is_regular_speed s = le_speed s normal_speed && le_speed normal_speed s

  unfoldable pub is_playing_forward : S → Bool
  is_playing_forward s = le_speed zero_speed s

  unfoldable pub visible_speed : S → VisibleStreamState
  visible_speed s =
      if is_regular_speed s
      then VisibleStreamState.playing
      else if is_playing_forward s
      then VisibleStreamState.fast_forward
      else VisibleStreamState.fast_rewind

  unfoldable pub visible_state : PlayerState → S → VisibleStreamState
  visible_state PlayerState.stopped s = VisibleStreamState.stopped
  visible_state PlayerState.buffering s = VisibleStreamState.buffering
  visible_state PlayerState.paused s = VisibleStreamState.paused
  visible_state PlayerState.playing s = visible_speed s

  unfoldable pub get_current_visible_stream_state :
      {P U M : Type 0} → Data P U M S → VisibleStreamState
  get_current_visible_stream_state d = visible_state d.player_state_ d.playback_speed_

  unfoldable pub update_playback_speed :
      {P U M : Type 0} → Data P U M S → AnyStream → S → Data P U M S × Bool
  update_playback_speed d stream_id speed =
      if not (is_stream d.now_playing_ stream_id) then (d, false) else (
        record d { playback_speed_ = speed },
        not (same_bool (is_regular_speed speed) (is_regular_speed d.playback_speed_))
            || not (same_bool (is_playing_forward speed) (is_playing_forward d.playback_speed_)),
      )

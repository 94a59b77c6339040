-- ===== src/Player/NowPlaying.antt =====
-- src/player_data.hh and src/player_data.cc: what is said of the stream that is being played, and
-- the playback modes (src/playback_modes.hh) that the player has reported. `U` is the type of URLs,
-- `M` that of meta data. `on_remove_cb_` is known by the streams it was called for. A time is
-- `none` where it is negative in the source.
use drcpd.Common.{
  ℕ, Bool, true, false, not, ◌&&◌, ◌||◌, Option, none, some, List, [], ◌∷◌, ◌==◌, if◌then◌else◌,
}
use drcpd.Player.QueuedStreams.{same_id}

-- A stream ID is invalid, one of ours, or one of another source.
pub data AnyStream : Type 0 where
  invalid : AnyStream
  ours : ℕ → AnyStream
  foreign : ℕ → AnyStream

unfoldable pub make_from_generic_id : AnyStream → Option ℕ
make_from_generic_id invalid = none
make_from_generic_id (ours id) = some id
make_from_generic_id (foreign id) = none

unfoldable pub is_valid : AnyStream → Bool
is_valid invalid = false
is_valid (ours id) = true
is_valid (foreign id) = true

unfoldable pub same_stream : AnyStream → AnyStream → Bool
same_stream invalid invalid = true
same_stream invalid (ours b) = false
same_stream invalid (foreign b) = false
same_stream (ours a) invalid = false
same_stream (ours a) (ours b) = a == b
same_stream (ours a) (foreign b) = false
same_stream (foreign a) invalid = false
same_stream (foreign a) (ours b) = false
same_stream (foreign a) (foreign b) = a == b

pub record NowPlayingInfo (U M : Type 0) : Type 0 where
  pub stream_id_ : AnyStream
  pub stream_position_ : Option ℕ
  pub stream_duration_ : Option ℕ
  pub on_remove_cb_ : List AnyStream
  pub meta_data_ : Option M
  pub stream_url_ : Option U

unfoldable pub removed : AnyStream → List AnyStream → List AnyStream
unfolding is_valid
removed id log = if is_valid id then id ∷ log else log

module _ {U M : Type 0} where
  unfoldable pub construct : NowPlayingInfo U M
  construct = record {
    stream_id_ = invalid;
    stream_position_ = none;
    stream_duration_ = none;
    on_remove_cb_ = [];
    meta_data_ = none;
    stream_url_ = none;
  }

  -- The assertions that the stream is valid and another one than before stand in Player.Data.Asserted.
  unfoldable pub now_playing : NowPlayingInfo U M → AnyStream → U → NowPlayingInfo U M
  unfolding removed
  now_playing info stream_id stream_url = record info {
    on_remove_cb_ = removed info.stream_id_ info.on_remove_cb_;
    stream_id_ = stream_id;
    stream_url_ = some stream_url;
  }

  unfoldable pub nothing : NowPlayingInfo U M → NowPlayingInfo U M
  unfolding removed
  nothing info = record {
    stream_id_ = invalid;
    stream_position_ = none;
    stream_duration_ = none;
    on_remove_cb_ = removed info.stream_id_ info.on_remove_cb_;
    meta_data_ = none;
    stream_url_ = none;
  }

  -- `add_url` writes the URL into the meta data.
  unfoldable pub put_meta_data :
      (M → Option U → M) → NowPlayingInfo U M → AnyStream → M → NowPlayingInfo U M × Bool
  unfolding same_stream
  put_meta_data add_url info stream_id meta_data =
      if same_stream stream_id info.stream_id_
      then (record info { meta_data_ = some (add_url meta_data info.stream_url_) }, true)
      else (info, false)

  unfoldable pub get_meta_data : NowPlayingInfo U M → AnyStream → Option M
  unfolding same_stream is_valid
  get_meta_data info stream_id =
      if is_valid stream_id && not (same_stream stream_id info.stream_id_)
      then none
      else info.meta_data_

  unfoldable pub is_stream : NowPlayingInfo U M → AnyStream → Bool
  unfolding same_stream
  is_stream info id = same_stream info.stream_id_ id

  unfoldable pub update_times : NowPlayingInfo U M → Option ℕ → Option ℕ → NowPlayingInfo U M × Bool
  unfolding same_id
  update_times info position duration =
      if same_id info.stream_position_ position && same_id info.stream_duration_ duration
      then (info, false)
      else (record info { stream_position_ = position; stream_duration_ = duration }, true)

pub data ReportedRepeatMode : Type 0 where
  repeat_off all one unknown : ReportedRepeatMode

pub data ReportedShuffleMode : Type 0 where
  shuffle_off shuffle_on unknown : ReportedShuffleMode

unfoldable pub same_repeat : ReportedRepeatMode → ReportedRepeatMode → Bool
same_repeat ReportedRepeatMode.repeat_off ReportedRepeatMode.repeat_off = true
same_repeat ReportedRepeatMode.all ReportedRepeatMode.all = true
same_repeat ReportedRepeatMode.one ReportedRepeatMode.one = true
same_repeat ReportedRepeatMode.unknown ReportedRepeatMode.unknown = true
same_repeat a b = false

unfoldable pub same_shuffle : ReportedShuffleMode → ReportedShuffleMode → Bool
same_shuffle ReportedShuffleMode.shuffle_off ReportedShuffleMode.shuffle_off = true
same_shuffle ReportedShuffleMode.shuffle_on ReportedShuffleMode.shuffle_on = true
same_shuffle ReportedShuffleMode.unknown ReportedShuffleMode.unknown = true
same_shuffle a b = false

pub record ReportedPlaybackState : Type 0 where
  pub repeat_mode_ : ReportedRepeatMode
  pub shuffle_mode_ : ReportedShuffleMode

unfoldable pub reset : ReportedPlaybackState
reset = record {
  repeat_mode_ = ReportedRepeatMode.unknown;
  shuffle_mode_ = ReportedShuffleMode.unknown;
}

unfoldable pub set :
    ReportedPlaybackState → ReportedRepeatMode → ReportedShuffleMode → ReportedPlaybackState × Bool
unfolding same_repeat same_shuffle
set s repeat_mode shuffle_mode = (
  record { repeat_mode_ = repeat_mode; shuffle_mode_ = shuffle_mode },
  not (same_repeat repeat_mode s.repeat_mode_) || not (same_shuffle shuffle_mode s.shuffle_mode_),
)

-- ===== src/Player/AudioSource.antt =====
-- src/audiosource.hh: an audio source and its selection. `U` and `P` are the types of D-Bus proxies
-- for URL FIFO and playback, `none` is a null pointer; `C` and `D` are the types of resume data.
-- The callback is known by the pairs of states that it was told, previous and new, latest first.
pub mod Laws
use drcpd.Common.{ℕ, Bool, true, false, Option, none, some, List, [], ◌∷◌, if◌then◌else◌}

pub data AudioSourceState : Type 0 where
  deselected requested selected : AudioSourceState

pub record AudioSource (U P C D : Type 0) : Type 0 where
  pub state_ : AudioSourceState
  pub urlfifo_proxy_ : Option U
  pub playback_proxy_ : Option P
  pub playback_proxy_for_forced_commands_ : Option P
  pub reject_proxies_ : Bool
  pub crawler_data_ : Option C
  pub plain_url_data_ : Option D
  pub state_changed_callback_ : List (AudioSourceState × AudioSourceState)

unfoldable pub same : AudioSourceState → AudioSourceState → Bool
same deselected deselected = true
same requested requested = true
same selected selected = true
same s t = false

module _ {U P C D : Type 0} where
  unfoldable pub construct : AudioSource U P C D
  construct = record {
    state_ = AudioSourceState.deselected;
    urlfifo_proxy_ = none;
    playback_proxy_ = none;
    playback_proxy_for_forced_commands_ = none;
    reject_proxies_ = false;
    crawler_data_ = none;
    plain_url_data_ = none;
    state_changed_callback_ = [];
  }

  unfoldable pub set_state : AudioSource U P C D → AudioSourceState → AudioSource U P C D
  unfolding same
  set_state src new_state = if same new_state src.state_ then src else record src {
    state_ = new_state;
    state_changed_callback_ = (src.state_, new_state) ∷ src.state_changed_callback_;
  }

  unfoldable pub block_player_commands : AudioSource U P C D → AudioSource U P C D
  block_player_commands src = record src { reject_proxies_ = true }

  unfoldable pub set_proxies : AudioSource U P C D → Option U → Option P → AudioSource U P C D
  set_proxies src urlfifo playback =
      if src.reject_proxies_
      then record src { playback_proxy_for_forced_commands_ = playback }
      else record src {
        playback_proxy_for_forced_commands_ = playback;
        urlfifo_proxy_ = urlfifo;
        playback_proxy_ = playback;
      }

  unfoldable pub get_playback_proxy : AudioSource U P C D → Bool → Option P
  get_playback_proxy src force =
      if force then src.playback_proxy_for_forced_commands_ else src.playback_proxy_

  unfoldable pub deselected_notification : AudioSource U P C D → AudioSource U P C D
  unfolding set_state
  deselected_notification src = record (set_state src AudioSourceState.deselected) {
    urlfifo_proxy_ = none;
    playback_proxy_ = none;
    playback_proxy_for_forced_commands_ = none;
  }

  unfoldable pub request : AudioSource U P C D → AudioSource U P C D
  unfolding set_state
  request src = elim src.state_ [
    | deselected ↦ set_state src AudioSourceState.requested
    | requested ↦ src
    | selected ↦ src
  ]

  unfoldable pub selected_notification : AudioSource U P C D → AudioSource U P C D
  unfolding set_state
  selected_notification src = elim src.state_ [
    | deselected ↦ src
    | requested ↦ set_state src AudioSourceState.selected
    | selected ↦ src
  ]

  unfoldable pub select_now : AudioSource U P C D → AudioSource U P C D
  unfolding set_state
  select_now src = elim src.state_ [
    | requested ↦ set_state src AudioSourceState.selected
    | deselected ↦ set_state src AudioSourceState.selected
    | selected ↦ src
  ]

  unfoldable pub resume_data_reset : AudioSource U P C D → AudioSource U P C D
  resume_data_reset src = record src { crawler_data_ = none; plain_url_data_ = none }

  unfoldable pub update_crawler_data : AudioSource U P C D → C → AudioSource U P C D
  update_crawler_data src d = record src { crawler_data_ = some d }

  unfoldable pub update_plain_url_data : AudioSource U P C D → D → AudioSource U P C D
  update_plain_url_data src d = record src { plain_url_data_ = some d }

-- ===== src/Busy.antt =====
-- src/busy.hh and src/busy.cc: the global busy state.
-- A `uint32_t` of flags is the list of its 32 bits, lowest first. Locks are left out: each
-- operation is one step. The callback is taken to be set, and is
-- known by the values it was called with, latest first.
pub mod Cells
pub mod Calls
pub mod Counters
pub mod Notifications
pub mod Laws
use drcpd.Common.{
  ℕ, zero, suc, ◌+◌, ◌-◌, Bool, true, false, not, ◌&&◌, ◌||◌, List, [], ◌∷◌, ltb, ◌==◌,
  if◌then◌else◌, replicate,
}

pub data Source : Type 0 where
  waiting_for_player filling_player_queue buffering_stream : Source
  getting_list_id getting_parent_link getting_list_context_root_link getting_item_uri : Source
  getting_item_stream_links getting_list_range checking_list_range resuming_playback : Source
  getting_location_trace realizing_location_trace : Source

pub data DirectSource : Type 0 where
  waiting_for_appliance_audio : DirectSource

-- The values of the enumerators.
unfoldable pub value : Source → ℕ
value waiting_for_player = 0
value filling_player_queue = 1
value buffering_stream = 2
value getting_list_id = 3
value getting_parent_link = 4
value getting_list_context_root_link = 5
value getting_item_uri = 6
value getting_item_stream_links = 7
value getting_list_range = 8
value checking_list_range = 9
value resuming_playback = 10
value getting_location_trace = 11
value realizing_location_trace = 12

-- `1U << n` in a word of `w` bits.
unfoldable pub bit_at : ℕ → ℕ → List Bool
bit_at zero n = []
bit_at (suc w) zero = true ∷ replicate w false
bit_at (suc w) (suc n) = false ∷ bit_at w n

pub make_mask : Source → List Bool
make_mask src = bit_at 32 (value src)

pub make_direct_mask : DirectSource → List Bool
make_direct_mask waiting_for_appliance_audio = bit_at 32 (value realizing_location_trace + 1)

pub record GlobalBusyState : Type 0 where
  pub busy_flags_ : List Bool
  pub busy_counts_ : List ℕ
  pub last_read_busy_state_ : Bool
  pub last_notified_busy_state_ : Bool
  pub notify_busy_state_changed_ : List Bool

unfoldable pub is_nonzero : List Bool → Bool
is_nonzero [] = false
is_nonzero (b ∷ bs) = b || is_nonzero bs

pub is_busy__uncached : GlobalBusyState → Bool
is_busy__uncached s = is_nonzero s.busy_flags_

-- `has_busy_state_changed`, against a previous state.
unfoldable pub has_busy_state_changed : GlobalBusyState → Bool → Bool
has_busy_state_changed s previous =
    if previous then not (is_busy__uncached s) else is_busy__uncached s

unfoldable pub notify_if_necessary : GlobalBusyState → GlobalBusyState × Bool
notify_if_necessary s =
    if has_busy_state_changed s s.last_notified_busy_state_
    then (
      record s {
        last_notified_busy_state_ = not s.last_notified_busy_state_;
        notify_busy_state_changed_ = not s.last_notified_busy_state_ ∷ s.notify_busy_state_changed_;
      },
      true,
    )
    else (s, false)

unfoldable pub or_bits : List Bool → List Bool → List Bool
or_bits (a ∷ flags) (b ∷ mask) = (a || b) ∷ or_bits flags mask
or_bits flags mask = flags

unfoldable pub and_not_bits : List Bool → List Bool → List Bool
and_not_bits (a ∷ flags) (b ∷ mask) = (a && not b) ∷ and_not_bits flags mask
and_not_bits flags mask = flags

-- A counter is an `unsigned short`.
unfoldable pub increment : ℕ → ℕ
increment count = if ltb count 65535 then count + 1 else count

unfoldable pub decrement : ℕ → ℕ
decrement count = if ltb 0 count then count - 1 else count

-- The loops of `set` and `clear` over the counters, and over the flags of those that reach 0.
unfoldable pub count_up : List ℕ → List Bool → List ℕ
unfolding increment
count_up (c ∷ counts) (b ∷ mask) = (if b then increment c else c) ∷ count_up counts mask
count_up counts mask = counts

unfoldable pub count_down : List ℕ → List Bool → List ℕ
unfolding decrement
count_down (c ∷ counts) (b ∷ mask) = (if b then decrement c else c) ∷ count_down counts mask
count_down counts mask = counts

unfoldable pub clear_flags : List Bool → List ℕ → List Bool → List Bool
unfolding decrement
clear_flags (a ∷ flags) (c ∷ counts) (b ∷ mask) =
    (if b && decrement c == 0 then false else a) ∷ clear_flags flags counts mask
clear_flags flags counts mask = flags

unfoldable pub set : GlobalBusyState → List Bool → GlobalBusyState × Bool
set s mask = notify_if_necessary (record s {
  busy_flags_ = or_bits s.busy_flags_ mask;
  busy_counts_ = count_up s.busy_counts_ mask;
})

unfoldable pub clear : GlobalBusyState → List Bool → GlobalBusyState × Bool
clear s mask = notify_if_necessary (record s {
  busy_flags_ = clear_flags s.busy_flags_ s.busy_counts_ mask;
  busy_counts_ = count_down s.busy_counts_ mask;
})

unfoldable pub set_direct : GlobalBusyState → List Bool → GlobalBusyState × Bool
set_direct s mask = notify_if_necessary (record s { busy_flags_ = or_bits s.busy_flags_ mask })

unfoldable pub clear_direct : GlobalBusyState → List Bool → GlobalBusyState × Bool
clear_direct s mask =
    notify_if_necessary (record s { busy_flags_ = and_not_bits s.busy_flags_ mask })

unfoldable pub is_busy : GlobalBusyState → GlobalBusyState × Bool
is_busy s = (record s { last_read_busy_state_ = is_busy__uncached s }, is_busy__uncached s)

-- `set_callback`: a new callback is told the state in any case.
unfoldable pub set_callback : GlobalBusyState → GlobalBusyState
set_callback s =
    (notify_if_necessary (record s {
      last_notified_busy_state_ = not (is_busy__uncached s);
      notify_busy_state_changed_ = [];
    })).0

unfoldable pub reset : GlobalBusyState
reset = record {
  busy_flags_ = replicate 32 false;
  busy_counts_ = replicate 32 0;
  last_read_busy_state_ = false;
  last_notified_busy_state_ = false;
  notify_busy_state_changed_ = [];
}

-- `Busy::init`.
unfoldable pub init : GlobalBusyState
init = (clear (set_callback reset) (replicate 32 true)).0

-- ===== src/Player/Skipper.antt =====
-- src/player_control_skipper.hh and src/player_control_skipper.cc: skipping in the list that is
-- played. A find-next operation is known by a number; what its start and the callback `done`
-- answer is a parameter. `done` is known by the operations it was called with, latest first, and a
-- cancelled operation is one of `cancelled`.
pub mod Laws
use drcpd.Common.{
  ℕ, zero, suc, Bool, true, false, not, ◌&&◌, Option, none, some, List, [], ◌∷◌, ltb, if◌then◌else◌,
}
use drcpd.Common.Ints.{ℤ, pos, negsuc, sucℤ, predℤ, is_zero, is_positive}
use drcpd.Player.Data.{UserIntention, PlayerState}

pub data RequestResult : Type 0 where
  rejected first_skip_request_pending first_skip_request_suppressed : RequestResult
  skipping back_to_normal failed : RequestResult

pub data PositionalState : Type 0 where
  somewhere_in_list reached_start_of_list reached_end_of_list unknown : PositionalState

pub data Direction : Type 0 where
  forward backward : Direction

abbrev pub max_pending_skip_requests : ℕ
max_pending_skip_requests = 0

-- The skipper, with the intention of the player's data, which it sets.
pub record Skipper : Type 0 where
  pub find_next_op_ : Option ℕ
  pub pending_skip_requests_ : ℤ
  pub intention_ : UserIntention
  pub cancelled : List ℕ
  pub done : List (Option ℕ)

unfoldable pub construct : UserIntention → Skipper
construct intention = record {
  find_next_op_ = none;
  pending_skip_requests_ = pos 0;
  intention_ = intention;
  cancelled = [];
  done = [];
}

-- The intention to skip, if there is one.
unfoldable pub skipping_intention : UserIntention → Option UserIntention
skipping_intention UserIntention.nothing = none
skipping_intention UserIntention.stopping = none
skipping_intention UserIntention.pausing = some UserIntention.skipping_paused
skipping_intention UserIntention.listening = some UserIntention.skipping_live
skipping_intention UserIntention.skipping_paused = some UserIntention.skipping_paused
skipping_intention UserIntention.skipping_live = some UserIntention.skipping_live

unfoldable pub set_intention_for_skipping : Skipper → Skipper × Bool
unfolding skipping_intention
set_intention_for_skipping s = elim (skipping_intention s.intention_) [
  | none ↦ (s, false)
  | some intention ↦ (record s { intention_ = intention }, true)
]

unfoldable pub is_idle_intention : UserIntention → Bool
is_idle_intention UserIntention.nothing = true
is_idle_intention UserIntention.stopping = true
is_idle_intention UserIntention.pausing = false
is_idle_intention UserIntention.listening = false
is_idle_intention UserIntention.skipping_paused = false
is_idle_intention UserIntention.skipping_live = false

unfoldable pub should_reject_skip_request : PlayerState → UserIntention → Bool
unfolding is_idle_intention
should_reject_skip_request PlayerState.stopped intention = is_idle_intention intention
should_reject_skip_request PlayerState.buffering intention = false
should_reject_skip_request PlayerState.playing intention = false
should_reject_skip_request PlayerState.paused intention = false

unfoldable pub cancel : Option ℕ → List ℕ → List ℕ
cancel none log = log
cancel (some op) log = op ∷ log

unfoldable pub reset__unlocked : Skipper → Skipper
unfolding cancel
reset__unlocked s = record s {
  find_next_op_ = none;
  pending_skip_requests_ = pos 0;
  cancelled = cancel s.find_next_op_ s.cancelled;
}

-- `do_revert` is the answer of the function, if there is one.
unfoldable pub reset : Skipper → Option (Option ℕ) → Skipper
unfolding reset__unlocked
reset s none = reset__unlocked s
reset s (some op) = record (reset__unlocked s) { find_next_op_ = op }

unfoldable pub is_some : Option ℕ → Bool
is_some none = false
is_some (some op) = true

-- Has the count reached its bound in this direction? And the count after another request.
unfoldable pub reaches : Direction → ℤ → Bool
reaches Direction.forward (pos n) = not (ltb n max_pending_skip_requests)
reaches Direction.forward (negsuc n) = false
reaches Direction.backward (pos zero) = not (ltb 0 max_pending_skip_requests)
reaches Direction.backward (pos (suc n)) = false
reaches Direction.backward (negsuc n) = not (ltb (suc n) max_pending_skip_requests)

unfoldable pub one_more : Direction → ℤ → ℤ
one_more Direction.forward n = sucℤ n
one_more Direction.backward n = predℤ n

-- The first request, once the intention is known; `started` is the new operation.
unfoldable pub start : Skipper → Option ℕ → Skipper × RequestResult
unfolding reset__unlocked set_intention_for_skipping
start s started =
    let (s', accepted) = set_intention_for_skipping s in
    if not accepted then (s', rejected) else elim started [
      | none ↦ (reset__unlocked (record s' { find_next_op_ = none }), failed)
      | some op ↦ (record s' { find_next_op_ = some op }, first_skip_request_pending)
    ]

-- `forward_request` and `backward_request`. The callback `done` is there: the source insists on
-- it. `has_pos` tells whether there is a position.
unfoldable pub request :
    Direction → Skipper → PlayerState → Bool → Option ℕ → Skipper × RequestResult
unfolding should_reject_skip_request reaches one_more start is_some reset__unlocked
request direction s player_state has_pos started =
    let next = one_more direction s.pending_skip_requests_ in
    if not has_pos
    then (s, failed)
    else if should_reject_skip_request player_state s.intention_
    then (s, rejected)
    else if not (is_zero s.pending_skip_requests_)
    then (if reaches direction s.pending_skip_requests_
        then (s, rejected)
        else if not (is_zero next)
        then (record s { pending_skip_requests_ = next }, skipping)
        else (reset__unlocked (record s { pending_skip_requests_ = next }), back_to_normal))
    else if is_some s.find_next_op_
    then (
      if ltb 0 max_pending_skip_requests then record s { pending_skip_requests_ = next } else s,
      skipping,
    )
    else start s started

unfoldable pub at_boundary : PositionalState → Bool
at_boundary PositionalState.somewhere_in_list = false
at_boundary PositionalState.reached_start_of_list = true
at_boundary PositionalState.reached_end_of_list = true
at_boundary PositionalState.unknown = false

-- The operation is handed over to `done`.
unfoldable pub finish : Skipper → Skipper
unfolding reset__unlocked
finish s = record (reset__unlocked (record s { find_next_op_ = none })) {
  done = s.find_next_op_ ∷ s.done;
}

-- The count after one of the pending requests is carried out.
unfoldable pub one_less : ℤ → ℤ
one_less n = if is_positive n then predℤ n else sucℤ n

-- The answer tells whether `done` was called.
unfoldable pub found_or_failed : Skipper → Bool → PositionalState → Option ℕ → Skipper × Bool
unfolding at_boundary finish one_less
found_or_failed s is_successful pos_state started =
    let n = if at_boundary pos_state then pos 0 else s.pending_skip_requests_ in
    let s' = record s { pending_skip_requests_ = one_less n } in
    if not is_successful
    then (finish s, true)
    else if is_zero n
    then (finish (record s { pending_skip_requests_ = n }), true)
    else elim started [
      | none ↦ (finish (record s' { find_next_op_ = none }), true)
      | some op ↦ (record s' { find_next_op_ = some op }, false)
    ]

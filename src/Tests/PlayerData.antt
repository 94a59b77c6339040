-- ===== src/Tests/PlayerData.antt =====
-- The player's data (src/player_data.cc) and the skipper (src/player_control_skipper.cc) at concrete
-- inputs: two streams of list 7, of which one is playing.
use drcpd.Common.{
  ◌⊎◌, ◌++◌, ℕ, zero, suc, ◌+◌, ◌-◌, ◌≤◌, arith, ◌⊎◌, Bool, true, false, ◌≡◌, refl, Option, none,
  some, List, [], ◌∷◌, All,
}
use drcpd.Common.Ints.{pos}
use drcpd.Player.QueuedStreams.{
  StreamState, QueuedStream, QueuedStreams, ids_of, is_in, remove_anywhere, erase_stream,
  find_stream,
}
use drcpd.Player.QueuedStreams.Counts.{count}
use drcpd.Player.QueuedStreams.Laws.{Inv}
use drcpd.Player.QueuedStreams.FreeId.{RunsOn, iterate}
use drcpd.Player.NowPlaying.{AnyStream, ours, foreign}
use drcpd.Player.Data.{Data, player_dropped_from_queue, player_rejected_unplayed_stream}
use drcpd.Player.Data.Playback.{construct}
use drcpd.Player.Data.Refs.{count_of, listed, unit_if}
use drcpd.Player.RefCounts.{find_count}
use drcpd.Player.Data.Laws.{Counted}
use drcpd.Player.Data.Drops.{player_dropped_from_queue_lem}
use drcpd.Player.Data.Runs
use drcpd.Player.Data.Runs.{takes_back}
use drcpd.Player.Data.Asserted.{holds_throughout, run_asserted, run_asserted-references}
use drcpd.Player.Data.Sessions.{reject_unrefs_twice}
use drcpd.Player.Data.{UserIntention, PlayerState}
use drcpd.Player.Skipper
use drcpd.Player.Skipper.{
  Skipper, RequestResult, PositionalState, Direction, request, is_some, skipping_intention,
}
use drcpd.Player.Skipper.Laws
use drcpd.Player.Skipper.Laws.{starts, run-accounts, is_known, active, times_cancelled, times_done}

abbrev two_streams : QueuedStreams ℕ
two_streams = record {
  streams_ =
      record { stream_id_ = 2; list_id_ = 7; state_ = StreamState.queued; payload = 0 }
      ∷ record { stream_id_ = 1; list_id_ = 7; state_ = StreamState.current; payload = 0 }
      ∷ [];
  queue_ = 2 ∷ [];
  stream_in_flight_ = some 1;
  next_free_stream_id_ = 3;
  on_remove_cb_ = [];
}

-- The type of speeds is that of numbers here, with 1 as the normal one.
abbrev playing : Data ℕ ℕ ℕ ℕ
playing = record (construct 1 3) { queued_streams_ = two_streams; referenced_lists_ = (7, 2) ∷ [] }

two_streams-Inv : Inv two_streams
unfolding ids_of
two_streams-Inv = record {
  known = λ i. omega arith;
  once = λ i. ground arith;
  bounded = omega arith;
}

playing-Counted : Counted true playing
unfolding count_of listed find_count unit_if
playing-Counted = record { quiet = refl; at_most = λ l. ground arith; exact = λ e l. ground arith }

iterated : (n id : ℕ) → iterate suc n id ≡ n + id
iterated zero id = omega arith
iterated (suc n) id = omega (arith, iterated n (suc id))

suc-RunsOn : RunsOn suc 21
suc-RunsOn id n h b = omega (arith, iterated n id)

abbrev session : List (Runs.Op ℕ ℕ)
session =
    Runs.appends 7 0
    ∷ Runs.appends 8 0
    ∷ Runs.plays_next
    ∷ Runs.plays (ours 5) 0
    ∷ Runs.removes 6
    ∷ []

run_asserted-references_example :
    let start : Data ℕ ℕ ℕ ℕ = construct 1 5 in
    ((holds_throughout suc 1 start session ≡ false) × (run_asserted suc 1 start session ≡ none))
    ⊎ ((d : Data ℕ ℕ ℕ ℕ) × (holds_throughout suc 1 start session ≡ true)
        × (run_asserted suc 1 start session ≡ some d)
        × Inv d.queued_streams_
        × ((l : ℕ) → count_of l d.referenced_lists_ ≤ listed l d.queued_streams_.streams_)
        × (All (λ op. takes_back op ≡ false) session
            → (l : ℕ) → count_of l d.referenced_lists_ ≡ listed l d.queued_streams_.streams_))
run_asserted-references_example = run_asserted-references 1 suc suc-RunsOn 5 session

player_dropped_from_queue_lem_example :
    let dropped = ours 2 ∷ foreign 9 ∷ [] in
    (d' : Data ℕ ℕ ℕ ℕ) × (ok : Bool) × (player_dropped_from_queue 1 playing dropped
      ≡ some (d', ok))
    × Inv d'.queued_streams_
    × (ok ≡ false → (d'.queued_streams_.streams_ ≡ []) × (d'.playback_speed_ ≡ 1))
    × (ok ≡ true
        → (d'.queued_streams_.queue_ ≡ [])
          ⊎ ((before after : List AnyStream) (i : ℕ)
              → dropped ≡ before ++ ours i ∷ after
              → count i (ids_of d'.queued_streams_.streams_) ≡ 0))
player_dropped_from_queue_lem_example =
    player_dropped_from_queue_lem 1 playing (ours 2 ∷ foreign 9 ∷ []) two_streams-Inv

abbrev rejected_stream : QueuedStream ℕ
rejected_stream = record {
  stream_id_ = 2;
  list_id_ = 7;
  state_ = StreamState.about_to_die;
  payload = 0;
}

rejected-removed : (remove_anywhere two_streams 2).1 ≡ some rejected_stream
unfolding remove_anywhere is_in erase_stream find_stream
rejected-removed = refl

reject_unrefs_twice_example :
    let d' = player_rejected_unplayed_stream playing (ours 2) in
    count_of 7 d'.referenced_lists_ ≡ listed 7 d'.queued_streams_.streams_ - 1
reject_unrefs_twice_example =
    reject_unrefs_twice playing 2 rejected_stream playing-Counted rejected-removed

abbrev fourth : Option ℕ
fourth = some 4

abbrev presses : List Laws.Event
presses =
    Laws.requested Direction.forward PlayerState.playing true (some 4)
    ∷ Laws.requested Direction.backward PlayerState.playing true (some 5)
    ∷ Laws.completed true PositionalState.somewhere_in_list none
    ∷ Laws.requested Direction.forward PlayerState.playing true (some 6)
    ∷ Laws.is_reset none
    ∷ []

run-accounts_example :
    let start = Skipper.construct UserIntention.listening in
    let s = Laws.run start presses in
    (s.pending_skip_requests_ ≡ pos 0)
    × (is_known s.done ≡ true)
    × (active 4 s + times_cancelled 4 s.cancelled + times_done 4 s.done ≡ starts 4 start presses)
run-accounts_example = run-accounts UserIntention.listening presses 4

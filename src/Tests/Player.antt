-- ===== src/Tests/Player.antt =====
-- Parts of the player (src/player_stopped_reason.hh, src/audiosource.hh, src/player_data.cc) at
-- concrete inputs.
use drcpd.Common.{
  ℕ, zero, suc, ◌+◌, arith, ◌||◌, true, ◌≡◌, refl, false, Option, none, some, List, [], ◌∷◌, ◌++◌,
}
use drcpd.Player.StoppedReason.{Domain, Code, parse, find_dot, lookup_code, text_data, is_same}
use drcpd.Player.StoppedReason.Laws.{parse_right}
use drcpd.Player.QueuedStreams.{
  StreamState, QueuedStream, QueuedStreams, same_id, front, ids_of, shift,
  construct as construct_streams,
}
use drcpd.Player.QueuedStreams.Laws.{Inv, shift_right}
use drcpd.Player.QueuedStreams.FreeId.{RunsOn, iterate}
use drcpd.Player.QueuedStreams.Runs
use drcpd.Player.QueuedStreams.Runs.{run as run_streams, run-construct-Inv}
use drcpd.Player.AudioSource.{construct}
use drcpd.Player.AudioSource.Laws.{
  Op, run, Leads, run-construct, is_requested, is_selected, is_deselected, gets_proxies,
}

abbrev text_codec : List ℕ
text_codec = b'c' ∷ b'o' ∷ b'd' ∷ b'e' ∷ b'c' ∷ []

-- The identifier "data.codec", which is in the table of the data errors.
parse_right_example :
    (parse text_data ≡ (Domain.unknown, Code.unknown))
    × (parse (text_data ++ b'.' ∷ text_codec) ≡ (Domain.io, Code.unknown))
unfolding find_dot lookup_code is_same
parse_right_example = parse_right text_data text_codec refl

abbrev selection : List (Op ℕ ℕ ℕ ℕ)
selection = is_requested ∷ is_selected ∷ gets_proxies (some 1) (some 2) ∷ is_deselected ∷ []

run-construct_example :
    let src = run construct selection in Leads src.state_changed_callback_ src.state_
run-construct_example = run-construct selection

abbrev songs : QueuedStreams ℕ
songs = record {
  streams_ =
      record { stream_id_ = 2; list_id_ = 7; state_ = StreamState.queued; payload = 0 }
      ∷ record { stream_id_ = 1; list_id_ = 7; state_ = StreamState.current; payload = 0 }
      ∷ [];
  queue_ = 2 ∷ [];
  stream_in_flight_ = some 1;
  next_free_stream_id_ = 3;
  on_remove_cb_ = [];
}

songs-Inv : Inv songs
unfolding ids_of
songs-Inv = record { known = λ i. omega arith; once = λ i. ground arith; bounded = omega arith }

iterate-suc : (n id : ℕ) → iterate suc n id ≡ n + id
iterate-suc zero id = omega arith
iterate-suc (suc n) id = omega (arith, iterate-suc n (suc id))

suc-RunsOn : RunsOn suc 21
suc-RunsOn id n h b = omega (arith, iterate-suc n id)

abbrev programme : List (Runs.Op ℕ)
programme =
    Runs.appends 7 0
    ∷ Runs.appends 7 0
    ∷ Runs.shifts_if_not_flying
    ∷ Runs.shifts (some 6)
    ∷ Runs.drops (6 ∷ [])
    ∷ []

run-construct-Inv_example :
    (q : QueuedStreams ℕ) × (run_streams suc (construct_streams 5) programme ≡ some q) × Inv q
run-construct-Inv_example = run-construct-Inv suc suc-RunsOn 5 programme

shift_right_example :
    let expected = same_id (front songs.queue_) (some 2) || same_id (some 1) (some 2) in
    (expected ≡ false → shift songs (some 2) ≡ none)
    × (expected ≡ true
        → (r : QueuedStreams ℕ × Option (QueuedStream ℕ)) × (shift songs (some 2) ≡ some r)
          × Inv r.0)
shift_right_example = shift_right songs (some 2) songs-Inv

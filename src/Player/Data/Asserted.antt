-- ===== src/Player/Data/Asserted.antt =====
-- The assertions that the operations on the player's data make of their arguments and of the state,
-- and runs that end where one of them fails (src/player_data.hh, src/player_data.cc).
use drcpd.Common.{
  ℕ, ◌≤◌, ◌≡◌, ◌⊎◌, refl, ◌∙◌, Bool, true, false, not, ◌&&◌, ◌||◌, Option, none, some, List, [],
  ◌∷◌, arith, ◌==◌, if◌then◌else◌, All, ◌>>=◌, Option-cases, Bool-cases, inl, inr,
}
use drcpd.Player.QueuedStreams.{
  QueuedStream, StreamState, floating, queued, about_to_die, find_stream, same_id,
}
use drcpd.Player.QueuedStreams.FreeId.{RunsOn}
use drcpd.Player.QueuedStreams.Laws.{Inv}
use drcpd.Player.NowPlaying.{AnyStream, invalid, ours, foreign, make_from_generic_id, is_stream}
use drcpd.Player.Data.{Data, same_state, stream_has_changed}
use drcpd.Player.Data.Playback.{construct}
use drcpd.Player.Data.Refs.{count_of, listed}
use drcpd.Player.Data.Runs.{
  Op, appends, sends, recovers, removes, plays_next, idles, stops, removes_all, plays, is_in_state,
  rejects, drops, apply, run, takes_back,
}
use drcpd.Player.Data.Sessions.{run-references}

module _ {P : Type 0} where
  -- A stream that is about to die is not looked at.
  unfoldable pub was : Option (QueuedStream P) → StreamState → Bool
  was none state = true
  was (some s) state = same_state s.state_ about_to_die || same_state s.state_ state

unfoldable pub is_valid_stream : AnyStream → Bool
is_valid_stream invalid = false
is_valid_stream (ours id) = true
is_valid_stream (foreign id) = true

module _ {P U M S : Type 0} (next_id : ℕ → ℕ) (normal_speed : S) where
  -- List 0 is the invalid one.
  unfoldable pub is_asserted : Data P U M S → Op P U → Bool
  unfolding was is_valid_stream
  is_asserted d (appends list_id payload) = not (list_id == 0)
  is_asserted d (sends id) = was (find_stream d.queued_streams_.streams_ id) floating
  is_asserted d (plays id url) =
      let d' : Data P U M S = elim (make_from_generic_id id) [
        | none ↦ d
        | some our_id ↦ (stream_has_changed normal_speed d id).0
      ] in
      is_valid_stream id && not (is_stream d'.now_playing_ id)
  is_asserted d (is_in_state id state) = elim (make_from_generic_id id) [
    | none ↦ true
    | some our_id ↦
        not (same_id d.queued_streams_.stream_in_flight_ (some our_id))
        || was (find_stream d.queued_streams_.streams_ our_id) queued
  ]
  is_asserted d (recovers id) = true
  is_asserted d (removes id) = true
  is_asserted d plays_next = true
  is_asserted d idles = true
  is_asserted d stops = true
  is_asserted d (removes_all all) = true
  is_asserted d (rejects id) = true
  is_asserted d (drops ids) = true

  -- A failed assertion is the end of the program: no result.
  unfoldable pub run_asserted : Data P U M S → List (Op P U) → Option (Data P U M S)
  run_asserted d [] = some d
  run_asserted d (op ∷ ops) =
      (if is_asserted d op then apply next_id normal_speed d op else none) >>= λ d'.
      run_asserted d' ops

  -- Do all assertions hold on the way?
  unfoldable pub holds_throughout : Data P U M S → List (Op P U) → Bool
  holds_throughout d [] = true
  holds_throughout d (op ∷ ops) =
      is_asserted d op
      && elim (apply next_id normal_speed d op) [ none ↦ true | some d' ↦ holds_throughout d' ops ]

  run_asserted_holds :
      (d : Data P U M S) (ops : List (Op P U))
      → holds_throughout d ops ≡ true
      → run_asserted d ops ≡ run next_id normal_speed d ops
  unfolding run_asserted holds_throughout run
  run_asserted_holds d [] h = refl
  run_asserted_holds d (op ∷ ops) h = elim (Option-cases (apply next_id normal_speed d op)) [
    | inl e ↦ ground (arith, h)
    | inr (d', e) ↦ let ih = run_asserted_holds d' ops (ground (arith, h)) in ground (arith, h)
  ]

  run_asserted_fails :
      (d : Data P U M S) (ops : List (Op P U))
      → holds_throughout d ops ≡ false
      → run_asserted d ops ≡ none
  unfolding run_asserted holds_throughout
  run_asserted_fails d [] h = absurd (ground (arith, h))
  run_asserted_fails d (op ∷ ops) h = elim (Bool-cases (is_asserted d op)) [
    | inr f ↦ ground arith
    | inl t ↦ elim (Option-cases (apply next_id normal_speed d op)) [
      | inl e ↦ ground arith
      | inr (d', e) ↦ let ih = run_asserted_fails d' ops (ground (arith, h)) in ground arith
    ]
  ]

-- If no ID comes again within 21 steps, any sequence of operations on new data either fails an
-- assertion of the code, which ends the program, or runs to its end. Then the IDs in the queue and
-- in flight are those of the streams, each of them there once, and at most 20 in the queue, no list
-- is referenced more often than there are streams of it, and if the player has taken back no stream,
-- each list is referenced exactly as often.
pub run_asserted-references :
    {P U M S : Type 0} (normal_speed : S) (next_id : ℕ → ℕ)
    → RunsOn next_id 21
    → (id : ℕ) (ops : List (Op P U))
    → let start : Data P U M S = construct normal_speed id in
      ((holds_throughout next_id normal_speed start ops ≡ false)
        × (run_asserted next_id normal_speed start ops ≡ none))
      ⊎ ((d : Data P U M S) × (holds_throughout next_id normal_speed start ops ≡ true)
          × (run_asserted next_id normal_speed start ops ≡ some d)
          × Inv d.queued_streams_
          × ((l : ℕ) → count_of l d.referenced_lists_ ≤ listed l d.queued_streams_.streams_)
          × (All (λ op. takes_back op ≡ false) ops
              → (l : ℕ) → count_of l d.referenced_lists_ ≡ listed l d.queued_streams_.streams_))
run_asserted-references {P} {U} {M} {S} normal_speed next_id ids_run_on id ops =
    let start : Data P U M S = construct normal_speed id in
    elim (Bool-cases (holds_throughout next_id normal_speed start ops)) [
      | inr f ↦ inl (f, run_asserted_fails next_id normal_speed start ops f)
      | inl t ↦
          let (d, e, v, at_most, exact) = run-references normal_speed next_id ids_run_on id ops in
          inr (d, t, run_asserted_holds next_id normal_speed start ops t ∙ e, v, at_most, exact)
    ]

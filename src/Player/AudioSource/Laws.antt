-- ===== src/Player/AudioSource/Laws.antt =====
-- Sequences of operations on an audio source (src/audiosource.hh).
use drcpd.Common.{true, false, Option, none, List, [], ◌∷◌, if_elim, ◌≡◌, ◌≢◌, refl, arith}
use drcpd.Player.AudioSource.{
  AudioSourceState, AudioSource, deselected, requested, selected, same, construct, set_state,
  block_player_commands, set_proxies, get_playback_proxy, deselected_notification, request,
  selected_notification, select_now, resume_data_reset, update_crawler_data, update_plain_url_data,
}

pub data Op (U P C D : Type 0) : Type 0 where
  blocks resets is_requested is_selected selects_now is_deselected : Op U P C D
  gets_proxies : Option U → Option P → Op U P C D
  updates_crawler_data : C → Op U P C D
  updates_plain_url_data : D → Op U P C D

module _ {U P C D : Type 0} where
  unfoldable pub apply : AudioSource U P C D → Op U P C D → AudioSource U P C D
  unfolding block_player_commands resume_data_reset request selected_notification select_now
      deselected_notification set_proxies update_crawler_data update_plain_url_data
  apply src blocks = block_player_commands src
  apply src resets = resume_data_reset src
  apply src is_requested = request src
  apply src is_selected = selected_notification src
  apply src selects_now = select_now src
  apply src is_deselected = deselected_notification src
  apply src (gets_proxies urlfifo playback) = set_proxies src urlfifo playback
  apply src (updates_crawler_data d) = update_crawler_data src d
  apply src (updates_plain_url_data d) = update_plain_url_data src d

  unfoldable pub run : AudioSource U P C D → List (Op U P C D) → AudioSource U P C D
  run src [] = src
  run src (op ∷ ops) = run (apply src op) ops

-- The callback's pairs, latest first, lead from the deselected state to the given one; each is a
-- change, and no selection is taken back to a mere request.
abbrev pub Leads : List (AudioSourceState × AudioSourceState) → AudioSourceState → Type 0
Leads [] s = s ≡ deselected
Leads ((s, t) ∷ changes) u =
    (t ≡ u) × (s ≢ t) × ((t ≡ requested) → (s ≡ deselected)) × Leads changes s

module _ {U P C D : Type 0} where
  set_state-Leads :
      (src : AudioSource U P C D) (s t : AudioSourceState)
      → ((t ≡ requested) → (s ≡ deselected))
      → Leads src.state_changed_callback_ s
      → let src' = set_state (record src { state_ = s }) t in
        Leads src'.state_changed_callback_ src'.state_
  unfolding set_state same
  set_state-Leads src deselected deselected h l = l
  set_state-Leads src deselected requested h l = (refl, ground arith, h, l)
  set_state-Leads src deselected selected h l = (refl, ground arith, h, l)
  set_state-Leads src requested deselected h l = (refl, ground arith, h, l)
  set_state-Leads src requested requested h l = l
  set_state-Leads src requested selected h l = (refl, ground arith, h, l)
  set_state-Leads src selected deselected h l = (refl, ground arith, h, l)
  set_state-Leads src selected requested h l = (refl, ground arith, h, l)
  set_state-Leads src selected selected h l = l

  apply-Leads :
      (src : AudioSource U P C D) (s : AudioSourceState) (op : Op U P C D)
      → Leads src.state_changed_callback_ s
      → let src' = apply (record src { state_ = s }) op in
        Leads src'.state_changed_callback_ src'.state_
  unfolding apply set_proxies
  apply-Leads src s blocks h = h
  apply-Leads src s resets h = h
  apply-Leads src deselected is_requested h = set_state-Leads src deselected requested (λ e. refl) h
  apply-Leads src requested is_requested h = h
  apply-Leads src selected is_requested h = h
  apply-Leads src deselected is_selected h = h
  apply-Leads src requested is_selected h =
      set_state-Leads src requested selected (λ e. absurd (ground arith)) h
  apply-Leads src selected is_selected h = h
  apply-Leads src deselected selects_now h =
      set_state-Leads src deselected selected (λ e. absurd (ground arith)) h
  apply-Leads src requested selects_now h =
      set_state-Leads src requested selected (λ e. absurd (ground arith)) h
  apply-Leads src selected selects_now h = h
  apply-Leads src s is_deselected h =
      set_state-Leads src s deselected (λ e. absurd (ground arith)) h
  apply-Leads src s (gets_proxies urlfifo playback) h =
      if_elim (λ (src' : AudioSource U P C D). Leads src'.state_changed_callback_ src'.state_)
        src.reject_proxies_ h h
  apply-Leads src s (updates_crawler_data d) h = h
  apply-Leads src s (updates_plain_url_data d) h = h

  run-Leads :
      (src : AudioSource U P C D) (ops : List (Op U P C D))
      → Leads src.state_changed_callback_ src.state_
      → let src' = run src ops in Leads src'.state_changed_callback_ src'.state_
  unfolding run
  run-Leads src [] h = h
  run-Leads src (op ∷ ops) h = run-Leads (apply src op) ops (apply-Leads src src.state_ op h)

  -- Over any operations on a new audio source, the callback is told every change of state and
  -- nothing else: what it was told leads from the deselected state to the present one.
  pub run-construct :
      (ops : List (Op U P C D))
      → let src = run (construct {U = U} {P = P} {C = C} {D = D}) ops in
        Leads src.state_changed_callback_ src.state_
  unfolding construct
  run-construct ops = run-Leads construct ops refl

  record Silent (src : AudioSource U P C D) : Type 0 where
    reject : src.reject_proxies_ ≡ true
    urlfifo : src.urlfifo_proxy_ ≡ none
    playback : src.playback_proxy_ ≡ none

  apply-Silent : (src : AudioSource U P C D) (op : Op U P C D) → Silent src → Silent (apply src op)
  unfolding apply
  apply-Silent src op h = ground arith

  run-Silent :
      (src : AudioSource U P C D) (ops : List (Op U P C D)) → Silent src → Silent (run src ops)
  unfolding run
  run-Silent src [] h = h
  run-Silent src (op ∷ ops) h = run-Silent (apply src op) ops (apply-Silent src op h)

  -- Once player commands are blocked, no operation makes the source hand out a proxy but for
  -- forced commands.
  pub run-block :
      (ops : List (Op U P C D))
      → let src = run (block_player_commands (construct {U = U} {P = P} {C = C} {D = D})) ops in
        (src.urlfifo_proxy_ ≡ none) × (get_playback_proxy src false ≡ none)
  unfolding block_player_commands construct get_playback_proxy
  run-block ops =
      let silent =
        run-Silent (block_player_commands construct) ops
          (record { reject = refl; urlfifo = refl; playback = refl }) in
      (silent.urlfifo, silent.playback)

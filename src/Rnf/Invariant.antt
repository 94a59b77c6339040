-- ===== src/Rnf/Invariant.antt =====
-- What holds of an RNF call (src/rnfcall.hh) at any time, and the states it goes through.
use drcpd.Common.{
  ℕ, ◌+◌, ◌<◌, ◌≡◌, ◌≢◌, refl, true, false, List, [], ◌∷◌, arith, if◌then◌else◌, if_elim, ◌==◌,
}
use drcpd.Rnf.{
  CallState, Call, Promise, initialized, wait_for_notification, ready_to_fetch, result_fetched,
  aborting, aborted_by_list_broker, failed, about_to_destroy, unset, value, exception, retrieved,
  construct, set_state, clear_cookie, notification, result_available_notification,
  aborted_notification, same,
}
use drcpd.Rnf.Request.{
  FetchAnswer, Result, fetched, throws, set_value, set_exception, fetch_unlocked, fetch_ready,
  get_result_unlocked, get_result_done, future_get,
}

-- The changes of state there are, the destruction aside.
pub data Next : CallState → CallState → Type 0 where
  sent : Next initialized wait_for_notification
  answered_at_once : Next initialized result_fetched
  request_failure : Next initialized failed
  aborted_unused : Next initialized aborted_by_list_broker
  available : Next wait_for_notification ready_to_fetch
  aborted_by_peer : Next wait_for_notification aborted_by_list_broker
  abort_waiting : Next wait_for_notification aborting
  fetch_success : Next ready_to_fetch result_fetched
  fetch_failure : Next ready_to_fetch failed
  abort_ready : Next ready_to_fetch aborting
  abort_again : Next ready_to_fetch aborted_by_list_broker
  fast_path_failure : Next result_fetched failed
  available_late : Next aborting ready_to_fetch
  abort_confirmed : Next aborting aborted_by_list_broker
  abort_overtaken : Next aborted_by_list_broker aborting

-- A history, latest state first, that begins with the construction and ends in the state.
pub data History : CallState → List CallState → Type 0 where
  start : History initialized (initialized ∷ [])
  next : {s t : CallState} {ss : List CallState} → History s ss → Next s t → History t (t ∷ ss)

Next-same : {s t : CallState} → Next s t → same s t ≡ false
unfolding same
Next-same sent = refl
Next-same answered_at_once = refl
Next-same request_failure = refl
Next-same aborted_unused = refl
Next-same available = refl
Next-same aborted_by_peer = refl
Next-same abort_waiting = refl
Next-same fetch_success = refl
Next-same fetch_failure = refl
Next-same abort_ready = refl
Next-same abort_again = refl
Next-same fast_path_failure = refl
Next-same available_late = refl
Next-same abort_confirmed = refl
Next-same abort_overtaken = refl

module _ {R E : Type 0} where
  abbrev pub IsSetPromise : Promise R E → Type 0
  IsSetPromise unset = ⊥
  IsSetPromise (value r) = Unit
  IsSetPromise (exception e) = Unit
  IsSetPromise retrieved = Unit

  abbrev pub HasValue : Promise R E → Type 0
  HasValue unset = ⊥
  HasValue (value r) = Unit
  HasValue (exception e) = ⊥
  HasValue retrieved = Unit

  -- In each state: which cookies there are, and what is in the promise.
  abbrev pub Holding : CallState → Call R E → Type 0
  Holding initialized c = (c.cookie_ ≡ 0) × (c.promise_ ≡ unset) × (c.busy_source_set_ ≡ false)
  Holding wait_for_notification c = (0 < c.cookie_ + c.cleared_cookie_) × (c.promise_ ≡ unset)
  Holding ready_to_fetch c = (0 < c.cookie_ + c.cleared_cookie_) × (c.promise_ ≡ unset)
  Holding result_fetched c = (c.cookie_ ≡ 0) × HasValue c.promise_
  Holding aborting c = (c.cookie_ ≡ 0) × (0 < c.cleared_cookie_) × (c.promise_ ≡ unset)
  Holding aborted_by_list_broker c = c.promise_ ≡ unset
  Holding failed c = IsSetPromise c.promise_
  Holding about_to_destroy c = Unit

  pub record Inv (c : Call R E) : Type 0 where
    pub holding : Holding c.state_ c
    pub history : History c.state_ c.watched
    pub busy : c.busy_calls ≡ (if c.busy_source_set_ then true ∷ [] else [])

  pub construct-Inv : Inv construct
  unfolding construct
  construct-Inv = record { holding = (refl, refl, refl); history = start; busy = refl }

  pub set_state-Inv :
      (c : Call R E) (t : CallState)
      → History c.state_ c.watched
      → c.busy_calls ≡ (if c.busy_source_set_ then true ∷ [] else [])
      → Next c.state_ t
      → Holding t (record c { state_ = t; watched = t ∷ c.watched })
      → Inv (set_state c t)
  unfolding set_state
  set_state-Inv c t h b n k =
      rw (Next-same n, set_state) (record { holding = k; history = next h n; busy = b })

  -- Each operation is looked at in each state `s` of the call.
  notification_by :
      (c : Call R E) (s t : CallState)
      → Next wait_for_notification t
      → Next aborting t
      → ((c' : Call R E) → 0 < c'.cookie_ + c'.cleared_cookie_ → c'.promise_ ≡ unset → Holding t c')
      → (cookie : ℕ) → Inv (record c { state_ = s })
      → Inv (notification (record c { state_ = s }) cookie t)
  unfolding notification
  notification_by c initialized t n m k cookie v = if_elim Inv (cookie == 0) v (if_elim Inv _ v v)
  notification_by c wait_for_notification t n m k cookie v =
      if_elim Inv (cookie == 0) v
        (if_elim Inv _ v (set_state-Inv _ t v.history v.busy n (k _ v.holding.0 v.holding.1)))
  notification_by c ready_to_fetch t n m k cookie v =
      if_elim Inv (cookie == 0) v (if_elim Inv _ v v)
  notification_by c result_fetched t n m k cookie v =
      if_elim Inv (cookie == 0) v (if_elim Inv _ v v)
  notification_by c aborting t n m k cookie v = if_elim Inv (cookie == 0) v (
      if_elim Inv _ v
        (set_state-Inv _ t v.history v.busy m (k _ (omega (arith, v.holding.1)) v.holding.2)))
  notification_by c aborted_by_list_broker t n m k cookie v =
      if_elim Inv (cookie == 0) v (if_elim Inv _ v v)
  notification_by c failed t n m k cookie v = if_elim Inv (cookie == 0) v (if_elim Inv _ v v)
  notification_by c about_to_destroy t n m k cookie v =
      if_elim Inv (cookie == 0) v (if_elim Inv _ v v)

  pub available-Inv :
      (c : Call R E) (cookie : ℕ) → Inv c → Inv (result_available_notification c cookie)
  unfolding result_available_notification
  available-Inv c cookie v =
      notification_by c c.state_ _ available available_late (λ c' h u. (h, u)) cookie v

  pub aborted-Inv : (c : Call R E) (cookie : ℕ) → Inv c → Inv (aborted_notification c cookie)
  unfolding aborted_notification
  aborted-Inv c cookie v =
      notification_by c c.state_ _ aborted_by_peer abort_confirmed (λ c' h u. u) cookie v

  fetch_ready-Inv :
      (c : Call R E) (answer : FetchAnswer R E)
      → Inv (record c { state_ = ready_to_fetch })
      → Inv (fetch_ready (record c { state_ = ready_to_fetch }) answer).0
  unfolding fetch_ready set_value set_exception clear_cookie
  fetch_ready-Inv c (fetched r) v =
      rw (v.holding.1, fetch_ready, set_value)
        (set_state-Inv _ result_fetched v.history v.busy fetch_success (refl, tt))
  fetch_ready-Inv c (throws e) v =
      rw (v.holding.1, fetch_ready, set_exception)
        (set_state-Inv _ failed v.history v.busy fetch_failure tt)

  fetch_by :
      (c : Call R E) (s : CallState) (do_fetch : ℕ → FetchAnswer R E)
      → Inv (record c { state_ = s })
      → Inv (fetch_unlocked (record c { state_ = s }) do_fetch).0
  unfolding fetch_unlocked
  fetch_by c initialized do_fetch v = v
  fetch_by c wait_for_notification do_fetch v = v
  fetch_by c ready_to_fetch do_fetch v = fetch_ready-Inv c (do_fetch c.cookie_) v
  fetch_by c result_fetched do_fetch v = v
  fetch_by c aborting do_fetch v = v
  fetch_by c aborted_by_list_broker do_fetch v = v
  fetch_by c failed do_fetch v = v
  fetch_by c about_to_destroy do_fetch v = v

  pub fetch-Inv :
      (c : Call R E) (do_fetch : ℕ → FetchAnswer R E) → Inv c → Inv (fetch_unlocked c do_fetch).0
  fetch-Inv c do_fetch v = fetch_by c c.state_ do_fetch v

  -- Retrieving the result of a call that is done.
  fetched-Inv :
      (c : Call R E) (p : Promise R E)
      → let c' = record c { state_ = result_fetched; promise_ = p } in
        Inv c' → Inv (future_get c').0
  unfolding future_get
  fetched-Inv c unset v = absurd v.holding.1
  fetched-Inv c (value r) v = record {
    holding = (v.holding.0, tt);
    history = v.history;
    busy = v.busy;
  }
  fetched-Inv c (exception e) v = absurd v.holding.1
  fetched-Inv c retrieved v = v

  failed-Inv :
      (c : Call R E) (p : Promise R E)
      → let c' = record c { state_ = failed; promise_ = p } in Inv c' → Inv (future_get c').0
  unfolding future_get set_state same
  failed-Inv c unset v = absurd v.holding
  failed-Inv c (value r) v = record { holding = tt; history = v.history; busy = v.busy }
  failed-Inv c (exception e) v = record { holding = tt; history = v.history; busy = v.busy }
  failed-Inv c retrieved v = v

  result_by :
      (c : Call R E) (s : CallState)
      → Inv (record c { state_ = s })
      → Inv (get_result_unlocked (record c { state_ = s })).0
  unfolding get_result_unlocked get_result_done
  result_by c initialized v = v
  result_by c wait_for_notification v = v
  result_by c ready_to_fetch v = v
  result_by c result_fetched v =
      if_elim (λ (r : Call R E × Result R E). Inv r.0) c.was_aborted_after_done_ v
        (fetched-Inv c c.promise_ v)
  result_by c aborting v = v
  result_by c aborted_by_list_broker v = v
  result_by c failed v =
      if_elim (λ (r : Call R E × Result R E). Inv r.0) c.was_aborted_after_done_ v
        (failed-Inv c c.promise_ v)
  result_by c about_to_destroy v = v

  pub result-Inv : (c : Call R E) → Inv c → Inv (get_result_unlocked c).0
  result-Inv c v = result_by c c.state_ v

  never_blocks_by :
      (c : Call R E) (s : CallState) (p : Promise R E)
      → let c' = record c { state_ = s; promise_ = p } in
        Inv c' → (get_result_unlocked c').1 ≢ Result.blocks
  unfolding get_result_unlocked get_result_done future_get
  never_blocks_by c initialized p v = ground arith
  never_blocks_by c wait_for_notification p v = ground arith
  never_blocks_by c ready_to_fetch p v = ground arith
  never_blocks_by c aborting p v = ground arith
  never_blocks_by c aborted_by_list_broker p v = ground arith
  never_blocks_by c about_to_destroy p v = ground arith
  never_blocks_by c result_fetched unset v = absurd v.holding.1
  never_blocks_by c result_fetched (value r) v = ground arith
  never_blocks_by c result_fetched (exception e) v = ground arith
  never_blocks_by c result_fetched retrieved v = ground arith
  never_blocks_by c failed unset v = absurd v.holding
  never_blocks_by c failed (value r) v = ground arith
  never_blocks_by c failed (exception e) v = ground arith
  never_blocks_by c failed retrieved v = ground arith

  pub never_blocks : (c : Call R E) → Inv c → (get_result_unlocked c).1 ≢ Result.blocks
  never_blocks c v = never_blocks_by c c.state_ c.promise_ v

-- ===== src/Rnf/Abort.antt =====
-- Aborting an RNF call (src/rnfcall.cc) keeps the invariant.
use drcpd.Common.{
  Bool-cases, ℕ, ◌<◌, ◌≡◌, inl, inr, refl, ◌∙◌, Bool, true, false, List, [], ◌∷◌, arith, if_elim,
  ◌==◌,
}
use drcpd.Rnf.{
  CallState, Call, AbortAnswer, initialized, wait_for_notification, ready_to_fetch, result_fetched,
  aborting, aborted_by_list_broker, failed, about_to_destroy, unset, accepted, refused, thrown,
  set_state, clear_cookie, abort_request_internal, abort_active, abort_cookie, abort_done,
  notification, result_available_notification, aborted_notification, same,
}
use drcpd.Rnf.Invariant.{
  Next, aborted_unused, aborted_by_peer, abort_waiting, abort_ready, abort_again, abort_overtaken,
  Holding, Inv, set_state-Inv, available-Inv, aborted-Inv,
}

-- What the peer tells of the call while `abort_cookie_fn_` runs.
pub data Event : Type 0 where
  is_available : ℕ → Event
  is_aborted : ℕ → Event

module _ {R E : Type 0} where
  unfoldable pub happens : List Event → Call R E → Call R E
  happens [] c = c
  happens (is_available cookie ∷ events) c = happens events (result_available_notification c cookie)
  happens (is_aborted cookie ∷ events) c = happens events (aborted_notification c cookie)

  record Abortable (c : Call R E) : Type 0 where
    invariant : Inv c
    stage : Next c.state_ aborting
    cookie : c.cookie_ ≡ 0
    cleared : 0 < c.cleared_cookie_

  set_state-stage :
      (c : Call R E) (t : CallState)
      → Next t aborting
      → Next c.state_ aborting
      → Next (set_state c t).state_ aborting
  unfolding set_state
  set_state-stage c t n m =
      if_elim (λ (c' : Call R E). Next c'.state_ aborting) (same c.state_ t) m n

  notification-stage :
      (c : Call R E) (s : CallState) (cookie : ℕ) (t : CallState)
      → Next t aborting
      → Next s aborting
      → Next (notification (record c { state_ = s }) cookie t).state_ aborting
  unfolding notification
  notification-stage c wait_for_notification cookie t n m =
      if_elim (λ (c' : Call R E). Next c'.state_ aborting) (cookie == 0) m
        (if_elim (λ (c' : Call R E). Next c'.state_ aborting) _ m (set_state-stage _ t n m))
  notification-stage c ready_to_fetch cookie t n m =
      if_elim (λ (c' : Call R E). Next c'.state_ aborting) (cookie == 0) m
        (if_elim (λ (c' : Call R E). Next c'.state_ aborting) _ m m)
  notification-stage c aborted_by_list_broker cookie t n m =
      if_elim (λ (c' : Call R E). Next c'.state_ aborting) (cookie == 0) m
        (if_elim (λ (c' : Call R E). Next c'.state_ aborting) _ m m)
  notification-stage c initialized cookie t n m = absurd (elim m [ ])
  notification-stage c result_fetched cookie t n m = absurd (elim m [ ])
  notification-stage c aborting cookie t n m = absurd (elim m [ ])
  notification-stage c failed cookie t n m = absurd (elim m [ ])
  notification-stage c about_to_destroy cookie t n m = absurd (elim m [ ])

  notification-cookies :
      (c : Call R E) (cookie : ℕ) (t : CallState)
      → let c' = notification c cookie t in
        (c'.cookie_ ≡ c.cookie_) × (c'.cleared_cookie_ ≡ c.cleared_cookie_)
  unfolding notification set_state
  notification-cookies c cookie t = ground arith

  notification-Abortable :
      (c : Call R E) (cookie : ℕ) (t : CallState)
      → Next t aborting
      → Inv (notification c cookie t)
      → Abortable c
      → Abortable (notification c cookie t)
  notification-Abortable c cookie t n v a =
      let (e, f) = notification-cookies c cookie t in
      record {
        invariant = v;
        stage = notification-stage c c.state_ cookie t n a.stage;
        cookie = e ∙ a.cookie;
        cleared = rw f a.cleared;
      }

  happens-Abortable :
      (events : List Event) (c : Call R E) → Abortable c → Abortable (happens events c)
  unfolding happens result_available_notification aborted_notification
  happens-Abortable [] c a = a
  happens-Abortable (is_available cookie ∷ events) c a =
      happens-Abortable events _
        (notification-Abortable c cookie _ abort_ready (available-Inv c cookie a.invariant) a)
  happens-Abortable (is_aborted cookie ∷ events) c a =
      happens-Abortable events _
        (notification-Abortable c cookie _ abort_overtaken (aborted-Inv c cookie a.invariant) a)

  aborting_by :
      (c : Call R E) (s : CallState)
      → Abortable (record c { state_ = s })
      → Inv (set_state (record c { state_ = s }) aborting)
  aborting_by c wait_for_notification a =
      set_state-Inv _ aborting a.invariant.history a.invariant.busy a.stage
        (a.cookie, a.cleared, a.invariant.holding.1)
  aborting_by c ready_to_fetch a =
      set_state-Inv _ aborting a.invariant.history a.invariant.busy a.stage
        (a.cookie, a.cleared, a.invariant.holding.1)
  aborting_by c aborted_by_list_broker a =
      set_state-Inv _ aborting a.invariant.history a.invariant.busy a.stage
        (a.cookie, a.cleared, a.invariant.holding)
  aborting_by c initialized a = absurd (elim a.stage [ ])
  aborting_by c result_fetched a = absurd (elim a.stage [ ])
  aborting_by c aborting a = absurd (elim a.stage [ ])
  aborting_by c failed a = absurd (elim a.stage [ ])
  aborting_by c about_to_destroy a = absurd (elim a.stage [ ])

  abort_cookie-Inv :
      (c : Call R E) (events : List Event) (answer : AbortAnswer)
      → Abortable c
      → Inv (abort_cookie c (happens events) answer).0
  unfolding abort_cookie
  abort_cookie-Inv c events accepted a =
      let c' = happens events c in aborting_by c' c'.state_ (happens-Abortable events c a)
  abort_cookie-Inv c events refused a = (happens-Abortable events c a).invariant
  abort_cookie-Inv c events thrown a = (happens-Abortable events c a).invariant

  no_cookie-Inv :
      (c : Call R E) (s : CallState) (events : List Event) (answer : AbortAnswer)
      → Next s aborted_by_list_broker
      → c.promise_ ≡ unset
      → (c.cookie_ == 0) ≡ true
      → Inv (record c { state_ = s })
      → Inv (abort_active (record c { state_ = s }) (happens events) answer).0
  unfolding abort_active clear_cookie
  no_cookie-Inv c s events answer m u e v =
      rw (e, abort_active) (set_state-Inv _ aborted_by_list_broker v.history v.busy m u)

  cookie-Inv :
      (c : Call R E) (s : CallState) (events : List Event) (answer : AbortAnswer)
      → Next s aborting
      → Holding s (record c { state_ = s; cleared_cookie_ = c.cookie_; cookie_ = 0 })
      → (c.cookie_ == 0) ≡ false
      → Inv (record c { state_ = s })
      → Inv (abort_active (record c { state_ = s }) (happens events) answer).0
  unfolding abort_active clear_cookie
  cookie-Inv c s events answer n h e v =
      rw (e, abort_active)
        (abort_cookie-Inv _ events answer (record {
          invariant = record { holding = h; history = v.history; busy = v.busy };
          stage = n;
          cookie = refl;
          cleared = ground arith;
        }))

  active-Inv :
      (c : Call R E) (s : CallState) (events : List Event) (answer : AbortAnswer)
      → Next s aborting
      → Next s aborted_by_list_broker
      → c.promise_ ≡ unset
      → (0 < c.cookie_
          → Holding s (record c { state_ = s; cleared_cookie_ = c.cookie_; cookie_ = 0 }))
      → Inv (record c { state_ = s })
      → Inv (abort_active (record c { state_ = s }) (happens events) answer).0
  active-Inv c s events answer n m u h v = elim (Bool-cases (c.cookie_ == 0)) [
    | inl e ↦ no_cookie-Inv c s events answer m u e v
    | inr e ↦ cookie-Inv c s events answer n (h (ground arith)) e v
  ]

  abort_by :
      (c : Call R E) (s : CallState) (events : List Event) (answer : AbortAnswer)
      → Inv (record c { state_ = s })
      → Inv (abort_request_internal (record c { state_ = s }) (happens events) answer).0
  unfolding abort_request_internal abort_done
  abort_by c initialized events answer v =
      no_cookie-Inv c initialized events answer aborted_unused v.holding.1
        (ground (arith, v.holding.0)) v
  abort_by c wait_for_notification events answer v =
      active-Inv c wait_for_notification events answer abort_waiting aborted_by_peer v.holding.1
        (λ h. (omega arith, v.holding.1)) v
  abort_by c ready_to_fetch events answer v =
      active-Inv c ready_to_fetch events answer abort_ready abort_again v.holding.1
        (λ h. (omega arith, v.holding.1)) v
  abort_by c result_fetched events answer v =
      if_elim (λ (r : Call R E × Bool). Inv r.0) c.was_aborted_after_done_ v
        (record { holding = v.holding; history = v.history; busy = v.busy })
  abort_by c failed events answer v =
      if_elim (λ (r : Call R E × Bool). Inv r.0) c.was_aborted_after_done_ v
        (record { holding = v.holding; history = v.history; busy = v.busy })
  abort_by c aborting events answer v = v
  abort_by c aborted_by_list_broker events answer v = v
  abort_by c about_to_destroy events answer v = v

  pub abort-Inv :
      (c : Call R E) (events : List Event) (answer : AbortAnswer)
      → Inv c
      → Inv (abort_request_internal c (happens events) answer).0
  abort-Inv c events answer v = abort_by c c.state_ events answer v

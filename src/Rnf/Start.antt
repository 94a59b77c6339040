-- ===== src/Rnf/Start.antt =====
-- Requesting by an RNF call (src/rnfcall.hh) keeps the invariant.
use drcpd.Common.{
  ◌<◌, ◌≡◌, refl, true, false, Option, none, some, [], ◌∷◌, arith, if◌then◌else◌, ◌==◌,
}
use drcpd.Rnf.{
  CallState, Call, Promise, initialized, wait_for_notification, ready_to_fetch, result_fetched,
  aborting, aborted_by_list_broker, failed, about_to_destroy, unset, value, exception, retrieved,
}
use drcpd.Rnf.Request.{
  RequestAnswer, answered, throws, set_value, set_exception, request, request_started,
  request_answered, request_fast, request_deferred, request_failed, after_callback,
}
use drcpd.Rnf.Invariant.{
  sent, answered_at_once, request_failure, fast_path_failure, History, next, Inv, set_state-Inv,
}

module _ {R E : Type 0} where
  -- The contract of `do_request`: the promise is set if and only if the cookie is 0.
  abbrev pub MeetsRequirements : RequestAnswer R E → Type 0
  MeetsRequirements (answered cookie none) = 0 < cookie
  MeetsRequirements (answered cookie (some r)) = cookie ≡ 0
  MeetsRequirements (throws e) = Unit

  started-Inv :
      (c : Call R E) (answer : RequestAnswer R E) (callback : Option E)
      → MeetsRequirements answer
      → c.cookie_ ≡ 0
      → History initialized c.watched
      → c.busy_calls ≡ (if c.busy_source_set_ then true ∷ [] else [])
      → Inv (request_started (record c { state_ = initialized; promise_ = unset }) answer callback)
  unfolding request_started request_answered request_fast request_deferred request_failed
      after_callback set_value set_exception
  started-Inv c (answered cookie none) none h z hist b =
      let e : (cookie == 0) ≡ false = ground arith in
      rw e (set_state-Inv _ wait_for_notification hist b sent (omega arith, refl))
  started-Inv c (answered cookie none) (some ex) h z hist b =
      let e : (cookie == 0) ≡ false = ground arith in
      rw e (set_state-Inv _ failed hist b request_failure tt)
  started-Inv c (answered cookie (some r)) none h z hist b =
      let e : (cookie == 0) ≡ true = ground arith in
      rw e (set_state-Inv _ result_fetched hist b answered_at_once (z, tt))
  started-Inv c (answered cookie (some r)) (some ex) h z hist b =
      let e : (cookie == 0) ≡ true = ground arith in
      rw e (set_state-Inv _ failed (next hist answered_at_once) b fast_path_failure tt)
  started-Inv c (throws e) callback h z hist b = set_state-Inv _ failed hist b request_failure tt

  request_by :
      (c : Call R E) (s : CallState) (p : Promise R E) (answer : RequestAnswer R E)
      (callback : Option E)
      → MeetsRequirements answer
      → let c' = record c { state_ = s; promise_ = p } in
        Inv c' → Inv (request c' answer callback).0
  unfolding request
  request_by c initialized unset answer callback h v =
      started-Inv (record c { busy_source_set_ = true; busy_calls = true ∷ c.busy_calls }) answer
        callback h v.holding.0 v.history (ground (arith, v.busy, v.holding.2))
  request_by c initialized (value r) answer callback h v = absurd (ground (arith, v.holding.1))
  request_by c initialized (exception e) answer callback h v = absurd (ground (arith, v.holding.1))
  request_by c initialized retrieved answer callback h v = absurd (ground (arith, v.holding.1))
  request_by c wait_for_notification p answer callback h v = v
  request_by c ready_to_fetch p answer callback h v = v
  request_by c result_fetched p answer callback h v = v
  request_by c aborting p answer callback h v = v
  request_by c aborted_by_list_broker p answer callback h v = v
  request_by c failed p answer callback h v = v
  request_by c about_to_destroy p answer callback h v = v

  pub request-Inv :
      (c : Call R E) (answer : RequestAnswer R E) (callback : Option E)
      → MeetsRequirements answer
      → Inv c
      → Inv (request c answer callback).0
  request-Inv c answer callback h v = request_by c c.state_ c.promise_ answer callback h v

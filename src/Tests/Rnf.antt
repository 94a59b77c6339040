-- ===== src/Tests/Rnf.antt =====
-- RNF calls (src/rnfcall.hh, src/rnfcall.cc, src/rnfcall_get_range.hh) at concrete inputs.
use drcpd.Common.{ℕ, ◌≡◌, ◌≢◌, refl, true, false, none, some, List, [], ◌∷◌, arith, All}
use drcpd.Rnf.{
  CallState, Call, wait_for_notification, ready_to_fetch, refused, unset, construct,
  abort_request_internal, result_available_notification,
}
use drcpd.Rnf.Request.{
  FetchAnswer, Result, answered, fetched, ok, request, fetch_unlocked, get_result_unlocked,
}
use drcpd.Rnf.Invariant.{History}
use drcpd.Rnf.Abort.{happens, is_available}
use drcpd.CacheSegment.{Segment}
use drcpd.Rnf.Runs.{
  Op, requests, fetches, aborts, asks, run, run_right, IsAllowed, request-notify-fetch-result,
  refused_abort-fetch,
}

-- The result that belongs to a cookie is the cookie itself.
abbrev fetch_cookie : ℕ → FetchAnswer ℕ ℕ
fetch_cookie cookie = fetched cookie

abbrev life : List (Op ℕ ℕ)
life =
    requests (answered 7 none) none
    ∷ aborts (is_available 7 ∷ []) refused
    ∷ fetches fetch_cookie
    ∷ asks
    ∷ []

life-IsAllowed : All IsAllowed life
life-IsAllowed = (omega arith, (tt, (tt, (tt, tt))))

run_right_example :
    let c = run construct life in
    History c.state_ c.watched × ((get_result_unlocked c).1 ≢ Result.blocks)
run_right_example = run_right life life-IsAllowed

request-notify-fetch-result_example :
    let c0 = (request (construct {R = ℕ} {E = ℕ}) (answered 7 none) none).0 in
    let c1 = result_available_notification c0 7 in
    let (c2, success) = fetch_unlocked c1 fetch_cookie in
    let (c3, result) = get_result_unlocked c2 in
    (c0.state_ ≡ wait_for_notification)
    × (success ≡ some true)
    × (result ≡ ok 7)
    × ((get_result_unlocked c3).1 ≡ Result.no_result)
request-notify-fetch-result_example =
    request-notify-fetch-result 7 fetch_cookie 7 (omega arith) refl

abbrev waiting : Call ℕ ℕ
waiting = record {
  state_ = wait_for_notification;
  was_aborted_after_done_ = false;
  detached_ = true;
  cookie_ = 7;
  cleared_cookie_ = 0;
  busy_source_set_ = true;
  promise_ = unset;
  watched = wait_for_notification ∷ CallState.initialized ∷ [];
  busy_calls = true ∷ [];
}

refused_abort-fetch_example :
    let c1 = (abort_request_internal waiting (happens []) refused).0 in
    let c2 = result_available_notification c1 7 in
    (c2.state_ ≡ ready_to_fetch)
    × (fetch_unlocked c2 fetch_cookie ≡ fetch_unlocked c2 (λ cookie. fetch_cookie 0))
refused_abort-fetch_example = refused_abort-fetch waiting fetch_cookie refl (omega arith)

abbrev ten_lines : Segment
ten_lines = record { line = 10; count = 10 }

abbrev upper_lines : Segment
upper_lines = record { line = 8; count = 5 }

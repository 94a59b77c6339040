-- ===== src/Player/Skipper/Laws.antt =====
-- The skipper over all sequences of what happens to it (src/player_control_skipper.cc).
use drcpd.Common.{
  ℕ, ◌+◌, ◌≡◌, ◌⊎◌, ◌↔◌, inl, inr, refl, ap, subst, sym, Bool, true, false, Option, none, some,
  List, [], ◌∷◌, arith, ◌==◌, if◌then◌else◌, Bool-cases, Option-cases,
}
use drcpd.Common.Ints.{pos, is_zero}
use drcpd.Player.Data.{UserIntention, PlayerState}
use drcpd.Player.Skipper.{
  Skipper, RequestResult, PositionalState, Direction, construct, request, found_or_failed, reset,
  reset__unlocked, start, finish, is_some, set_intention_for_skipping, should_reject_skip_request,
  at_boundary, cancel, skipping_intention,
}

-- What happens to the skipper: requests, the end of the operation that is active, and resets, after
-- which another operation may be reverted to. The end is reported for the active operation only.
pub data Event : Type 0 where
  requested : Direction → PlayerState → Bool → Option ℕ → Event
  completed : Bool → PositionalState → Option ℕ → Event
  is_reset : Option (Option ℕ) → Event

pub step : Skipper → Event → Skipper
step s (requested direction state has_pos started) = (request direction s state has_pos started).0
step s (completed ok state started) =
    if is_some s.find_next_op_ then (found_or_failed s ok state started).0 else s
step s (is_reset reverted) = reset s reverted

pub run : Skipper → List Event → Skipper
run s [] = s
run s (e ∷ events) = run (step s e) events

-- How often an operation stands in a list.
same_op : ℕ → Option ℕ → ℕ
same_op i none = 0
same_op i (some op) = if op == i then 1 else 0

pub times_cancelled : ℕ → List ℕ → ℕ
times_cancelled i [] = 0
times_cancelled i (op ∷ ops) = (if op == i then 1 else 0) + times_cancelled i ops

pub times_done : ℕ → List (Option ℕ) → ℕ
times_done i [] = 0
times_done i (op ∷ ops) = same_op i op + times_done i ops

pub is_known : List (Option ℕ) → Bool
is_known [] = true
is_known (none ∷ ops) = false
is_known (some op ∷ ops) = is_known ops

is_started : ℕ → Option ℕ → RequestResult → ℕ
is_started i started RequestResult.rejected = 0
is_started i started RequestResult.first_skip_request_pending = same_op i started
is_started i started RequestResult.first_skip_request_suppressed = 0
is_started i started RequestResult.skipping = 0
is_started i started RequestResult.back_to_normal = 0
is_started i started RequestResult.failed = 0

reverted_to : ℕ → Option (Option ℕ) → ℕ
reverted_to i none = 0
reverted_to i (some op) = same_op i op

starts_at : ℕ → Skipper → Event → ℕ
starts_at i s (requested direction state has_pos started) =
    is_started i started (request direction s state has_pos started).1
starts_at i s (completed ok state started) = 0
starts_at i s (is_reset reverted) = reverted_to i reverted

-- How often an operation was started: by an answered request, or by being reverted to.
pub starts : ℕ → Skipper → List Event → ℕ
starts i s [] = 0
starts i s (e ∷ events) = starts_at i s e + starts i (step s e) events

pub active : ℕ → Skipper → ℕ
active i s = same_op i s.find_next_op_

-- Nothing is pending, what was handed over were operations, and the operation is active, cancelled
-- or handed over this many times.
record Accounts (i : ℕ) (s : Skipper) (n : ℕ) : Type 0 where
  none_pending : s.pending_skip_requests_ ≡ pos 0
  all_known : is_known s.done ≡ true
  total : active i s + times_cancelled i s.cancelled + times_done i s.done ≡ n

and_none : (i : ℕ) (s : Skipper) (n : ℕ) → Accounts i s n → Accounts i s (0 + n)
and_none i s n h = record {
  none_pending = h.none_pending;
  all_known = h.all_known;
  total = omega (arith, h.total);
}

started-Accounts :
    (i : ℕ) (s : Skipper) (n : ℕ) (started : Option ℕ)
    → is_some s.find_next_op_ ≡ false
    → Accounts i s n
    → Accounts i (start s started).0 (is_started i started (start s started).1 + n)
unfolding start reset__unlocked set_intention_for_skipping is_started cancel active is_some same_op
    times_cancelled times_done is_known
started-Accounts i s n started x h = elim (Option-cases (skipping_intention s.intention_)) [
  | inl e ↦ record {
    none_pending = ground (arith, h.none_pending);
    all_known = ground (arith, h.all_known);
    total = ground (arith, h.total);
  }
  | inr (intention, e) ↦ elim (Option-cases started) [
    | inl f ↦ record {
      none_pending = ground (arith, h.none_pending);
      all_known = ground (arith, h.all_known);
      total = ground (arith, h.total);
    }
    | inr (op, f) ↦ record {
      none_pending = ground (arith, h.none_pending);
      all_known = ground (arith, h.all_known);
      total = ground (arith, h.total);
    }
  ]
]

-- With nothing pending, a request does one of four things.
request-cases :
    (direction : Direction) (s : Skipper) (state : PlayerState) (has_pos : Bool)
    (started : Option ℕ)
    → s.pending_skip_requests_ ≡ pos 0
    → let r = request direction s state has_pos started in
      (((r ≡ (s, RequestResult.failed)) ⊎ (r ≡ (s, RequestResult.rejected)))
        ⊎ (r ≡ (s, RequestResult.skipping)))
      ⊎ ((is_some s.find_next_op_ ≡ false) × (r ≡ start s started))
unfolding request
request-cases direction s state has_pos started h =
    let z : is_zero s.pending_skip_requests_ ≡ true = ap is_zero h in
    elim (Bool-cases has_pos) [
      | inr e ↦ inl (inl (inl (ground arith)))
      | inl e ↦ elim (Bool-cases (should_reject_skip_request state s.intention_)) [
        | inl f ↦ inl (inl (inr (ground arith)))
        | inr f ↦ elim (Bool-cases (is_some s.find_next_op_)) [
          | inl g ↦ inl (inr (ground arith))
          | inr g ↦ inr (g, ground arith)
        ]
      ]
    ]

request-Accounts :
    (i : ℕ) (direction : Direction) (s : Skipper) (state : PlayerState) (has_pos : Bool)
    (started : Option ℕ) (n : ℕ)
    → Accounts i s n
    → let r = request direction s state has_pos started in
      Accounts i r.0 (is_started i started r.1 + n)
unfolding is_started
request-Accounts i direction s state has_pos started n h =
    let goal = λ (r : Skipper × RequestResult). Accounts i r.0 (is_started i started r.1 + n) in
    let same = and_none i s n h in
    elim (request-cases direction s state has_pos started h.none_pending) [
      | inl (inl (inl e)) ↦ subst goal (sym e) same
      | inl (inl (inr e)) ↦ subst goal (sym e) same
      | inl (inr e) ↦ subst goal (sym e) same
      | inr (x, e) ↦ subst goal (sym e) (started-Accounts i s n started x h)
    ]

found-finish :
    (s : Skipper) (ok : Bool) (state : PositionalState) (started : Option ℕ)
    → s.pending_skip_requests_ ≡ pos 0
    → (found_or_failed s ok state started).0 ≡ finish s
unfolding found_or_failed finish reset__unlocked
found-finish s ok state started h =
    let z : is_zero s.pending_skip_requests_ ≡ true = ap is_zero h in
    elim (Bool-cases ok) [
      | inr e ↦ ground arith
      | inl e ↦ elim (Bool-cases (at_boundary state)) [
        | inl f ↦ ground arith
        | inr f ↦ ground arith
      ]
    ]

finish-Accounts :
    (i : ℕ) (s : Skipper) (n : ℕ)
    → is_some s.find_next_op_ ≡ true
    → Accounts i s n
    → Accounts i (finish s) n
unfolding finish reset__unlocked cancel active is_some same_op times_cancelled times_done is_known
finish-Accounts i s n x h = record {
  none_pending = refl;
  all_known = ground (arith, h.all_known);
  total = ground (arith, h.total, x);
}

reset-Accounts :
    (i : ℕ) (s : Skipper) (reverted : Option (Option ℕ)) (n : ℕ)
    → Accounts i s n
    → Accounts i (reset s reverted) (reverted_to i reverted + n)
unfolding reset reset__unlocked cancel active is_some reverted_to same_op times_cancelled times_done
    is_known
reset-Accounts i s none n h = record {
  none_pending = refl;
  all_known = ground (arith, h.all_known);
  total = ground (arith, h.total);
}
reset-Accounts i s (some none) n h = record {
  none_pending = refl;
  all_known = ground (arith, h.all_known);
  total = ground (arith, h.total);
}
reset-Accounts i s (some (some op)) n h = record {
  none_pending = refl;
  all_known = ground (arith, h.all_known);
  total = ground (arith, h.total);
}

step-Accounts :
    (i : ℕ) (s : Skipper) (e : Event) (n : ℕ)
    → Accounts i s n
    → Accounts i (step s e) (starts_at i s e + n)
unfolding step starts_at
step-Accounts i s (requested direction state has_pos started) n h =
    request-Accounts i direction s state has_pos started n h
step-Accounts i s (completed ok state started) n h = elim (Bool-cases (is_some s.find_next_op_)) [
  | inl e ↦ rw e (
      subst (λ (x : Skipper). Accounts i x (0 + n))
        (sym (found-finish s ok state started h.none_pending))
        (and_none i (finish s) n (finish-Accounts i s n e h)))
  | inr e ↦ rw e (and_none i s n h)
]
step-Accounts i s (is_reset reverted) n h = reset-Accounts i s reverted n h

run-Accounts :
    (i : ℕ) (s : Skipper) (events : List Event) (n : ℕ)
    → Accounts i s n
    → Accounts i (run s events) (starts i s events + n)
unfolding run starts
run-Accounts i s [] n h = record {
  none_pending = h.none_pending;
  all_known = h.all_known;
  total = omega (arith, h.total);
}
run-Accounts i s (e ∷ events) n h =
    let r = run-Accounts i (step s e) events (starts_at i s e + n) (step-Accounts i s e n h) in
    record {
      none_pending = r.none_pending;
      all_known = r.all_known;
      total = omega (arith, r.total);
    }

-- Whatever happens to a new skipper, no request is ever pending, only operations are handed over to
-- the callback, and each operation was started as often as it was handed over or cancelled, and once
-- more while it is the active one.
pub run-accounts :
    (intention : UserIntention) (events : List Event) (i : ℕ)
    → let s = run (construct intention) events in
      (s.pending_skip_requests_ ≡ pos 0)
      × (is_known s.done ≡ true)
      × (active i s + times_cancelled i s.cancelled + times_done i s.done
          ≡ starts i (construct intention) events)
unfolding construct active same_op times_cancelled times_done is_known
run-accounts intention events i =
    let r =
      run-Accounts i (construct intention) events 0
        (record { none_pending = refl; all_known = refl; total = refl }) in
    (r.none_pending, r.all_known, omega (arith, r.total))

not_rejected :
    (state : PlayerState) (i : UserIntention) {intention : UserIntention}
    → skipping_intention i ≡ some intention
    → should_reject_skip_request state i ≡ false
unfolding should_reject_skip_request skipping_intention
not_rejected PlayerState.stopped UserIntention.nothing e = absurd (ground arith)
not_rejected PlayerState.stopped UserIntention.stopping e = absurd (ground arith)
not_rejected PlayerState.stopped UserIntention.pausing e = refl
not_rejected PlayerState.stopped UserIntention.listening e = refl
not_rejected PlayerState.stopped UserIntention.skipping_paused e = refl
not_rejected PlayerState.stopped UserIntention.skipping_live e = refl
not_rejected PlayerState.buffering i e = refl
not_rejected PlayerState.playing i e = refl
not_rejected PlayerState.paused i e = refl

-- With no search active, a request is rejected if the user intends neither to play nor to pause. Else
-- a search is started and the intention becomes one to skip; the request fails exactly if the start
-- does, and the intention stays changed then.
pub request_starts :
    (direction : Direction) (s : Skipper) (state : PlayerState) (started : Option ℕ)
    → s.pending_skip_requests_ ≡ pos 0
    → is_some s.find_next_op_ ≡ false
    → let r = request direction s state true started in
      ((skipping_intention s.intention_ ≡ none) → r ≡ (s, RequestResult.rejected))
      × ((intention : UserIntention)
          → skipping_intention s.intention_ ≡ some intention
          → (r.0.find_next_op_ ≡ started)
            × (r.0.intention_ ≡ intention)
            × ((r.1 ≡ RequestResult.failed) ↔ (started ≡ none)))
unfolding request start set_intention_for_skipping reset__unlocked
request_starts direction s state started h i =
    let z : is_zero s.pending_skip_requests_ ≡ true = ap is_zero h in
    (
      λ e. ground (arith, e),
      λ intention e.
          let n = not_rejected state s.intention_ e in
          elim (Option-cases started) [
            | inl f ↦ (ground arith, ground arith, (λ x. f, λ x. ground arith))
            | inr (op, f) ↦ (
              ground arith,
              ground arith,
              (λ x. absurd (ground (arith, x)), λ x. absurd (ground (arith, x))),
            )
          ],
    )

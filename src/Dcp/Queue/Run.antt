-- ===== src/Dcp/Queue/Run.antt =====
-- Any sequence of calls keeps the invariant of the queue.
use drcpd.Common.{
  ℕ, ◌≡◌, ◌⊎◌, inl, inr, refl, Bool, true, false, Option, none, some, List, [], ◌∷◌, arith,
  is_empty, Bool-cases, ap, not, ◌&&◌,
}
use drcpd.Dcp.Transaction.{State, Answer, start, is_in_progress}
use drcpd.Dcp.Queue.{
  Mode, Data, Queue, init, add, process_pending_transactions, start_transaction, finish_transaction,
  transaction_observer, start_mode,
}
use drcpd.Dcp.Queue.Invariant.{
  Inv, init-Inv, add-Inv, CanStart, process_pending_transactions_right, finish_transaction_right,
  process_pending_waiting, is_unexpected,
}

-- What views, the main loop and dcpd do to the queue.
pub data Call : Type 0 where
  adds : Data → Call
  starts : Mode → Call
  processes : Call
  finishes : Answer → Call

module _ (format_header : ℕ → List ℕ) (write_whole_xml : Data → List ℕ × Bool) where
  abbrev after : Option (Queue × Bool) → Option Queue
  after none = none
  after (some (q, r)) = some q

  unfoldable pub call : Queue → Call → Option Queue
  call q (adds d) = some (add q d)
  call q (starts mode) = after (start_transaction format_header write_whole_xml 1 q mode)
  call q processes = after (process_pending_transactions format_header write_whole_xml 1 q)
  call q (finishes result) = after (finish_transaction format_header write_whole_xml q result)

  unfoldable pub calls : Queue → List Call → Option Queue
  calls q [] = some q
  calls q (c ∷ cs) = elim (call q c) [ none ↦ none | some q' ↦ calls q' cs ]

  unfoldable pub is_surprise : Queue → Call → Bool
  is_surprise q (adds d) = false
  is_surprise q (starts mode) = false
  is_surprise q processes = false
  is_surprise q (finishes result) = is_unexpected q result

  -- No success is reported for a deferred transaction.
  unfoldable pub is_expected : Queue → List Call → Bool
  is_expected q [] = true
  is_expected q (c ∷ cs) =
      not (is_surprise q c) && elim (call q c) [ none ↦ true | some q' ↦ is_expected q' cs ]

  state_cases : (q : Queue) → Inv q → CanStart q ⊎ (q.dcpd.state ≡ State.wait_for_answer)
  state_cases q v = ground arith

  processes-Inv : (q : Queue) → Inv q → (q' : Queue) × (call q processes ≡ some q') × Inv q'
  unfolding call
  processes-Inv q v = elim (state_cases q v) [
    | inl c ↦
        let (r, e, v', out) =
          process_pending_transactions_right format_header write_whole_xml q 0 v c in
        (r.0, ap after e, v')
    | inr w ↦ (q, ap after (process_pending_waiting format_header write_whole_xml q 1 w), v)
  ]

  not_busy : (q : Queue) → is_in_progress q.dcpd ≡ false → q.dcpd.state ≡ State.idle
  unfolding is_in_progress
  not_busy q h = ground arith

  deferred-Inv :
      (q : Queue)
      → Inv q
      → q.dcpd.state ≡ State.idle
      → Inv (record q { dcpd = (start transaction_observer format_header q.dcpd true).0 })
  unfolding start transaction_observer
  deferred-Inv q v e = ground arith

  start_mode-Inv :
      (q : Queue) (mode : Mode)
      → Inv q
      → q.dcpd.state ≡ State.idle
      → (q' : Queue) × (after (start_mode format_header write_whole_xml mode 1 q) ≡ some q')
        × Inv q'
  unfolding start_mode
  start_mode-Inv q Mode.sync_if_possible v e =
      let (r, p, v', out) =
        process_pending_transactions_right format_header write_whole_xml q 0 v (inl e) in
      (r.0, ap after p, v')
  start_mode-Inv q Mode.force_async v e = (
    record q { dcpd = (start transaction_observer format_header q.dcpd true).0 },
    refl,
    deferred-Inv q v e,
  )

  starts-Inv :
      (q : Queue) (mode : Mode) → Inv q → (q' : Queue) × (call q (starts mode) ≡ some q') × Inv q'
  unfolding call start_transaction
  starts-Inv q mode v = elim (Bool-cases (is_empty q.data_)) [
    | inl nothing ↦ (q, rw nothing, v)
    | inr something ↦ elim (Bool-cases (is_in_progress q.dcpd)) [
      | inl busy ↦ (q, rw (something, busy), v)
      | inr free ↦ rw (something, free) (start_mode-Inv q mode v (not_busy q free))
    ]
  ]

  call-Inv :
      (q : Queue) (c : Call)
      → is_surprise q c ≡ false
      → Inv q
      → (q' : Queue) × (call q c ≡ some q') × Inv q'
  unfolding call is_surprise
  call-Inv q (adds d) x v = (add q d, refl, add-Inv q d v)
  call-Inv q (starts mode) x v = starts-Inv q mode v
  call-Inv q processes x v = processes-Inv q v
  call-Inv q (finishes result) x v =
      elim (finish_transaction_right format_header write_whole_xml q result v) [
        | inl (u, e) ↦ absurd (ground arith)
        | inr (r, u, e, v', same, rest) ↦ (r.0, ap after e, v')
      ]

  calls-Inv :
      (q : Queue) (cs : List Call)
      → is_expected q cs ≡ true
      → Inv q
      → (q' : Queue) × (calls q cs ≡ some q') × Inv q'
  unfolding calls is_expected
  calls-Inv q [] x v = (q, refl, v)
  calls-Inv q (c ∷ cs) x v =
      let (q', e, v') = call-Inv q c (ground (arith, x)) v in
      let (q'', e', v'') = calls-Inv q' cs (ground arith) v' in (q'', rw (e, calls) e', v'')

-- Whatever the views write and whatever dcpd answers, if it reports no success for a deferred
-- transaction, of which nothing was sent, then any sequence of calls on a new queue runs to its end:
-- the program is never aborted, no loop runs out of its one round, and the queue then satisfies the
-- invariant.
pub calls-init :
    (format_header : ℕ → List ℕ) (write_whole_xml : Data → List ℕ × Bool) (cs : List Call)
    → is_expected format_header write_whole_xml init cs ≡ true
    → (q : Queue) × (calls format_header write_whole_xml init cs ≡ some q) × Inv q
calls-init format_header write_whole_xml cs x =
    calls-Inv format_header write_whole_xml init cs x init-Inv

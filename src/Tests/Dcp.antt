-- ===== src/Tests/Dcp.antt =====
-- Transactions with dcpd, their queue and the trace output (src/dcp_transaction.cc,
-- src/dcp_transaction_queue.cc) at concrete inputs.
use drcpd.Common.{
  ℕ, ◌≡◌, ◌≢◌, ◌⊎◌, inl, refl, Bool, true, false, none, some, List, [], ◌∷◌, arith, ◌==◌,
  if◌then◌else◌,
}
use drcpd.Dcp.Transaction.{State, Answer, Transaction, wait_for_answer, write, start, commit}
use drcpd.Dcp.Transaction.Laws.{start-write-commit}
use drcpd.Dcp.Queue.{
  Mode, Data, Callbacks, Queue, transaction_observer, init, add, process,
  process_pending_transactions, finish_transaction,
}
use drcpd.Dcp.Queue.Invariant.{
  Inv, is_unexpected, Outcome, first_written, process_right, process_pending_transactions_right,
  finish_transaction_right,
}
use drcpd.Dcp.Queue.Add.{find, find-add}
use drcpd.Dcp.Queue.Run.{is_expected, Call, calls, calls-init, adds, finishes, processes, Call}
use drcpd.Dcp.Ascii.{to_ascii, is_plain}
use drcpd.Dcp.Ascii.Laws.{to_ascii_overrun}

abbrev header : ℕ → List ℕ
header n = b'S' ∷ n ∷ []

-- View 2 cannot be written.
abbrev writes_xml : Data → List ℕ × Bool
writes_xml d = (b'<' ∷ d.view ∷ [], if d.view == 2 then false else true)

abbrev request_of : ℕ → Data
request_of v = record {
  view = v;
  view_update_flags = 1;
  busy_flag = none;
  is_full_serialize = false;
}

abbrev quiet : Callbacks
quiet = record { timeout_running = false; async_scheduled = 0 }

abbrev waiting_queue : Queue
waiting_queue = record {
  data_ = request_of 2 ∷ request_of 3 ∷ request_of 4 ∷ [];
  active = none;
  dcpd = record { state = State.idle; sstr = []; os = some []; env = quiet };
}

abbrev active_queue : Queue
active_queue = record {
  data_ = request_of 4 ∷ [];
  active = some (request_of 3);
  dcpd = record {
    state = State.wait_for_answer;
    sstr = [];
    os = some (b'S' ∷ 2 ∷ b'<' ∷ 3 ∷ []);
    env = record { timeout_running = true; async_scheduled = 0 };
  };
}

waiting_queue-Inv : Inv waiting_queue
waiting_queue-Inv = ground arith

active_queue-Inv : Inv active_queue
active_queue-Inv = ground arith

process_right_example :
    let r = process header writes_xml waiting_queue in
    Inv r.0
    × Outcome header writes_xml waiting_queue (first_written writes_xml waiting_queue.data_) r
process_right_example = process_right header writes_xml waiting_queue waiting_queue-Inv (inl refl)

process_pending_transactions_right_example :
    (r : Queue × Bool) × (process_pending_transactions header writes_xml 1 waiting_queue ≡ some r)
    × Inv r.0
    × Outcome header writes_xml waiting_queue (first_written writes_xml waiting_queue.data_) r
process_pending_transactions_right_example =
    process_pending_transactions_right header writes_xml waiting_queue 0 waiting_queue-Inv
      (inl refl)

finish_transaction_right_example :
    ((is_unexpected active_queue Answer.ok ≡ true)
      × (finish_transaction header writes_xml active_queue Answer.ok ≡ none))
    ⊎ ((r : Queue × Bool) × (is_unexpected active_queue Answer.ok ≡ false)
        × (finish_transaction header writes_xml active_queue Answer.ok ≡ some r)
        × Inv r.0
        × (State.wait_for_answer ≡ State.idle → r ≡ (active_queue, true))
        × (State.wait_for_answer ≢ State.idle
            → (r.0.dcpd.state ≡ State.idle)
              × (r.0.active ≡ none)
              × (r.0.data_ ≡ active_queue.data_)
              × (r.0.dcpd.os ≡ active_queue.dcpd.os)
              × (r.1 ≡ true)))
finish_transaction_right_example =
    finish_transaction_right header writes_xml active_queue Answer.ok active_queue-Inv

abbrev session : List Call
session =
    adds (request_of 3)
    ∷ Call.starts Mode.sync_if_possible
    ∷ adds (request_of 4)
    ∷ finishes Answer.ok
    ∷ processes
    ∷ []

calls-init_example : (q : Queue) × (calls header writes_xml init session ≡ some q) × Inv q
unfolding is_expected drcpd.Dcp.Queue.Run.is_surprise drcpd.Dcp.Queue.Run.call
    drcpd.Dcp.Queue.start_transaction add init drcpd.Dcp.Transaction.is_in_progress
    drcpd.Dcp.Queue.start_mode process_pending_transactions process drcpd.Dcp.Queue.process_from
    start drcpd.Dcp.Queue.process_entry commit write drcpd.Dcp.Queue.process_all finish_transaction
    drcpd.Dcp.Transaction.done drcpd.Dcp.Queue.add_to drcpd.Dcp.Queue.finish_failed
    drcpd.Dcp.Queue.merge drcpd.Dcp.Queue.or_known transaction_observer drcpd.Dcp.Transaction.abort
    drcpd.Dcp.Transaction.flush_document drcpd.Dcp.Transaction.is_started_async
    drcpd.Dcp.Transaction.set_state
calls-init_example = calls-init header writes_xml session refl

find-add_example : find 4 (add waiting_queue (request_of 3)).data_ ≡ some (request_of 4)
unfolding find
find-add_example = find-add waiting_queue (request_of 3) 4

abbrev idle_transaction : Transaction Callbacks
idle_transaction = record { state = State.idle; sstr = []; os = some []; env = quiet }

start-write-commit_example :
    let started = (start transaction_observer header idle_transaction false).0 in
    let r = commit transaction_observer header (write started (b'a' ∷ b'b' ∷ [])) in
    (r.1 ≡ true)
    × (r.0.state ≡ wait_for_answer)
    × (r.0.sstr ≡ [])
    × (r.0.os ≡ some (b'S' ∷ 2 ∷ b'a' ∷ b'b' ∷ []))
start-write-commit_example =
    start-write-commit transaction_observer header idle_transaction b'a' (b'b' ∷ []) [] refl refl

to_ascii_overrun_example : to_ascii 4 (b'a' ∷ b'b' ∷ 10 ∷ []) ≡ none
unfolding is_plain
to_ascii_overrun_example =
    to_ascii_overrun 4 (b'a' ∷ b'b' ∷ []) [] 10 (ground arith, (ground arith, tt)) (ground arith)
      (omega arith) (omega arith)

-- ===== src/Dcp/Queue.antt =====
-- src/dcp_transaction_queue.hh and .cc: the queue of views that wait for a transaction.
-- A view is known by a number; `write_whole_xml`, the views' serializer, is a parameter: the bytes
-- it writes, and whether it succeeds. Locks are left out, each operation is one step.
-- `os_abort` and a failed assertion end the program: no result. The assertions of `process` on the
-- active entry are left out: an entry is active only while an answer is awaited.
pub mod Add
pub mod Run
pub mod Invariant
use Prim.Native.Nat.{bit_or}
use drcpd.Common.{
  ℕ, zero, suc, ◌+◌, Bool, true, false, Option, none, some, List, [], ◌∷◌, ◌++◌, ◌==◌,
  if◌then◌else◌, is_empty,
}
use drcpd.Dcp.Transaction.{
  State, Answer, Transaction, write, start, commit, done, abort, is_in_progress, is_started_async,
  set_output_stream,
}

pub data Mode : Type 0 where
  sync_if_possible force_async : Mode

-- `busy_flag` is a `Maybe<bool>`.
pub record Data : Type 0 where
  pub view : ℕ
  pub view_update_flags : ℕ
  pub busy_flag : Option Bool
  pub is_full_serialize : Bool

-- What the two callbacks of the queue did: whether the timeout is configured to run, and how often
-- asynchronous processing was scheduled.
pub record Callbacks : Type 0 where
  pub timeout_running : Bool
  pub async_scheduled : ℕ

pub record Queue : Type 0 where
  pub data_ : List Data
  pub active : Option Data
  pub dcpd : Transaction Callbacks

unfoldable pub transaction_observer : State → Callbacks → Callbacks
transaction_observer State.idle c = record c { timeout_running = false }
transaction_observer State.started_async c = record c { async_scheduled = suc c.async_scheduled }
transaction_observer State.wait_for_commit c = c
transaction_observer State.wait_for_answer c = record c { timeout_running = true }

unfoldable pub init : Queue
init = record {
  data_ = [];
  active = none;
  dcpd = record {
    state = State.idle;
    sstr = [];
    os = none;
    env = record { timeout_running = false; async_scheduled = 0 };
  };
}

unfoldable pub or_known : Option Bool → Option Bool → Option Bool
or_known none old = old
or_known (some b) old = some b

unfoldable pub merge : Data → Data → Data
unfolding or_known
merge new d = record d {
  is_full_serialize = if new.is_full_serialize then true else d.is_full_serialize;
  view_update_flags = bit_or d.view_update_flags new.view_update_flags;
  busy_flag = or_known new.busy_flag d.busy_flag;
}

unfoldable pub add_to : Data → List Data → List Data
add_to new [] = new ∷ []
add_to new (d ∷ ds) = if d.view == new.view then merge new d ∷ ds else d ∷ add_to new ds

unfoldable pub add : Queue → Data → Queue
unfolding add_to merge
add q new = record q { data_ = add_to new q.data_ }

module _ (format_header : ℕ → List ℕ) (write_whole_xml : Data → List ℕ × Bool) where
  -- One entry is taken from the queue and written.
  unfoldable pub process_entry : Queue → Data → Queue × Bool
  process_entry q d =
      let (text, written) = write_whole_xml d in
      let dcpd = write q.dcpd text in
      if written
      then (let (t, committed) = commit transaction_observer format_header dcpd in
          (record q { active = some d; dcpd = t }, committed))
      else (let (t, aborted) = abort transaction_observer format_header dcpd in
          (record q { active = none; dcpd = t }, false))

  -- The loop, by recursion on the queue; the result tells whether a transaction was committed.
  unfoldable pub process_from : List Data → Queue → Queue × Bool
  process_from [] q = (record q { data_ = [] }, false)
  process_from (d ∷ ds) q =
      let (t, started) = start transaction_observer format_header q.dcpd false in
      let (q', committed) = process_entry (record q { data_ = ds; dcpd = t }) d in
      let rest = process_from ds q' in
      if started
      then if (write_whole_xml d).1 then (q', committed) else rest
      else (record q { data_ = d ∷ ds; dcpd = t }, false)

  unfoldable pub process : Queue → Queue × Bool
  process q = process_from q.data_ q

  -- `while(process());`, on fuel.
  unfoldable pub process_all : ℕ → Queue → Option Queue
  process_all zero q = none
  process_all (suc fuel) q =
      let (q', again) = process q in
      let rest = process_all fuel q' in if again then rest else some q'

  unfoldable pub process_pending_transactions : ℕ → Queue → Option (Queue × Bool)
  process_pending_transactions fuel q =
      let (q', started) = process q in
      if started
      then elim (process_all fuel q') [ none ↦ none | some q'' ↦ some (q'', true) ]
      else some (q', false)

  unfoldable pub start_mode : Mode → ℕ → Queue → Option (Queue × Bool)
  start_mode Mode.sync_if_possible fuel q = process_pending_transactions fuel q
  start_mode Mode.force_async fuel q =
      let t = (start transaction_observer format_header q.dcpd true).0 in
      some (record q { dcpd = t }, is_started_async t)

  unfoldable pub start_transaction : ℕ → Queue → Mode → Option (Queue × Bool)
  start_transaction fuel q mode =
      if is_empty q.data_
      then some (q, false)
      else if is_in_progress q.dcpd
      then some (q, true)
      else start_mode mode fuel q

  is_ok : Answer → Bool
  is_ok Answer.ok = true
  is_ok _ = false

  is_none : Option Data → Bool
  is_none none = true
  is_none (some d) = false

  unfoldable pub finish_failed : Queue → Option (Queue × Bool)
  finish_failed q =
      let (t, aborted) = abort transaction_observer format_header q.dcpd in
      if aborted then some (record q { active = none; dcpd = t }, false) else none

  -- No result is the end of the program, by `os_abort` or by the assertion that an entry is active.
  unfoldable pub finish_transaction : Queue → Answer → Option (Queue × Bool)
  unfolding is_ok finish_failed is_none
  finish_transaction q result =
      if is_in_progress q.dcpd
      then if is_ok result
        then (let (t, closed) = done transaction_observer format_header q.dcpd in
            if is_none q.active
            then none
            else if closed
            then some (record q { active = none; dcpd = t }, true)
            else finish_failed (record q { active = none; dcpd = t }))
        else finish_failed q
      else some (q, true)

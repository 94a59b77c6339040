-- ===== src/Dcp/Queue/Invariant.antt =====
-- What holds of the queue between two calls.
use drcpd.Common.{
  ℕ, suc, ◌≡◌, ◌≢◌, ◌⊎◌, ◌++◌, refl, Bool, true, false, Option, none, some, List, [], ◌∷◌, arith,
  length, is_empty, if◌then◌else◌, Bool-cases, ◌&&◌, inl, inr, ◌∙◌, ap,
}
use drcpd.Dcp.Transaction.{State, Answer, write, start, commit, done, abort, is_in_progress}
use drcpd.Dcp.Queue.{
  Data, Queue, init, add, process_entry, process_from, process, process_all,
  process_pending_transactions, finish_transaction, transaction_observer,
}

-- The transaction is not left open for writing; there is an active entry exactly while an answer
-- is awaited, and exactly then the timeout runs.
pub record Inv (q : Queue) : Type 0 where
  pub not_writing : q.dcpd.state ≢ State.wait_for_commit
  pub nothing_written : q.dcpd.sstr ≡ []
  pub active_awaits : (q.active ≡ none) ⊎ (q.dcpd.state ≡ State.wait_for_answer)
  pub awaits_active : q.dcpd.state ≡ State.wait_for_answer → q.active ≢ none
  pub timeout : q.dcpd.env.timeout_running ≡ true → q.dcpd.state ≡ State.wait_for_answer
  pub timeout_on : q.dcpd.state ≡ State.wait_for_answer → q.dcpd.env.timeout_running ≡ true

pub init-Inv : Inv init
unfolding init
init-Inv = ground arith

pub add-Inv : (q : Queue) (d : Data) → Inv q → Inv (add q d)
unfolding add
add-Inv q d v = ground arith

-- A transaction can be started: none is in progress but a deferred one.
abbrev pub CanStart : Queue → Type 0
CanStart q = (q.dcpd.state ≡ State.idle) ⊎ (q.dcpd.state ≡ State.started_async)

-- The first entry whose view can be written, and the entries behind it.
pub first_written : (Data → List ℕ × Bool) → List Data → Option (Data × List Data)
first_written w [] = none
first_written w (d ∷ ds) = if (w d).1 then some (d, ds) else first_written w ds

-- What dcpd has received after one more document; an empty one is not sent.
pub delivered : (ℕ → List ℕ) → Option (List ℕ) → List ℕ → Option (List ℕ)
delivered header none text = none
delivered header (some sent) text =
    some (if is_empty text then sent else sent ++ (header (length text) ++ text))

abbrev pub is_deferred : State → Bool
is_deferred State.started_async = true
is_deferred _ = false

abbrev is_waiting : State → Bool
is_waiting State.wait_for_answer = true
is_waiting _ = false

abbrev pub is_success : Answer → Bool
is_success Answer.ok = true
is_success _ = false

-- A successful answer to a deferred transaction, of which nothing was sent.
abbrev pub is_unexpected : Queue → Answer → Bool
is_unexpected q result = is_deferred q.dcpd.state && is_success result

finished : State → Queue → Answer → Queue × Bool
finished State.idle q result = (q, true)
finished s q result = (
  record q {
    active = none;
    dcpd = record (q.dcpd) {
      state = State.idle;
      sstr = [];
      env = record (q.dcpd.env) { timeout_running = false };
    };
  },
  is_waiting s && is_success result,
)

module _ (format_header : ℕ → List ℕ) (write_whole_xml : Data → List ℕ × Bool) where
  -- The outcome of processing, by the first entry that can be written.
  abbrev pub Outcome : Queue → Option (Data × List Data) → Queue × Bool → Type 0
  Outcome q none (q', r) =
      (r ≡ false) × (q'.data_ ≡ []) × CanStart q' × (q'.active ≡ none) × (q'.dcpd.os ≡ q.dcpd.os)
  Outcome q (some (d, rest)) (q', r) =
      (r ≡ true)
      × (q'.data_ ≡ rest)
      × (q'.active ≡ some d)
      × (q'.dcpd.state ≡ State.wait_for_answer)
      × (q'.dcpd.os ≡ delivered format_header q.dcpd.os (write_whole_xml d).0)

  abbrev begun : Queue → List Data → Queue
  begun q ds = record q {
    data_ = ds;
    dcpd = (start transaction_observer format_header q.dcpd false).0;
  }

  start_succeeds :
      (q : Queue) → CanStart q → (start transaction_observer format_header q.dcpd false).1 ≡ true
  unfolding start
  start_succeeds q c = ground arith

  entry_sends :
      (q : Queue) (d : Data) (ds : List Data)
      → Inv q
      → CanStart q
      → (write_whole_xml d).1 ≡ true
      → let r = process_entry format_header write_whole_xml (begun q ds) d in
        Inv r.0 × Outcome q (some (d, ds)) r
  unfolding process_entry start write commit transaction_observer delivered
  entry_sends q d ds v c w = ground arith

  entry_drops :
      (q : Queue) (d : Data) (ds : List Data)
      → Inv q
      → CanStart q
      → (write_whole_xml d).1 ≡ false
      → let r = process_entry format_header write_whole_xml (begun q ds) d in
        Inv r.0 × CanStart r.0 × (r.0.dcpd.os ≡ q.dcpd.os)
  unfolding process_entry start write abort transaction_observer
  entry_drops q d ds v c w = ground arith

  Outcome-os :
      (q q' : Queue) (o : Option (Data × List Data)) (r : Queue × Bool)
      → q.dcpd.os ≡ q'.dcpd.os
      → Outcome q o r
      → Outcome q' o r
  Outcome-os q q' none r e out = (out.0, out.1, out.2, out.3, out.4 ∙ e)
  Outcome-os q q' (some (d, rest)) r e out = (
    out.0,
    out.1,
    out.2,
    out.3,
    out.4 ∙ ap (λ (o : Option (List ℕ)). delivered format_header o (write_whole_xml d).0) e,
  )

  process_from-Outcome :
      (ds : List Data) (q : Queue)
      → Inv q
      → CanStart q
      → let r = process_from format_header write_whole_xml ds q in
        Inv r.0 × Outcome q (first_written write_whole_xml ds) r
  unfolding process_from first_written
  process_from-Outcome [] q v c = ground arith
  process_from-Outcome (d ∷ ds) q v c = elim (Bool-cases (write_whole_xml d).1) [
    | inl w ↦ rw (start_succeeds q c, w) (entry_sends q d ds v c w)
    | inr w ↦
        let (v', c', o) = entry_drops q d ds v c w in
        let (v'', out) =
          process_from-Outcome ds (process_entry format_header write_whole_xml (begun q ds) d).0 v'
            c' in
        rw (start_succeeds q c, w)
          (
            v'',
            Outcome-os (process_entry format_header write_whole_xml (begun q ds) d).0 q
                (first_written write_whole_xml ds) _ o out,
          )
  ]

  -- Processing with no answer outstanding sends the first entry whose view can be written, drops
  -- the entries before it, and keeps those behind it in the queue; if no view can be written the
  -- queue ends up empty and nothing is sent. The invariant is kept.
  pub process_right :
      (q : Queue)
      → Inv q
      → CanStart q
      → let r = process format_header write_whole_xml q in
        Inv r.0 × Outcome q (first_written write_whole_xml q.data_) r
  unfolding process
  process_right q v c = process_from-Outcome q.data_ q v c

  start_waiting :
      (q : Queue)
      → q.dcpd.state ≡ State.wait_for_answer
      → start transaction_observer format_header q.dcpd false ≡ (q.dcpd, false)
  unfolding start
  start_waiting q e = ground arith

  process_from_waiting :
      (ds : List Data) (q : Queue)
      → q.dcpd.state ≡ State.wait_for_answer
      → ds ≡ q.data_
      → process_from format_header write_whole_xml ds q ≡ (q, false)
  unfolding process_from
  process_from_waiting [] q e f = ground arith
  process_from_waiting (d ∷ ds) q e f = ground (arith, start_waiting q e)

  process_waiting :
      (q : Queue)
      → q.dcpd.state ≡ State.wait_for_answer
      → process format_header write_whole_xml q ≡ (q, false)
  unfolding process
  process_waiting q e = process_from_waiting q.data_ q e refl

  Outcome-waits :
      (q : Queue) (o : Option (Data × List Data)) (r : Queue × Bool)
      → Outcome q o r
      → r.1 ≡ true
      → r.0.dcpd.state ≡ State.wait_for_answer
  Outcome-waits q none r out e = cc (out.0)
  Outcome-waits q (some (d, rest)) r out e = out.3

  pending_rounds :
      (q : Queue) (fuel : ℕ)
      → ((process format_header write_whole_xml q).1 ≡ true
          → (process format_header write_whole_xml q).0.dcpd.state ≡ State.wait_for_answer)
      → process_pending_transactions format_header write_whole_xml (suc fuel) q
        ≡ some (process format_header write_whole_xml q)
  unfolding process_pending_transactions process_all
  pending_rounds q fuel h = elim (Bool-cases (process format_header write_whole_xml q).1) [
    | inl e ↦ ground (arith, process_waiting (process format_header write_whole_xml q).0 (h e))
    | inr e ↦ ground arith
  ]

  pub process_pending_waiting :
      (q : Queue) (fuel : ℕ)
      → q.dcpd.state ≡ State.wait_for_answer
      → process_pending_transactions format_header write_whole_xml fuel q ≡ some (q, false)
  unfolding process_pending_transactions
  process_pending_waiting q fuel e = rw (process_waiting q e, process_pending_transactions)

  -- With no answer outstanding, the loop over all pending transactions ends within one round after
  -- the first look at the queue, with the outcome of processing once, and keeps the invariant.
  pub process_pending_transactions_right :
      (q : Queue) (fuel : ℕ)
      → Inv q
      → CanStart q
      → (r : Queue × Bool) × (process_pending_transactions format_header write_whole_xml
            (suc fuel)
            q
          ≡ some r)
        × Inv r.0
        × Outcome q (first_written write_whole_xml q.data_) r
  process_pending_transactions_right q fuel v c =
      let (v', out) = process_right q v c in
      (
        process format_header write_whole_xml q,
        pending_rounds q fuel (Outcome-waits q _ _ out),
        v',
        out,
      )

  -- Reporting an answer ends the program exactly if it is a successful one and the transaction was
  -- deferred, and keeps the invariant otherwise. With no transaction in progress nothing changes;
  -- else the transaction is idle and no entry active afterwards,
  -- the queue of waiting entries and what was sent are as before, and the result tells whether
  -- this was the successful answer to a document that was sent.
  pub finish_transaction_right :
      (q : Queue) (result : Answer)
      → Inv q
      → ((is_unexpected q result ≡ true)
          × (finish_transaction format_header write_whole_xml q result ≡ none))
        ⊎ ((r : Queue × Bool) × (is_unexpected q result ≡ false)
            × (finish_transaction format_header write_whole_xml q result ≡ some r)
            × Inv r.0
            × (q.dcpd.state ≡ State.idle → r ≡ (q, true))
            × (q.dcpd.state ≢ State.idle
                → (r.0.dcpd.state ≡ State.idle)
                  × (r.0.active ≡ none)
                  × (r.0.data_ ≡ q.data_)
                  × (r.0.dcpd.os ≡ q.dcpd.os)
                  × (r.1 ≡ (is_waiting q.dcpd.state && is_success result))))
  unfolding finish_transaction is_in_progress done abort transaction_observer finished
  finish_transaction_right q result v = elim (Bool-cases (is_unexpected q result)) [
    | inl u ↦ inl (u, ground arith)
    | inr u ↦
        inr (
          finished q.dcpd.state q result,
          u,
          ground arith,
          ground arith,
          ground arith,
          ground arith,
        )
  ]

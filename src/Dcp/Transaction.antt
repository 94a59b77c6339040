-- ===== src/Dcp/Transaction.antt =====
-- src/dcp_transaction.hh and .cc: one transaction with dcpd. The observer is a parameter that acts
-- on an environment `E`; the stream is a list of bytes, and so is what was written to dcpd.
-- Log messages are left out. `format_header` is the `snprintf` of the header line.
pub mod Laws
use drcpd.Common.{
  ℕ, Bool, true, false, Option, none, some, List, [], ◌++◌, if◌then◌else◌, is_empty, length,
}

pub data State : Type 0 where
  idle started_async wait_for_commit wait_for_answer : State

-- `enum Result` of the transaction, as reported by dcpd.
pub data Answer : Type 0 where
  ok failed timeout invalid_answer io_error : Answer

-- `os` is the output stream, with what was written to it, or a null pointer.
pub record Transaction (E : Type 0) : Type 0 where
  pub state : State
  pub sstr : List ℕ
  pub os : Option (List ℕ)
  pub env : E

pub stream_is_open : State → Bool
stream_is_open State.wait_for_commit = true
stream_is_open _ = false

pub is_idle_state : State → Bool
is_idle_state State.idle = true
is_idle_state _ = false

pub is_started_async_state : State → Bool
is_started_async_state State.started_async = true
is_started_async_state _ = false

module _ {E : Type 0} where
  unfoldable pub set_output_stream : Transaction E → Option (List ℕ) → Transaction E
  set_output_stream t os = record t { os = os }

  unfoldable pub is_in_progress : Transaction E → Bool
  unfolding is_idle_state
  is_in_progress t = if is_idle_state t.state then false else true

  unfoldable pub is_started_async : Transaction E → Bool
  unfolding is_started_async_state
  is_started_async t = is_started_async_state t.state

  -- A write to `stream()`; there is no stream but while waiting for the commit.
  unfoldable pub write : Transaction E → List ℕ → Transaction E
  unfolding stream_is_open
  write t text = if stream_is_open t.state then record t { sstr = t.sstr ++ text } else t

module _ {E : Type 0} (observer : State → E → E) (format_header : ℕ → List ℕ) where
  unfoldable pub set_state : Transaction E → State → Transaction E
  set_state t s = record t { state = s; env = observer s t.env }

  start_in : State → Transaction E → Bool → Transaction E × Bool
  unfolding set_state
  start_in State.idle t force_async =
      let cleared = record t { sstr = [] } in
      if force_async
      then (set_state cleared State.started_async, false)
      else (set_state cleared State.wait_for_commit, true)
  start_in State.started_async t force_async = (set_state t State.wait_for_commit, true)
  start_in State.wait_for_commit t force_async = (t, false)
  start_in State.wait_for_answer t force_async = (t, false)

  unfoldable pub start : Transaction E → Bool → Transaction E × Bool
  unfolding start_in
  start t force_async = start_in t.state t force_async

  -- Header and document go to the output stream, if there is one.
  unfoldable pub flush_document : Transaction E → Transaction E
  flush_document t = if is_empty t.sstr then t else elim t.os [
    | none ↦ record t { sstr = [] }
    | some sent ↦ record t {
      sstr = [];
      os = some (sent ++ (format_header (length t.sstr) ++ t.sstr));
    }
  ]

  commit_in : State → Transaction E → Transaction E × Bool
  unfolding set_state flush_document
  commit_in State.wait_for_commit t = (set_state (flush_document t) State.wait_for_answer, true)
  commit_in State.idle t = (t, false)
  commit_in State.started_async t = (t, false)
  commit_in State.wait_for_answer t = (t, false)

  unfoldable pub commit : Transaction E → Transaction E × Bool
  unfolding commit_in
  commit t = commit_in t.state t

  done_in : State → Transaction E → Transaction E × Bool
  unfolding set_state
  done_in State.wait_for_answer t = (set_state (record t { sstr = [] }) State.idle, true)
  done_in State.idle t = (t, false)
  done_in State.started_async t = (t, false)
  done_in State.wait_for_commit t = (t, false)

  unfoldable pub done : Transaction E → Transaction E × Bool
  unfolding done_in
  done t = done_in t.state t

  -- The state in between is not shown to the observer.
  unfoldable pub abort : Transaction E → Transaction E × Bool
  unfolding done is_idle_state
  abort t =
      if is_idle_state t.state
      then (t, false)
      else done (record t { state = State.wait_for_answer })

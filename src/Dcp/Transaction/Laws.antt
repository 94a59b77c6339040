-- ===== src/Dcp/Transaction/Laws.antt =====
-- The life cycle of a transaction, and what reaches dcpd.
use drcpd.Common.{ℕ, Bool, true, false, some, List, [], ◌∷◌, ◌++◌, ◌≡◌, ◌⊎◌, arith, length}
use drcpd.Dcp.Transaction.{
  State, idle, started_async, wait_for_commit, wait_for_answer, Transaction, write, start, commit,
  done, abort,
}

-- The operations of a transaction.
pub data Op : Type 0 where
  starts : Bool → Op
  commits dones aborts : Op
  writes : List ℕ → Op

module _ {E : Type 0} (observer : State → E → E) (format_header : ℕ → List ℕ) where
  unfoldable pub apply : Transaction E → Op → Transaction E × Bool
  apply t (starts force_async) = start observer format_header t force_async
  apply t commits = commit observer format_header t
  apply t dones = done observer format_header t
  apply t aborts = abort observer format_header t
  apply t (writes text) = (write t text, true)

-- The life cycle. Every way back to idle is by an answer or an abort.
pub data Cycle : State → State → Type 0 where
  stay : (s : State) → Cycle s s
  defer : Cycle idle started_async
  begin : Cycle idle wait_for_commit
  resume : Cycle started_async wait_for_commit
  send : Cycle wait_for_commit wait_for_answer
  finish : Cycle wait_for_answer idle
  give_up_deferred : Cycle started_async idle
  give_up : Cycle wait_for_commit idle

ruleset life_cycle = (stay, defer, begin, resume, send, finish, give_up_deferred, give_up)

module _ {E : Type 0} (observer : State → E → E) (format_header : ℕ → List ℕ) where
  -- Whatever the state, an operation leaves a transaction where it is or moves it along its life
  -- cycle: deferred or open for writing, sent, and idle again by an answer or an abort.
  pub apply-Cycle :
      (t : Transaction E) (op : Op) → Cycle t.state (apply observer format_header t op).0.state
  unfolding apply start commit done abort write
  apply-Cycle t op = grind (arith, life_cycle)

  -- The document written between start and commit reaches the output stream behind its header,
  -- once and unchanged, and the transaction then waits for the answer.
  pub start-write-commit :
      (t : Transaction E) (x : ℕ) (text sent : List ℕ)
      → t.state ≡ idle
      → t.os ≡ some sent
      → let text' = x ∷ text in
        let started = (start observer format_header t false).0 in
        let r = commit observer format_header (write started text') in
        (r.1 ≡ true)
        × (r.0.state ≡ wait_for_answer)
        × (r.0.sstr ≡ [])
        × (r.0.os ≡ some (sent ++ (format_header (length text') ++ text')))
  unfolding start commit write
  start-write-commit t x text sent e o = ground arith

  -- An operation that is refused changes nothing; the one that returns false without being
  -- refused is the start of a deferred transaction.
  pub apply_refused :
      (t : Transaction E) (op : Op)
      → (apply observer format_header t op).1 ≡ false
      → ((apply observer format_header t op).0 ≡ t)
        ⊎ ((op ≡ starts true)
            × (t.state ≡ idle)
            × ((apply observer format_header t op).0.state ≡ started_async))
  unfolding apply start commit done abort
  apply_refused t (starts true) h = ground arith
  apply_refused t (starts false) h = ground arith
  apply_refused t commits h = ground arith
  apply_refused t dones h = ground arith
  apply_refused t aborts h = ground arith
  apply_refused t (writes text) h = cc

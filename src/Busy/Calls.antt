-- ===== src/Busy/Calls.antt =====
-- Sequences of calls of the functions in src/busy.cc, and what is to hold of the state after them.
use Prim.Native.Nat.{min}
use drcpd.Common.{
  ℕ, ◌+◌, ◌-◌, ◌≤◌, ◌<◌, ◌≡◌, Bool, true, false, not, List, [], ◌∷◌, ltb, ◌==◌, if◌then◌else◌,
  length,
}
use drcpd.Busy.{
  Source, DirectSource, value, GlobalBusyState, make_mask, make_direct_mask, is_busy__uncached, set,
  clear, set_direct, clear_direct, is_busy,
}
use drcpd.Busy.Cells.{bit, count}

pub data Call : Type 0 where
  sets : Source → Call
  clears : Source → Call
  sets_direct : DirectSource → Call
  clears_direct : DirectSource → Call
  reads : Call

unfoldable pub call : GlobalBusyState → Call → GlobalBusyState × Bool
call s (sets src) = set s (make_mask src)
call s (clears src) = clear s (make_mask src)
call s (sets_direct src) = set_direct s (make_direct_mask src)
call s (clears_direct src) = clear_direct s (make_direct_mask src)
call s reads = is_busy s

unfoldable pub run : GlobalBusyState → List Call → GlobalBusyState
run s [] = s
run s (c ∷ cs) = run (call s c).0 cs

-- How often source number `i` is set and not cleared yet, counted up to 65535.
abbrev pub pending_after : ℕ → ℕ → Call → ℕ
pending_after i n (sets src) = if value src == i then min (n + 1) 65535 else n
pending_after i n (clears src) = if value src == i then n - 1 else n
pending_after i n (sets_direct src) = n
pending_after i n (clears_direct src) = n
pending_after i n reads = n

abbrev pub pending : ℕ → ℕ → List Call → ℕ
pending i n [] = n
pending i n (c ∷ cs) = pending i (pending_after i n c) cs

abbrev pub direct_after : Bool → Call → Bool
direct_after d (sets_direct src) = true
direct_after d (clears_direct src) = false
direct_after d (sets src) = d
direct_after d (clears src) = d
direct_after d reads = d

abbrev pub direct : Bool → List Call → Bool
direct d [] = d
direct d (c ∷ cs) = direct (direct_after d c) cs

abbrev pub Alternating : List Bool → Type 0
Alternating [] = Unit
Alternating (b ∷ []) = Unit
Alternating (b ∷ c ∷ log) = (b ≡ not c) × Alternating (c ∷ log)

-- The callback was called with changing values, and last with `b`.
pub record IsToldLast (b : Bool) (log : List Bool) : Type 0 where
  pub earlier : List Bool
  pub starts : log ≡ b ∷ earlier
  pub alternates : Alternating log

-- Counters and flags agree with the pending calls `p` and the direct flag `d`.
pub record Counted (p : ℕ → ℕ) (d : Bool) (s : GlobalBusyState) : Type 0 where
  pub flags_length : length s.busy_flags_ ≡ 32
  pub counts_length : length s.busy_counts_ ≡ 32
  pub counts : (i : ℕ) → i < 13 → count s.busy_counts_ i ≡ p i
  pub bounded : (i : ℕ) → p i ≤ 65535
  pub flags : (i : ℕ) → i < 13 → bit s.busy_flags_ i ≡ ltb 0 (p i)
  pub direct_flag : bit s.busy_flags_ 13 ≡ d
  pub others : (i : ℕ) → 13 < i → bit s.busy_flags_ i ≡ false

pub record Told (s : GlobalBusyState) : Type 0 where
  pub notified : s.last_notified_busy_state_ ≡ is_busy__uncached s
  pub log : IsToldLast (is_busy__uncached s) s.notify_busy_state_changed_

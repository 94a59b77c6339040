-- ===== src/Busy/Laws.antt =====
-- The busy state of src/busy.cc over sequences of calls.
use drcpd.Common.{
  ℕ, zero, suc, ◌<◌, ◌≡◌, ◌≢◌, ◌⊎◌, ◌↔◌, inl, inr, refl, ap, ◌∙◌, Bool, true, false, List, [],
  arith, length, replicate,
}
use drcpd.Busy.{
  Source, value, GlobalBusyState, is_busy__uncached, has_busy_state_changed, set_callback, reset,
  notify_if_necessary, set, clear, set_direct, clear_direct, is_busy, init, is_nonzero, clear_flags,
  count_down,
}
use drcpd.Busy.Source.{
  waiting_for_player, filling_player_queue, buffering_stream, getting_list_id, getting_parent_link,
  getting_list_context_root_link, getting_item_uri, getting_item_stream_links, getting_list_range,
  checking_list_range, resuming_playback, getting_location_trace, realizing_location_trace,
}
use drcpd.Busy.Cells.{bit, count, bit-replicate, count-replicate, set_bit, is_nonzero-bit}
use drcpd.Busy.Calls.{Call, call, run, pending, direct, IsToldLast, Counted, Told, reads}
use drcpd.Busy.Counters.{value_lt, run-Counted}
use drcpd.Busy.Notifications.{run-Told}

source_of : (i : ℕ) → i < 13 → (src : Source) × (value src ≡ i)
unfolding value
source_of zero h = (waiting_for_player, refl)
source_of (suc zero) h = (filling_player_queue, refl)
source_of (suc (suc zero)) h = (buffering_stream, refl)
source_of (suc (suc (suc zero))) h = (getting_list_id, refl)
source_of (suc (suc (suc (suc zero)))) h = (getting_parent_link, refl)
source_of (suc (suc (suc (suc (suc zero))))) h = (getting_list_context_root_link, refl)
source_of (suc (suc (suc (suc (suc (suc zero)))))) h = (getting_item_uri, refl)
source_of (suc (suc (suc (suc (suc (suc (suc zero))))))) h = (getting_item_stream_links, refl)
source_of (suc (suc (suc (suc (suc (suc (suc (suc zero)))))))) h = (getting_list_range, refl)
source_of (suc (suc (suc (suc (suc (suc (suc (suc (suc zero))))))))) h = (checking_list_range, refl)
source_of (suc (suc (suc (suc (suc (suc (suc (suc (suc (suc zero)))))))))) h =
    (resuming_playback, refl)
source_of (suc (suc (suc (suc (suc (suc (suc (suc (suc (suc (suc zero))))))))))) h =
    (getting_location_trace, refl)
source_of (suc (suc (suc (suc (suc (suc (suc (suc (suc (suc (suc (suc zero)))))))))))) h =
    (realizing_location_trace, refl)
source_of (suc (suc (suc (suc (suc (suc (suc (suc (suc (suc (suc (suc (suc i))))))))))))) h =
    absurd (omega arith)

init_flags : init.busy_flags_ ≡ replicate 32 false
unfolding init clear notify_if_necessary has_busy_state_changed set_callback is_busy__uncached
    is_nonzero reset clear_flags count_down
init_flags = refl

init_counts : init.busy_counts_ ≡ replicate 32 0
unfolding init clear notify_if_necessary has_busy_state_changed set_callback is_busy__uncached
    is_nonzero reset clear_flags count_down
init_counts = refl

init-Counted : Counted (λ i. 0) false init
init-Counted =
    let flag = λ (i : ℕ). ap (λ (bs : List Bool). bit bs i) init_flags ∙ bit-replicate 32 i in
    record {
      flags_length = ap length init_flags;
      counts_length = ap length init_counts;
      counts = λ i h. ap (λ (cs : List ℕ). count cs i) init_counts ∙ count-replicate 32 i;
      bounded = λ i. omega arith;
      flags = λ i h. flag i;
      direct_flag = flag 13;
      others = λ i h. flag i;
    }

pub init-Told : Told init
unfolding init clear notify_if_necessary has_busy_state_changed set_callback is_busy__uncached
    is_nonzero reset clear_flags count_down
init-Told = record {
  notified = refl;
  log = record { earlier = []; starts = refl; alternates = tt };
}

split : (i : ℕ) → (i < 13) ⊎ ((i ≡ 13) ⊎ (13 < i))
split i = ground arith

busy_source :
    (p : ℕ → ℕ) (d : Bool) (s : GlobalBusyState) (i : ℕ)
    → Counted p d s
    → bit s.busy_flags_ i ≡ true
    → (d ≡ true) ⊎ ((src : Source) × (0 < p (value src)))
busy_source p d s i v h = elim (split i) [
  | inl l ↦ let (src, e) = source_of i l in inr (src, rw e (ground (arith, v.flags i l)))
  | inr (inl e) ↦ inl (rw⁻¹ v.direct_flag (rw⁻¹ e h))
  | inr (inr g) ↦ absurd (ground (arith, v.others i g))
]

busy_pending :
    (p : ℕ → ℕ) (d : Bool) (s : GlobalBusyState)
    → Counted p d s
    → (d ≡ true) ⊎ ((src : Source) × (0 < p (value src)))
    → is_busy__uncached s ≡ true
unfolding is_busy__uncached
busy_pending p d s v (inl e) = is_nonzero-bit s.busy_flags_ 13 (v.direct_flag ∙ e)
busy_pending p d s v (inr (src, h)) =
    is_nonzero-bit s.busy_flags_ (value src) (ground (arith, v.flags (value src) (value_lt src)))

-- After `Busy::init` and any calls, each counter is the number of calls that set the source and
-- are not cleared yet (up to 65535); the system is busy exactly if a source is set or the
-- direct source is; the callback was called with alternating values, the last of them the
-- present state.
pub run-init :
    (cs : List Call)
    → let s = run init cs in
      ((src : Source) → count s.busy_counts_ (value src) ≡ pending (value src) 0 cs)
      × (((is_busy s).1 ≡ true)
          ↔ ((direct false cs ≡ true) ⊎ ((src : Source) × (0 < pending (value src) 0 cs))))
      × IsToldLast (is_busy s).1 s.notify_busy_state_changed_
unfolding is_busy is_busy__uncached
run-init cs =
    let v = run-Counted cs _ false init init-Counted in
    (
      λ src. v.counts (value src) (value_lt src),
      (λ h. let (i, e) = set_bit _ h in busy_source _ _ _ i v e, busy_pending _ _ _ v),
      (run-Told init cs init-Told).log,
    )

-- A call that sets or clears a source returns true exactly if it changes whether the system is
-- busy, provided that the callback knows the present state.
pub call-changes :
    (s : GlobalBusyState) (c : Call)
    → Told s
    → c ≢ reads
    → ((call s c).1 ≡ true) ↔ ((is_busy (call s c).0).1 ≢ (is_busy s).1)
unfolding call set clear set_direct clear_direct is_busy is_busy__uncached notify_if_necessary
    has_busy_state_changed
call-changes s c t h = ground arith

-- ===== src/Busy/Counters.antt =====
-- Counters and flags of src/busy.cc follow the calls.
use drcpd.Common.{ℕ, ◌<◌, ◌≡◌, ◌∙◌, Bool, true, false, List, [], ◌∷◌, ◌==◌, arith, length}
use drcpd.Busy.{
  Source, DirectSource, value, GlobalBusyState, make_mask, make_direct_mask, notify_if_necessary,
  set, clear, set_direct, clear_direct, is_busy, increment, decrement, waiting_for_appliance_audio,
}
use drcpd.Busy.Cells.{
  bit, bit-bit_at, length-bit_at, bit-or_bits, bit-and_not_bits, count-count_up, count-count_down,
  bit-clear_flags, length-or_bits, length-and_not_bits, length-count_up, length-count_down,
  length-clear_flags,
}
use drcpd.Busy.Calls.{
  Call, call, run, pending_after, pending, direct_after, direct, Counted, sets, clears, sets_direct,
  clears_direct, reads,
}

pub value_lt : (src : Source) → value src < 13
unfolding value
value_lt src = ground arith

bit-make_mask : (src : Source) (i : ℕ) → bit (make_mask src) i ≡ (value src == i)
unfolding make_mask
bit-make_mask src i = bit-bit_at 32 (value src) i (omega (arith, value_lt src))

length-make_mask : (src : Source) → length (make_mask src) ≡ 32
unfolding make_mask
length-make_mask src = length-bit_at 32 (value src)

bit-make_direct_mask : (src : DirectSource) (i : ℕ) → bit (make_direct_mask src) i ≡ (13 == i)
unfolding make_direct_mask value
bit-make_direct_mask waiting_for_appliance_audio i = bit-bit_at 32 13 i (omega arith)

length-make_direct_mask : (src : DirectSource) → length (make_direct_mask src) ≡ 32
unfolding make_direct_mask value
length-make_direct_mask waiting_for_appliance_audio = length-bit_at 32 13

notify-Counted :
    (p : ℕ → ℕ) (d : Bool) (s : GlobalBusyState)
    → Counted p d s
    → Counted p d (notify_if_necessary s).0
unfolding notify_if_necessary
notify-Counted p d s v = ground arith

set-Counted :
    (p : ℕ → ℕ) (d : Bool) (s : GlobalBusyState) (src : Source)
    → Counted p d s
    → Counted (λ i. pending_after i (p i) (sets src)) d (set s (make_mask src)).0
unfolding set increment
set-Counted p d s src v =
    let l = length-make_mask src in
    let flag =
      λ (i : ℕ). bit-or_bits s.busy_flags_ (make_mask src) i (omega (arith, v.flags_length, l)) in
    let counter = λ (i : ℕ).
      count-count_up s.busy_counts_ (make_mask src) i (omega (arith, v.counts_length, l)) in
    notify-Counted _ d _ (record {
      flags_length = length-or_bits s.busy_flags_ (make_mask src) ∙ v.flags_length;
      counts_length = length-count_up s.busy_counts_ (make_mask src) ∙ v.counts_length;
      counts = λ i h. ground (arith, counter i, bit-make_mask src i, v.counts i h, v.bounded i);
      bounded = λ i. ground (arith, v.bounded i);
      flags = λ i h. ground (arith, flag i, bit-make_mask src i, v.flags i h);
      direct_flag = ground (arith, flag 13, bit-make_mask src 13, v.direct_flag, value_lt src);
      others = λ i h. ground (arith, flag i, bit-make_mask src i, v.others i h, value_lt src);
    })

clear-Counted :
    (p : ℕ → ℕ) (d : Bool) (s : GlobalBusyState) (src : Source)
    → Counted p d s
    → Counted (λ i. pending_after i (p i) (clears src)) d (clear s (make_mask src)).0
unfolding clear decrement
clear-Counted p d s src v =
    let l = length-make_mask src in
    let flag = λ (i : ℕ).
      bit-clear_flags s.busy_flags_ s.busy_counts_ (make_mask src) i
        (omega (arith, v.flags_length, l)) (omega (arith, v.counts_length, l)) in
    let counter = λ (i : ℕ).
      count-count_down s.busy_counts_ (make_mask src) i (omega (arith, v.counts_length, l)) in
    notify-Counted _ d _ (record {
      flags_length =
          length-clear_flags s.busy_flags_ s.busy_counts_ (make_mask src) ∙ v.flags_length;
      counts_length = length-count_down s.busy_counts_ (make_mask src) ∙ v.counts_length;
      counts = λ i h. ground (arith, counter i, bit-make_mask src i, v.counts i h, v.bounded i);
      bounded = λ i. ground (arith, v.bounded i);
      flags = λ i h. ground (arith, flag i, bit-make_mask src i, v.flags i h, v.counts i h);
      direct_flag = ground (arith, flag 13, bit-make_mask src 13, v.direct_flag, value_lt src);
      others = λ i h. ground (arith, flag i, bit-make_mask src i, v.others i h, value_lt src);
    })

set_direct-Counted :
    (p : ℕ → ℕ) (d : Bool) (s : GlobalBusyState) (src : DirectSource)
    → Counted p d s
    → Counted p true (set_direct s (make_direct_mask src)).0
unfolding set_direct
set_direct-Counted p d s src v =
    let l = length-make_direct_mask src in
    let flag = λ (i : ℕ).
      bit-or_bits s.busy_flags_ (make_direct_mask src) i (omega (arith, v.flags_length, l)) in
    notify-Counted _ true _ (record {
      flags_length = length-or_bits s.busy_flags_ (make_direct_mask src) ∙ v.flags_length;
      counts_length = v.counts_length;
      counts = v.counts;
      bounded = v.bounded;
      flags = λ i h. ground (arith, flag i, bit-make_direct_mask src i, v.flags i h);
      direct_flag = ground (arith, flag 13, bit-make_direct_mask src 13);
      others = λ i h. ground (arith, flag i, bit-make_direct_mask src i, v.others i h);
    })

clear_direct-Counted :
    (p : ℕ → ℕ) (d : Bool) (s : GlobalBusyState) (src : DirectSource)
    → Counted p d s
    → Counted p false (clear_direct s (make_direct_mask src)).0
unfolding clear_direct
clear_direct-Counted p d s src v =
    let l = length-make_direct_mask src in
    let flag = λ (i : ℕ).
      bit-and_not_bits s.busy_flags_ (make_direct_mask src) i (omega (arith, v.flags_length, l)) in
    notify-Counted _ false _ (record {
      flags_length = length-and_not_bits s.busy_flags_ (make_direct_mask src) ∙ v.flags_length;
      counts_length = v.counts_length;
      counts = v.counts;
      bounded = v.bounded;
      flags = λ i h. ground (arith, flag i, bit-make_direct_mask src i, v.flags i h);
      direct_flag = ground (arith, flag 13, bit-make_direct_mask src 13);
      others = λ i h. ground (arith, flag i, bit-make_direct_mask src i, v.others i h);
    })

pub call-Counted :
    (p : ℕ → ℕ) (d : Bool) (s : GlobalBusyState) (c : Call)
    → Counted p d s
    → Counted (λ i. pending_after i (p i) c) (direct_after d c) (call s c).0
unfolding call is_busy
call-Counted p d s (sets src) v = set-Counted p d s src v
call-Counted p d s (clears src) v = clear-Counted p d s src v
call-Counted p d s (sets_direct src) v = set_direct-Counted p d s src v
call-Counted p d s (clears_direct src) v = clear_direct-Counted p d s src v
call-Counted p d s reads v = record {
  flags_length = v.flags_length;
  counts_length = v.counts_length;
  counts = v.counts;
  bounded = v.bounded;
  flags = v.flags;
  direct_flag = v.direct_flag;
  others = v.others;
}

pub run-Counted :
    (cs : List Call) (p : ℕ → ℕ) (d : Bool) (s : GlobalBusyState)
    → Counted p d s
    → Counted (λ i. pending i (p i) cs) (direct d cs) (run s cs)
unfolding run
run-Counted [] p d s v = v
run-Counted (c ∷ cs) p d s v = run-Counted cs _ _ _ (call-Counted p d s c v)

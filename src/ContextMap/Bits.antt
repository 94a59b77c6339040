-- ===== src/ContextMap/Bits.antt =====
-- The operations on binary digits that the flags of contexts are set and checked with
-- (src/context_map.hh).
use Prim.Native.Nat.{
  min, max, bit_and, bit_or, digits, bitwise, bit_and-bitwise, bit_or-bitwise, ◌/◌, ◌%◌, ◌^◌, ◌*◌,
}
use drcpd.Common.{ℕ, zero, suc, ◌+◌, ◌<◌, ◌≤◌, ◌≡◌, not, ◌||◌, ◌==◌, arith, refl, ◌&&◌, ap, ◌∙◌}

module _ (z : ℕ → ℕ) (f : ℕ → ℕ → ℕ) (last : (b : ℕ) → z b ≡ z (b / 2) * 2 + f 0 (b % 2)) where
  -- Two counts of digits that are both large enough.
  counts_agree :
      (count count' : ℕ) (a : ℕ)
      → a ≤ count
      → a ≤ count'
      → (b : ℕ) → digits z f count a b ≡ digits z f count' a b
  counts_agree zero zero zero h h' b = refl
  counts_agree zero (suc count') zero h h' b = refl
  counts_agree (suc count) zero zero h h' b = refl
  counts_agree (suc count) (suc count') zero h h' b = refl
  counts_agree zero count' (suc a) h h' b = absurd (omega arith)
  counts_agree (suc count) zero (suc a) h h' b = absurd (omega arith)
  counts_agree (suc count) (suc count') (suc a) h h' b =
      let others = counts_agree count count' (suc a / 2) (omega arith) (omega arith) (b / 2) in
      ap (λ d. d * 2 + f (suc a % 2) (b % 2)) others

  -- An operation on digits is one on the lowest digit and one on the others.
  lowest : (a b : ℕ) → bitwise z f a b ≡ bitwise z f (a / 2) (b / 2) * 2 + f (a % 2) (b % 2)
  lowest zero b = last b
  lowest (suc a) b =
      ap (λ d. d * 2 + f (suc a % 2) (b % 2))
        (counts_agree a (suc a / 2) (suc a / 2) (omega arith) (omega arith) (b / 2))

and_step : (a b : ℕ) → bit_and a b ≡ bit_and (a / 2) (b / 2) * 2 + min (a % 2) (b % 2)
and_step a b =
    let whole = bit_and-bitwise a b in
    let half = bit_and-bitwise (a / 2) (b / 2) in
    let step = lowest (λ b. 0) min (λ b. omega arith) a b in omega arith

or_step : (a b : ℕ) → bit_or a b ≡ bit_or (a / 2) (b / 2) * 2 + max (a % 2) (b % 2)
or_step a b =
    let whole = bit_or-bitwise a b in
    let half = bit_or-bitwise (a / 2) (b / 2) in
    let step = lowest (λ b. b) max (λ b. omega arith) a b in omega arith

pub or_bound : (w a b : ℕ) → a < 2 ^ w → b < 2 ^ w → bit_or a b < 2 ^ w
or_bound zero zero zero p q = p
or_bound zero zero (suc b) p q = absurd (omega arith)
or_bound zero (suc a) b p q = absurd (omega arith)
or_bound (suc w) a b p q =
    let ih = or_bound w (a / 2) (b / 2) (omega arith) (omega arith) in
    let step = or_step a b in omega arith

and_half : (a b : ℕ) → bit_and a b / 2 ≡ bit_and (a / 2) (b / 2)
and_half a b = let step = and_step a b in omega arith

or_half : (a b : ℕ) → bit_or a b / 2 ≡ bit_or (a / 2) (b / 2)
or_half a b = let step = or_step a b in omega arith

and_or_fuel :
    (n a b c : ℕ) → a ≤ n → b ≤ n → bit_and (bit_or a b) c ≡ bit_or (bit_and a c) (bit_and b c)
and_or_fuel zero zero zero c p q = let e : bit_and 0 c ≡ 0 = bit_and-bitwise 0 c in simp e
and_or_fuel zero zero (suc b) c p q = absurd (omega arith)
and_or_fuel zero (suc a) b c p q = absurd (omega arith)
and_or_fuel (suc n) a b c p q =
    let ih = and_or_fuel n (a / 2) (b / 2) (c / 2) (omega arith) (omega arith) in
    let halves =
      ap (λ x. bit_or x (bit_and b c / 2)) (and_half a c)
      ∙ ap (bit_or (bit_and (a / 2) (c / 2))) (and_half b c) in
    let half = ap (λ x. bit_and x (c / 2)) (or_half a b) in
    let ac = and_step a c in
    let bc = and_step b c in
    let or = or_step a b in
    let left = and_step (bit_or a b) c in
    let right = or_step (bit_and a c) (bit_and b c) in omega arith

or_is_zero_fuel : (n a b : ℕ) → a ≤ n → b ≤ n → (bit_or a b == 0) ≡ ((a == 0) && (b == 0))
or_is_zero_fuel zero zero zero p q = refl
or_is_zero_fuel zero zero (suc b) p q = absurd (omega arith)
or_is_zero_fuel zero (suc a) b p q = absurd (omega arith)
or_is_zero_fuel (suc n) a b p q =
    let ih = or_is_zero_fuel n (a / 2) (b / 2) (omega arith) (omega arith) in
    let step = or_step a b in ground arith

-- A mask has a digit in common with two numbers together if it has one in common with either.
pub or_shares :
    (a b c : ℕ)
    → not (bit_and (bit_or a b) c == 0) ≡ (not (bit_and a c == 0) || not (bit_and b c == 0))
or_shares a b c =
    let e = and_or_fuel (a + b) a b c (omega arith) (omega arith) in
    let ac = bit_and a c in
    let bc = bit_and b c in
    let zeros = or_is_zero_fuel (ac + bc) ac bc (omega arith) (omega arith) in ground arith

-- ===== src/Busy/Cells.antt =====
-- Single bits and counters of the busy state.
use drcpd.Common.{
  ℕ, zero, suc, ◌<◌, ◌≡◌, refl, Bool, true, false, not, ◌&&◌, ◌||◌, List, [], ◌∷◌, ◌==◌,
  if◌then◌else◌, arith, length, replicate, length-replicate, ap,
}
use drcpd.Busy.{
  bit_at, is_nonzero, or_bits, and_not_bits, increment, decrement, count_up, count_down,
  clear_flags,
}

abbrev pub bit : List Bool → ℕ → Bool
bit [] i = false
bit (b ∷ bs) zero = b
bit (b ∷ bs) (suc i) = bit bs i

abbrev pub count : List ℕ → ℕ → ℕ
count [] i = 0
count (c ∷ cs) zero = c
count (c ∷ cs) (suc i) = count cs i

pub bit-replicate : (w i : ℕ) → bit (replicate w false) i ≡ false
bit-replicate zero i = refl
bit-replicate (suc w) zero = refl
bit-replicate (suc w) (suc i) = bit-replicate w i

pub count-replicate : (w i : ℕ) → count (replicate w 0) i ≡ 0
count-replicate zero i = refl
count-replicate (suc w) zero = refl
count-replicate (suc w) (suc i) = count-replicate w i

pub bit-bit_at : (w n i : ℕ) → n < w → bit (bit_at w n) i ≡ (n == i)
unfolding bit_at
bit-bit_at zero n i h = absurd (omega arith)
bit-bit_at (suc w) zero zero h = refl
bit-bit_at (suc w) zero (suc i) h = ground (arith, bit-replicate w i)
bit-bit_at (suc w) (suc n) zero h = ground arith
bit-bit_at (suc w) (suc n) (suc i) h = ground (arith, bit-bit_at w n i (omega arith))

pub length-bit_at : (w n : ℕ) → length (bit_at w n) ≡ w
unfolding bit_at
length-bit_at zero n = refl
length-bit_at (suc w) zero = ap suc (length-replicate w false)
length-bit_at (suc w) (suc n) = ground (arith, length-bit_at w n)

pub bit-or_bits :
    (flags mask : List Bool) (i : ℕ)
    → length flags ≡ length mask
    → bit (or_bits flags mask) i ≡ (bit flags i || bit mask i)
unfolding or_bits
bit-or_bits [] [] i h = refl
bit-or_bits [] (b ∷ mask) i h = absurd (omega arith)
bit-or_bits (a ∷ flags) [] i h = absurd (omega arith)
bit-or_bits (a ∷ flags) (b ∷ mask) zero h = refl
bit-or_bits (a ∷ flags) (b ∷ mask) (suc i) h = bit-or_bits flags mask i (omega arith)

pub bit-and_not_bits :
    (flags mask : List Bool) (i : ℕ)
    → length flags ≡ length mask
    → bit (and_not_bits flags mask) i ≡ (bit flags i && not (bit mask i))
unfolding and_not_bits
bit-and_not_bits [] [] i h = refl
bit-and_not_bits [] (b ∷ mask) i h = absurd (omega arith)
bit-and_not_bits (a ∷ flags) [] i h = absurd (omega arith)
bit-and_not_bits (a ∷ flags) (b ∷ mask) zero h = refl
bit-and_not_bits (a ∷ flags) (b ∷ mask) (suc i) h = bit-and_not_bits flags mask i (omega arith)

pub count-count_up :
    (counts : List ℕ) (mask : List Bool) (i : ℕ)
    → length counts ≡ length mask
    → count (count_up counts mask) i
      ≡ (if bit mask i then increment (count counts i) else count counts i)
unfolding count_up increment
count-count_up [] [] i h = refl
count-count_up [] (b ∷ mask) i h = absurd (omega arith)
count-count_up (c ∷ counts) [] i h = absurd (omega arith)
count-count_up (c ∷ counts) (b ∷ mask) zero h = refl
count-count_up (c ∷ counts) (b ∷ mask) (suc i) h = count-count_up counts mask i (omega arith)

pub count-count_down :
    (counts : List ℕ) (mask : List Bool) (i : ℕ)
    → length counts ≡ length mask
    → count (count_down counts mask) i
      ≡ (if bit mask i then decrement (count counts i) else count counts i)
unfolding count_down decrement
count-count_down [] [] i h = refl
count-count_down [] (b ∷ mask) i h = absurd (omega arith)
count-count_down (c ∷ counts) [] i h = absurd (omega arith)
count-count_down (c ∷ counts) (b ∷ mask) zero h = refl
count-count_down (c ∷ counts) (b ∷ mask) (suc i) h = count-count_down counts mask i (omega arith)

pub bit-clear_flags :
    (flags : List Bool) (counts : List ℕ) (mask : List Bool) (i : ℕ)
    → length flags ≡ length mask
    → length counts ≡ length mask
    → bit (clear_flags flags counts mask) i
      ≡ (if bit mask i && decrement (count counts i) == 0 then false else bit flags i)
unfolding clear_flags decrement
bit-clear_flags [] [] [] i h k = refl
bit-clear_flags [] counts (b ∷ mask) i h k = absurd (omega arith)
bit-clear_flags (a ∷ flags) counts [] i h k = absurd (omega arith)
bit-clear_flags [] (c ∷ counts) [] i h k = absurd (omega arith)
bit-clear_flags (a ∷ flags) [] (b ∷ mask) i h k = absurd (omega arith)
bit-clear_flags (a ∷ flags) (c ∷ counts) (b ∷ mask) zero h k = refl
bit-clear_flags (a ∷ flags) (c ∷ counts) (b ∷ mask) (suc i) h k =
    bit-clear_flags flags counts mask i (omega arith) (omega arith)

pub length-or_bits : (flags mask : List Bool) → length (or_bits flags mask) ≡ length flags
unfolding or_bits
length-or_bits [] mask = refl
length-or_bits (a ∷ flags) [] = refl
length-or_bits (a ∷ flags) (b ∷ mask) = ap suc (length-or_bits flags mask)

pub length-and_not_bits : (flags mask : List Bool) → length (and_not_bits flags mask) ≡ length flags
unfolding and_not_bits
length-and_not_bits [] mask = refl
length-and_not_bits (a ∷ flags) [] = refl
length-and_not_bits (a ∷ flags) (b ∷ mask) = ap suc (length-and_not_bits flags mask)

pub length-count_up :
    (counts : List ℕ) (mask : List Bool) → length (count_up counts mask) ≡ length counts
unfolding count_up
length-count_up [] mask = refl
length-count_up (a ∷ counts) [] = refl
length-count_up (a ∷ counts) (b ∷ mask) = ap suc (length-count_up counts mask)

pub length-count_down :
    (counts : List ℕ) (mask : List Bool) → length (count_down counts mask) ≡ length counts
unfolding count_down
length-count_down [] mask = refl
length-count_down (a ∷ counts) [] = refl
length-count_down (a ∷ counts) (b ∷ mask) = ap suc (length-count_down counts mask)

pub length-clear_flags :
    (flags : List Bool) (counts : List ℕ) (mask : List Bool)
    → length (clear_flags flags counts mask) ≡ length flags
unfolding clear_flags
length-clear_flags [] counts mask = refl
length-clear_flags (a ∷ flags) [] mask = refl
length-clear_flags (a ∷ flags) (c ∷ counts) [] = refl
length-clear_flags (a ∷ flags) (c ∷ counts) (b ∷ mask) =
    ap suc (length-clear_flags flags counts mask)

-- A word is not zero exactly if one of its bits is set.
pub set_bit : (bs : List Bool) → is_nonzero bs ≡ true → (i : ℕ) × (bit bs i ≡ true)
unfolding is_nonzero
set_bit [] h = absurd (ground arith)
set_bit (true ∷ bs) h = (0, refl)
set_bit (false ∷ bs) h = let (i, e) = set_bit bs h in (suc i, e)

pub is_nonzero-bit : (bs : List Bool) (i : ℕ) → bit bs i ≡ true → is_nonzero bs ≡ true
unfolding is_nonzero
is_nonzero-bit [] i h = absurd (ground arith)
is_nonzero-bit (true ∷ bs) i h = refl
is_nonzero-bit (false ∷ bs) zero h = absurd (ground arith)
is_nonzero-bit (false ∷ bs) (suc i) h = is_nonzero-bit bs i h

-- ===== src/Dcp/Ascii/Laws.antt =====
-- What `to_ascii` of src/dcp_transaction.cc makes of texts.
use drcpd.Common.{
  ℕ, zero, suc, ◌+◌, ◌-◌, ◌≤◌, ◌<◌, ◌≡◌, ◌⊎◌, inl, inr, true, false, none, some, List, [], ◌∷◌,
  ◌++◌, refl, ap, arith, ltb, length, take, All,
}
use drcpd.Dcp.Ascii.{is_plain, prepend, fill, to_ascii}

abbrev pub IsPlain : ℕ → Type 0
IsPlain ch = is_plain ch ≡ true

take_nil : (n : ℕ) → take {A = ℕ} n [] ≡ []
take_nil zero = refl
take_nil (suc n) = refl

nothing_left : (size i : ℕ) → fill size i [] ≡ some []
unfolding fill
nothing_left size i = refl

split : (i n : ℕ) → (i < n) ⊎ (n ≤ i)
split i n = ground arith

plain_step :
    (size i : ℕ) (ch : ℕ) (text : List ℕ)
    → is_plain ch ≡ true
    → i < size
    → fill size i (ch ∷ text) ≡ prepend (ch ∷ []) (fill size (i + 1) text)
unfolding fill
plain_step size i ch text p h = let e : ltb i size ≡ true = ground arith in rw (e, p) refl

full : (size i : ℕ) (text : List ℕ) → size ≤ i → fill size i text ≡ some []
unfolding fill
full size i [] h = refl
full size i (ch ∷ text) h = let e : ltb i size ≡ false = ground arith in rw e refl

fill_plain :
    (size i : ℕ) (text : List ℕ) → All IsPlain text → fill size i text ≡ some (take (size - i) text)
unfolding prepend
fill_plain size i [] h = rw (take_nil (size - i)) (nothing_left size i)
fill_plain size i (ch ∷ text) h = elim (split i size) [
  | inl l ↦
      let n : size - i ≡ suc (size - (i + 1)) = omega arith in
      rw (n, plain_step size i ch text h.0 l, fill_plain size (i + 1) text h.1) refl
  | inr g ↦ let n : size - i ≡ 0 = omega arith in rw n (full size i (ch ∷ text) g)
]

take-take : (m n : ℕ) (xs : List ℕ) → m ≤ n → take m (take n xs) ≡ take m xs
take-take zero n xs h = refl
take-take (suc m) zero xs h = absurd (omega arith)
take-take (suc m) (suc n) [] h = refl
take-take (suc m) (suc n) (x ∷ xs) h = ap (λ (ys : List ℕ). x ∷ ys) (take-take m n xs (omega arith))

-- A text of printable characters is copied up to the size of the buffer, less one byte for the
-- end of the text, and nothing is written out of bounds.
pub to_ascii_plain :
    (size : ℕ) (text : List ℕ) → All IsPlain text → to_ascii size text ≡ some (take (size - 1) text)
unfolding to_ascii
to_ascii_plain size text h =
    rw (fill_plain size 0 text h, to_ascii)
      (ap some (take-take (size - 1) (size - 0) text (omega arith)))

overrun_step :
    (size i ch : ℕ) (text : List ℕ)
    → is_plain ch ≡ false
    → i < size
    → size ≤ i + 5
    → fill size i (ch ∷ text) ≡ none
unfolding fill
overrun_step size i ch text p h g =
    let e : ltb i size ≡ true = ground arith in
    let f : ltb (i + 5) size ≡ false = ground arith in rw (e, p, f) refl

fill_overrun :
    (size i : ℕ) (pre text : List ℕ) (ch : ℕ)
    → All IsPlain pre
    → is_plain ch ≡ false
    → i + length pre < size
    → size ≤ i + length pre + 5
    → fill size i (pre ++ ch ∷ text) ≡ none
unfolding prepend
fill_overrun size i [] text ch h p l g = overrun_step size i ch text p (omega arith) (omega arith)
fill_overrun size i (x ∷ pre) text ch h p l g =
    rw
      (
        plain_step size i x (pre ++ ch ∷ text) h.0 (omega arith),
        fill_overrun size (i + 1) pre text ch h.1 p (omega arith) (omega arith),
      )
      refl

-- If printable characters fill the buffer but for its last one to five bytes, then a character
-- that must be escaped is written past the end of the buffer.
pub to_ascii_overrun :
    (size : ℕ) (pre text : List ℕ) (ch : ℕ)
    → All IsPlain pre
    → is_plain ch ≡ false
    → length pre < size
    → size ≤ length pre + 5
    → to_ascii size (pre ++ ch ∷ text) ≡ none
unfolding to_ascii
to_ascii_overrun size pre text ch h p l g =
    rw (fill_overrun size 0 pre text ch h p (omega arith) (omega arith), to_ascii) refl

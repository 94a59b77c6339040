-- ===== src/Search/Steps.antt =====
-- One round of the search for the upper boundary (src/search_algo.cc), as far as the upper partition
-- goes.
use drcpd.Common.{
  ℕ, zero, suc, ◌+◌, ◌≤◌, ◌≡◌, true, false, some, List, [], ◌∷◌, ltb, leb, ◌==◌, if◌then◌else◌,
  length, get_elem?, arith, refl, inl, inr, Bool-cases,
}
use drcpd.Search.{
  Result, searching, checking_boundary, found_match, found_approximate, Partition, BSearchState,
  Outcome, ends, bsearch_boundary, part, is_empty_partition, is_unique, size, picked, small_step,
  large_step, pick_top_half, pick_bottom_half, narrow_lower, is_utf8_character_greater, with_part,
  lock_at_center,
}

pub length-get_elem? :
    (xs : List ℕ) (n : ℕ) (x : ℕ) → get_elem? xs n ≡ some x → ltb (length xs) n ≡ false
length-get_elem? [] n x h = absurd (ground (arith, h))
length-get_elem? (y ∷ ys) zero x h = ground arith
length-get_elem? (y ∷ ys) (suc n) x h = let ih = length-get_elem? ys n x h in ground arith

unfoldable pub upper_step : Partition → ℕ → ℕ → Partition × Result
unfolding is_unique size pick_top_half pick_bottom_half lock_at_center
upper_step p key ch =
    if is_unique p
    then (p, if key == ch then found_match else found_approximate)
    else if size p == 2
    then (if key == ch
        then (lock_at_center p, found_match)
        else if ltb ch key
        then (if ltb p.center_ p.bottom_
            then (record p { center_ = p.center_ + 1 }, searching)
            else (lock_at_center p, checking_boundary))
        else (lock_at_center p, found_approximate))
    else if leb key ch
    then pick_top_half p 0
    else pick_bottom_half p 0

pub narrow_lower-upper_ :
    (s : BSearchState) (c ch : ℕ)
    → ((narrow_lower s c ch).upper_ ≡ s.upper_)
      × ((narrow_lower s c ch).utf8_key_ ≡ s.utf8_key_)
      × ((narrow_lower s c ch).depth_ ≡ s.depth_)
unfolding narrow_lower
narrow_lower-upper_ s c ch = (ground arith, ground arith, ground arith)

unfoldable pub Went : BSearchState → Outcome → ℕ → Type 0
Went s o ch =
    (s' : BSearchState) × (r : Result) × (o ≡ ends s' r)
    × (s'.utf8_key_ ≡ s.utf8_key_)
    × (s'.depth_ ≡ s.depth_)
    × ((s'.upper_, r) ≡ upper_step s.upper_ s.utf8_key_ ch)

small_step-Went :
    (s : BSearchState) (ch : ℕ)
    → is_unique s.upper_ ≡ false
    → (size s.upper_ == 2) ≡ true
    → Went s (small_step true s s.upper_ ch) ch
unfolding small_step with_part upper_step Went
small_step-Went s ch u h = elim (Bool-cases (s.utf8_key_ == ch)) [
  | inl k ↦ (
    record s { upper_ = lock_at_center s.upper_ },
    found_match,
    ground arith,
    refl,
    refl,
    ground arith,
  )
  | inr k ↦ elim (Bool-cases (ltb ch s.utf8_key_)) [
    | inl t ↦ elim (Bool-cases (ltb s.upper_.center_ s.upper_.bottom_)) [
      | inl c ↦ (
        record s { upper_ = record s.upper_ { center_ = s.upper_.center_ + 1 } },
        searching,
        ground arith,
        refl,
        refl,
        ground arith,
      )
      | inr c ↦ (
        record s { upper_ = lock_at_center s.upper_ },
        checking_boundary,
        ground arith,
        refl,
        refl,
        ground arith,
      )
    ]
    | inr t ↦ (
      record s { upper_ = lock_at_center s.upper_ },
      found_approximate,
      ground arith,
      refl,
      refl,
      ground arith,
    )
  ]
]

large_step-Went :
    (s : BSearchState) (ch : ℕ)
    → is_unique s.upper_ ≡ false
    → (size s.upper_ == 2) ≡ false
    → Went s (large_step true s s.upper_ ch) ch
unfolding large_step with_part picked is_utf8_character_greater upper_step Went
large_step-Went s ch u h =
    let (_, k, d) = narrow_lower-upper_ s s.upper_.center_ ch in
    elim (Bool-cases (leb s.utf8_key_ ch)) [
      | inl t ↦ (
        record (narrow_lower s s.upper_.center_ ch) { upper_ = (pick_top_half s.upper_ 0).0 },
        (pick_top_half s.upper_ 0).1,
        ground arith,
        k,
        d,
        ground arith,
      )
      | inr t ↦ (
        record (narrow_lower s s.upper_.center_ ch) { upper_ = (pick_bottom_half s.upper_ 0).0 },
        (pick_bottom_half s.upper_ 0).1,
        ground arith,
        k,
        d,
        ground arith,
      )
    ]

pub bsearch_boundary-Went :
    (s : BSearchState) (str : List ℕ) (ch : ℕ)
    → s.upper_.top_ ≤ s.upper_.bottom_
    → get_elem? str s.depth_ ≡ some ch
    → Went s (bsearch_boundary true s str) ch
unfolding bsearch_boundary part is_empty_partition Went upper_step
bsearch_boundary-Went s str ch le h =
    let short = length-get_elem? str s.depth_ ch h in
    elim (Bool-cases (is_unique s.upper_)) [
      | inl u ↦ (
        s,
        if s.utf8_key_ == ch then found_match else found_approximate,
        ground (arith, h),
        refl,
        refl,
        ground arith,
      )
      | inr u ↦ elim (Bool-cases (size s.upper_ == 2)) [
        | inl t ↦
            let (s', r, q, k, d, e) = small_step-Went s ch u t in
            (s', r, ground (arith, h), k, d, e)
        | inr t ↦
            let (s', r, q, k, d, e) = large_step-Went s ch u t in
            (s', r, ground (arith, h), k, d, e)
      ]
    ]

-- ===== src/Search/TopMost.antt =====
-- The search for the first item with a character at a depth (src/search_algo.cc).
use drcpd.Common.{
  ℕ, zero, suc, ◌≤◌, ◌<◌, ◌≡◌, ◌⊎◌, true, false, Option, some, List, [], ◌∷◌, get_elem?, u32_max,
  arith, refl, inl, inr, subst, sym, ap, ◌∙◌,
}
use drcpd.Search.{
  Result, Partition, BSearchState, ends, bsearch_boundary, part, is_empty_partition, goes_on,
  search_boundary, bsearch_top_most, rounds_for, prepare_next_iteration, get_result, next_depth,
  construct, binary_search_utf8, search_characters, position, is_nil,
}
use drcpd.Search.Steps.{upper_step, Went, bsearch_boundary-Went}
use drcpd.Search.Narrows.{IsSorted, Found, Inv, left, Next, upper_step-Next}

-- The item has the character `ch` at the depth.
unfoldable pub HasChar : (ℕ → Option (List ℕ)) → ℕ → ℕ → ℕ → Type 0
HasChar text depth i ch = (str : List ℕ) × (text i ≡ some str) × (get_elem? str depth ≡ some ch)

module _ (text : ℕ → Option (List ℕ)) (f : ℕ → ℕ) (key depth a b : ℕ) (b32 : b < u32_max)
    (mono : IsSorted f a b) (chars : (i : ℕ) → a ≤ i → i ≤ b → HasChar text depth i (f i)) where
  left-positive : (p : Partition) → left p ≡ 0 → ⊥
  unfolding left
  left-positive p h = ground arith

  round_again :
      (n : ℕ) (s s1 s2 : BSearchState) (str : List ℕ) (r r2 : Result)
      → text s.upper_.center_ ≡ some str
      → bsearch_boundary true s str ≡ ends s1 r
      → goes_on r ≡ true
      → search_boundary true n text s1 ≡ ends s2 r2
      → search_boundary true (suc n) text s ≡ ends s2 r2
  unfolding search_boundary part
  round_again n s s1 s2 str r r2 q e g e2 = ground arith

  round_last :
      (n : ℕ) (s s1 : BSearchState) (str : List ℕ) (r : Result)
      → text s.upper_.center_ ≡ some str
      → bsearch_boundary true s str ≡ ends s1 r
      → goes_on r ≡ false
      → search_boundary true (suc n) text s ≡ ends s1 r
  unfolding search_boundary part
  round_last n s s1 str r q e g = ground arith

  Found-stops : (p : Partition) (r : Result) → Found f key a b p r → goes_on r ≡ false
  unfolding goes_on Found
  Found-stops p r (inl h) = ap goes_on h.0
  Found-stops p r (inr h) = ap goes_on h.0

  one_round :
      (s : BSearchState)
      → s.utf8_key_ ≡ key
      → s.depth_ ≡ depth
      → Inv f key a b s.upper_
      → (str : List ℕ) × (s1 : BSearchState) × (r : Result) × (text s.upper_.center_ ≡ some str)
        × (bsearch_boundary true s str ≡ ends s1 r)
        × (s1.utf8_key_ ≡ key)
        × (s1.depth_ ≡ depth)
        × Next f key a b b32 mono s.upper_ (s1.upper_, r)
  unfolding HasChar Went
  one_round s k d inv =
      let from = inv.from in
      let to = inv.to in
      let tc = inv.top_center in
      let cb = inv.center_bottom in
      let (str, q, h) = chars s.upper_.center_ (omega arith) (omega arith) in
      let (s1, r, e, k1, d1, u) =
        bsearch_boundary-Went s str (f s.upper_.center_) (omega arith) (ap (get_elem? str) d ∙ h) in
      (
        str,
        s1,
        r,
        q,
        e,
        k1 ∙ k,
        d1 ∙ d,
        subst (Next f key a b b32 mono s.upper_)
            (sym (u ∙ ap (λ n. upper_step s.upper_ n (f s.upper_.center_)) k))
            (upper_step-Next f key a b b32 mono s.upper_ inv),
      )

  search_boundary-Found :
      (rounds : ℕ) (s : BSearchState)
      → s.utf8_key_ ≡ key
      → s.depth_ ≡ depth
      → Inv f key a b s.upper_
      → left s.upper_ ≤ rounds
      → (s' : BSearchState) × (r : Result) × (search_boundary true rounds text s ≡ ends s' r)
        × Found f key a b s'.upper_ r
  unfolding Next
  search_boundary-Found zero s k d inv l = absurd (left-positive s.upper_ (omega arith))
  search_boundary-Found (suc rounds) s k d inv l =
      let (str, s1, r, q, e, k1, d1, next) = one_round s k d inv in
      elim next [
        | inl (g, inv1, less) ↦
            let (s2, r2, e2, found) = search_boundary-Found rounds s1 k1 d1 inv1 (omega arith) in
            (s2, r2, round_again rounds s s1 s2 str r r2 q e g e2, found)
        | inr found ↦
            (s1, r, round_last rounds s s1 str r q e (Found-stops s1.upper_ r found), found)
      ]

  whole :
      (s : BSearchState)
      → s.all_top_ ≡ a
      → s.all_bottom_ ≡ b
      → a ≤ b
      → Inv f key a b (prepare_next_iteration s key).upper_
  unfolding prepare_next_iteration
  whole s t l h = record {
    from = omega arith;
    top_center = ground arith;
    center_bottom = ground arith;
    to = omega arith;
    below = λ j x y. absurd (omega arith);
    above = inl l;
    second = λ x y. absurd (ground arith);
    inside = λ x. (ground arith, ground arith);
  }

top_most_within :
    (text : ℕ → Option (List ℕ)) (f : ℕ → ℕ) (s : BSearchState) (key a b : ℕ)
    → s.all_top_ ≡ a
    → s.all_bottom_ ≡ b
    → a ≤ b
    → b < u32_max
    → IsSorted f a b
    → ((i : ℕ) → a ≤ i → i ≤ b → HasChar text (next_depth s.depth_) i (f i))
    → (s' : BSearchState) × (r : Result) × (bsearch_top_most text (prepare_next_iteration s key)
        ≡ ends s' r)
      × Found f key a b s'.upper_ r
unfolding bsearch_top_most prepare_next_iteration rounds_for left
top_most_within text f s key a b t l h b32 mono chars =
    search_boundary-Found text f key (next_depth s.depth_) a b b32 mono chars _
      (prepare_next_iteration s key) refl refl
      (whole text f key (next_depth s.depth_) a b b32 mono chars s t l h) (ground arith)

-- In a range of items that are sorted by their characters at a depth, the search for the upper
-- boundary ends; the first item with the character is at the top of the upper partition then, or
-- there is no item with the character and the match is approximate.
pub bsearch_top_most-Found :
    (text : ℕ → Option (List ℕ)) (f : ℕ → ℕ) (s : BSearchState) (key : ℕ)
    → s.all_top_ ≤ s.all_bottom_
    → s.all_bottom_ < u32_max
    → IsSorted f s.all_top_ s.all_bottom_
    → ((i : ℕ) → s.all_top_ ≤ i → i ≤ s.all_bottom_ → HasChar text (next_depth s.depth_) i (f i))
    → (s' : BSearchState) × (r : Result) × (bsearch_top_most text (prepare_next_iteration s key)
        ≡ ends s' r)
      × Found f key s.all_top_ s.all_bottom_ s'.upper_ r
bsearch_top_most-Found text f s key h b32 mono chars =
    top_most_within text f s key s.all_top_ s.all_bottom_ refl refl h b32 mono chars

-- In a list of texts that are not empty and sorted by their first characters, the search for a
-- single character comes to the first item that starts with it, or to some item of the list if
-- no item does.
pub binary_search_utf8_single :
    (text : ℕ → Option (List ℕ)) (f : ℕ → ℕ) (n key : ℕ)
    → suc n < u32_max
    → IsSorted f 0 n
    → ((i : ℕ) → 0 ≤ i → i ≤ n → HasChar text 0 i (f i))
    → ((i : ℕ) × (binary_search_utf8 text (suc n) (key ∷ []) ≡ position (some i))
        × (f i ≡ key)
        × ((j : ℕ) → j < i → f j < key))
      ⊎ ((i : ℕ) × (binary_search_utf8 text (suc n) (key ∷ []) ≡ position (some i))
          × (i ≤ n)
          × ((j : ℕ) → j ≤ n → ¬ (f j ≡ key)))
unfolding binary_search_utf8 search_characters construct is_nil get_result is_empty_partition Found
    next_depth
binary_search_utf8_single text f n key h mono chars =
    let (s', r, q, found) =
      top_most_within text f (construct (suc n)) key 0 n (ground arith) (ground arith) (omega arith)
        (omega arith) mono chars in
    elim found [
      | inl (e, lo, hi, same, is_key, below) ↦
          inl (s'.upper_.top_, ground arith, is_key, λ j x. below j (omega arith) x)
      | inr (e, lo, hi, same, nowhere) ↦
          inr (s'.upper_.top_, ground arith, hi, λ j x. nowhere j (omega arith) x)
    ]

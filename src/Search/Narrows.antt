-- ===== src/Search/Narrows.antt =====
-- One round of the search for the upper boundary in sorted items (src/search_algo.cc).
use Prim.Native.Nat.{◌/◌}
use drcpd.Common.{
  ℕ, suc, ◌+◌, ◌-◌, ◌≤◌, ◌<◌, ◌≡◌, ◌⊎◌, true, ltb, leb, ◌==◌, if◌then◌else◌, u32_max, arith, refl,
  inl, inr, Bool-cases, subst, sym, ap,
}
use drcpd.Search.{
  Result, searching, checking_boundary, found_match, found_approximate, Partition, is_unique, size,
  pick_top_half, pick_bottom_half, lock_at_center, goes_on,
}
use drcpd.Search.Steps.{upper_step}

-- The characters `f` of the items from `a` to `b` at the depth are sorted.
unfoldable pub IsSorted : (ℕ → ℕ) → ℕ → ℕ → Type 0
IsSorted f a b = (i j : ℕ) → a ≤ i → i ≤ j → j ≤ b → f i ≤ f j

-- Either the first item with the character is found, or there is none.
unfoldable pub Found : (ℕ → ℕ) → ℕ → ℕ → ℕ → Partition → Result → Type 0
Found f key a b p r =
    ((r ≡ found_match)
      × (a ≤ p.top_)
      × (p.top_ ≤ b)
      × (p.top_ ≡ p.bottom_)
      × (f p.top_ ≡ key)
      × ((j : ℕ) → a ≤ j → j < p.top_ → f j < key))
    ⊎ ((r ≡ found_approximate)
        × (a ≤ p.top_)
        × (p.top_ ≤ b)
        × (p.top_ ≡ p.bottom_)
        × ((j : ℕ) → a ≤ j → j ≤ b → ¬ (f j ≡ key)))

pub record Inv (f : ℕ → ℕ) (key a b : ℕ) (p : Partition) : Type 0 where
  pub from : a ≤ p.top_
  pub top_center : p.top_ ≤ p.center_
  pub center_bottom : p.center_ ≤ p.bottom_
  pub to : p.bottom_ ≤ b
  pub below : (j : ℕ) → a ≤ j → j < p.top_ → f j < key
  pub above : (p.bottom_ ≡ b) ⊎ (key ≤ f p.bottom_)
  pub second : p.bottom_ ≡ suc p.top_ → p.center_ ≡ p.bottom_ → f p.top_ < key
  pub inside : suc (suc p.top_) ≤ p.bottom_ → (p.top_ < p.center_) × (p.center_ < p.bottom_)

unfoldable pub left : Partition → ℕ
left p = p.bottom_ - p.top_ + (if ltb p.center_ p.bottom_ then 2 else 1)

module _ (f : ℕ → ℕ) (key a b : ℕ) (b32 : b < u32_max) (mono : IsSorted f a b) where
  unfoldable pub Next : Partition → Partition × Result → Type 0
  Next p (q, r) = ((goes_on r ≡ true) × Inv f key a b q × (left q < left p)) ⊎ Found f key a b q r

  top_half :
      (p : Partition)
      → Inv f key a b p
      → suc (suc p.top_) ≤ p.bottom_
      → key ≤ f p.center_
      → Next p (pick_top_half p 0)
  unfolding Next pick_top_half left goes_on
  top_half p inv h k =
      let (c1, c2) = inv.inside h in
      let to = inv.to in
      let q : Partition = record {
        top_ = p.top_;
        bottom_ = p.center_;
        center_ = p.top_ + (p.center_ - p.top_) / 2;
      } in
      let e : pick_top_half p 0 ≡ (q, searching) = ground arith in
      subst (Next p) (sym e) (
        inl (
          refl,
          record {
            from = inv.from;
            top_center = omega arith;
            center_bottom = omega arith;
            to = omega arith;
            below = inv.below;
            above = inr k;
            second = λ x y. absurd (omega arith);
            inside = λ x. (omega arith, omega arith);
          },
          ground arith,
        ))

  bottom_half :
      (p : Partition)
      → Inv f key a b p
      → suc (suc p.top_) ≤ p.bottom_
      → f p.center_ < key
      → Next p (pick_bottom_half p 0)
  unfolding Next pick_bottom_half left goes_on IsSorted
  bottom_half p inv h k =
      let (c1, c2) = inv.inside h in
      let to = inv.to in
      let from = inv.from in
      let q : Partition = record {
        top_ = p.center_;
        bottom_ = p.bottom_;
        center_ = p.center_ + (p.bottom_ - p.center_) / 2;
      } in
      let e : pick_bottom_half p 0 ≡ (q, searching) = ground arith in
      subst (Next p) (sym e) (
        inl (
          refl,
          record {
            from = omega arith;
            top_center = omega arith;
            center_bottom = omega arith;
            to = inv.to;
            below = λ j x y. let m = mono j p.center_ x (omega arith) (omega arith) in omega arith;
            above = inv.above;
            second = λ x y. absurd (omega arith);
            inside = λ x. (omega arith, omega arith);
          },
          ground arith,
        ))

  -- No item has the character if the items before `c` have smaller ones and `c` has a greater one.
  passed :
      (c : ℕ)
      → c ≤ b
      → ((j : ℕ) → a ≤ j → j < c → f j < key)
      → key < f c
      → (j : ℕ) → a ≤ j
      → j ≤ b
      → a ≤ c
      → ¬ (f j ≡ key)
  unfolding IsSorted
  passed c to below k j x y from z = elim (Bool-cases (ltb j c)) [
    | inl t ↦ let m = below j x (ground arith) in omega arith
    | inr t ↦ let m = mono c j from (ground arith) y in omega arith
  ]

  only :
      (p : Partition)
      → Inv f key a b p
      → p.top_ ≡ p.bottom_
      → Next p (p, if key == f p.center_ then found_match else found_approximate)
  unfolding Next Found IsSorted
  only p inv u =
      let from = inv.from in
      let to = inv.to in
      let tc : p.center_ ≡ p.top_ =
        (let x = inv.top_center in let y = inv.center_bottom in omega arith) in
      let same : f p.center_ ≡ f p.top_ = ap f tc in
      let last : f p.bottom_ ≡ f p.top_ = ap f (sym u) in
      elim (Bool-cases (key == f p.center_)) [
        | inl k ↦ inr (inl (ground arith, from, omega arith, u, ground arith, inv.below))
        | inr k ↦ inr (
            inr (
              ground arith,
              from,
              omega arith,
              u,
              λ j x y z. elim (Bool-cases (ltb key (f p.top_))) [
                | inl t ↦ passed p.top_ (omega arith) inv.below (ground arith) j x y from z
                | inr t ↦ elim inv.above [
                  | inl e ↦ let m = mono j p.top_ x (omega arith) (omega arith) in ground arith
                  | inr g ↦ ground arith
                ]
              ],
            ))
      ]

  before_center :
      (p : Partition)
      → Inv f key a b p
      → p.bottom_ ≡ suc p.top_
      → (j : ℕ) → a ≤ j
      → j < p.center_
      → f j < key
  before_center p inv u j x y = elim (Bool-cases (ltb j p.top_)) [
    | inl t ↦ inv.below j x (ground arith)
    | inr t ↦
        let cb = inv.center_bottom in
        let same : j ≡ p.top_ = ground arith in
        let m = inv.second u (ground arith) in let e : f j ≡ f p.top_ = ap f same in omega arith
  ]

  two :
      (p : Partition)
      → Inv f key a b p
      → p.bottom_ ≡ suc p.top_
      → Next p (upper_step p key (f p.center_))
  unfolding Next Found upper_step is_unique size lock_at_center left goes_on
  two p inv u =
      let from = inv.from in
      let to = inv.to in
      let tc = inv.top_center in
      let cb = inv.center_bottom in
      elim (Bool-cases (key == f p.center_)) [
        | inl k ↦
            let e : upper_step p key (f p.center_) ≡ (lock_at_center p, found_match) =
              ground arith in
            subst (Next p) (sym e) (
              inr (inl (refl, omega arith, omega arith, refl, ground arith, before_center p inv u)))
        | inr k ↦ elim (Bool-cases (ltb (f p.center_) key)) [
          | inl t ↦ elim (Bool-cases (ltb p.center_ p.bottom_)) [
            | inl c ↦
                let same : f p.center_ ≡ f p.top_ = ap f (ground arith) in
                let e : upper_step p key (f p.center_)
                    ≡ (record p { center_ = p.center_ + 1 }, searching) =
                  ground arith in
                subst (Next p) (sym e) (
                  inl (
                    refl,
                    record {
                      from = from;
                      top_center = omega arith;
                      center_bottom = ground arith;
                      to = to;
                      below = inv.below;
                      above = inv.above;
                      second = λ x y. ground arith;
                      inside = λ x. absurd (omega arith);
                    },
                    ground arith,
                  ))
            | inr c ↦
                let e : upper_step p key (f p.center_) ≡ (lock_at_center p, checking_boundary) =
                  ground arith in
                let same : p.center_ ≡ p.bottom_ = ground arith in
                subst (Next p) (sym e) (
                  inl (
                    refl,
                    record {
                      from = omega arith;
                      top_center = omega arith;
                      center_bottom = omega arith;
                      to = omega arith;
                      below = before_center p inv u;
                      above = subst (λ n. (n ≡ b) ⊎ (key ≤ f n)) (sym same) inv.above;
                      second = λ x y. absurd (omega arith);
                      inside = λ x. absurd (omega arith);
                    },
                    ground arith,
                  ))
          ]
          | inr t ↦
              let e : upper_step p key (f p.center_) ≡ (lock_at_center p, found_approximate) =
                ground arith in
              subst (Next p) (sym e) (
                inr (
                  inr (
                    refl,
                    omega arith,
                    omega arith,
                    refl,
                    λ j x y.
                        passed p.center_ (omega arith) (before_center p inv u) (ground arith) j x y
                          (omega arith),
                  )))
        ]
      ]

  pub upper_step-Next : (p : Partition) → Inv f key a b p → Next p (upper_step p key (f p.center_))
  unfolding upper_step is_unique size
  upper_step-Next p inv =
      let tc = inv.top_center in
      let cb = inv.center_bottom in
      let to = inv.to in
      elim (Bool-cases (p.top_ == p.bottom_)) [
        | inl u ↦
            let e : upper_step p key (f p.center_)
                ≡ (p, if key == f p.center_ then found_match else found_approximate) =
              ground arith in
            subst (Next p) (sym e) (only p inv (ground arith))
        | inr u ↦ elim (Bool-cases (p.bottom_ == suc p.top_)) [
          | inl t ↦ two p inv (ground arith)
          | inr t ↦ elim (Bool-cases (leb key (f p.center_))) [
            | inl k ↦
                let e : upper_step p key (f p.center_) ≡ pick_top_half p 0 = ground arith in
                subst (Next p) (sym e) (top_half p inv (ground arith) (ground arith))
            | inr k ↦
                let e : upper_step p key (f p.center_) ≡ pick_bottom_half p 0 = ground arith in
                subst (Next p) (sym e) (bottom_half p inv (ground arith) (ground arith))
          ]
        ]
      ]

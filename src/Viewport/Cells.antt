-- ===== src/Viewport/Cells.antt =====
-- A stretch of cached items, all present, and how the shifts and writes of the cache act on it.
use mathlib.Core.List.{append-nil, append_assoc}
use native.Mathlib.Nat.{add-zero, zero-add, suc-add, add-suc, sub-zero, zero-sub, suc-sub-suc}
use drcpd.Common.{
  ℕ, zero, suc, ◌+◌, ◌-◌, ◌≤◌, ◌≡◌, refl, ap, ◌∙◌, Option, some, List, [], ◌∷◌, ◌++◌, arith, length,
  length-append, subst, take, drop, set, true, false,
}
use drcpd.RamList.{replace, append}
use drcpd.Viewport.{put_items}

pub take_all {ℓ} : {B : Type ℓ} (k : ℕ) (xs : List B) → length xs ≤ k → take k xs ≡ xs
take_all zero [] h = refl
take_all zero (x ∷ xs) h = absurd (omega arith)
take_all (suc k) [] h = refl
take_all (suc k) (x ∷ xs) h = ap (◌∷◌ x) (take_all k xs (omega arith))

module _ {A : Type 0} where
  -- Items `l`, `l + 1`, ... of the list, `n` in all.
  abbrev pub slice : (ℕ → A) → ℕ → ℕ → List A
  slice f l zero = []
  slice f l (suc n) = f l ∷ slice f (suc l) n

  abbrev pub cells : List A → List (Option A)
  cells [] = []
  cells (x ∷ xs) = some x ∷ cells xs

  pub length-slice : (f : ℕ → A) (l n : ℕ) → length (slice f l n) ≡ n
  length-slice f l zero = refl
  length-slice f l (suc n) = ap suc (length-slice f (suc l) n)

  pub length-cells : (xs : List A) → length (cells xs) ≡ length xs
  length-cells [] = refl
  length-cells (x ∷ xs) = ap suc (length-cells xs)

  pub drop-cells-slice :
      (f : ℕ → A) (k l n : ℕ) → drop k (cells (slice f l n)) ≡ cells (slice f (l + k) (n - k))
  drop-cells-slice f zero l n = rw (add-zero, sub-zero)
  drop-cells-slice f (suc k) l zero = simp zero-sub
  drop-cells-slice f (suc k) l (suc n) =
      rw (drop-cells-slice f k (suc l) n, suc-add, add-suc, suc-sub-suc)

  pub take-cells-slice :
      (f : ℕ → A) (k l n : ℕ) → k ≤ n → take k (cells (slice f l n)) ≡ cells (slice f l k)
  take-cells-slice f zero l n h = refl
  take-cells-slice f (suc k) l zero h = absurd (omega arith)
  take-cells-slice f (suc k) l (suc n) h =
      ap (◌∷◌ (some (f l))) (take-cells-slice f k (suc l) n (omega arith))

  pub cells-slice-append :
      (f : ℕ → A) (l m n : ℕ)
      → cells (slice f l m) ++ cells (slice f (l + m) n) ≡ cells (slice f l (m + n))
  cells-slice-append f l zero n = rw (add-zero, zero-add)
  cells-slice-append f l (suc m) n =
      rw (suc-add, add-suc)
        (ap (◌∷◌ (some (f l))) (rw (← suc-add) (cells-slice-append f (suc l) m n)))

  set_middle :
      (pre : List (Option A)) (m v : Option A) (post : List (Option A))
      → set (pre ++ (m ∷ post)) (length pre) v ≡ pre ++ (v ∷ post)
  set_middle [] m v post = refl
  set_middle (p ∷ pre) m v post = ap (◌∷◌ p) (set_middle pre m v post)

  replace_middle :
      (pre : List (Option A)) (m v : Option A) (post : List (Option A))
      → replace (pre ++ (m ∷ post)) (length pre) v ≡ some (pre ++ (v ∷ post))
  unfolding replace
  replace_middle pre m v post =
      ground (arith, set_middle pre m v post, length-append pre (m ∷ post))

  put_items_shift :
      (pre mid post : List (Option A)) (x : A) (xs : List A)
      → put_items true ((pre ++ some x ∷ []) ++ (mid ++ post)) (length (pre ++ some x ∷ [])) xs
        ≡ some ((pre ++ some x ∷ []) ++ (cells xs ++ post))
      → put_items true (pre ++ (some x ∷ (mid ++ post))) (suc (length pre)) xs
        ≡ some (pre ++ (some x ∷ (cells xs ++ post)))
  put_items_shift pre mid post x xs h =
      subst
        (λ (n : ℕ).
          put_items true (pre ++ (some x ∷ (mid ++ post))) n xs
          ≡ some (pre ++ (some x ∷ (cells xs ++ post))))
        (omega (arith, length-append pre (some x ∷ [])))
        (rw
          (
            append_assoc pre (some x ∷ []) (mid ++ post),
            append_assoc pre (some x ∷ []) (cells xs ++ post),
          )
          at h)

  -- Writing a run of items over as many cells.
  pub put_items_over :
      (pre mid post : List (Option A)) (xs : List A)
      → length mid ≡ length xs
      → put_items true (pre ++ (mid ++ post)) (length pre) xs ≡ some (pre ++ (cells xs ++ post))
  unfolding put_items
  put_items_over pre [] post [] h = refl
  put_items_over pre [] post (x ∷ xs) h = absurd (omega arith)
  put_items_over pre (m ∷ mid) post [] h = absurd (omega arith)
  put_items_over pre (m ∷ mid) post (x ∷ xs) h =
      rw (replace_middle pre m (some x) (mid ++ post), put_items)
        (put_items_shift pre mid post x xs
          (put_items_over (pre ++ some x ∷ []) mid post xs (omega arith)))

  pub put_items_append :
      (pre : List (Option A)) (i : ℕ) (xs : List A)
      → put_items false pre i xs ≡ some (pre ++ cells xs)
  unfolding put_items append
  put_items_append pre i [] = rw append-nil
  put_items_append pre i (x ∷ xs) =
      put_items_append (pre ++ some x ∷ []) i xs
      ∙ ap some (append_assoc pre (some x ∷ []) (cells xs))

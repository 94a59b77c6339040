-- ===== src/Player/QueuedStreams/FreeId.antt =====
-- The search for an unused stream ID in `append` (src/player_data.cc) ends.
use drcpd.Common.{
  ℕ, zero, suc, ◌≤◌, ◌<◌, ◌≡◌, ◌≢◌, refl, true, false, not, ◌&&◌, some, List, [], ◌∷◌, arith, ◌==◌,
  length, Bool-cases, inl, inr, ◌∙◌,
}
use drcpd.Player.QueuedStreams.{is_in, remove_id, free_id}

-- The ID after `n` steps.
abbrev pub iterate : (ℕ → ℕ) → ℕ → ℕ → ℕ
iterate next_id zero id = id
iterate next_id (suc n) id = iterate next_id n (next_id id)

-- No ID comes again within so many steps.
abbrev pub RunsOn : (ℕ → ℕ) → ℕ → Type 0
RunsOn next_id bound = (id n : ℕ) → 0 < n → n ≤ bound → iterate next_id n id ≢ id

is_in-remove_id :
    (ids : List ℕ) (id x : ℕ) → is_in (remove_id ids id) x ≡ (is_in ids x && not (id == x))
unfolding is_in remove_id
is_in-remove_id [] id x = ground arith
is_in-remove_id (y ∷ ids) id x = ground (arith, is_in-remove_id ids id x)

length-remove_id : (ids : List ℕ) (id : ℕ) → length (remove_id ids id) ≤ length ids
unfolding remove_id
length-remove_id [] id = omega arith
length-remove_id (y ∷ ids) id = ground (arith, length-remove_id ids id)

shorter : (ids : List ℕ) (id : ℕ) → is_in ids id ≡ true → length (remove_id ids id) < length ids
unfolding is_in remove_id
shorter [] id h = absurd (ground arith)
shorter (y ∷ ids) id h = ground (arith, length-remove_id ids id, shorter ids id)

module _ (next_id : ℕ → ℕ) where
  pub free_id_unused :
      (fuel : ℕ) (used : List ℕ) (id r : ℕ)
      → free_id next_id fuel used id ≡ some r
      → is_in used r ≡ false
  unfolding free_id
  free_id_unused zero used id r h = absurd (ground arith)
  free_id_unused (suc fuel) used id r h = ground (arith, free_id_unused fuel used (next_id id) r)

  free_id-remove_id :
      (fuel : ℕ) (used : List ℕ) (id old : ℕ)
      → ((n : ℕ) → n < fuel → iterate next_id n id ≢ old)
      → free_id next_id fuel used id ≡ free_id next_id fuel (remove_id used old) id
  unfolding free_id
  free_id-remove_id zero used id old h = refl
  free_id-remove_id (suc fuel) used id old h = ground (
    arith,
    is_in-remove_id used old id,
    h 0 (omega arith),
    free_id-remove_id fuel used (next_id id) old (λ n l. h (suc n) (omega arith)),
  )

  pub free_id_found :
      (bound fuel : ℕ) (used : List ℕ) (id : ℕ)
      → RunsOn next_id bound
      → fuel ≤ suc bound
      → length used < fuel
      → (r : ℕ) × (free_id next_id fuel used id ≡ some r)
  unfolding free_id
  free_id_found bound zero used id h b l = absurd (omega arith)
  free_id_found bound (suc fuel) used id h b l = elim (Bool-cases (is_in used id)) [
    | inr e ↦ (id, rw e refl)
    | inl e ↦
        let (r, found) =
          free_id_found bound fuel (remove_id used id) (next_id id) h (omega arith)
            (omega (arith, shorter used id e)) in
        (
          r,
          rw e (
              free_id-remove_id fuel used (next_id id) id
                (λ n l'. h id (suc n) (omega arith) (omega arith))
              ∙ found),
        )
  ]

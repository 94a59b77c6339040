-- ===== src/Player/Data/Refs.antt =====
-- How the reference counts of the lists follow the streams (src/player_data.cc).
use drcpd.Common.{
  ℕ, suc, ◌+◌, ◌-◌, ◌≡◌, ◌⊎◌, inl, inr, refl, ap, Bool, not, Option, none, some, List, [], ◌∷◌,
  ◌++◌, arith, ◌==◌, if◌then◌else◌, length, Option-cases, Bool-cases, ℕ_discrete,
}
use drcpd.Player.QueuedStreams.{
  QueuedStream, QueuedStreams, find_stream, without, erase_stream, remove_front, remove_anywhere,
  choose, is_idle, is_in, land, take_next, shift_unless, shift, shift_if_not_flying, clear,
  clear_if, select, append, free_id, is_full, ids_of,
}
use drcpd.Player.RefCounts.{
  RefCounts, find_count, set_count, erase_count, ref_list_id, unref_list_id,
}
use drcpd.Player.Data.{remove_all, remove_data_for_stream}

unfoldable pub unit_if : Bool → ℕ
unit_if b = if b then 1 else 0

-- The count of a list; a list that is not in the map is not referenced.
abbrev pub or_zero : Option ℕ → ℕ
or_zero none = 0
or_zero (some n) = n

unfoldable pub count_of : ℕ → RefCounts → ℕ
count_of l counts = or_zero (find_count counts l)

find-set :
    (counts : RefCounts) (k n l : ℕ)
    → find_count (set_count counts k n) l ≡ (if k == l then some n else find_count counts l)
unfolding find_count set_count
find-set [] k n l = ground arith
find-set ((key, m) ∷ counts) k n l = let r = find-set counts k n l in ground arith

find-erase :
    (counts : RefCounts) (k l : ℕ)
    → find_count (erase_count counts k) l ≡ (if k == l then none else find_count counts l)
unfolding find_count erase_count
find-erase [] k l = ground arith
find-erase ((key, m) ∷ counts) k l = let r = find-erase counts k l in ground arith

pub count-ref :
    (counts : RefCounts) (k l : ℕ)
    → count_of l (ref_list_id counts k) ≡ count_of l counts + unit_if (k == l)
unfolding count_of ref_list_id unit_if
count-ref counts k l = elim (Option-cases (find_count counts k)) [
  | inl e ↦
      let s = find-set counts k 1 l in
      elim (ℕ_discrete k l) [
        | yes p ↦ let q = ap (find_count counts) p in ground arith
        | no p ↦ ground arith
      ]
  | inr (n, e) ↦
      let s = find-set counts k (suc n) l in
      elim (ℕ_discrete k l) [
        | yes p ↦ let q = ap (find_count counts) p in ground arith
        | no p ↦ ground arith
      ]
]

pub count-unref :
    (counts : RefCounts) (k l : ℕ)
    → count_of l (unref_list_id counts k) ≡ count_of l counts - unit_if (k == l)
unfolding count_of unref_list_id unit_if
count-unref counts k l = elim (Option-cases (find_count counts k)) [
  | inl e ↦ elim (ℕ_discrete k l) [
    | yes p ↦ let q = ap (find_count counts) p in ground arith
    | no p ↦ ground arith
  ]
  | inr (n, e) ↦
      let s = find-set counts k (n - 1) l in
      let r = find-erase counts k l in
      elim (ℕ_discrete k l) [
        | yes p ↦ let q = ap (find_count counts) p in ground arith
        | no p ↦ ground arith
      ]
]

abbrev pub the {ℓ} : (A : Type ℓ) → A → A
the A a = a

module _ {P : Type 0} where
  -- The number of streams that come from a list.
  unfoldable pub listed : ℕ → List (QueuedStream P) → ℕ
  unfolding unit_if
  listed l [] = 0
  listed l (s ∷ streams) = unit_if (s.list_id_ == l) + listed l streams

  pub listed-append :
      (l : ℕ) (xs ys : List (QueuedStream P)) → listed l (xs ++ ys) ≡ listed l xs + listed l ys
  unfolding listed
  listed-append l [] ys = omega arith
  listed-append l (x ∷ xs) ys = omega (arith, listed-append l xs ys)

  pub listed-find :
      (l : ℕ) (streams : List (QueuedStream P)) (id : ℕ) (s : QueuedStream P)
      → find_stream streams id ≡ some s
      → unit_if (s.list_id_ == l) + listed l (without streams id) ≡ listed l streams
  unfolding listed find_stream without unit_if
  listed-find l [] id s e = absurd (ground arith)
  listed-find l (x ∷ streams) id s e = elim (Bool-cases (x.stream_id_ == id)) [
    | inl t ↦
        let w = ap (listed l) (the (without (x ∷ streams) id ≡ streams) (ground arith)) in
        ground arith
    | inr t ↦
        let w =
          ap (listed l) (the (without (x ∷ streams) id ≡ x ∷ without streams id) (ground arith)) in
        let r = listed-find l streams id s (ground (arith, e)) in ground arith
  ]

  pub listed-select :
      (l : ℕ) (pred : QueuedStream P → Bool) (streams : List (QueuedStream P))
      → listed l (select (λ s. not (pred s)) streams) + listed l (select pred streams)
        ≡ listed l streams
  unfolding listed select
  listed-select l pred [] = refl
  listed-select l pred (s ∷ streams) = let r = listed-select l pred streams in ground arith

  pub count-remove_all :
      (l : ℕ) (counts : RefCounts) (streams : List (QueuedStream P))
      → count_of l (remove_all counts streams) ≡ count_of l counts - listed l streams
  unfolding remove_all remove_data_for_stream listed
  count-remove_all l counts [] = omega arith
  count-remove_all l counts (s ∷ streams) = omega (
    arith,
    count-remove_all l (unref_list_id counts s.list_id_) streams,
    count-unref counts s.list_id_ l,
  )

  -- No stream is lost: it stays, or `on_remove_cb_` is called for it.
  unfoldable pub Keeps : QueuedStreams P → QueuedStreams P → Type 0
  Keeps q q' =
      (l : ℕ)
      → listed l q'.streams_ + listed l q'.on_remove_cb_
        ≡ listed l q.streams_ + listed l q.on_remove_cb_

  erase_stream-Keeps :
      (q : QueuedStreams P) (id : ℕ) {q' : QueuedStreams P} {s : QueuedStream P}
      → erase_stream q id ≡ some (q', s)
      → Keeps q q'
  unfolding erase_stream Keeps listed
  erase_stream-Keeps q id {q'} {s} e l = elim (Option-cases (find_stream q.streams_ id)) [
    | inl f ↦ absurd (ground arith)
    | inr (s', f) ↦ let r = listed-find l q.streams_ id s' f in ground arith
  ]

  take_next-Keeps : (q : QueuedStreams P) → Keeps q (take_next q)
  unfolding take_next Keeps
  take_next-Keeps q l = refl

  pub remove_front-Keeps :
      (q : QueuedStreams P) (ids : List ℕ) {q' : QueuedStreams P} {s : Option (QueuedStream P)}
      {rest : List ℕ}
      → remove_front q ids ≡ some (q', s, rest)
      → Keeps q q'
  unfolding remove_front Keeps
  remove_front-Keeps q ids {q'} {s} {rest} e = elim (Bool-cases (is_idle q)) [
    | inl t ↦ λ l. ground arith
    | inr t ↦ elim (Option-cases (choose q.queue_ q.stream_in_flight_ ids)) [
      | inl f ↦ absurd (ground arith)
      | inr ((id, b), f) ↦ elim (Option-cases (erase_stream q id)) [
        | inl g ↦ absurd (ground arith)
        | inr ((q1, s1), g) ↦ λ l. let k = erase_stream-Keeps q id g l in ground arith
      ]
    ]
  ]

  pub remove_anywhere-Keeps : (q : QueuedStreams P) (id : ℕ) → Keeps q (remove_anywhere q id).0
  unfolding remove_anywhere Keeps
  remove_anywhere-Keeps q id = elim (Bool-cases (is_in q.queue_ id)) [
    | inl t ↦ elim (Option-cases (erase_stream q id)) [
      | inl g ↦ λ l. ground arith
      | inr ((q1, s1), g) ↦ λ l. let k = erase_stream-Keeps q id g l in ground arith
    ]
    | inr t ↦ λ l. ground arith
  ]

  land-Keeps :
      (q : QueuedStreams P) (flight : Option ℕ) {q' : QueuedStreams P} {s : Option (QueuedStream P)}
      → land q flight ≡ some (q', s)
      → Keeps q q'
  unfolding land Keeps
  land-Keeps q none e = λ l. ground arith
  land-Keeps q (some id) e = elim (Option-cases (erase_stream q id)) [
    | inl g ↦ absurd (ground arith)
    | inr ((q1, s1), g) ↦ λ l. let k = erase_stream-Keeps q id g l in ground arith
  ]

  pub shift-Keeps :
      (q : QueuedStreams P) (id : Option ℕ) {q' : QueuedStreams P} {s : Option (QueuedStream P)}
      → shift q id ≡ some (q', s)
      → Keeps q q'
  unfolding shift shift_unless take_next Keeps
  shift-Keeps q id {q'} {s} e = elim (Option-cases (land q q.stream_in_flight_)) [
    | inl g ↦ λ l. ground arith
    | inr ((q1, s1), g) ↦ λ l. let k = land-Keeps q q.stream_in_flight_ g l in ground arith
  ]

  pub flying-Keeps : (q : QueuedStreams P) → Keeps q (shift_if_not_flying q).0
  unfolding shift_if_not_flying take_next Keeps
  flying-Keeps q = λ l. ground arith

  pub clear-Keeps : (q : QueuedStreams P) → Keeps q (clear q).0
  unfolding clear Keeps listed
  clear-Keeps q = λ l. omega (arith, listed-append l q.streams_ q.on_remove_cb_)

  pub clear_if-Keeps :
      (q : QueuedStreams P) (pred : QueuedStream P → Bool) → Keeps q (clear_if q pred).0
  unfolding clear_if Keeps
  clear_if-Keeps q pred = λ l. omega (
    arith,
    listed-select l pred q.streams_,
    listed-append l (select pred q.streams_) q.on_remove_cb_,
  )

  pub append-listed :
      (next_id : ℕ → ℕ) (q : QueuedStreams P) (list_id : ℕ) (payload : P) {q' : QueuedStreams P}
      {id : Option ℕ} (l : ℕ)
      → append next_id q list_id payload ≡ some (q', id)
      → ((id ≡ none) × (q' ≡ q))
        ⊎ ((n : ℕ) × (id ≡ some n)
            × (q'.on_remove_cb_ ≡ q.on_remove_cb_)
            × (listed l q'.streams_ ≡ unit_if (list_id == l) + listed l q.streams_))
  unfolding append listed
  append-listed next_id q list_id payload {q'} {id} l e = elim (Bool-cases (is_full q)) [
    | inl t ↦ inl (ground arith, ground arith)
    | inr t ↦
        elim (Option-cases
          (free_id next_id (suc (length q.streams_)) (ids_of q.streams_) q.next_free_stream_id_)) [
            | inl g ↦ absurd (ground arith)
            | inr (n, g) ↦ inr (n, ground arith, ground arith, ground arith)
          ]
  ]

-- ===== src/Player/QueuedStreams/Counts.antt =====
-- How often an ID occurs in the parts of the queued streams (src/player_data.cc).
use drcpd.Common.{
  ap, Bool-cases, inl, inr, ℕ, suc, ◌+◌, ◌-◌, ◌≤◌, ◌<◌, ◌≡◌, refl, Bool, false, Option, none, some,
  List, [], ◌∷◌, ◌++◌, arith, ltb, ◌==◌, if◌then◌else◌, length,
}
use drcpd.Player.QueuedStreams.{
  QueuedStream, is_in, erase_first, tail, front, ids_of, find_stream, without, select, keep_known,
  flight_known,
}

abbrev pub count : ℕ → List ℕ → ℕ
count id [] = 0
count id (x ∷ ids) = (if x == id then 1 else 0) + count id ids

abbrev pub in_flight : ℕ → Option ℕ → ℕ
in_flight id none = 0
in_flight id (some x) = if x == id then 1 else 0

pub is_in-count : (ids : List ℕ) (id : ℕ) → is_in ids id ≡ ltb 0 (count id ids)
unfolding is_in
is_in-count [] id = refl
is_in-count (x ∷ ids) id = ground (arith, is_in-count ids id)

pub count-append : (id : ℕ) (xs ys : List ℕ) → count id (xs ++ ys) ≡ count id xs + count id ys
count-append id [] ys = omega arith
count-append id (x ∷ xs) ys = omega (arith, count-append id xs ys)

pub count-take_next :
    (id : ℕ) (ids : List ℕ) → in_flight id (front ids) + count id (tail ids) ≡ count id ids
unfolding front tail
count-take_next id [] = refl
count-take_next id (x ∷ ids) = refl

pub length-tail : (ids : List ℕ) → length (tail ids) ≤ length ids
unfolding tail
length-tail [] = omega arith
length-tail (x ∷ ids) = omega arith

pub count-erase_first :
    (i : ℕ) (ids : List ℕ) (id : ℕ)
    → count i (erase_first ids id) ≡ count i ids - (if id == i then 1 else 0)
unfolding erase_first
count-erase_first i [] id = ground arith
count-erase_first i (x ∷ ids) id = ground (arith, count-erase_first i ids id)

pub length-erase_first : (ids : List ℕ) (id : ℕ) → length (erase_first ids id) ≤ length ids
unfolding erase_first
length-erase_first [] id = omega arith
length-erase_first (x ∷ ids) id = ground (arith, length-erase_first ids id)

pub erase_first_absent : (ids : List ℕ) (id : ℕ) → is_in ids id ≡ false → erase_first ids id ≡ ids
unfolding erase_first is_in
erase_first_absent [] id h = refl
erase_first_absent (x ∷ ids) id h = ground (arith, erase_first_absent ids id)

suc-length-erase_first :
    (ids : List ℕ) (id : ℕ) → 0 < count id ids → suc (length (erase_first ids id)) ≡ length ids
unfolding erase_first
suc-length-erase_first [] id h = absurd (omega arith)
suc-length-erase_first (x ∷ ids) id h = ground (arith, suc-length-erase_first ids id)

-- A list with no more of anything is not longer.
pub length-count : (xs ys : List ℕ) → ((id : ℕ) → count id xs ≤ count id ys) → length xs ≤ length ys
length-count [] ys h = omega arith
length-count (x ∷ xs) ys h =
    let there : 0 < count x ys = ground (arith, h x) in
    omega (
      arith,
      suc-length-erase_first ys x there,
      length-count xs (erase_first ys x) (λ id. omega (arith, count-erase_first id ys x, h id)),
    )

pub count-keep_known :
    (known : List ℕ) (i : ℕ) (ids : List ℕ)
    → count i (keep_known known ids) ≡ (if is_in known i then count i ids else 0)
unfolding keep_known
count-keep_known known i [] = ground arith
count-keep_known known i (x ∷ ids) = ground (arith, count-keep_known known i ids)

pub length-keep_known : (known ids : List ℕ) → length (keep_known known ids) ≤ length ids
unfolding keep_known
length-keep_known known [] = omega arith
length-keep_known known (x ∷ ids) = ground (arith, length-keep_known known ids)

pub in_flight-flight_known :
    (known : List ℕ) (i : ℕ) (flight : Option ℕ)
    → in_flight i (flight_known known flight) ≡ (if is_in known i then in_flight i flight else 0)
unfolding flight_known
in_flight-flight_known known i none = ground arith
in_flight-flight_known known i (some id) = ground arith

module _ {P : Type 0} where
  pub find_stream-count :
      (streams : List (QueuedStream P)) (id : ℕ)
      → 0 < count id (ids_of streams)
      → (s : QueuedStream P) × (find_stream streams id ≡ some s)
  unfolding ids_of find_stream
  find_stream-count [] id h = absurd (omega arith)
  find_stream-count (s ∷ streams) id h = elim (Bool-cases (s.stream_id_ == id)) [
    | inl e ↦ (s, rw e refl)
    | inr e ↦ let (x, found) = find_stream-count streams id (ground arith) in (x, rw e found)
  ]

  pub count-without :
      (i : ℕ) (streams : List (QueuedStream P)) (id : ℕ)
      → count i (ids_of (without streams id))
        ≡ count i (ids_of streams) - (if id == i then 1 else 0)
  unfolding ids_of without
  count-without i [] id = ground arith
  count-without i (s ∷ streams) id = ground (arith, count-without i streams id)

  pub count-select :
      (i : ℕ) (pred : QueuedStream P → Bool) (streams : List (QueuedStream P))
      → count i (ids_of (select pred streams)) ≤ count i (ids_of streams)
  unfolding ids_of select
  count-select i pred [] = omega arith
  count-select i pred (s ∷ streams) = ground (arith, count-select i pred streams)

  pub length-select :
      (pred : QueuedStream P → Bool) (streams : List (QueuedStream P))
      → length (select pred streams) ≤ length streams
  unfolding select
  length-select pred [] = omega arith
  length-select pred (s ∷ streams) = ground (arith, length-select pred streams)

  -- Nothing is lost if as many streams are left.
  pub select_all :
      (pred : QueuedStream P → Bool) (streams : List (QueuedStream P))
      → length (select pred streams) ≡ length streams
      → select pred streams ≡ streams
  unfolding select
  select_all pred [] h = refl
  select_all pred (s ∷ streams) h =
      ground (arith, length-select pred streams, select_all pred streams)

  pub length-ids_of : (streams : List (QueuedStream P)) → length (ids_of streams) ≡ length streams
  unfolding ids_of
  length-ids_of [] = refl
  length-ids_of (s ∷ streams) = ap suc (length-ids_of streams)

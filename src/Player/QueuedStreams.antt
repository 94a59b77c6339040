-- ===== src/Player/QueuedStreams.antt =====
-- src/player_data.hh and src/player_data.cc: the streams sent to the stream player. A valid stream
-- ID is a number and an invalid one is `none`; `next_id`, the step from one ID to the next, is a
-- parameter, and so is the type `P` of what else a stream carries. `QueueError` is no result.
-- `on_remove_cb_` is known by the streams it was called for. The order in which the map `streams_`
-- is passed through is left open.
pub mod Counts
pub mod FreeId
pub mod Laws
pub mod Append
pub mod Drop
pub mod Runs
use drcpd.Common.{
  ℕ, zero, suc, ◌-◌, Bool, true, false, not, ◌&&◌, ◌||◌, Option, none, some, List, [], ◌∷◌, ◌++◌,
  leb, ◌==◌, if◌then◌else◌, length, is_empty,
}

pub data StreamState : Type 0 where
  floating queued current about_to_die : StreamState

pub record QueuedStream (P : Type 0) : Type 0 where
  pub stream_id_ : ℕ
  pub list_id_ : ℕ
  pub state_ : StreamState
  pub payload : P

pub record QueuedStreams (P : Type 0) : Type 0 where
  pub streams_ : List (QueuedStream P)
  pub queue_ : List ℕ
  pub stream_in_flight_ : Option ℕ
  pub next_free_stream_id_ : ℕ
  pub on_remove_cb_ : List (QueuedStream P)

abbrev pub max_entries : ℕ
max_entries = 20

unfoldable pub is_in : List ℕ → ℕ → Bool
is_in [] id = false
is_in (x ∷ ids) id = x == id || is_in ids id

unfoldable pub remove_id : List ℕ → ℕ → List ℕ
remove_id [] id = []
remove_id (x ∷ ids) id = let rest = remove_id ids id in if x == id then rest else x ∷ rest

-- Equality of two IDs, of which either may be invalid.
unfoldable pub same_id : Option ℕ → Option ℕ → Bool
same_id none none = true
same_id none (some b) = false
same_id (some a) none = false
same_id (some a) (some b) = a == b

unfoldable pub front : List ℕ → Option ℕ
front [] = none
front (x ∷ ids) = some x

unfoldable pub tail : List ℕ → List ℕ
tail [] = []
tail (x ∷ ids) = ids

-- `queue_.erase(id_pos)`, at the first place of the ID.
unfoldable pub erase_first : List ℕ → ℕ → List ℕ
erase_first [] id = []
erase_first (x ∷ ids) id = if x == id then ids else x ∷ erase_first ids id

module _ (next_id : ℕ → ℕ) where
  -- The loop for an unused ID, on fuel.
  unfoldable pub free_id : ℕ → List ℕ → ℕ → Option ℕ
  free_id zero used id = none
  free_id (suc fuel) used id =
      let rest = free_id fuel used (next_id id) in if is_in used id then rest else some id

-- The ID to remove: the front of the queue, or the stream in flight; and whether it is the front.
unfoldable pub choose : List ℕ → Option ℕ → List ℕ → Option (ℕ × Bool)
choose (x ∷ queue) flight ids =
    if is_in ids x
    then some (x, true)
    else elim flight [ none ↦ none | some id ↦ if is_in ids id then some (id, false) else none ]
choose [] none ids = none
choose [] (some id) ids = if is_in ids id then some (id, false) else none

unfoldable pub keep_known : List ℕ → List ℕ → List ℕ
keep_known known [] = []
keep_known known (x ∷ ids) =
    let rest = keep_known known ids in if is_in known x then x ∷ rest else rest

unfoldable pub flight_known : List ℕ → Option ℕ → Option ℕ
flight_known known none = none
flight_known known (some id) = if is_in known id then some id else none

module _ {P : Type 0} where
  unfoldable pub ids_of : List (QueuedStream P) → List ℕ
  ids_of [] = []
  ids_of (s ∷ streams) = s.stream_id_ ∷ ids_of streams

  unfoldable pub construct : ℕ → QueuedStreams P
  construct id = record {
    streams_ = [];
    queue_ = [];
    stream_in_flight_ = none;
    next_free_stream_id_ = id;
    on_remove_cb_ = [];
  }

  unfoldable pub is_full : QueuedStreams P → Bool
  is_full q = leb max_entries (length q.queue_)

  -- One more round of the loop than there are streams. No result: it found no unused ID.
  unfoldable pub append : (ℕ → ℕ) → QueuedStreams P → ℕ → P → Option (QueuedStreams P × Option ℕ)
  append next_id q list_id payload =
      if is_full q
      then some (q, none)
      else elim (free_id next_id (suc (length q.streams_)) (ids_of q.streams_)
          q.next_free_stream_id_) [
            | none ↦ none
            | some id ↦ some (
              record q {
                streams_ =
                    record {
                      stream_id_ = id;
                      list_id_ = list_id;
                      state_ = floating;
                      payload = payload;
                    }
                    ∷ q.streams_;
                queue_ = q.queue_ ++ id ∷ [];
                next_free_stream_id_ = next_id id;
              },
              some id,
            )
          ]

  unfoldable pub find_stream : List (QueuedStream P) → ℕ → Option (QueuedStream P)
  find_stream [] id = none
  find_stream (s ∷ streams) id =
      let rest = find_stream streams id in if s.stream_id_ == id then some s else rest

  unfoldable pub without : List (QueuedStream P) → ℕ → List (QueuedStream P)
  without [] id = []
  without (s ∷ streams) id = if s.stream_id_ == id then streams else s ∷ without streams id

  -- `erase_stream_from_container`, with the call of `on_remove_cb_`.
  unfoldable pub erase_stream : QueuedStreams P → ℕ → Option (QueuedStreams P × QueuedStream P)
  erase_stream q id = elim (find_stream q.streams_ id) [
    | none ↦ none
    | some s ↦ some (
      record q { streams_ = without q.streams_ id; on_remove_cb_ = s ∷ q.on_remove_cb_ },
      record s { state_ = about_to_die },
    )
  ]

  unfoldable pub is_idle : QueuedStreams P → Bool
  unfolding same_id
  is_idle q = is_empty q.queue_ && same_id q.stream_in_flight_ none

  -- The removed stream, and what is left of the set of IDs. No result is an exception or, with an
  -- empty queue and a stream in flight that is not in the set, undefined behaviour: the message of
  -- that exception reads the front of the empty queue.
  unfoldable pub remove_front :
      QueuedStreams P → List ℕ → Option (QueuedStreams P × Option (QueuedStream P) × List ℕ)
  remove_front q ids =
      if is_idle q then some (q, none, ids) else elim (choose q.queue_ q.stream_in_flight_ ids) [
        | none ↦ none
        | some (id, is_in_queue) ↦ elim (erase_stream q id) [
          | none ↦ none
          | some (q', s) ↦ some (
            if is_in_queue
                then record q' { queue_ = tail q'.queue_ }
                else record q' { stream_in_flight_ = none },
            some s,
            remove_id ids id,
          )
        ]
      ]

  -- The exception of the removal is caught here.
  unfoldable pub remove_anywhere : QueuedStreams P → ℕ → QueuedStreams P × Option (QueuedStream P)
  remove_anywhere q id =
      if is_in q.queue_ id
      then elim (erase_stream q id) [
        | none ↦ (q, none)
        | some (q', s) ↦ (record q' { queue_ = erase_first q'.queue_ id }, some s)
      ]
      else (q, none)

  unfoldable pub take_next : QueuedStreams P → QueuedStreams P
  take_next q = record q { stream_in_flight_ = front q.queue_; queue_ = tail q.queue_ }

  unfoldable pub land :
      QueuedStreams P → Option ℕ → Option (QueuedStreams P × Option (QueuedStream P))
  land q none = some (q, none)
  land q (some flight) = elim (erase_stream q flight) [
    | none ↦ none
    | some (q', s) ↦ some (q', some s)
  ]

  -- `shift_if_not_flying(id)`.
  unfoldable pub shift_unless :
      QueuedStreams P → Option ℕ → Option (QueuedStreams P × Option (QueuedStream P))
  unfolding same_id
  shift_unless q id =
      if not (same_id id none) && same_id id q.stream_in_flight_
      then some (q, none)
      else elim (land q q.stream_in_flight_) [ none ↦ none | some (q', s) ↦ some (take_next q', s) ]

  unfoldable pub shift :
      QueuedStreams P → Option ℕ → Option (QueuedStreams P × Option (QueuedStream P))
  shift q expected =
      if not (same_id (front q.queue_) expected) && not (same_id q.stream_in_flight_ expected)
      then none
      else shift_unless q expected

  unfoldable pub shift_if_not_flying : QueuedStreams P → QueuedStreams P × Bool
  unfolding same_id
  shift_if_not_flying q =
      if not (same_id q.stream_in_flight_ none) || is_empty q.queue_
      then (q, false)
      else (take_next q, true)

  unfoldable pub clear : QueuedStreams P → QueuedStreams P × ℕ
  clear q = (
    record q {
      streams_ = [];
      queue_ = [];
      stream_in_flight_ = none;
      on_remove_cb_ = q.streams_ ++ q.on_remove_cb_;
    },
    length q.streams_,
  )

  unfoldable pub select : (QueuedStream P → Bool) → List (QueuedStream P) → List (QueuedStream P)
  select pred [] = []
  select pred (s ∷ streams) = let rest = select pred streams in if pred s then s ∷ rest else rest

  unfoldable pub clear_if : QueuedStreams P → (QueuedStream P → Bool) → QueuedStreams P × ℕ
  clear_if q pred =
      let remaining = select (λ s. not (pred s)) q.streams_ in
      let removed = select pred q.streams_ in
      let result = length q.streams_ - length remaining in
      (
        record q {
          streams_ = remaining;
          queue_ =
              if is_empty remaining
              then []
              else if result == 0
              then q.queue_
              else keep_known (ids_of remaining) q.queue_;
          stream_in_flight_ =
              if is_empty remaining
              then none
              else if result == 0
              then q.stream_in_flight_
              else flight_known (ids_of remaining) q.stream_in_flight_;
          on_remove_cb_ = removed ++ q.on_remove_cb_;
        },
        result,
      )

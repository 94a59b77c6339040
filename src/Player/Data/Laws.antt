-- ===== src/Player/Data/Laws.antt =====
-- What the operations on the player's data do to the reference counts (src/player_data.cc).
use drcpd.Common.{
  ℕ, zero, suc, ◌+◌, ◌-◌, ◌≤◌, ◌≡◌, inl, inr, refl, sym, subst, ◌∙◌, Bool, true, false, ◌||◌,
  Option, none, some, List, [], ◌∷◌, arith, ◌==◌, is_empty, Option-cases, if_elim,
}
use drcpd.Player.QueuedStreams.{
  QueuedStream, QueuedStreams, StreamState, remove_front, remove_anywhere, shift, clear, append,
}
use drcpd.Player.NowPlaying.{AnyStream, invalid, ours, foreign, make_from_generic_id}
use drcpd.Player.RefCounts.{ref_list_id}
use drcpd.Player.Data.{
  Data, settle, set_state, prepare_for_recovery, with_stream, update_stream, queued_stream_append,
  player_rejected_unplayed_stream, player_failed, stream_has_changed, remove_all, drop_ours,
  remove_data_for_stream,
}
use drcpd.Player.Data.Refs.{
  unit_if, count_of, listed, count-ref, count-unref, count-remove_all, Keeps, remove_front-Keeps,
  remove_anywhere-Keeps, shift-Keeps, clear-Keeps, append-listed,
}

module _ {P : Type 0} where
  pub listed-empty : (l : ℕ) (streams : List (QueuedStream P)) → streams ≡ [] → listed l streams ≡ 0
  unfolding listed
  listed-empty l streams h = ground arith

  listed-with_stream :
      (l : ℕ) (streams : List (QueuedStream P)) (id : ℕ) (f : QueuedStream P → QueuedStream P)
      → ((s : QueuedStream P) → (f s).list_id_ ≡ s.list_id_)
      → listed l (with_stream streams id f) ≡ listed l streams
  unfolding listed with_stream unit_if
  listed-with_stream l [] id f h = refl
  listed-with_stream l (s ∷ streams) id f h =
      let r = listed-with_stream l streams id f h in let e = h s in ground arith

  pub set_state-list :
      (s : QueuedStream P) (state : StreamState) → (set_state s state).0.list_id_ ≡ s.list_id_
  unfolding set_state
  set_state-list s state = ground arith

  pub recovery-list : (s : QueuedStream P) → (prepare_for_recovery s).list_id_ ≡ s.list_id_
  unfolding prepare_for_recovery
  recovery-list s = ground arith

module _ {P U M S : Type 0} where
  -- No list is referenced more often than there are streams of it; if they are counted exactly, not
  -- less often either.
  pub record Counted (exactly : Bool) (d : Data P U M S) : Type 0 where
    pub quiet : d.queued_streams_.on_remove_cb_ ≡ []
    pub at_most : (l : ℕ) → count_of l d.referenced_lists_ ≤ listed l d.queued_streams_.streams_
    pub exact :
        exactly ≡ true
        → (l : ℕ) → count_of l d.referenced_lists_ ≡ listed l d.queued_streams_.streams_

  pub settle-quiet :
      (d : Data P U M S) (q : QueuedStreams P) → (settle d q).queued_streams_.on_remove_cb_ ≡ []
  unfolding settle
  settle-quiet d q = refl

  pub settled :
      (d : Data P U M S) (q : QueuedStreams P) (l : ℕ)
      → d.queued_streams_.on_remove_cb_ ≡ []
      → Keeps d.queued_streams_ q
      → count_of l (settle d q).referenced_lists_
        ≡ count_of l d.referenced_lists_
          - (listed l d.queued_streams_.streams_ - listed l (settle d q).queued_streams_.streams_)
  unfolding settle Keeps
  settled d q l h k =
      let z : listed l d.queued_streams_.on_remove_cb_ ≡ 0 = listed-empty l _ h in
      omega (arith, k l, count-remove_all l d.referenced_lists_ q.on_remove_cb_)

  fewer :
      (d : Data P U M S) (q : QueuedStreams P) (l : ℕ)
      → d.queued_streams_.on_remove_cb_ ≡ []
      → Keeps d.queued_streams_ q
      → listed l (settle d q).queued_streams_.streams_ ≤ listed l d.queued_streams_.streams_
  unfolding settle Keeps
  fewer d q l h k =
      let z : listed l d.queued_streams_.on_remove_cb_ ≡ 0 = listed-empty l _ h in
      omega (arith, k l)

  pub settle-Counted :
      (b : Bool) (d : Data P U M S) (q : QueuedStreams P)
      → Keeps d.queued_streams_ q
      → Counted b d
      → Counted b (settle d q)
  settle-Counted b d q k h = record {
    quiet = settle-quiet d q;
    at_most = λ l. omega (arith, h.at_most l, settled d q l h.quiet k, fewer d q l h.quiet k);
    exact = λ e l. omega (arith, h.exact e l, settled d q l h.quiet k, fewer d q l h.quiet k);
  }

  pub update_stream-Counted :
      (b : Bool) (d : Data P U M S) (id : ℕ) (f : QueuedStream P → QueuedStream P)
      → ((s : QueuedStream P) → (f s).list_id_ ≡ s.list_id_)
      → Counted b d
      → Counted b (update_stream d id f)
  unfolding update_stream
  update_stream-Counted b d id f h v = record {
    quiet = v.quiet;
    at_most =
        λ l. omega (arith, v.at_most l, listed-with_stream l d.queued_streams_.streams_ id f h);
    exact =
        λ e l. omega (arith, v.exact e l, listed-with_stream l d.queued_streams_.streams_ id f h);
  }

  -- The counts after a result, if there is one.
  unfoldable pub ResultCounted : {A : Type 0} → Bool → Option (Data P U M S × A) → Type 0
  ResultCounted b none = Unit
  ResultCounted b (some (d, a)) = Counted b d

  pub append-Counted :
      (b : Bool) (next_id : ℕ → ℕ) (d : Data P U M S) (list_id : ℕ) (payload : P)
      → Counted b d
      → ResultCounted b (queued_stream_append next_id d list_id payload)
  unfolding queued_stream_append settle ResultCounted remove_all Keeps
  append-Counted b next_id d list_id payload h =
      elim (Option-cases (append next_id d.queued_streams_ list_id payload)) [
        | inl e ↦ rw (e, queued_stream_append) tt
        | inr ((q, none), e) ↦
            rw (e, queued_stream_append)
              (elim (append-listed next_id d.queued_streams_ list_id payload 0 e) [
                | inl (z, p) ↦
                    settle-Counted b d q (subst (Keeps d.queued_streams_) (sym p) (λ l. refl)) h
                | inr (n, z, c, t) ↦ absurd (ground (arith, z))
              ])
        | inr ((q, some id), e) ↦
            let both : (l : ℕ)
                → (count_of l (ref_list_id (remove_all d.referenced_lists_ q.on_remove_cb_) list_id)
                    ≡ count_of l d.referenced_lists_ + unit_if (list_id == l))
                  × (listed l q.streams_
                      ≡ unit_if (list_id == l) + listed l d.queued_streams_.streams_) =
              λ l. elim (append-listed next_id d.queued_streams_ list_id payload l e) [
                | inl (z, p) ↦ absurd (ground (arith, z))
                | inr (n, z, c, t) ↦ (
                  omega (
                    arith,
                    count-ref (remove_all d.referenced_lists_ q.on_remove_cb_) list_id l,
                    count-remove_all l d.referenced_lists_ q.on_remove_cb_,
                    listed-empty l _ (c ∙ h.quiet),
                  ),
                  t,
                )
              ] in
            rw (e, queued_stream_append)
              (record {
                quiet = refl;
                at_most = λ l. omega (arith, (both l).0, (both l).1, h.at_most l);
                exact = λ x l. omega (arith, (both l).0, (both l).1, h.exact x l);
              })
      ]

  -- One reference less is no harm.
  pub unref-Counted :
      (d : Data P U M S) (s : QueuedStream P)
      → Counted false d
      → Counted false
          (record d { referenced_lists_ = remove_data_for_stream d.referenced_lists_ s })
  unfolding remove_data_for_stream
  unref-Counted d s h = record {
    quiet = h.quiet;
    at_most = λ l. omega (arith, h.at_most l, count-unref d.referenced_lists_ s.list_id_ l);
    exact = λ e. absurd (ground (arith, e));
  }

  pub rejected-Counted :
      (d : Data P U M S) (id : AnyStream)
      → Counted false d
      → Counted false (player_rejected_unplayed_stream d id)
  unfolding player_rejected_unplayed_stream
  rejected-Counted d invalid h = h
  rejected-Counted d (foreign id) h = h
  rejected-Counted d (ours id) h =
      let v =
        settle-Counted false d (remove_anywhere d.queued_streams_ id).0
          (remove_anywhere-Keeps d.queued_streams_ id) h in
      elim (Option-cases (remove_anywhere d.queued_streams_ id).1) [
        | inl e ↦ rw (e, player_rejected_unplayed_stream) v
        | inr (s, e) ↦ rw (e, player_rejected_unplayed_stream) (unref-Counted _ s v)
      ]

  module _ (normal_speed : S) where
    pub failed-Counted :
        (b : Bool) (d : Data P U M S) → Counted b d → Counted b (player_failed normal_speed d)
    unfolding player_failed
    failed-Counted b d h =
        let v = settle-Counted b d (clear d.queued_streams_).0 (clear-Keeps d.queued_streams_) h in
        record { quiet = v.quiet; at_most = v.at_most; exact = v.exact }

    pub changed-Counted :
        (b : Bool) (d : Data P U M S) (id : AnyStream)
        → Counted b d
        → Counted b (stream_has_changed normal_speed d id).0
    unfolding stream_has_changed
    changed-Counted b d id h =
        elim (Option-cases (shift d.queued_streams_ (make_from_generic_id id))) [
          | inl e ↦ rw (e, stream_has_changed) (failed-Counted b d h)
          | inr ((q, s), e) ↦
              rw (e, stream_has_changed)
                (settle-Counted b d q (shift-Keeps d.queued_streams_ _ e) h)
        ]

    pub drop_ours-Counted :
        (rounds : ℕ) (d : Data P U M S) (ids : List ℕ)
        → Counted false d
        → ResultCounted false (drop_ours normal_speed rounds d ids)
    unfolding drop_ours ResultCounted
    drop_ours-Counted zero d ids h =
        if_elim (λ (r : Option (Data P U M S × Bool)). ResultCounted false r)
          (is_empty ids || is_empty d.queued_streams_.queue_) h tt
    drop_ours-Counted (suc rounds) d ids h =
        if_elim (λ (r : Option (Data P U M S × Bool)). ResultCounted false r)
          (is_empty ids || is_empty d.queued_streams_.queue_) h
          (elim (Option-cases (remove_front d.queued_streams_ ids)) [
            | inl e ↦ rw e (failed-Counted false d h)
            | inr ((q, none, rest), e) ↦
                let v = settle-Counted false d q (remove_front-Keeps _ _ e) h in
                rw e (failed-Counted false (settle d q) v)
            | inr ((q, some s, rest), e) ↦
                let v = settle-Counted false d q (remove_front-Keeps _ _ e) h in
                rw e (drop_ours-Counted rounds _ rest (unref-Counted (settle d q) s v))
          ])

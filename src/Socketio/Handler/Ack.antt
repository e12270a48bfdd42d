-- ===== src/Socketio/Handler/Ack.antt =====
-- socketio/src/socket.rs, `handle_ack`: an ack that the socket waits for, and one that it does not.
use socket_io.Base.{
  none, All-append, ◌≢◌, ℕ, ◌≡◌, refl, sym, ap, ◌∙◌, subst, List, [], ◌∷◌, ◌++◌, map, append-nil,
  Bool, true, false, Option, some, ok, if◌then◌else◌,
}
use socket_io.Socketio.External.{Json}
use socket_io.Socketio.Payload.{Payload}
use socket_io.Socketio.Packet.{Packet}
use socket_io.Socketio.Acks.{Ack, ack_loop, remove_all, is_alive}
use socket_io.Socketio.Acks.Removal.{
  LacksId, DistinctIds, ack_loop_lacks, remove_all_found, Distinct-split,
}
use socket_io.Socketio.Socket.{Socket, Called}
use socket_io.Socketio.Handler.{finished, acknowledge, ack_call, ack_payload, handle_ack}

module _ (j : Json) where
  -- What is left to be called of an ack whose time may be over.
  abbrev pub called_for : ℕ → Option (Payload j) → Ack → List (Called j)
  called_for now payload a = if is_alive now a then Called.acked a.callback payload ∷ [] else []

  map_called :
      (payload : Option (Payload j)) (c : ℕ) (b : Bool)
      → map (ack_call j payload) (if b then c ∷ [] else [])
        ≡ (if b then Called.acked c payload ∷ [] else [])
  map_called payload c true = refl
  map_called payload c false = refl

  acknowledge_by :
      (s : Socket j) (now : ℕ) (payload : Option (Payload j)) (id : ℕ) (acks : List Ack)
      (cs : List ℕ)
      → remove_all s.outstanding_acks (ack_loop id now 0 s.outstanding_acks).0 ≡ some acks
      → (ack_loop id now 0 s.outstanding_acks).1 ≡ cs
      → acknowledge j s now payload id
        ≡ finished
            (record s { outstanding_acks = acks; called = s.called ++ map (ack_call j payload) cs })
            (ok tt)
  unfolding acknowledge
  acknowledge_by s now payload id acks cs e f = rw (acknowledge, e, f) refl

  pub acknowledge_found :
      (s : Socket j) (now : ℕ) (payload : Option (Payload j)) (pre : List Ack) (a : Ack)
      (post : List Ack)
      → s.outstanding_acks ≡ pre ++ a ∷ post
      → DistinctIds s.outstanding_acks
      → acknowledge j s now payload a.id
        ≡ finished
            (record s {
              outstanding_acks = pre ++ post;
              called = s.called ++ called_for now payload a;
            })
            (ok tt)
  acknowledge_found s now payload pre a post e d =
      let (r, c) =
        subst
          (λ l.
            (remove_all l (ack_loop a.id now 0 l).0 ≡ some (pre ++ post))
            × ((ack_loop a.id now 0 l).1 ≡ (if is_alive now a then a.callback ∷ [] else [])))
          (sym e) (remove_all_found now pre a post (subst DistinctIds e d)) in
      acknowledge_by s now payload a.id (pre ++ post) _ r c
      ∙ ap
          (λ l.
            finished (record s { outstanding_acks = pre ++ post; called = s.called ++ l }) (ok tt))
          (map_called payload a.callback (is_alive now a))

  pub acknowledge_lacks :
      (s : Socket j) (now : ℕ) (payload : Option (Payload j)) (id : ℕ)
      → LacksId id s.outstanding_acks
      → acknowledge j s now payload id ≡ finished s (ok tt)
  acknowledge_lacks s now payload id h =
      let e : ack_loop id now 0 s.outstanding_acks ≡ ([], []) = ack_loop_lacks id now 0 _ h in
      acknowledge_by s now payload id s.outstanding_acks []
        (ap (λ r. remove_all s.outstanding_acks r.0) e ∙ (unfold remove_all in refl))
        (ap (λ r. r.1) e)
      ∙ ap (λ l. finished (record s { called = l }) (ok tt)) (append-nil s.called)

  handle_ack_id :
      (s : Socket j) (now : ℕ) (p : Packet j) (b : Bool) (id : ℕ)
      → p.id ≡ some id
      → handle_ack j s now p b ≡ acknowledge j s now (ack_payload j p b) id
  unfolding handle_ack
  handle_ack_id s now p b id e =
      ap
        (λ i. elim i [
          | none ↦ finished s (ok tt)
          | some n ↦ acknowledge j s now (ack_payload j p b) n
        ])
        e

  -- A socket that waits for acks with distinct ids, and gets a packet with the id of one of them:
  -- it no longer waits for that one, waits for the others as before, and calls the callback with
  -- the payload of the packet if its time is not over. A second packet with that id changes
  -- nothing.
  pub handle_ack_once :
      (s : Socket j) (now later : ℕ) (p q : Packet j) (b c : Bool) (pre : List Ack) (a : Ack)
      (post : List Ack)
      → s.outstanding_acks ≡ pre ++ a ∷ post
      → DistinctIds s.outstanding_acks
      → p.id ≡ some a.id
      → q.id ≡ some a.id
      → let s' : Socket j = record s {
        outstanding_acks = pre ++ post;
        called = s.called ++ called_for now (ack_payload j p b) a;
      } in
        (handle_ack j s now p b ≡ finished s' (ok tt))
        × (handle_ack j s' later q c ≡ finished s' (ok tt))
  handle_ack_once s now later p q b c pre a post e d ep eq =
      let (hp, hq, _) = Distinct-split pre a post (subst DistinctIds e d) in
      (
        handle_ack_id s now p b a.id ep
            ∙ acknowledge_found s now (ack_payload j p b) pre a post e d,
        handle_ack_id _ later q c a.id eq
            ∙ acknowledge_lacks _ later (ack_payload j q c) a.id
                (All-append (λ x. x.id ≢ a.id) pre post hp hq),
      )

-- ===== src/Socketio/Handler/Ready.antt =====
-- socketio/src/socket.rs: the handlers keep the ids of the acks that a socket waits for distinct, and
-- do not panic.
use socket_io.Base.{
  ℕ, suc, ◌+◌, ◌^◌, ◌<◌, ◌≡◌, ◌≢◌, refl, sym, subst, List, [], ◌∷◌, ◌++◌, arith, Bool, true, false,
  Option, none, some, ok, err, list_eq, All, All-imp, All-append, All-split, Bool-cases, inl, inr,
  if_true, if_false,
}
use socket_io.Engineio.External.{Base64}
use socket_io.Engineio.Socket as Engine
use socket_io.Socketio.External.{Json}
use socket_io.Socketio.Event.{Event}
use socket_io.Socketio.Payload.{Payload}
use socket_io.Socketio.Packet.{Packet, PacketType}
use socket_io.Socketio.Acks.{Ack}
use socket_io.Socketio.Acks.Removal.{LacksId, DistinctIds, find_id, Distinct-split}
use socket_io.Socketio.Socket.{Socket, Outcome, lift, send, callback, send_packets}
use socket_io.Socketio.Handler.{
  Texts, Handled, finished, panicked, acknowledge, handle_ack, ack_payload, handle_event,
  handle_binary_event, handle_connect, handle_by_type, handle_socketio_packet, ack_error,
  event_error,
}
use socket_io.Socketio.Handler.Ack.{acknowledge_found, acknowledge_lacks}

-- The acks that are waited for have distinct ids, all of them drawn before.
abbrev pub Waits : List Ack → ℕ → Type 0
Waits acks seq = DistinctIds acks × All (λ a. a.id < seq) acks

Waits-remove :
    (pre : List Ack) (a : Ack) (post : List Ack) (seq : ℕ)
    → Waits (pre ++ a ∷ post) seq
    → Waits (pre ++ post) seq
Waits-remove pre a post seq (d, l) =
    let (_, _, d') = Distinct-split pre a post d in
    let (lp, (_, lq)) = All-split (λ x. x.id < seq) pre (a ∷ post) l in
    (d', All-append (λ x. x.id < seq) pre post lp lq)

pub Distinct-snoc :
    (acks : List Ack) (a : Ack)
    → DistinctIds acks
    → LacksId a.id acks
    → DistinctIds (acks ++ a ∷ [])
Distinct-snoc [] a d h = (tt, tt)
Distinct-snoc (b ∷ acks) a (hb, d) (ha, h) = (
  All-append (λ x. x.id ≢ b.id) acks (a ∷ []) hb ((λ e. ha (sym e)), tt),
  Distinct-snoc acks a d h,
)

pub Waits-snoc :
    (acks : List Ack) (a : Ack) (seq : ℕ)
    → Waits acks seq
    → a.id ≡ seq
    → Waits (acks ++ a ∷ []) (suc seq)
Waits-snoc acks a seq (d, l) e = (
  Distinct-snoc acks a d (All-imp _ _ (λ x h. omega (arith, e)) acks l),
  All-append (λ x. x.id < suc seq) acks (a ∷ []) (All-imp _ _ (λ x h. omega arith) acks l)
      (omega (arith, e), tt),
)

module _ (j : Json) where
  -- The acks are as they were.
  pub record Keeps (s t : Socket j) : Type 0 where
    pub acks : t.outstanding_acks ≡ s.outstanding_acks
    pub drawn : t.seq ≡ s.seq

  pub lift-Keeps : (s : Socket j) (o : Engine.Outcome) → Keeps s (lift j s o).0
  lift-Keeps s (e, ok u) = record { acks = refl; drawn = refl }
  lift-Keeps s (e, err x) = record { acks = refl; drawn = refl }

  callback-Keeps :
      (s : Socket j) (e : Event) (p : Option (Payload j)) (i : Option ℕ)
      → Keeps s (callback j s e p i)
  unfolding callback
  callback-Keeps s e p i = ground arith

  pub send-Keeps : (b64 : Base64) (s : Socket j) (p : Packet j) → Keeps s (send j b64 s p).0
  unfolding send
  send-Keeps b64 s p = ground (arith, lift-Keeps s (send_packets j b64 s.engine _ p.attachments))

  -- The acks are well kept, and there is room for `k` ids.
  pub record Ready (k : ℕ) (s : Socket j) : Type 0 where
    pub waits : Waits s.outstanding_acks s.seq
    pub room : s.seq + k < 2 ^ 64

  pub Keeps-Ready : {s t : Socket j} (k : ℕ) → Keeps s t → Ready k s → Ready k t
  Keeps-Ready {s} {t} k q r = record {
    waits = subst (λ l. Waits l t.seq) (sym q.acks) (subst (Waits _) (sym q.drawn) r.waits);
    room = subst (λ n. n + k < 2 ^ 64) (sym q.drawn) r.room;
  }

  pub Ready-less : {s : Socket j} (k : ℕ) → Ready (suc k) s → Ready k s
  Ready-less {s} k r = record {
    waits = r.waits;
    room = let h : s.seq + suc k < 2 ^ 64 = r.room in omega arith;
  }

  -- The handler finishes, and leaves the acks well kept.
  abbrev pub Fine : ℕ → Handled j → Type 0
  Fine k (finished s r) = Ready k s
  Fine k panicked = ⊥

  acknowledge-Fine :
      (k : ℕ) (s : Socket j) (now : ℕ) (p : Option (Payload j)) (id : ℕ)
      → Ready k s
      → Fine k (acknowledge j s now p id)
  acknowledge-Fine k s now p id r = elim (find_id id s.outstanding_acks) [
    | inl h ↦ subst (Fine k) (sym (acknowledge_lacks j s now p id h)) r
    | inr (pre, a, post, e, f) ↦
        subst (λ n. Fine k (acknowledge j s now p n)) e
          (subst (Fine k) (sym (acknowledge_found j s now p pre a post f r.waits.0)) (record {
            waits = Waits-remove pre a post s.seq (subst (λ l. Waits l s.seq) f r.waits);
            room = r.room;
          }))
  ]

  handle_ack-Fine :
      (k : ℕ) (s : Socket j) (now : ℕ) (p : Packet j) (b : Bool)
      → Ready k s
      → Fine k (handle_ack j s now p b)
  unfolding handle_ack
  handle_ack-Fine k s now p b r = by_id p.id
    where
      by_id :
          (i : Option ℕ)
          → Fine k (elim i [
            | none ↦ finished s (ok tt)
            | some id ↦ acknowledge j s now (ack_payload j p b) id
          ])
      by_id none = r
      by_id (some id) = acknowledge-Fine k s now (ack_payload j p b) id r

  ack_error-Fine :
      (texts : Texts j) (k : ℕ) (h : Handled j) → Fine k h → Fine k (ack_error j texts h)
  ack_error-Fine texts k (finished s (ok u)) f = f
  ack_error-Fine texts k (finished s (err e)) f = Keeps-Ready k (callback-Keeps s _ _ _) f
  ack_error-Fine texts k panicked f = f

  event_error-Fine :
      (texts : Texts j) (k : ℕ) (o : Outcome j) → Ready k o.0 → Fine k (event_error j texts o)
  event_error-Fine texts k (s, ok u) f = f
  event_error-Fine texts k (s, err e) f = Keeps-Ready k (callback-Keeps s _ _ _) f

  handle_event-Keeps : (s : Socket j) (p : Packet j) → Keeps s (handle_event j s p).0
  unfolding handle_event callback
  handle_event-Keeps s p = ground arith

  handle_binary_event-Keeps : (s : Socket j) (p : Packet j) → Keeps s (handle_binary_event j s p).0
  unfolding handle_binary_event
  handle_binary_event-Keeps s p = callback-Keeps s _ _ _

  by_type-Fine :
      (texts : Texts j) (k : ℕ) (s : Socket j) (now : ℕ) (p : Packet j) (t : PacketType)
      → Ready k s
      → Fine k (handle_by_type j texts s now p t)
  unfolding handle_by_type handle_connect
  by_type-Fine texts k s now p PacketType.ack r =
      ack_error-Fine texts k _ (handle_ack-Fine k s now p false r)
  by_type-Fine texts k s now p PacketType.binary_ack r =
      ack_error-Fine texts k _ (handle_ack-Fine k s now p true r)
  by_type-Fine texts k s now p PacketType.event r =
      event_error-Fine texts k _ (Keeps-Ready k (handle_event-Keeps s p) r)
  by_type-Fine texts k s now p PacketType.binary_event r =
      event_error-Fine texts k _ (Keeps-Ready k (handle_binary_event-Keeps s p) r)
  by_type-Fine texts k s now p _ r =
      Keeps-Ready k (callback-Keeps _ _ _ _) (record { waits = r.waits; room = r.room })

  pub packet-Fine :
      (texts : Texts j) (k : ℕ) (s : Socket j) (now : ℕ) (p : Packet j)
      → Ready k s
      → Fine k (handle_socketio_packet j texts s now p)
  unfolding handle_socketio_packet
  packet-Fine texts k s now p r = elim (Bool-cases (list_eq p.nsp s.nsp)) [
    | inl e ↦ subst (Fine k) (sym (if_true _ _ _ e)) (by_type-Fine texts k s now p p.ptype r)
    | inr e ↦ subst (Fine k) (sym (if_false _ _ _ e)) r
  ]

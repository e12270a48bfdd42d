-- ===== src/Engineio/Socket/Close.antt =====
-- engineio/src/socket/socket.rs: how a connection ends, and how often its listener is told.
use socket_io.Base.{
  ℕ, suc, ◌+◌, ◌≤◌, ◌≡◌, List, [], ◌∷◌, arith, Bool, true, false, if◌then◌else◌, ok, err,
}
use socket_io.Engineio.External.{Base64}
use socket_io.Engineio.Packet.{Packet}
use socket_io.Engineio.Socket.{
  pong, Socket, Event, Outcome, send_event, emit, emit_multi, and_then, connect, disconnect,
  handle_incoming_packet,
}
use socket_io.Engineio.Socket.Quiet.{
  closes, closes-append, Inv, Quiet, Quiet-Inv, raised, emit-Quiet, emit_multi-Quiet,
  disconnect-Inv, incoming-Inv,
}

-- The public calls of a socket that change it, and the packets that come in.
pub data Call : Type 0 where
  connects : ℕ → Call
  incoming : ℕ → Packet → Call
  emits : Packet → Call
  emits_multi : List Packet → Call
  disconnects : Call

unfoldable pub after : Base64 → Socket → Call → Socket
after b64 s (connects now) = (connect b64 s now).0
after b64 s (incoming now p) = handle_incoming_packet b64 s now p
after b64 s (emits p) = (emit b64 s p).0
after b64 s (emits_multi ps) = (emit_multi b64 s ps).0
after b64 s disconnects = (disconnect b64 s).0

unfoldable pub run : Base64 → Socket → List Call → Socket
run b64 s [] = s
run b64 s (c ∷ cs) = run b64 (after b64 s c) cs

-- How many of the calls connect.
abbrev pub connections : List Call → ℕ
connections [] = 0
connections (connects now ∷ cs) = suc (connections cs)
connections (incoming now p ∷ cs) = connections cs
connections (emits p ∷ cs) = connections cs
connections (emits_multi ps ∷ cs) = connections cs
connections (disconnects ∷ cs) = connections cs

open_event : (s : Socket) → Quiet s (send_event s (Event.on_open s.sid)).0
unfolding send_event closes
open_event s = ground (arith, closes-append s.events (Event.on_open s.sid ∷ []))

connected-Inv : {n : ℕ} {s : Socket} → Inv n s → Inv (suc n) (record s { connected = true })
connected-Inv v = record { no_fault = v.no_fault; told = ground (arith, v.told) }

module _ (b64 : Base64) where
  and_then-Inv :
      {n : ℕ} (o : Outcome) (f : Socket → Outcome)
      → Inv n o.0
      → ((t : Socket) → Inv n t → Inv n (f t).0)
      → Inv n (and_then o f).0
  and_then-Inv (t, ok u) f v h = h t v
  and_then-Inv (t, err e) f v h = v

  opened-Inv :
      {n : ℕ} (s : Socket) (now : ℕ)
      → Inv n s
      → let s' = record s { last_ping = now } in
        Inv n (if s'.server_end then (s', ok tt) else emit b64 s' (pong b64 [])).0
  opened-Inv {n = n} s now v = choose s.server_end
    where
      stamped : Inv n (record s { last_ping = now })
      stamped = record { no_fault = v.no_fault; told = v.told }

      choose :
          (b : Bool)
          → Inv n
              (if b
                then (record s { last_ping = now }, ok tt)
                else emit b64 (record s { last_ping = now }) (pong b64 [])).0
      choose true = stamped
      choose false = Quiet-Inv (emit-Quiet b64 (record s { last_ping = now }) (pong b64 [])) stamped

  connect-Inv : {n : ℕ} (s : Socket) (now : ℕ) → Inv n s → Inv (suc n) (connect b64 s now).0
  unfolding connect
  connect-Inv s now v =
      and_then-Inv (send_event (record s { connected = true }) (Event.on_open s.sid)) _
        (Quiet-Inv (open_event (record s { connected = true })) (connected-Inv v))
        (λ t. opened-Inv t now)

  call-Inv :
      {n : ℕ} (s : Socket) (c : Call) → Inv n s → Inv (n + connections (c ∷ [])) (after b64 s c)
  unfolding after
  call-Inv s (connects now) v = raised (omega arith) (connect-Inv s now v)
  call-Inv s (incoming now p) v = raised (omega arith) (incoming-Inv b64 now p v)
  call-Inv s (emits p) v = raised (omega arith) (Quiet-Inv (emit-Quiet b64 s p) v)
  call-Inv s (emits_multi ps) v = raised (omega arith) (Quiet-Inv (emit_multi-Quiet b64 s ps) v)
  call-Inv s disconnects v = raised (omega arith) (disconnect-Inv b64 v)

  connections-cons :
      (c : Call) (cs : List Call) → connections (c ∷ []) + connections cs ≡ connections (c ∷ cs)
  connections-cons (connects now) cs = omega arith
  connections-cons (incoming now p) cs = omega arith
  connections-cons (emits p) cs = omega arith
  connections-cons (emits_multi ps) cs = omega arith
  connections-cons disconnects cs = omega arith

  run-Inv :
      {n : ℕ} (cs : List Call) (s : Socket) → Inv n s → Inv (n + connections cs) (run b64 s cs)
  unfolding run
  run-Inv {n = n} [] s v = raised {n = n} (omega arith) v
  run-Inv {n = n} (c ∷ cs) s v =
      raised {n = n + connections (c ∷ []) + connections cs} (omega (arith, connections-cons c cs))
        (run-Inv {n = n + connections (c ∷ [])} cs (after b64 s c) (call-Inv s c v))

  -- Where the transport does not fail, and for any packets that come in and calls of `connect`,
  -- `emit`, `emit_multi` and `disconnect` in any order: the closes that were told to the listener,
  -- and one more for a connection that is there at the end, are not more than the closes that were
  -- told before, one for a connection that was there, and one for each call of `connect`.
  pub run-closes :
      (s : Socket) (cs : List Call)
      → s.faults ≡ []
      → closes (run b64 s cs).events + (if (run b64 s cs).connected then 1 else 0)
        ≤ closes s.events + (if s.connected then 1 else 0) + connections cs
  run-closes s cs f = (run-Inv cs s (record { no_fault = f; told = omega arith })).told

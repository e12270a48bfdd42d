-- ===== src/Engineio/Server/Pings/Alive.antt =====
-- That a server keeps the sockets that are heard.
use socket_io.Base.{
  ℕ, ◌-◌, ◌≡◌, refl, sym, ap, subst, ◌∙◌, List, [], ◌∷◌, arith, Bool, true, false, Option, some,
  Str, ok, leb, All,
}
use socket_io.Base.Maps.{get, get_put_same}
use socket_io.Engineio.Error.{Result}
use socket_io.Engineio.External.{Base64}
use socket_io.Engineio.Packet.{Packet, PacketType}
use socket_io.Engineio.Socket as Socket
use socket_io.Engineio.Socket.{
  Socket, handle_incoming_packet, react, handle_packet, handle_data, handle_close, reporting,
  report, transport_emit, send_event,
}
use socket_io.Engineio.Socket.Incoming.{incoming_state, is_close}
use socket_io.Engineio.Server.{
  Server, Entry, run_socket, run_entry, before, after, transport_faults, emit, last_pong,
}
use socket_io.Engineio.Server.Pings.{
  Tick, ping_packet, arrive, is_alive, ping_round, ping_pong, ping_deadline,
}
use socket_io.Engineio.Server.Pings.Silence.{
  heard, overdue, run_socket_entry, deadline_option, arrive_option, ping_round_option, overdue_step,
  afterwards,
}

-- A connected socket over a websocket that does not fail.
pub record IsUp (t : ℕ) (s : Socket) : Type 0 where
  pub is_connected : s.connected ≡ true
  pub no_faults : s.faults ≡ []
  pub heard_at : s.last_pong ≡ t

abbrev pub IsUpIn : Option Entry → ℕ → Type 0
IsUpIn o t = (e : Entry) × (o ≡ some e) × (e.is_polling ≡ false) × IsUp t e.socket

-- No arrival is a close packet.
abbrev pub NoClose : List Tick → Type 0
NoClose ks = All (λ (k : Tick). All (λ (a : ℕ × Packet). is_close a.1.ptype ≡ false) k.arrivals) ks

-- When the socket was last heard after all ticks.
unfoldable pub last_heard : ℕ → List Tick → ℕ
last_heard t [] = t
last_heard t (k ∷ ks) = last_heard (heard t k.arrivals) ks

before-IsUp :
    (server : Server) (sid : Str) (e : Entry) (t : ℕ)
    → e.is_polling ≡ false
    → IsUp t e.socket
    → IsUp t (before server sid e)
unfolding before transport_faults
before-IsUp server sid e t w u = ground arith

after-IsUp : (e : Entry) (s : Socket) (t : ℕ) → IsUp t s → IsUp t (after e s).socket
unfolding after
after-IsUp e s t u = ground arith

after_polling : (e : Entry) (s : Socket) → (after e s).is_polling ≡ e.is_polling
unfolding after
after_polling e s = refl

module _ (b64 : Base64) where
  run_entry_get :
      (server : Server) (sid : Str) (e : Entry) (f : Socket → Socket.Outcome)
      → get sid (run_entry b64 server sid e f).0.sockets
        ≡ some (after e (f (before server sid e)).0)
  unfolding run_entry
  run_entry_get server sid e f = get_put_same sid _ server.sockets

  run_socket-IsUpIn :
      (server : Server) (sid : Str) (t t' : ℕ) (f : Socket → Socket.Outcome)
      → ((s : Socket) → IsUp t s → IsUp t' (f s).0)
      → IsUpIn (get sid server.sockets) t
      → IsUpIn (get sid (run_socket b64 server sid f).0.sockets) t'
  run_socket-IsUpIn server sid t t' f step (e, there, w, u) = (
    after e (f (before server sid e)).0,
    ap (λ (o : Server × Result (Unit {0})). get sid o.0.sockets)
          (run_socket_entry b64 server sid e f there)
        ∙ run_entry_get server sid e f,
    after_polling e _ ∙ w,
    after-IsUp e _ t' (step (before server sid e) (before-IsUp server sid e t w u)),
  )

  emit-IsUp : (s : Socket) (t : ℕ) (p : Packet) → IsUp t s → IsUp t (Socket.emit b64 s p).0
  unfolding Socket.emit reporting report transport_emit send_event
  emit-IsUp s t p u = ground arith

  emit_works : (s : Socket) (t : ℕ) (p : Packet) → IsUp t s → (Socket.emit b64 s p).1 ≡ ok tt
  unfolding Socket.emit reporting report transport_emit send_event
  emit_works s t p u = ground arith

  react_faults :
      (s : Socket) (now : ℕ) (k : PacketType) (d : List ℕ)
      → s.faults ≡ []
      → (react b64 s now k d).faults ≡ []
  unfolding react handle_data handle_close Socket.emit reporting transport_emit report send_event
  react_faults s now PacketType.message d e = ground arith
  react_faults s now _ d e = ground arith

  incoming_faults :
      (s : Socket) (now : ℕ) (p : Packet)
      → s.faults ≡ []
      → (handle_incoming_packet b64 s now p).faults ≡ []
  unfolding handle_incoming_packet handle_packet send_event
  incoming_faults s now p e =
      react_faults (handle_packet b64 (record s { last_pong = now }) p) now p.ptype p.content
        (ground arith)

  incoming-IsUp :
      (s : Socket) (t now : ℕ) (p : Packet)
      → is_close p.ptype ≡ false
      → IsUp t s
      → IsUp now (handle_incoming_packet b64 s now p)
  incoming-IsUp s t now p c u =
      let state = incoming_state b64 s now p in
      record {
        is_connected = ground (arith, state, u.is_connected, c);
        no_faults = incoming_faults s now p u.no_faults;
        heard_at = state.1;
      }

  arrive-IsUpIn :
      (server : Server) (sid : Str) (t : ℕ) (ps : List (ℕ × Packet))
      → All (λ (a : ℕ × Packet). is_close a.1.ptype ≡ false) ps
      → IsUpIn (get sid server.sockets) t
      → IsUpIn (get sid (arrive b64 server sid ps).sockets) (heard t ps)
  unfolding arrive heard
  arrive-IsUpIn server sid t [] c u = u
  arrive-IsUpIn server sid t ((now, p) ∷ ps) (c, cs) u =
      arrive-IsUpIn (run_socket b64 server sid (λ s. (handle_incoming_packet b64 s now p, ok tt))).0
        sid now ps cs
        (run_socket-IsUpIn server sid t now (λ s. (handle_incoming_packet b64 s now p, ok tt))
          (λ s v. incoming-IsUp s t now p c v) u)

  emit-IsUpIn :
      (server : Server) (sid : Str) (t : ℕ)
      → IsUpIn (get sid server.sockets) t
      → IsUpIn (get sid (emit b64 server sid ping_packet).0.sockets) t
  unfolding emit
  emit-IsUpIn server sid t u =
      run_socket-IsUpIn server sid t t (λ s. Socket.emit b64 s ping_packet)
        (λ s v. emit-IsUp s t ping_packet v) u

  emit_ok :
      (server : Server) (sid : Str) (t : ℕ)
      → IsUpIn (get sid server.sockets) t
      → (emit b64 server sid ping_packet).1 ≡ ok tt
  unfolding emit run_entry
  emit_ok server sid t (e, there, w, u) =
      ap (λ (o : Server × Result (Unit {0})). o.1)
        (run_socket_entry b64 server sid e (λ s. Socket.emit b64 s ping_packet) there)
      ∙ emit_works (before server sid e) t ping_packet (before-IsUp server sid e t w u)

  IsUpIn-last_pong :
      (server : Server) (sid : Str) (t : ℕ)
      → IsUpIn (get sid server.sockets) t
      → last_pong server sid ≡ some t
  unfolding last_pong
  IsUpIn-last_pong server sid t (e, there, w, u) = ground (arith, there, u.heard_at)

  -- A round of a socket that was heard in time.
  ping_round_prompt :
      (server : Server) (sid : Str) (t now : ℕ)
      → IsUpIn (get sid server.sockets) t
      → leb (ping_deadline server) (now - t) ≡ false
      → ping_round b64 server sid now ≡ ((emit b64 server sid ping_packet).0, true)
  unfolding ping_round is_alive
  ping_round_prompt server sid t now u prompt =
      let e = emit_ok server sid t u in
      let v = emit-IsUpIn server sid t u in
      let p = IsUpIn-last_pong (emit b64 server sid ping_packet).0 sid t v in
      ground (arith, e, p, prompt)

  overdue_now :
      (timeout t : ℕ) (k : Tick) (ks : List Tick)
      → overdue timeout t (k ∷ ks) ≡ false
      → leb timeout (k.now - heard t k.arrivals) ≡ false
  unfolding overdue
  overdue_now timeout t k ks e = ground arith

  -- A connected socket over a websocket that does not fail, from which no close packet arrives, is
  -- in the table after some ticks, and connected, if at none of them nothing was heard for the
  -- whole timeout.
  pub ping_pong_heard :
      (server : Server) (sid : Str) (t : ℕ) (ticks : List Tick)
      → NoClose ticks
      → IsUpIn (get sid server.sockets) t
      → overdue (ping_deadline server) t ticks ≡ false
      → IsUpIn (get sid (ping_pong b64 server sid ticks).sockets) (last_heard t ticks)
  unfolding last_heard ping_pong
  ping_pong_heard server sid t [] c u prompt = u
  ping_pong_heard server sid t (k ∷ ks) (c, cs) u prompt =
      let told = arrive b64 server sid k.arrivals in
      let h = heard t k.arrivals in
      let v = arrive-IsUpIn server sid t k.arrivals c u in
      let d = deadline_option server told (arrive_option b64 server sid k.arrivals) in
      let now = overdue_now _ t k ks prompt in
      let r = ping_round_prompt told sid h k.now v (ap (λ x. leb x (k.now - h)) d ∙ now) in
      let told' = (emit b64 told sid ping_packet).0 in
      let d' = deadline_option told told' (
        sym (ap (λ (o : Server × Bool). o.0.server_option) r)
        ∙ ping_round_option b64 told sid k.now) in
      subst
        (λ (o : Server × Bool).
          IsUpIn (get sid (afterwards b64 sid ks o).sockets) (last_heard h ks))
        (sym r)
        (ping_pong_heard told' sid h ks cs (emit-IsUpIn told sid h v)
          (ap (λ x. overdue x h ks) (d' ∙ d) ∙ sym (overdue_step _ t k ks now) ∙ prompt))

-- ===== src/Engineio/Server/Pings/Silence.antt =====
-- That a server closes the sockets that are silent.
use socket_io.Base.{
  ℕ, ◌+◌, ◌-◌, ◌≡◌, refl, sym, ap, ◌∙◌, List, [], ◌∷◌, arith, Bool, true, false, ◌||◌, Option, none,
  some, Str, ok, leb, Bool-cases, inl, inr,
}
use socket_io.Base.Maps.{get, get_put_same, get_erase_same}
use socket_io.Engineio.Error.{Result}
use socket_io.Engineio.External.{Base64}
use socket_io.Engineio.Packet.{Packet}
use socket_io.Engineio.Socket as Socket
use socket_io.Engineio.Socket.{
  Socket, handle_incoming_packet, reporting, report, transport_emit, send_event,
}
use socket_io.Engineio.Socket.Incoming.{incoming_state}
use socket_io.Engineio.Server.{
  Server, Entry, run_socket, run_entry, before, after, emit, close_socket, last_pong, ServerOption,
}
use socket_io.Engineio.Server.Pings.{
  Tick, ping_packet, arrive, is_alive, ping_round, ping_pong, ping_deadline,
}

-- When a socket was last heard, after some arrivals.
unfoldable pub heard : ℕ → List (ℕ × Packet) → ℕ
heard t [] = t
heard t ((now, p) ∷ ps) = heard now ps

-- Whether nothing was heard for the whole timeout at one of the ticks.
unfoldable pub overdue : ℕ → ℕ → List Tick → Bool
unfolding heard
overdue timeout t [] = false
overdue timeout t (k ∷ ks) =
    let rest = overdue timeout (heard t k.arrivals) ks in
    leb timeout (k.now - heard t k.arrivals) || rest

abbrev pub pong_of : Option Entry → Option ℕ
pong_of none = none
pong_of (some e) = some e.socket.last_pong

entry_of :
    (o : Option Entry) (t : ℕ)
    → pong_of o ≡ some t
    → (e : Entry) × (o ≡ some e) × (e.socket.last_pong ≡ t)
entry_of none t h = absurd (cc h)
entry_of (some e) t h = (e, refl, cc h)

pub last_pong-get :
    (server : Server) (sid : Str) → last_pong server sid ≡ pong_of (get sid server.sockets)
unfolding last_pong
last_pong-get server sid = ground arith

pub deadline_option :
    (s s' : Server) → s'.server_option ≡ s.server_option → ping_deadline s' ≡ ping_deadline s
unfolding ping_deadline
deadline_option s s' e = ap (λ (o : ServerOption). o.ping_timeout + o.ping_interval) e

pub overdue_step :
    (timeout t : ℕ) (k : Tick) (ks : List Tick)
    → leb timeout (k.now - heard t k.arrivals) ≡ false
    → overdue timeout t (k ∷ ks) ≡ overdue timeout (heard t k.arrivals) ks
unfolding overdue
overdue_step timeout t k ks e = ground arith

module _ (b64 : Base64) where
  -- What an operation does to when its socket was last heard.
  run_entry-last_pong :
      (server : Server) (sid : Str) (e : Entry) (f : Socket → Socket.Outcome)
      → last_pong (run_entry b64 server sid e f).0 sid ≡ some (f (before server sid e)).0.last_pong
  unfolding last_pong run_entry after
  run_entry-last_pong server sid e f =
      ap pong_of (get_put_same sid (after e (f (before server sid e)).0) server.sockets)

  pub before-last_pong :
      (server : Server) (sid : Str) (e : Entry)
      → (before server sid e).last_pong ≡ e.socket.last_pong
  unfolding before
  before-last_pong server sid e = refl

  pub run_socket_entry :
      (server : Server) (sid : Str) (e : Entry) (f : Socket → Socket.Outcome)
      → get sid server.sockets ≡ some e
      → run_socket b64 server sid f ≡ run_entry b64 server sid e f
  unfolding run_socket
  run_socket_entry server sid e f h = ground arith

  run_socket-last_pong :
      (server : Server) (sid : Str) (t : ℕ) (f : Socket → Socket.Outcome) (g : ℕ → ℕ)
      → ((s : Socket) → (f s).0.last_pong ≡ g s.last_pong)
      → last_pong server sid ≡ some t
      → last_pong (run_socket b64 server sid f).0 sid ≡ some (g t)
  run_socket-last_pong server sid t f g step h =
      let (e, there, p) = entry_of _ t (sym (last_pong-get server sid) ∙ h) in
      ap (λ (o : Server × Result (Unit {0})). last_pong o.0 sid)
        (run_socket_entry server sid e f there)
      ∙ run_entry-last_pong server sid e f
      ∙ ap some (step (before server sid e) ∙ ap g (before-last_pong server sid e ∙ p))

  socket_emit-last_pong :
      (s : Socket) (p : Packet) → (Socket.emit b64 s p).0.last_pong ≡ s.last_pong
  unfolding Socket.emit reporting report transport_emit send_event
  socket_emit-last_pong s p = ground arith

  emit-last_pong :
      (server : Server) (sid : Str) (t : ℕ) (p : Packet)
      → last_pong server sid ≡ some t
      → last_pong (emit b64 server sid p).0 sid ≡ some t
  unfolding emit
  emit-last_pong server sid t p h =
      run_socket-last_pong server sid t (λ s. Socket.emit b64 s p) (λ x. x)
        (λ s. socket_emit-last_pong s p) h

  arrive-last_pong :
      (server : Server) (sid : Str) (t : ℕ) (ps : List (ℕ × Packet))
      → last_pong server sid ≡ some t
      → last_pong (arrive b64 server sid ps) sid ≡ some (heard t ps)
  unfolding arrive heard
  arrive-last_pong server sid t [] h = h
  arrive-last_pong server sid t ((now, p) ∷ ps) h =
      arrive-last_pong
        (run_socket b64 server sid (λ s. (handle_incoming_packet b64 s now p, ok tt))).0 sid now ps
        (run_socket-last_pong server sid t (λ s. (handle_incoming_packet b64 s now p, ok tt))
          (λ _. now) (λ s. (incoming_state b64 s now p).1) h)

  close_socket-get :
      (server : Server) (sid : Str) → get sid (close_socket b64 server sid).sockets ≡ none
  unfolding close_socket
  close_socket-get server sid = get_erase_same sid _

  run_socket_option :
      (server : Server) (sid : Str) (f : Socket → Socket.Outcome)
      → (run_socket b64 server sid f).0.server_option ≡ server.server_option
  unfolding run_socket run_entry
  run_socket_option server sid f = ground arith

  pub arrive_option :
      (server : Server) (sid : Str) (ps : List (ℕ × Packet))
      → (arrive b64 server sid ps).server_option ≡ server.server_option
  unfolding arrive
  arrive_option server sid [] = refl
  arrive_option server sid ((now, p) ∷ ps) =
      arrive_option (run_socket b64 server sid (λ s. (handle_incoming_packet b64 s now p, ok tt))).0
        sid ps
      ∙ run_socket_option server sid (λ s. (handle_incoming_packet b64 s now p, ok tt))

  pub ping_round_option :
      (server : Server) (sid : Str) (now : ℕ)
      → (ping_round b64 server sid now).0.server_option ≡ server.server_option
  unfolding ping_round emit
  ping_round_option server sid now =
      ground (arith, run_socket_option server sid (λ s. Socket.emit b64 s ping_packet))

  -- A round neither hears the socket nor goes on when nothing was heard for the timeout.
  ping_round-last_pong :
      (server : Server) (sid : Str) (t now : ℕ)
      → last_pong server sid ≡ some t
      → last_pong (ping_round b64 server sid now).0 sid ≡ some t
  unfolding ping_round
  ping_round-last_pong server sid t now h =
      ground (arith, emit-last_pong server sid t ping_packet h)

  ping_round_late :
      (server : Server) (sid : Str) (t now : ℕ)
      → last_pong server sid ≡ some t
      → leb (ping_deadline server) (now - t) ≡ true
      → (ping_round b64 server sid now).1 ≡ false
  unfolding ping_round is_alive
  ping_round_late server sid t now h late =
      ground (arith, emit-last_pong server sid t ping_packet h)

  -- The rest of the loop, after a round.
  abbrev pub afterwards : Str → List Tick → Server × Bool → Server
  afterwards sid ks (server, go_on) = elim go_on [
    | true ↦ ping_pong b64 server sid ks
    | false ↦ close_socket b64 server sid
  ]

  pub ping_pong_step :
      (server : Server) (sid : Str) (k : Tick) (ks : List Tick)
      → ping_pong b64 server sid (k ∷ ks)
        ≡ afterwards sid ks (ping_round b64 (arrive b64 server sid k.arrivals) sid k.now)
  unfolding ping_pong
  ping_pong_step server sid k ks = refl

  afterwards-none :
      (sid : Str) (ks : List Tick) (r : Server × Bool)
      → (r.1 ≡ true → get sid (ping_pong b64 r.0 sid ks).sockets ≡ none)
      → get sid (afterwards sid ks r).sockets ≡ none
  afterwards-none sid ks (server, true) h = h refl
  afterwards-none sid ks (server, false) h = close_socket-get server sid

  -- A socket of the table from which nothing is heard for the whole timeout at one of the ticks is
  -- no more in the table after them, whatever happened before and whatever its transport does.
  pub ping_pong_silent :
      (server : Server) (sid : Str) (t : ℕ) (ticks : List Tick)
      → last_pong server sid ≡ some t
      → overdue (ping_deadline server) t ticks ≡ true
      → get sid (ping_pong b64 server sid ticks).sockets ≡ none
  unfolding overdue
  ping_pong_silent server sid t [] h late = absurd (cc late)
  ping_pong_silent server sid t (k ∷ ks) h late =
      let told = arrive b64 server sid k.arrivals in
      let p = arrive-last_pong server sid t k.arrivals h in
      let d = deadline_option server told (arrive_option server sid k.arrivals) in
      let r = ping_round b64 told sid k.now in
      let q = ping_round-last_pong told sid (heard t k.arrivals) k.now p in
      let d' = deadline_option told r.0 (ping_round_option told sid k.now) in
      ap (λ (s : Server). get sid s.sockets) (ping_pong_step server sid k ks)
      ∙ afterwards-none sid ks r (λ go_on.
        elim (Bool-cases (leb (ping_deadline server) (k.now - heard t k.arrivals))) [
          | inl e ↦ absurd (
              cc (
                go_on,
                ping_round_late told sid (heard t k.arrivals) k.now p
                    (ap (λ x. leb x (k.now - heard t k.arrivals)) d ∙ e),
              ))
          | inr e ↦ ping_pong_silent r.0 sid (heard t k.arrivals) ks q (
              ap (λ x. overdue x (heard t k.arrivals) ks) (d' ∙ d)
              ∙ sym (overdue_step _ t k ks e)
              ∙ late)
        ])

-- ===== src/Socketio/Server/Asking/Waiting.antt =====
-- socketio/src/server/server.rs, `emit_to_with_ack`: who waits for an answer.
use socket_io.Base.{
  ℕ, ◌≡◌, refl, sym, ap, ◌∙◌, List, [], ◌∷◌, arith, Bool, true, false, ◌&&◌, ◌||◌, Option, none,
  some, Str, ok, err, if◌then◌else◌, list_eq, list_eq_sound,
}
use socket_io.Base.Maps.{Map, get}
use socket_io.Engineio.External.{Base64}
use socket_io.Engineio.Socket as Engine
use socket_io.Socketio.Acks.{generate}
use socket_io.Socketio.Error.{Error}
use socket_io.Socketio.Event.{Event}
use socket_io.Socketio.External.{Json}
use socket_io.Socketio.Packet.{Packet}
use socket_io.Socketio.Payload.{Payload}
use socket_io.Socketio.Rooms.{Set, contains, sids_to_emit}
use socket_io.Socketio.Rooms.Recipients.{is_addressed, contains-sids_to_emit}
use socket_io.Socketio.Rooms.Distinct.{IsDistinct, sids_to_emit-IsDistinct}
use socket_io.Socketio.Sids.{decode}
use socket_io.Socketio.Socket as Client
use socket_io.Socketio.Socket.{Socket, wait_for, send, lift, send_packets}
use socket_io.Socketio.Server.{Server, client, run_client}
use socket_io.Socketio.Server.Clients.{client-insert_client}
use socket_io.Socketio.Server.Opening.{client-run_client}
use socket_io.Socketio.Server.Asking.{asking, ask_socket, ask_client, ask_each, emit_to_with_ack}

abbrev pub map_option {ℓ} : {A : Type ℓ} → (A → A) → Option A → Option A
map_option f none = none
map_option f (some a) = some (f a)

module _ (j : Json) (b64 : Base64) (now : ℕ) (event : Event) (payload : Payload j)
    (timeout cb : ℕ) where
  -- A connected client waits for one more ack, whatever becomes of the packet.
  abbrev pub waiting : Socket j → Socket j
  waiting c = if c.is_connected then wait_for j b64 c now timeout cb else c

  -- A method that may return at once, seen without the engine.io socket.
  gated :
      (b : Bool) (s t : Socket j) (o : Client.Outcome j) (x : Error)
      → record o.0 { engine = s.engine } ≡ t
      → record (if b then o else (s, err x)).0 { engine = s.engine } ≡ (if b then t else s)
  gated true s t o x h = h
  gated false s t o x h = refl

  lift_engine :
      (s : Socket j) (o : Engine.Outcome) → record (lift j s o).0 { engine = s.engine } ≡ s
  lift_engine s (e, ok u) = refl
  lift_engine s (e, err x) = refl

  either_same : (b : Bool) (s : Socket j) → (if b then s else s) ≡ s
  either_same true s = refl
  either_same false s = refl

  send_engine : (s : Socket j) (p : Packet j) → record (send j b64 s p).0 { engine = s.engine } ≡ s
  unfolding send
  send_engine s p =
      gated s.engine.connected s s _ _ (lift_engine s _) ∙ either_same s.engine.connected s

  asking-waiting : (c : Socket j) → asking j b64 now event payload timeout cb c ≡ waiting c
  unfolding Client.emit_with_ack wait_for generate
  asking-waiting c =
      gated c.is_connected c (wait_for j b64 c now timeout cb) _ _
        (send_engine (wait_for j b64 c now timeout cb) _)

  -- Whether it is this client.
  abbrev is_same : Str → Str → Str → Str → Bool
  is_same sid nsp sid' nsp' = list_eq sid sid' && list_eq nsp nsp'

  -- The client of an id and a namespace, behind a round for another one or the same.
  abbrev turn : Bool → Option (Socket j) → Option (Socket j)
  turn b o = if b then map_option waiting o else o

  same_client :
      (server : Server j) (sid nsp sid' nsp' : Str)
      → is_same sid nsp sid' nsp' ≡ true
      → client j b64 server sid' nsp' ≡ client j b64 server sid nsp
  same_client server sid nsp sid' nsp' e =
      let a : list_eq sid sid' ≡ true = ground arith in
      let b : list_eq nsp nsp' ≡ true = ground arith in
      λ i. client j b64 server (sym (list_eq_sound sid sid' a) i) (sym (list_eq_sound nsp nsp' b) i)

  no_turn : (b : Bool) (o : Option (Socket j)) → (b ≡ true → o ≡ none) → o ≡ turn b o
  no_turn true o h = h refl ∙ ap (map_option waiting) (sym (h refl))
  no_turn false o h = refl

  one_turn :
      (b : Bool) (c c' : Socket j) (o : Option (Socket j))
      → c' ≡ waiting c
      → (b ≡ true → o ≡ some c)
      → (if b then some c' else o) ≡ turn b o
  one_turn true c c' o e h = ap some e ∙ ap (map_option waiting) (sym (h refl))
  one_turn false c c' o e h = refl

  no_client :
      (server : Server j) (sid nsp : Str)
      → decode b64 sid ≡ none
      → client j b64 server sid nsp ≡ none
  unfolding client
  no_client server sid nsp e = rw (client, e) refl

  abbrev asked_socket : Server j → Str → Socket j → Server j
  asked_socket server esid c =
      run_client j b64 server esid c
        (λ s. Client.emit_with_ack j b64 s now event payload timeout cb)

  -- One round of the loop.
  client-ask_client :
      (server : Server j) (nsp sid sid' nsp' : Str)
      → client j b64 (ask_client j b64 now event payload timeout cb server nsp sid) sid' nsp'
        ≡ turn (is_same sid nsp sid' nsp') (client j b64 server sid' nsp')
  unfolding ask_client
  client-ask_client server nsp sid sid' nsp' =
      by_client (decode b64 sid) (client j b64 server sid nsp) refl refl
    where
      by_client :
          (d : Option Str) (o : Option (Socket j))
          → decode b64 sid ≡ d
          → client j b64 server sid nsp ≡ o
          → client j b64
              (elim d as (λ _. Server j) [
                | none ↦ server
                | some esid ↦ elim o as (λ _. Server j) [
                  | none ↦ server
                  | some c ↦ ask_socket j b64 now event payload timeout cb server esid sid nsp c
                ]
              ])
              sid'
              nsp'
            ≡ turn (is_same sid nsp sid' nsp') (client j b64 server sid' nsp')
      by_client none o e f =
          no_turn _ _ (λ h. same_client server sid nsp sid' nsp' h ∙ no_client server sid nsp e)
      by_client (some esid) none e f = no_turn _ _ (λ h. same_client server sid nsp sid' nsp' h ∙ f)
      by_client (some esid) (some c) e f =
          client-insert_client j b64 (asked_socket server esid c) esid sid nsp sid' nsp'
            (asking j b64 now event payload timeout cb c) e
          ∙ ap
              (λ o.
                if is_same sid nsp sid' nsp'
                then some (asking j b64 now event payload timeout cb c)
                else o)
              (client-run_client j b64 server esid sid' nsp' c
                (λ s. Client.emit_with_ack j b64 s now event payload timeout cb))
          ∙ one_turn _ c (asking j b64 now event payload timeout cb c) _ (asking-waiting c)
              (λ h. same_client server sid nsp sid' nsp' h ∙ f)

  two_turns :
      (a b e : Bool) (o : Option (Socket j))
      → (a ≡ true → b ≡ false)
      → turn (b && e) (turn (a && e) o) ≡ turn ((a || b) && e) o
  two_turns true true e o h = absurd (ground (arith, h refl))
  two_turns true false e o h = refl
  two_turns false b e o h = refl

  client-ask_each :
      (sids : List Str) (server : Server j) (nsp sid nsp' : Str)
      → IsDistinct sids
      → client j b64 (ask_each j b64 now event payload timeout cb server nsp sids) sid nsp'
        ≡ turn (contains sid sids && list_eq nsp nsp') (client j b64 server sid nsp')
  unfolding ask_each contains
  client-ask_each [] server nsp sid nsp' d = refl
  client-ask_each (x ∷ xs) server nsp sid nsp' (hx, d) =
      client-ask_each xs (ask_client j b64 now event payload timeout cb server nsp x) nsp sid nsp' d
      ∙ ap (turn (contains sid xs && list_eq nsp nsp')) (client-ask_client server nsp x sid nsp')
      ∙ two_turns (list_eq x sid) (contains sid xs) (list_eq nsp nsp') _
          (λ e. ap (λ z. contains z xs) (sym (list_eq_sound x sid e)) ∙ hx)

  -- Of the clients of a server that emits to some names of a namespace that has had a room, and asks
  -- for answers, those of the namespace that are addressed by a room or their id wait for one more
  -- ack each, if they are connected, however many of the names address them; all other clients, of
  -- this and of other namespaces, are as before.
  pub client-emit_to_with_ack :
      (server : Server j) (nsp sid nsp' : Str) (rooms : Map Set) (names : List Str)
      → get nsp server.rooms ≡ some rooms
      → client j b64 (emit_to_with_ack j b64 now event payload timeout cb server nsp names) sid nsp'
        ≡ (if is_addressed server.rooms nsp names sid && list_eq nsp nsp'
            then map_option waiting (client j b64 server sid nsp')
            else client j b64 server sid nsp')
  unfolding emit_to_with_ack
  client-emit_to_with_ack server nsp sid nsp' rooms names there =
      client-ask_each (sids_to_emit server.rooms nsp names) server nsp sid nsp'
        (sids_to_emit-IsDistinct server.rooms nsp names)
      ∙ ap (λ b. turn (b && list_eq nsp nsp') (client j b64 server sid nsp'))
          (contains-sids_to_emit server.rooms nsp rooms names sid there)

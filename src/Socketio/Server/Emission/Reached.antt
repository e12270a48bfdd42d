-- ===== src/Socketio/Server/Emission/Reached.antt =====
-- socketio/src/server/server.rs, `emit_to`: a client that is addressed gets the event once.
use socket_io.Base.{
  ◌≡◌, ◌≢◌, refl, sym, ap, subst, ◌∙◌, List, [], ◌∷◌, ◌++◌, true, Option, none, some, Str, ok, All,
  All-split,
}
use socket_io.Base.Maps.{Map, get}
use socket_io.Engineio.External.{Base64}
use socket_io.Engineio.Socket as EngineSocket
use socket_io.Socketio.Event.{Event}
use socket_io.Socketio.External.{Json}
use socket_io.Socketio.Payload.{Payload}
use socket_io.Socketio.Rooms.{Set, sids_to_emit}
use socket_io.Socketio.Rooms.Recipients.{is_addressed, contains-sids_to_emit}
use socket_io.Socketio.Rooms.Distinct.{sids_to_emit-IsDistinct, split_at}
use socket_io.Socketio.Sids.{decode}
use socket_io.Socketio.Socket as Client
use socket_io.Socketio.Socket.{Socket}
use socket_io.Socketio.Server.{Server, client, run_client, emit_client, emit_each, emit_to}
use socket_io.Socketio.Server.Emission.View.{view, run-view}
use socket_io.Socketio.Server.Emission.{at, contained, emit_each_other}

module _ (j : Json) (b64 : Base64) where
  -- Emitting leaves the table of clients alone.
  emit_client_clients :
      (server : Server j) (nsp sid : Str) (event : Event) (payload : Payload j)
      → (emit_client j b64 server nsp sid event payload).clients ≡ server.clients
  unfolding run_client
  emit_client_clients server nsp sid event payload =
      from (decode b64 sid) (client j b64 server sid nsp)
    where
      from :
          (d : Option Str) (o : Option (Socket j))
          → (elim d as (λ _. Server j) [
            | none ↦ server
            | some x ↦ elim o as (λ _. Server j) [
              | none ↦ server
              | some c ↦ run_client j b64 server x c (λ s. Client.emit j b64 s event payload)
            ]
          ]).clients
            ≡ server.clients
      from none o = refl
      from (some x) none = refl
      from (some x) (some c) = refl

  emit_each_clients :
      (server : Server j) (nsp : Str) (sids : List Str) (event : Event) (payload : Payload j)
      → (emit_each j b64 server nsp sids event payload).clients ≡ server.clients
  unfolding emit_each
  emit_each_clients server nsp [] event payload = refl
  emit_each_clients server nsp (sid ∷ sids) event payload =
      emit_each_clients (emit_client j b64 server nsp sid event payload) nsp sids event payload
      ∙ emit_client_clients server nsp sid event payload

  emit_each-append :
      (server : Server j) (nsp : Str) (xs ys : List Str) (event : Event) (payload : Payload j)
      → emit_each j b64 server nsp (xs ++ ys) event payload
        ≡ emit_each j b64 (emit_each j b64 server nsp xs event payload) nsp ys event payload
  unfolding emit_each
  emit_each-append server nsp [] ys event payload = refl
  emit_each-append server nsp (x ∷ xs) ys event payload =
      emit_each-append (emit_client j b64 server nsp x event payload) nsp xs ys event payload

  emit_client_found :
      (server : Server j) (nsp sid esid : Str) (c : Socket j) (event : Event) (payload : Payload j)
      → decode b64 sid ≡ some esid
      → client j b64 server sid nsp ≡ some c
      → emit_client j b64 server nsp sid event payload
        ≡ run_client j b64 server esid c (λ s. Client.emit j b64 s event payload)
  emit_client_found server nsp sid esid c event payload d e = rw (emit_client, d, e) refl

  -- The client's socket, as it emits for the server.
  abbrev pub emitting : Socket j → Event → Payload j → EngineSocket.Socket → EngineSocket.Outcome
  emitting c event payload e =
      ((Client.emit j b64 (record c { engine = e }) event payload).0.engine, ok tt)

  pub at-run_client :
      (server : Server j) (esid : Str) (c : Socket j) (event : Event) (payload : Payload j)
      → at
          (run_client j b64 server esid c (λ s. Client.emit j b64 s event payload)).engine_server
          esid
        ≡ view b64 (emitting c event payload) (at server.engine_server esid)
  unfolding run_client
  at-run_client server esid c event payload =
      run-view b64 (emitting c event payload) server.engine_server esid

  client_kept :
      (server s : Server j) (sid nsp : Str)
      → s.clients ≡ server.clients
      → client j b64 s sid nsp ≡ client j b64 server sid nsp
  unfolding client
  client_kept server s sid nsp e = ap (λ m. client j b64 (record server { clients = m }) sid nsp) e

  -- Among others, a client emits once.
  emit_each_found :
      (server : Server j) (nsp sid esid : Str) (pre post : List Str) (c : Socket j) (event : Event)
      (payload : Payload j)
      → decode b64 sid ≡ some esid
      → client j b64 server sid nsp ≡ some c
      → All (λ (x : Str). decode b64 x ≢ some esid) pre
      → All (λ (x : Str). decode b64 x ≢ some esid) post
      → at (emit_each j b64 server nsp (pre ++ sid ∷ post) event payload).engine_server esid
        ≡ at
            (run_client j b64 server esid c (λ s. Client.emit j b64 s event payload)).engine_server
            esid
  unfolding emit_each
  emit_each_found server nsp sid esid pre post c event payload d e hp hq =
      let s = emit_each j b64 server nsp pre event payload in
      ap (λ (t : Server j). at t.engine_server esid)
        (emit_each-append server nsp pre (sid ∷ post) event payload)
      ∙ emit_each_other j b64 (emit_client j b64 s nsp sid event payload) esid nsp post event
          payload hq
      ∙ ap (λ (t : Server j). at t.engine_server esid)
          (emit_client_found s nsp sid esid c event payload d
            (client_kept server s sid nsp (emit_each_clients server nsp pre event payload) ∙ e))
      ∙ at-run_client s esid c event payload
      ∙ ap (view b64 (emitting c event payload))
          (emit_each_other j b64 server esid nsp pre event payload hp)
      ∙ sym (at-run_client server esid c event payload)

  apart :
      (P : Str → Type 0) (sid : Str) (s : Set)
      → All (λ (x : Str). x ≢ sid → P x) s
      → All (λ (x : Str). x ≢ sid) s
      → All P s
  apart P sid [] h n = tt
  apart P sid (x ∷ s) (hx, h) (nx, n) = (hx nx, apart P sid s h n)

  -- What is emitted to some names of a namespace that has had a room, to which a client is addressed
  -- by its room or its id, does to the client's engine.io socket what the client does when it emits
  -- the event once, and nothing else, however many of the names address it; what is queued for the
  -- socket's requests is that one event too. Of all who are addressed, this client alone is made
  -- for the engine.io socket.
  pub emit_to_reached :
      (server : Server j) (esid nsp sid : Str) (rooms : Map Set) (names : List Str) (c : Socket j)
      (event : Event) (payload : Payload j)
      → get nsp server.rooms ≡ some rooms
      → is_addressed server.rooms nsp names sid ≡ true
      → decode b64 sid ≡ some esid
      → client j b64 server sid nsp ≡ some c
      → ((x : Str)
          → is_addressed server.rooms nsp names x ≡ true
          → x ≢ sid
          → decode b64 x ≢ some esid)
      → at (emit_to j b64 server nsp names event payload).engine_server esid
        ≡ at
            (run_client j b64 server esid c (λ s. Client.emit j b64 s event payload)).engine_server
            esid
  unfolding emit_to
  emit_to_reached server esid nsp sid rooms names c event payload there asked d e alone =
      let sids = sids_to_emit server.rooms nsp names in
      let address = λ (x : Str). contains-sids_to_emit server.rooms nsp rooms names x there in
      let (pre, post, f, hp, hq) =
        split_at sid sids (sids_to_emit-IsDistinct server.rooms nsp names) (address sid ∙ asked) in
      let all : All (λ (x : Str). x ≢ sid → decode b64 x ≢ some esid) sids =
        contained sids _ (λ x h. alone x (sym (address x) ∙ h)) in
      let (ap', (_, aq)) = All-split _ pre (sid ∷ post) (subst (All _) f all) in
      ap (λ l. at (emit_each j b64 server nsp l event payload).engine_server esid) f
      ∙ emit_each_found server nsp sid esid pre post c event payload d e (apart _ sid pre ap' hp)
          (apart _ sid post aq hq)

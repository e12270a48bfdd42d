-- ===== src/Socketio/Server/Opening.antt =====
-- socketio/src/server/server.rs: that a socket which connects gets a client.
use socket_io.Base.{
  ℕ, ◌≡◌, refl, ap, ◌∙◌, List, [], ◌∷◌, ◌++◌, map, arith, Bool, true, false, ◌&&◌, Option, none,
  some, Str, ok, if◌then◌else◌, list_eq, All, if_true, if_false,
}
use socket_io.Engineio.External.{Base64, IsLawful}
use socket_io.Engineio.Server as Engine
use socket_io.Engineio.Socket as EngineSocket
use socket_io.Socketio.Error.{Result}
use socket_io.Socketio.Event.{Event}
use socket_io.Socketio.External.{Json}
use socket_io.Socketio.Packet.{Packet}
use socket_io.Socketio.Sids.{generate, decode, engine_sid}
use socket_io.Socketio.Sids.RoundTrip.{decode-generate_engine}
use socket_io.Socketio.Socket as Client
use socket_io.Socketio.Socket.{Socket}
use socket_io.Socketio.Server.Clients.{client-insert_client}
use socket_io.Socketio.Server.{
  Server, is_connect, client, insert_client, insert_clients, new_client, connect_loop, done,
  do_handle_connect, handle_connecting, create_client, client_info, run_client, sid_data,
}

module _ (j : Json) (b64 : Base64) where
  -- The packets that do not connect are passed over.
  passed :
      (server : Server j) (engine : EngineSocket.Socket) (esid sid : Str)
      (packets : List (Packet j)) (p : Packet j) (rest : List (Result (Packet j))) (ended : Bool)
      → All (λ (q : Packet j). is_connect q.ptype ≡ false) packets
      → is_connect p.ptype ≡ true
      → connect_loop j b64 server engine esid sid (map ok packets ++ ok p ∷ rest) ended
        ≡ done (insert_clients j b64 server engine p.nsp esid sid true)
  unfolding connect_loop
  passed server engine esid sid [] p rest ended h c = if_true (is_connect p.ptype) _ _ c
  passed server engine esid sid (q ∷ packets) p rest ended (hq, h) c =
      if_false (is_connect q.ptype) _ _ hq ∙ passed server engine esid sid packets p rest ended h c

  insert_step :
      (server : Server j) (engine : EngineSocket.Socket) (esid sid nsp : Str)
      (on : Event → Option ℕ)
      → server.on nsp ≡ some on
      → insert_clients j b64 server engine nsp esid sid true
        ≡ insert_client j
            (run_client j b64 server esid
              (new_client j b64 engine nsp on)
              (λ s. Client.handshake j b64 s (sid_data j b64 sid)))
            esid
            sid
            nsp
            (new_client j b64 engine nsp on)
  unfolding insert_clients
  insert_step server engine esid sid nsp on handlers = ground (arith, handlers)

  pub client-run_client :
      (server : Server j) (esid sid nsp : Str) (c : Socket j) (f : Socket j → Client.Outcome j)
      → client j b64 (run_client j b64 server esid c f) sid nsp ≡ client j b64 server sid nsp
  unfolding client run_client
  client-run_client server esid sid nsp c f = refl

  create_step :
      (server : Server j) (esid : Str) (engine : EngineSocket.Socket)
      (packets : List (Result (Packet j))) (ended : Bool)
      → Engine.socket server.engine_server esid ≡ some engine
      → client_info j server esid ≡ none
      → create_client j b64 server esid packets ended
        ≡ handle_connecting j b64 server engine esid packets ended
  unfolding create_client
  create_step server esid engine packets ended socket fresh = ground (arith, socket, fresh)

  connected_step :
      (server server' : Server j) (esid : Str) (engine : EngineSocket.Socket)
      (packets : List (Result (Packet j))) (ended : Bool)
      → connect_loop j b64
          (record server { seq = (generate b64 server.seq esid).1 })
          engine
          esid
          (generate b64 server.seq esid).0
          packets
          ended
        ≡ done server'
      → handle_connecting j b64 server engine esid packets ended ≡ server'
  unfolding handle_connecting do_handle_connect
  connected_step server server' esid engine packets ended e = ground (arith, e)

  -- A connect packet makes a client, whose entry is the only change to the clients.
  inserted :
      (server : Server j) (engine : EngineSocket.Socket) (esid sid nsp sid' nsp' : Str)
      (on : Event → Option ℕ)
      → server.on nsp ≡ some on
      → decode b64 sid ≡ some esid
      → client j b64 (insert_clients j b64 server engine nsp esid sid true) sid' nsp' ≡ (
          if list_eq sid sid' && list_eq nsp nsp'
          then some (new_client j b64 engine nsp on)
          else client j b64 server sid' nsp')
  inserted server engine esid sid nsp sid' nsp' on handlers there =
      let c = new_client j b64 engine nsp on in
      let told =
        run_client j b64 server esid c (λ s. Client.handshake j b64 s (sid_data j b64 sid)) in
      ap (λ s. client j b64 s sid' nsp') (insert_step server engine esid sid nsp on handlers)
      ∙ client-insert_client j b64 told esid sid nsp sid' nsp' c there
      ∙ ap (λ r. if list_eq sid sid' && list_eq nsp nsp' then some c else r)
          (client-run_client server esid sid' nsp' c
            (λ s. Client.handshake j b64 s (sid_data j b64 sid)))

  client_numbered :
      (server : Server j) (seq : ℕ) (sid nsp : Str)
      → client j b64 (record server { seq = seq }) sid nsp ≡ client j b64 server sid nsp
  unfolding client
  client_numbered server seq sid nsp = refl

  -- Over a lawful base64, when an engine.io socket of the server opens that has no client yet, and
  -- what arrives over it is first any packets that do not connect and then one that connects to a
  -- namespace with handlers, then the server has a client in this namespace under a new id, whose
  -- connect handler was called, and its other clients are as before.
  pub client-create_client :
      (server : Server j) (n : ℕ) (engine : EngineSocket.Socket) (packets : List (Packet j))
      (p : Packet j) (rest : List (Result (Packet j))) (ended : Bool) (on : Event → Option ℕ)
      (sid' nsp' : Str)
      → IsLawful b64
      → Engine.socket server.engine_server (engine_sid b64 n).0 ≡ some engine
      → client_info j server (engine_sid b64 n).0 ≡ none
      → All (λ (q : Packet j). is_connect q.ptype ≡ false) packets
      → is_connect p.ptype ≡ true
      → server.on p.nsp ≡ some on
      → let esid = (engine_sid b64 n).0 in
        let sid = (generate b64 server.seq esid).0 in
        client j b64
          (create_client j b64 server esid (map ok packets ++ ok p ∷ rest) ended)
          sid'
          nsp'
        ≡ (if list_eq sid sid' && list_eq p.nsp nsp'
            then some (new_client j b64 engine p.nsp on)
            else client j b64 server sid' nsp')
  client-create_client server n engine packets p rest ended on sid' nsp' lawful socket fresh h c
        handlers =
      let esid = (engine_sid b64 n).0 in
      let (sid, seq) = generate b64 server.seq esid in
      let numbered : Server j = record server { seq = seq } in
      let arriving : List (Result (Packet j)) = map ok packets ++ ok p ∷ rest in
      let looped = passed numbered engine esid sid packets p rest ended h c in
      ap (λ s. client j b64 s sid' nsp')
        (create_step server esid engine arriving ended socket fresh
          ∙ connected_step server (insert_clients j b64 numbered engine p.nsp esid sid true) esid
              engine arriving ended looped)
      ∙ inserted numbered engine esid sid p.nsp sid' nsp' on handlers
          (decode-generate_engine b64 lawful server.seq n)
      ∙ ap
          (λ r.
            if list_eq sid sid' && list_eq p.nsp nsp'
            then some (new_client j b64 engine p.nsp on)
            else r)
          (client_numbered server seq sid' nsp')

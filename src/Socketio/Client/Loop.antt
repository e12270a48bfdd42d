-- ===== src/Socketio/Client/Loop.antt =====
-- socketio/src/client/client.rs, `poll_callback`: when the task of a client goes on, and with what.
use socket_io.Base.{
  ℕ, suc, ◌+◌, ◌≤◌, ◌≡◌, refl, sym, ap, ◌∙◌, List, [], ◌∷◌, ◌++◌, map, arith, Bool, true, false,
  none, some, ok, err, length, drop, All,
}
use socket_io.Engineio.Error as EngineError
use socket_io.Engineio.External.{Base64}
use socket_io.Socketio.Error.{Error, Result, incomplete_response_from_engine_io}
use socket_io.Socketio.External.{Json}
use socket_io.Socketio.Handler.{Texts, poll_packet}
use socket_io.Socketio.Packet.{Packet}
use socket_io.Socketio.Socket.{Socket, callback}
use socket_io.Socketio.Event.{Event}
use socket_io.Socketio.Payload.{Payload}
use socket_io.Socketio.Reconnect.{reconnect, reconnect_replaced}
use socket_io.Socketio.Client.{
  Client, Connection, next, disconnect, disconnect_socket, reconnect_client, reconnected,
  poll_round, poll_callback, after_poll,
}

drop_errors :
    {S : Type 0} (errors : List Error) (s : S) (results : List (Result S))
    → drop (length errors + 1) (map err errors ++ ok s ∷ results) ≡ results
drop_errors [] s results = refl
drop_errors {S} (e ∷ errors) s results =
    let n : length (e ∷ errors) + 1 ≡ suc (length errors + 1) = omega arith in
    let l : List (Result S) = map err (e ∷ errors) ++ ok s ∷ results in
    ap (λ k. drop k l) n ∙ drop_errors errors s results

module _ (j : Json) (b64 : Base64) where
  -- A client that was disconnected is not connected, and disconnecting it again does nothing.
  disconnect_again :
      (c : Client j)
      → ((disconnect j b64 c).0.is_connected ≡ false)
        × (disconnect j b64 (disconnect j b64 c).0 ≡ ((disconnect j b64 c).0, ok tt))
  unfolding disconnect disconnect_socket
  disconnect_again c = (ground arith, ground arith)

  replaced_by :
      (c : Client j) (limit : ℕ) (errors : List Error) (s : Socket j)
      (incoming : List (Result (Packet j))) (results : List (Result (Connection j)))
      → c.builder.reconnects ≡ true
      → c.builder.max_attempts ≡ some limit
      → length errors ≤ limit
      → reconnect_client j b64 c (map err errors ++ ok (s, incoming) ∷ results)
        ≡ next (record c { socket = s; incoming = incoming }) results
  unfolding reconnect_client
  replaced_by c limit errors s incoming results enabled limited few =
      let gets : List (Result (Connection j)) = map err errors ++ ok (s, incoming) ∷ results in
      ap (λ b. reconnected j b64 c gets (reconnect b c.builder.max_attempts gets)) enabled
      ∙ ap (λ m. reconnected j b64 c gets (reconnect true m gets)) limited
      ∙ ap (reconnected j b64 c gets) (reconnect_replaced limit errors (s, incoming) results few)
      ∙ ap (next (record c { socket = s; incoming = incoming }))
          (drop_errors errors (s, incoming) results)

  module _ (texts : Texts j) where
    ended_round :
        (c : Client j) (results : List (Result (Connection j))) (now : ℕ)
        → c.incoming ≡ []
        → poll_round j b64 texts c now results ≡ next c results
    unfolding poll_round poll_packet
    ended_round c results now e =
        ap (λ l. after_poll j b64 texts c results (poll_packet j texts c.socket now l)) e
        ∙ ap (λ l. next (record c { incoming = l }) results) (sym e)

    ended_step :
        (c : Client j) (results : List (Result (Connection j))) (now : ℕ) (b : Bool)
        (rounds : List (ℕ × Bool))
        → poll_round j b64 texts c now results ≡ next c results
        → c.is_connected ≡ true
        → b ≡ false
        → poll_callback j b64 texts c results ((now, b) ∷ rounds)
          ≡ poll_callback j b64 texts c results rounds
    unfolding poll_callback
    ended_step c results now b rounds e on hb = ground (arith, e, on, hb)

    -- When everything that came in over the socket of a connected client was read, and the stream
    -- has ended, the task goes round and round without an effect until the owner disconnects.
    pub poll_callback_ended :
        (c : Client j) (results : List (Result (Connection j))) (rounds : List (ℕ × Bool))
        → c.incoming ≡ []
        → c.is_connected ≡ true
        → All (λ (r : ℕ × Bool). r.1 ≡ false) rounds
        → poll_callback j b64 texts c results rounds ≡ (next c results, false)
    unfolding poll_callback
    poll_callback_ended c results [] e on h = refl
    poll_callback_ended c results ((now, b) ∷ rounds) e on (hb, h) =
        ended_step c results now b rounds (ended_round c results now e) on hb
        ∙ poll_callback_ended c results rounds e on h

    -- When a poll finds that the connection is broken, and the client reconnects with a limit on the
    -- attempts, then a connection that comes after at most so many failures replaces the broken one,
    -- with what comes in over it; what further reconnections will get is left.
    pub poll_round_replaced :
        (c : Client j) (now limit : ℕ) (e : EngineError.Error) (rest : List (Result (Packet j)))
        (errors : List Error) (s : Socket j) (incoming : List (Result (Packet j)))
        (results : List (Result (Connection j)))
        → c.incoming ≡ err (incomplete_response_from_engine_io e) ∷ rest
        → c.builder.reconnects ≡ true
        → c.builder.max_attempts ≡ some limit
        → length errors ≤ limit
        → poll_round j b64 texts c now (map err errors ++ ok (s, incoming) ∷ results)
          ≡ next (record c { socket = s; incoming = incoming }) results
    unfolding poll_round poll_packet disconnect_socket
    poll_round_replaced c now limit e rest errors s incoming results broken enabled limited few =
        let gets : List (Result (Connection j)) = map err errors ++ ok (s, incoming) ∷ results in
        let told =
          callback j c.socket Event.error
            (some (Payload.json (j.string (texts.display (incomplete_response_from_engine_io e)))))
            none in
        ap (λ l. after_poll j b64 texts c gets (poll_packet j texts c.socket now l)) broken
        ∙ replaced_by (disconnect_socket j b64 (record c { socket = told; incoming = rest })).0
            limit errors s incoming results enabled limited few

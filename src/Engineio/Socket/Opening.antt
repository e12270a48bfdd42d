-- ===== src/Engineio/Socket/Opening.antt =====
-- engineio/src/socket/socket.rs: a new socket that is connected, up to its end.
use socket_io.Base.{ℕ, suc, ◌+◌, ◌≤◌, refl, Bool, Str, List, [], ◌∷◌, arith, if◌then◌else◌}
use socket_io.Engineio.External.{Base64}
use socket_io.Engineio.Socket.{new_socket, Socket}
use socket_io.Engineio.Socket.Close.{Call, connects, connections, run, run-closes}
use socket_io.Engineio.Socket.Quiet.{closes}

-- A new socket over a transport that does not fail, which its owner connects at any time and then
-- calls, is told to be closed at most once for each time that it is connected, whatever comes in, and
-- not for a connection that is there.
pub run-connect :
    (b64 : Base64) (sid : Str) (now later : ℕ)
    (should_pong server_end has_event_tx has_receiver : Bool) (cs : List Call)
    → let s : Socket =
        run b64
          (new_socket sid now should_pong server_end has_event_tx has_receiver [])
          (connects later ∷ cs) in
      closes s.events + (if s.connected then 1 else 0) ≤ suc (connections cs)
unfolding new_socket closes
run-connect b64 sid now later should_pong server_end has_event_tx has_receiver cs = omega (
  arith,
  run-closes b64 (new_socket sid now should_pong server_end has_event_tx has_receiver [])
      (connects later ∷ cs) refl,
)

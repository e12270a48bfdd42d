-- ===== src/Examples/Tasks.antt =====
-- The theorems about the task of a client, at a client whose connection breaks and is replaced.
use socket_io.Base.{◌≡◌, refl, List, [], ◌∷◌, ◌++◌, map, arith, true, false, some, none, ok, err}
use socket_io.Engineio.Error.{ws_error}
use socket_io.Socketio.Builder.{ClientBuilder}
use socket_io.Socketio.Error.{Error, Result, incomplete_response_from_engine_io, invalid_packet}
use socket_io.Socketio.External.{Json}
use socket_io.Socketio.Handler.{Texts}
use socket_io.Socketio.Packet.{Packet}
use socket_io.Socketio.Socket.{Socket, new_socket}
use socket_io.Socketio.Client.{Client, Connection, next, poll_round, poll_callback}
use socket_io.Socketio.Client.Loop.{poll_callback_ended, poll_round_replaced}
use socket_io.Examples.Base64.{two_letters}
use socket_io.Examples.Json.{Tree, trees}
use socket_io.Examples.Connections as Connections

abbrev json : Json
json = trees Tree.null

abbrev texts : Texts json
texts = record { display = λ e. b'e' ∷ []; connect_error = λ v. b'c' ∷ [] }

abbrev builder : ClientBuilder
builder = record {
  address = b'a' ∷ [];
  nsp = b'/' ∷ [];
  reconnects = true;
  max_attempts = some 2;
  delay_min = 1000;
  delay_max = 5000;
}

abbrev first_socket : Socket json
first_socket = new_socket json false Connections.client (b'/' ∷ []) (λ e. none)

abbrev ended_client : Client json
ended_client = record {
  builder = builder;
  socket = first_socket;
  incoming = [];
  is_connected = true;
}

abbrev broken : List (Result (Packet json))
broken = err (incomplete_response_from_engine_io ws_error) ∷ []

abbrev broken_client : Client json
broken_client = record ended_client { incoming = broken }

abbrev no_results : List (Result (Connection json))
no_results = []

ended_example :
    poll_callback json two_letters texts ended_client no_results ((5, false) ∷ (6, false) ∷ [])
    ≡ (next ended_client no_results, false)
ended_example =
    poll_callback_ended json two_letters texts ended_client no_results
      ((5, false) ∷ (6, false) ∷ []) refl refl (refl, (refl, tt))

abbrev two_errors : List Error
two_errors = invalid_packet ∷ invalid_packet ∷ []

replaced_example :
    poll_round json two_letters texts broken_client 5
      (map err two_errors ++ ok (first_socket, []) ∷ [])
    ≡ next (record broken_client { socket = first_socket; incoming = [] }) []
replaced_example =
    poll_round_replaced json two_letters texts broken_client 5 2 ws_error [] two_errors first_socket
      [] [] refl refl refl (omega arith)

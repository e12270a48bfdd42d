-- ===== src/Lib.antt =====
-- A model of the Rust workspace of socket.io: the crate engineio, which carries packets over HTTP
-- polling or a websocket, and the crate socketio, which puts named events, acknowledgements and
-- binary attachments on top of it.
--
-- How the parts interact. `engineio::Socket::emit` turns a packet into a `Data` and hands it to a
-- transport. The polling transports queue it as text, the server answers a poll with
-- `build_polling_payload`, and the client takes the response apart as a `Payload`; the websocket
-- transport sends it as one message. What arrives becomes a `Packet` again, and
-- `handle_incoming_packet` updates the socket and tells its listener. A socket.io message is built
-- by `RawSocket` from a payload: its JSON with a placeholder for each binary part, and the binary
-- parts as attachments, each an engine.io packet. The receiver scans the header, waits for as many
-- attachments as it says, and puts them back in place of their placeholders.
--
-- The engine.io server has a table of sockets and a table of handles. A request is peeked at and
-- read (`parse_request_type`): one without an id opens a connection, which gets a handle for its
-- polling requests and the heartbeat of `start_ping_pong`; a websocket may take it over
-- (`handle_probe`, to which the client's `upgrade` is the other end). A client gets its socket from
-- `SocketBuilder`. The socket.io server makes a client for each engine.io socket that opens and
-- connects to a namespace, keeps it by the ids, and emits to rooms; the socket.io client polls its
-- socket in a task and reconnects when the connection breaks.
--
-- Files, and the code they are about:
--   Base             numbers, lists, results, decimal numbers (`to_string`, `parse`), UTF-8
--                    (`from_utf8`, `as_bytes`) and the case of letters as the standard library of
--                    Rust has them; maps from texts (`DashMap`, `HashMap`)
--   Engineio/Packet      engineio/src/packet.rs: Packet, PacketType
--   Engineio/Payload     engineio/src/packet.rs: Payload, build_polling_payload
--   Engineio/Transport   engineio/src/transports: Data, polling bodies, websocket messages
--   Engineio/Socket      engineio/src/socket/socket.rs: Socket, Event
--   Engineio/Error       engineio/src/error.rs
--   Engineio/External    the libraries base64, httparse and url, parameters
--   Socketio/Packet      socketio/src/packet.rs: Packet, PacketType, writer and scanner
--   Socketio/Event       socketio/src/event.rs
--   Socketio/Payload     socketio/src/payload.rs
--   Socketio/Raw         socketio/src/socket.rs: the packets that RawSocket builds
--   Socketio/Incoming    socketio/src/socket.rs: decode_binary_payload, decode_event_payload
--   Socketio/Attachments socketio/src/socket.rs: RawSocket::handle_engineio_packet
--   Engineio/Handshake   engineio/src/packet.rs: HandshakePacket; the body that opens a connection
--   Engineio/Http        engineio/src/server/http.rs: parse_request_type, http_response
--   Engineio/Polling     engineio/src/transports/polling.rs, and the URL of a websocket
--   Engineio/Headers     engineio/src/header.rs
--   Engineio/Url         the library url, a parameter, and what is read and changed of a URL
--   Engineio/ServerBuilder  engineio/src/server/builder.rs
--   Engineio/Websocket   WebsocketTransport::upgrade, and the steps of handle_probe
--   Engineio/Builder     engineio/src/socket/builder.rs: SocketBuilder
--   Engineio/Server      engineio/src/server/server.rs: the tables of a server; Server/Pings is
--                        start_ping_pong, Server/Http the handlers of engineio/src/server/http.rs
--   Socketio/Acks        socketio/src/ack.rs and the loops of Socket::handle_ack
--   Socketio/Socket      socketio/src/socket.rs: Socket and RawSocket, what the owner calls
--   Socketio/Handler     socketio/src/socket.rs: what arrives, up to poll_packet
--   Socketio/Delivery    two ends of a connection, from emit to the callback: over a websocket,
--                        and over polling in Delivery/Posts
--   Socketio/Sids        both servers' SidGenerator
--   Socketio/Rooms       socketio/src/server/server.rs: join, leave, sids_to_emit, drop_client
--   Socketio/Reconnect   socketio/src/client/client.rs: the loop of Client::reconnect
--   Socketio/Builder     socketio/src/client/builder.rs: the options of ClientBuilder
--   Socketio/ServerBuilder  socketio/src/server/builder.rs: the handlers of a server, and build
--   Socketio/Server      socketio/src/server/server.rs: the clients of the server, emit_to;
--                        Server/Asking is emit_to_with_ack and socketio/src/server/client.rs
--   Socketio/Client      socketio/src/client/client.rs: Client and its task; connect_socket
--   Socketio/Error       socketio/src/error.rs
--   Socketio/External    the library serde_json, a parameter
--   Examples             stand-ins for these libraries, and the theorems at concrete values
-- A definition has the name of the function that it models; conversions (`From`, `TryFrom`) are
-- `encode` and `decode`, `from_...` and `..._text`. The fields `content` are the source's `data`,
-- and the packet type `open_` is `Open`: `data` and `open` are words of the language.
--
-- How the code is modelled. A byte string is a list of numbers, a string the list of its
-- characters' code points. Numbers are natural numbers, and casts to fewer bits are written out
-- (`% 256`). A `Result` is a sum; a panic is a `none` or an outcome of its own. A method that changes
-- its object returns the new state. Loops recurse over the data that they read; the loop of
-- `Payload::try_from` has as many rounds as its payload has bytes, as in the source, and
-- `to_string` has one round more than its number, which is enough as each round divides it by ten.
-- The environment of a socket (the event channel and the transport) is a part of its state: what it
-- has received, and how it will answer. Calls run one after another.
--
-- The tables of the servers are lists of keys and values. A task that loops is run for a list of
-- rounds: the ticks of the heartbeat with what arrives between them, the polls of a client with
-- whether its owner disconnects. An engine.io socket that its client and the engine.io server share
-- is in the table of the server. What the network answers to a builder is its `Network`.
--
-- Libraries are parameters: base64, JSON, httparse, url and http are records of functions, and the
-- hypotheses about them (`IsLawful`, `IsLawfulUrls`) are what their documentation says, met by the
-- stand-ins of Examples.
--
-- Not modelled: the task that polls a new client of the server; locks, tasks, timers and channels
-- with bounded room (tokio), HTTP and TLS (reqwest, hyper, tungstenite), logging, the wrappers of
-- closures and streams, and the example programs. The
-- name of a method that is also a field's is changed a little (`set_reconnect`).
pub mod Base
pub mod Engineio
pub mod Socketio
pub mod Examples

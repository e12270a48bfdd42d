-- ===== src/Engineio/Server/Http/Delivery.antt =====
-- From the server's `emit` to the packets that a polling client reads: engineio/src/server/http.rs,
-- and the stream of engineio/src/socket/socket.rs.
use socket_io.Base.{
  ◌≡◌, ◌≢◌, refl, sym, ap, ◌∙◌, List, [], ◌∷◌, ◌++◌, map, Option, none, some, Bytes, Str, ok, All,
}
use socket_io.Engineio.Error.{Result}
use socket_io.Engineio.External.{Base64, IsLawful}
use socket_io.Engineio.Packet.{Packet}
use socket_io.Engineio.Payload.Polling.{IsText}
use socket_io.Engineio.Socket.Stream.{stream, stream-decode}
use socket_io.Engineio.Polling.{Fetched, client_stream}
use socket_io.Engineio.Polling.Pieces.{at_once}
use socket_io.Engineio.Server.{Server}
use socket_io.Engineio.Server.Http.{polling_get}
use socket_io.Engineio.Server.Http.Polling.{IsOpen, emit_all, polling_get-emit_all}

-- The bytes of a response's body.
unfoldable pub body_bytes : Option Bytes → Bytes
body_bytes none = []
body_bytes (some bs) = bs

abbrev pub concat : List (List Packet) → List Packet
concat [] = []
concat (ps ∷ pss) = ps ++ concat pss

map-append :
    (f : Packet → Result Packet) (ps qs : List Packet) → map f (ps ++ qs) ≡ map f ps ++ map f qs
map-append f [] qs = refl
map-append f (p ∷ ps) qs = ap (λ l. f p ∷ l) (map-append f ps qs)

-- Some text packets.
abbrev pub IsBatch : List Packet → Type 0
IsBatch ps = (ps ≢ []) × All IsText ps

module _ (b64 : Base64) where
  -- The answers to requests, before each of which some packets are emitted; the body of each
  -- arrives in one piece.
  unfoldable pub answers : Server → Str → List (List Packet) → List Fetched
  unfolding polling_get body_bytes emit_all
  answers server sid [] = []
  answers server sid (ps ∷ pss) =
      let (body, server') = polling_get b64 (emit_all b64 server sid ps) sid in
      at_once (body_bytes body) ∷ answers server' sid pss

  -- What a client makes of them.
  abbrev pub read : Server → Str → List (List Packet) → List (Result Packet)
  read server sid pss = stream b64 (client_stream (answers server sid pss))

  answer_batch :
      (server : Server) (sid : Str) (ps : List Packet) (pss : List (List Packet))
      → IsLawful b64
      → IsBatch ps
      → IsOpen server sid []
      → (read server sid (ps ∷ pss)
          ≡ map ok ps ++ read (polling_get b64 (emit_all b64 server sid ps) sid).1 sid pss)
        × IsOpen (polling_get b64 (emit_all b64 server sid ps) sid).1 sid []
  unfolding answers body_bytes client_stream
  answer_batch server sid [] pss lawful (n, texts) o = absurd (n refl)
  answer_batch server sid (p ∷ ps) pss lawful (n, texts) o =
      let ((bs, body, decoded), open_) = polling_get-emit_all b64 server sid p ps lawful texts o in
      let server' = (polling_get b64 (emit_all b64 server sid (p ∷ ps)) sid).1 in
      (
        ap (λ b. stream b64 (client_stream (at_once (body_bytes b) ∷ answers server' sid pss))) body
            ∙ stream-decode b64 bs (p ∷ ps) (client_stream (answers server' sid pss)) decoded,
        open_,
      )

  answers_nil : (server : Server) (sid : Str) → read server sid [] ≡ []
  unfolding answers stream client_stream
  answers_nil server sid = refl

  -- Over a lawful base64: a client polls an open socket for which nothing is queued, and before each
  -- of its requests the server emits one or more packets over it. They are of bytes and UTF-8 text,
  -- none of the type of binary messages, each message with some text, and with no separator of
  -- payloads in it; and the body of each response arrives in one piece. Then the client reads all
  -- the packets, in their order and with no error.
  pub stream-answers :
      (server : Server) (sid : Str) (pss : List (List Packet))
      → IsLawful b64
      → All IsBatch pss
      → IsOpen server sid []
      → read server sid pss ≡ map ok (concat pss)
  stream-answers server sid [] lawful h o = answers_nil server sid
  stream-answers server sid (ps ∷ pss) lawful (hp, h) o =
      let (first, open_) = answer_batch server sid ps pss lawful hp o in
      first
      ∙ ap (λ l. map ok ps ++ l)
          (stream-answers (polling_get b64 (emit_all b64 server sid ps) sid).1 sid pss lawful h
            open_)
      ∙ sym (map-append ok ps (concat pss))

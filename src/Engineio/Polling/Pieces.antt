-- ===== src/Engineio/Polling/Pieces.antt =====
-- engineio/src/transports/polling.rs: the client's stream takes every piece of a response for a
-- payload.
use socket_io.Base.{
  ◌≡◌, ◌≢◌, refl, ap, ◌∙◌, List, [], ◌∷◌, ◌++◌, map, Bytes, ok, inr, All-append, Lacks,
}
use socket_io.Engineio.Error.{Result}
use socket_io.Engineio.External.{Base64}
use socket_io.Engineio.Packet.{Packet}
use socket_io.Engineio.Payload.{separator, decode}
use socket_io.Engineio.Polling.{Fetched, client_stream}
use socket_io.Engineio.Socket.Stream.{stream, stream-decode, parsed}
use socket_io.Engineio.Socket.Wire.{plain_message, decode_single}

-- A response whose body arrives in one piece.
abbrev pub at_once : Bytes → Fetched
at_once body = ok (ok body ∷ [])

module _ (b64 : Base64) where
  -- The packets of some payloads.
  abbrev pub packets_of : List Bytes → List (Result Packet)
  packets_of [] = []
  packets_of (body ∷ bodies) = parsed b64 (decode b64 body) (packets_of bodies)

  -- Responses that arrive in one piece each are read as their payloads, up to the first error.
  pub stream-at_once :
      (bodies : List Bytes) → stream b64 (client_stream (map at_once bodies)) ≡ packets_of bodies
  unfolding client_stream stream
  stream-at_once [] = refl
  stream-at_once (body ∷ bodies) = ap (parsed b64 (decode b64 body)) (stream-at_once bodies)

  append_full : (c d : Bytes) → c ≢ [] → c ++ d ≢ []
  append_full [] d h = absurd (h refl)
  append_full (x ∷ c) d h = λ e. cc e

  -- A client polls a message of text that has no separator. If the response arrives in one piece,
  -- the client reads the message. If it arrives in two, with some of the text in the first, then it
  -- reads a message with that part of the text only, and behind it whatever the second piece is as
  -- a payload of its own.
  pub message_in_pieces :
      (c d : Bytes) (requests : List Fetched)
      → c ≢ []
      → Lacks separator c
      → Lacks separator d
      → (stream b64 (client_stream (ok (ok (b'4' ∷ (c ++ d)) ∷ []) ∷ requests))
          ≡ ok (plain_message b64 (c ++ d)) ∷ stream b64 (client_stream requests))
        × (stream b64 (client_stream (ok (ok (b'4' ∷ c) ∷ ok d ∷ []) ∷ requests))
            ≡ ok (plain_message b64 c)
              ∷ parsed b64 (decode b64 d) (stream b64 (client_stream requests)))
  unfolding client_stream
  message_in_pieces c d requests full clean_c clean_d = (
    stream-decode b64 (b'4' ∷ (c ++ d)) _ _ (
        decode_single b64 b'4' (c ++ d) (inr refl) (append_full c d full)
          (All-append (λ x. x ≢ separator) c d clean_c clean_d)),
    stream-decode b64 (b'4' ∷ c) _ _ (decode_single b64 b'4' c (inr refl) full clean_c)
        ∙ (unfold stream in refl),
  )

-- ===== src/Examples/Engine.antt =====
-- The theorems about the crate engineio at concrete packets.
use socket_io.Base.{◌≡◌, refl, [], ◌∷◌, arith, some, Bytes, ok, err}
use socket_io.Base.Utf8.{from_utf8}
use socket_io.Engineio.Error.{invalid_packet_type}
use socket_io.Engineio.Packet.{PacketType, Packet}
use socket_io.Engineio.Payload
use socket_io.Engineio.Payload.{build_polling_payload}
use socket_io.Engineio.Payload.Split.{decode-split, split, decode_all}
use socket_io.Engineio.Payload.RoundTrip.{IsSendable, decode-encode_packets}
use socket_io.Engineio.Payload.Polling.{IsText, queued, polled_binary}
use socket_io.Examples.Base64.{two_letters, two_letters-IsLawful, letters}

abbrev hello : Bytes
hello = b'h' ∷ b'i' ∷ []

abbrev text_packet : Packet
text_packet = record { ptype = PacketType.message; content = hello }

abbrev binary_packet : Packet
binary_packet = record { ptype = PacketType.message_binary; content = 30 ∷ 255 ∷ [] }

payload_split :
    Payload.decode two_letters (b'4' ∷ b'a' ∷ 30 ∷ b'3' ∷ [])
    ≡ decode_all two_letters (split (b'4' ∷ b'a' ∷ 30 ∷ b'3' ∷ []))
payload_split = decode-split two_letters (b'4' ∷ b'a' ∷ 30 ∷ b'3' ∷ [])

text_packet-IsSendable : IsSendable text_packet
text_packet-IsSendable = record {
  bytes = omega arith;
  full = λ e e'. cc e';
  clean = λ n. omega arith;
}

binary_packet-IsSendable : IsSendable binary_packet
binary_packet-IsSendable = record {
  bytes = omega arith;
  full = λ e. cc e;
  clean = λ n. absurd (n refl);
}

payload_round_trip :
    (bs : Bytes) × (Payload.encode two_letters (text_packet ∷ binary_packet ∷ []) ≡ some bs)
    × (Payload.decode two_letters bs ≡ ok (text_packet ∷ binary_packet ∷ []))
payload_round_trip =
    decode-encode_packets two_letters two_letters-IsLawful (text_packet ∷ binary_packet ∷ [])
      (λ e. cc e) (text_packet-IsSendable, (binary_packet-IsSendable, tt))

hello_utf8 : from_utf8 hello ≡ some hello
unfolding from_utf8
hello_utf8 = refl

text_packet-IsText : IsText text_packet
text_packet-IsText = record {
  sendable = text_packet-IsSendable;
  plain = λ e. cc e;
  content_utf8 = (hello, hello_utf8);
}

polling_binary_example :
    (build_polling_payload two_letters (queued two_letters binary_packet ∷ [])
      ≡ some (letters (b'b' ∷ letters (30 ∷ 255 ∷ []))))
    × (Payload.decode two_letters (letters (b'b' ∷ letters (30 ∷ 255 ∷ [])))
        ≡ err (invalid_packet_type b'Y'))
unfolding letters
polling_binary_example =
    polled_binary two_letters two_letters-IsLawful (λ bs. (_, refl)) (30 ∷ 255 ∷ [])

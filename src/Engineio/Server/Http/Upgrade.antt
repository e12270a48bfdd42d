-- ===== src/Engineio/Server/Http/Upgrade.antt =====
-- The two ends of an upgrade together: `WebsocketTransport::upgrade` of
-- engineio/src/transports/websocket.rs, and `handle_probe` of engineio/src/server/http.rs.
use socket_io.Base.{
  ◌≡◌, refl, ap, ◌∙◌, List, [], ◌∷◌, map, arith, none, Str, ok, err, if◌then◌else◌, list_eq,
  list_eq_refl,
}
use socket_io.Base.Maps.{get, get_erase_same}
use socket_io.Engineio.Error.{Result}
use socket_io.Engineio.External.{Base64}
use socket_io.Engineio.Packet.{encode, type_to_string, type_to_u8}
use socket_io.Base.Decimal.{to_string}
use socket_io.Engineio.Transport.{Message}
use socket_io.Engineio.Websocket.{
  Websocket, Outcome, upgrade, into_data, ping_probe, pong_probe, upgrade_packet, send, next,
  finish_upgrade, answer_probe, is_upgrade, probe,
}
use socket_io.Engineio.Server.{Server, drain_polling}
use socket_io.Engineio.Server.Http.{handle_probe, end_probe, close_polling}

-- An end that has sent nothing, and whose sends do not fail.
abbrev pub fresh : List (Result Message) → Websocket
fresh incoming = record { incoming = incoming; outgoing = []; faults = [] }

closed : (server : Server) (sid : Str) → get sid (close_polling server sid).polling_handles ≡ none
unfolding close_polling
closed server sid = get_erase_same sid server.polling_handles

module _ (b64 : Base64) where
  ping_bytes : ping_probe b64 ≡ b'2' ∷ probe
  unfolding ping_probe encode type_to_string type_to_u8 to_string
  ping_bytes = refl

  upgrade_bytes : upgrade_packet b64 ≡ b'5' ∷ []
  unfolding upgrade_packet encode type_to_string type_to_u8 to_string
  upgrade_bytes = refl

  -- A client begins with its probe.
  upgrade_first :
      (i : List (Result Message))
      → (rest : List Message) × ((upgrade b64 (fresh i)).0.outgoing
          ≡ Message.text (ping_probe b64) ∷ rest)
  unfolding upgrade send next finish_upgrade
  upgrade_first [] = ([], refl)
  upgrade_first (err e ∷ i) = ([], refl)
  upgrade_first (ok m ∷ i) = (
    if list_eq (into_data m) (pong_probe b64) then Message.text (upgrade_packet b64) ∷ [] else [],
    ground arith,
  )

  upgrade_answered : upgrade b64 (fresh (ok (Message.text (pong_probe b64)) ∷ [])) ≡ (
    record {
      incoming = [];
      outgoing = Message.text (ping_probe b64) ∷ Message.text (upgrade_packet b64) ∷ [];
      faults = [];
    },
    ok tt,
  )
  unfolding upgrade send next finish_upgrade
  upgrade_answered = ground (arith, list_eq_refl (pong_probe b64))

  end_outgoing :
      (server : Server) (sid : Str) (w : Websocket)
      → (end_probe b64 server sid (next w)).1.outgoing ≡ w.outgoing
  unfolding end_probe next
  end_outgoing server sid w = ground arith

  probe_reply :
      (server : Server) (sid : Str) (i : List (Result Message))
      → (handle_probe b64 server sid (fresh (ok (Message.text (ping_probe b64)) ∷ i))).1.outgoing
        ≡ Message.text (pong_probe b64) ∷ []
  unfolding handle_probe next answer_probe send ping_probe
  probe_reply server sid i =
      end_outgoing (drain_polling b64 server sid) sid
        (record { incoming = i; outgoing = Message.text (pong_probe b64) ∷ []; faults = [] })

  probe_done :
      (server : Server) (sid : Str)
      → handle_probe b64 server sid
          (fresh (ok (Message.text (ping_probe b64)) ∷ ok (Message.text (upgrade_packet b64)) ∷ []))
        ≡ (
          close_polling (drain_polling b64 server sid) sid,
          record { incoming = []; outgoing = Message.text (pong_probe b64) ∷ []; faults = [] },
          ok sid,
        )
  unfolding handle_probe next answer_probe end_probe send is_upgrade ping_probe upgrade_packet
  probe_done server sid = refl

  -- A client's end of a fresh websocket and a server's: if each reads what the other sends, then
  -- the client's `upgrade` and the server's `handle_probe` both succeed, nothing is left to be read,
  -- and the server has no more handle for polling requests of the socket.
  pub upgrade_probed :
      (server : Server) (sid : Str) (to_client to_server : List (Result Message))
      → to_server ≡ map ok (upgrade b64 (fresh to_client)).0.outgoing
      → to_client ≡ map ok (handle_probe b64 server sid (fresh to_server)).1.outgoing
      → ((upgrade b64 (fresh to_client)).1 ≡ ok tt)
        × ((handle_probe b64 server sid (fresh to_server)).2 ≡ ok sid)
        × ((upgrade b64 (fresh to_client)).0.incoming ≡ [])
        × ((handle_probe b64 server sid (fresh to_server)).1.incoming ≡ [])
        × (get sid (handle_probe b64 server sid (fresh to_server)).0.polling_handles ≡ none)
  upgrade_probed server sid i j from_client from_server =
      let (rest, first) = upgrade_first i in
      let j_first : j ≡ ok (Message.text (ping_probe b64)) ∷ map ok rest =
        from_client ∙ ap (map ok) first in
      let i_is : i ≡ ok (Message.text (pong_probe b64)) ∷ [] =
        from_server
        ∙ ap (λ x. map ok (handle_probe b64 server sid (fresh x)).1.outgoing) j_first
        ∙ ap (map ok) (probe_reply server sid (map ok rest)) in
      let client = ap (λ x. upgrade b64 (fresh x)) i_is ∙ upgrade_answered in
      let j_is : j
          ≡ ok (Message.text (ping_probe b64)) ∷ ok (Message.text (upgrade_packet b64)) ∷ [] =
        from_client ∙ ap (λ (o : Outcome). map ok o.0.outgoing) client in
      let end_ = ap (λ x. handle_probe b64 server sid (fresh x)) j_is ∙ probe_done server sid in
      (
        ap (λ (o : Outcome). o.1) client,
        ap (λ (o : Server × Websocket × Result Str). o.2) end_,
        ap (λ (o : Outcome). o.0.incoming) client,
        ap (λ (o : Server × Websocket × Result Str). o.1.incoming) end_,
        ap (λ (o : Server × Websocket × Result Str). get sid o.0.polling_handles) end_
            ∙ closed (drain_polling b64 server sid) sid,
      )

-- ===== src/Examples/Posts.antt =====
-- The theorem about events that a client posts, at a concrete client and server.
use socket_io.Base.{map, ◌≡◌, refl, List, [], ◌∷◌, ◌++◌, arith, false, none, some, ok}
use socket_io.Engineio.Transport.{Data, polling_body}
use socket_io.Socketio.Event.{Event, from_string, into_string}
use socket_io.Socketio.Packet.{Packet}
use socket_io.Socketio.Raw.{build_packet_for_payload}
use socket_io.Socketio.Incoming.{collapse}
use socket_io.Socketio.Incoming.RoundTrip.{raws}
use socket_io.Socketio.Attachments.{done, next_packet}
use socket_io.Socketio.Socket.{Called, emit}
use socket_io.Socketio.Handler.{finished, handle_socketio_packet}
use socket_io.Base.Maps.{get}
use socket_io.Engineio.Server as EngineServer
use socket_io.Engineio.Server.{PollingHandle}
use socket_io.Socketio.Delivery.Posts.{IsPostable, post_all, posted_stream, emit_posted}
use socket_io.Examples.Base64.{two_letters, two_letters-IsLawful}
use socket_io.Examples.Json.{trees, trees-IsLawful, print}
use socket_io.Examples.Connections.{client}
use socket_io.Examples.Deliveries.{
  name, sent_tree, parts, parts-IsFit, event-IsDeliverable, end_of_connection, texts,
}

abbrev handle : PollingHandle
handle = record { incoming = (1 ∷ []) ∷ []; outgoing = [] }

abbrev polling_server : EngineServer.Server
polling_server = record (EngineServer.new_server EngineServer.default_option) {
  polling_handles = (name, handle) ∷ [];
}

handle_there : get name polling_server.polling_handles ≡ some handle
unfolding get
handle_there = refl

parts-IsPostable :
    IsPostable (trees sent_tree) parts (some (Event.custom name)) (b'/' ∷ []) none false
unfolding build_packet_for_payload into_string print
parts-IsPostable =
    let d = event-IsDeliverable none tt in
    record { portable = d.portable; clean = d.clean; bytes = (omega arith, tt); few = d.few }

posted_example :
    (ds : List Data) × (p : Packet (trees sent_tree)) × (emit
        (trees sent_tree)
        two_letters
        end_of_connection
        (Event.custom name)
        parts
      ≡ (record end_of_connection { engine = record client { sent = client.sent ++ ds } }, ok tt))
    × (get name (post_all polling_server name (map (polling_body two_letters) ds)).polling_handles
        ≡ some (record handle { incoming = handle.incoming ++ map (polling_body two_letters) ds }))
    × (next_packet
          (trees sent_tree)
          (posted_stream two_letters (map (polling_body two_letters) ds) ((2 ∷ []) ∷ []))
        ≡ done (some p) (posted_stream two_letters [] ((2 ∷ []) ∷ [])))
    × (handle_socketio_packet (trees sent_tree) texts end_of_connection 9 p
        ≡ finished
            (record end_of_connection {
              called =
                  end_of_connection.called
                  ++ Called.handler 7
                      (some (collapse (trees sent_tree) (raws (trees sent_tree) parts)))
                      none
                    ∷ [];
            })
            (ok tt))
unfolding from_string into_string
posted_example =
    emit_posted (trees sent_tree) two_letters two_letters-IsLawful (trees-IsLawful sent_tree) texts
      end_of_connection end_of_connection (Event.custom name) parts 7 9 polling_server name handle
      ((2 ∷ []) ∷ []) (refl, refl, refl) refl refl parts-IsFit parts-IsPostable handle_there

-- ===== src/Examples/Deliveries.antt =====
-- The theorems about two ends of a connection at concrete sockets.
use socket_io.Base.{
  ℕ, ◌≡◌, ◌≢◌, ◌↔◌, refl, Option, List, [], ◌∷◌, ◌++◌, arith, true, false, none, some, Str, ok,
  Lacks,
}
use socket_io.Engineio.Payload.{separator}
use socket_io.Engineio.Transport.{Data, packet_data}
use socket_io.Engineio.Socket.Wire.{
  received_stream, plain_message, binary_message, binary_arrives_iff,
}
use socket_io.Socketio.Event.{Event, from_string, into_string}
use socket_io.Socketio.Payload.{Payload, RawPayload}
use socket_io.Socketio.Packet.{Packet}
use socket_io.Socketio.Packet.RoundTrip.{IsReadable}
use socket_io.Socketio.Packet.Scan.{IdFits}
use socket_io.Socketio.Raw.{build_packet_for_payload, placeholder_key, num_key}
use socket_io.Socketio.Incoming.{collapse}
use socket_io.Socketio.Incoming.RoundTrip.{raws}
use socket_io.Socketio.Attachments.{done, next_packet}
use socket_io.Socketio.Socket.{Socket, Called, emit, ack, emit_with_ack}
use socket_io.Socketio.Handler.{Texts, finished, handle_socketio_packet}
use socket_io.Socketio.Handler.Ack.{called_for}
use socket_io.Socketio.Delivery.{IsDeliverable}
use socket_io.Socketio.Delivery.Emit.{IsFit, emit_delivered}
use socket_io.Socketio.Delivery.Answers.{emit_with_ack_answered}
use socket_io.Examples.Base64.{two_letters}
use socket_io.Examples.Json.{Tree, trees, trees-IsLawful, print, of_list}
use socket_io.Examples.Connections.{client}

-- A separator among the bytes, and what becomes of them.
binary_example :
    (received_stream two_letters
        (packet_data two_letters (binary_message two_letters (1 ∷ separator ∷ [])) ∷ [])
        []
      ≡ ok (plain_message two_letters (1 ∷ separator ∷ [])) ∷ [])
    ↔ (((1 ∷ separator ∷ []) ≢ []) × Lacks separator (1 ∷ separator ∷ []))
binary_example = binary_arrives_iff two_letters (1 ∷ separator ∷ [])

abbrev pub name : Str
name = b'u' ∷ b'p' ∷ []

-- The data of the event with two bytes and a number.
abbrev pub sent_tree : Tree
sent_tree = Tree.array (
    of_list (
      Tree.string name
      ∷ (trees Tree.null).object ((placeholder_key, Tree.bool true) ∷ (num_key, Tree.number 0) ∷ [])
      ∷ Tree.number 5
      ∷ []))

sent_tree-IsReadable : IsReadable (trees sent_tree) sent_tree
unfolding print
sent_tree-IsReadable = record {
  first = b'[';
  rest = _;
  text = refl;
  not_digit = refl;
  not_slash = omega arith;
  scalars = omega arith;
  read = refl;
  not_empty = λ e. cc e;
}

abbrev pub Sent : Type 0
Sent = Payload (trees sent_tree)

abbrev pub parts : Sent
parts = Payload.multi (RawPayload.binary (1 ∷ 2 ∷ []) ∷ RawPayload.json (Tree.number 5) ∷ [])

-- An answer with the same data: the name is its first part.
abbrev reply : Sent
reply = Payload.multi (
    RawPayload.json (Tree.string name)
    ∷ RawPayload.binary (1 ∷ 2 ∷ [])
    ∷ RawPayload.json (Tree.number 5)
    ∷ [])

pub parts-IsFit : IsFit (trees sent_tree) parts
parts-IsFit = record { some_part = λ e. cc e; plain = (tt, (refl, tt)); few = omega arith }

reply-IsFit : IsFit (trees sent_tree) reply
reply-IsFit = record { some_part = λ e. cc e; plain = (refl, (tt, (refl, tt))); few = omega arith }

abbrev pub end_of_connection : Socket (trees sent_tree)
end_of_connection = record {
  nsp = b'/' ∷ [];
  is_server = false;
  engine = client;
  on = λ e. some 7;
  outstanding_acks = [];
  is_connected = true;
  seq = 6;
  called = [];
}

abbrev pub texts : Texts (trees sent_tree)
texts = record { display = λ e. b'e' ∷ []; connect_error = λ v. b'c' ∷ [] }

module _ (id : Option ℕ) (id_fits : IdFits id) where
  pub event-IsDeliverable :
      IsDeliverable (trees sent_tree) parts (some (Event.custom name)) (b'/' ∷ []) id false
  unfolding build_packet_for_payload into_string print
  event-IsDeliverable = record {
    portable = record {
      path = [];
      nsp_path = refl;
      no_comma = tt;
      scalars = tt;
      id_fits = id_fits;
      value = sent_tree;
      has_value = refl;
      readable = sent_tree-IsReadable;
    };
    clean = record { nsp = omega arith; text = omega arith };
    files_whole = ((λ e. cc e, omega arith), tt);
    few = omega arith;
  }

answer-IsDeliverable : IsDeliverable (trees sent_tree) reply none (b'/' ∷ []) (some 6) true
unfolding build_packet_for_payload into_string print
answer-IsDeliverable = record {
  portable = record {
    path = [];
    nsp_path = refl;
    no_comma = tt;
    scalars = tt;
    id_fits = omega arith;
    value = sent_tree;
    has_value = refl;
    readable = sent_tree-IsReadable;
  };
  clean = record { nsp = omega arith; text = omega arith };
  files_whole = ((λ e. cc e, omega arith), tt);
  few = omega arith;
}

emit_example :
    (ds : List Data) × (p : Packet (trees sent_tree)) × (emit
        (trees sent_tree)
        two_letters
        end_of_connection
        (Event.custom name)
        parts
      ≡ (record end_of_connection { engine = record client { sent = client.sent ++ ds } }, ok tt))
    × (next_packet (trees sent_tree) (received_stream two_letters ds [])
        ≡ done (some p) (received_stream two_letters [] []))
    × (handle_socketio_packet (trees sent_tree) texts end_of_connection 9 p
        ≡ finished
            (record end_of_connection {
              called =
                  end_of_connection.called
                  ++ Called.handler 7
                      (some (collapse (trees sent_tree) (raws (trees sent_tree) parts)))
                      none
                    ∷ [];
            })
            (ok tt))
unfolding from_string into_string
emit_example =
    emit_delivered (trees sent_tree) two_letters (trees-IsLawful sent_tree) texts end_of_connection
      end_of_connection (Event.custom name) parts 7 9 [] refl refl refl refl refl parts-IsFit
      (event-IsDeliverable none tt)

answered_example :
    (a' b' b'' : Socket (trees sent_tree)) × (ds es : List Data) × (p q : Packet (trees sent_tree))
    × (emit_with_ack
          (trees sent_tree)
          two_letters
          end_of_connection
          1
          (Event.custom name)
          parts
          10
          21
        ≡ (a', ok tt))
    × (a'.engine.sent ≡ end_of_connection.engine.sent ++ ds)
    × (next_packet (trees sent_tree) (received_stream two_letters ds [])
        ≡ done (some p) (received_stream two_letters [] []))
    × (handle_socketio_packet (trees sent_tree) texts end_of_connection 2 p ≡ finished b' (ok tt))
    × (b'.called
        ≡ end_of_connection.called
          ++ Called.handler 7
              (some (collapse (trees sent_tree) (raws (trees sent_tree) parts)))
              (some 6)
            ∷ [])
    × (ack (trees sent_tree) two_letters b' 6 reply ≡ (b'', ok tt))
    × (b''.engine.sent ≡ end_of_connection.engine.sent ++ es)
    × (next_packet (trees sent_tree) (received_stream two_letters es [])
        ≡ done (some q) (received_stream two_letters [] []))
    × (handle_socketio_packet (trees sent_tree) texts a' 3 q
        ≡ finished
            (record a' {
              outstanding_acks = end_of_connection.outstanding_acks;
              called =
                  end_of_connection.called
                  ++ called_for
                      (trees sent_tree)
                      3
                      (some (collapse (trees sent_tree) (raws (trees sent_tree) reply)))
                      (record { id = 6; timeout = 10; time_started = 1; callback = 21 });
            })
            (ok tt))
unfolding from_string into_string
answered_example =
    emit_with_ack_answered (trees sent_tree) two_letters (trees-IsLawful sent_tree) texts
      end_of_connection end_of_connection (Event.custom name) parts reply 7 21 1 2 3 10 [] []
      (refl, refl, refl) (refl, refl, refl) refl refl tt tt parts-IsFit reply-IsFit
      (event-IsDeliverable (some 6) (omega arith)) answer-IsDeliverable

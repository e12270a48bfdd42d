-- ===== src/Socketio/Event.antt =====
-- socketio/src/event.rs: the names of events.
use socket_io.Base.{◌≡◌, [], ◌∷◌, Str, list_eq, if◌then◌else◌, arith}
use socket_io.Base.Case.{to_lowercase}

pub data Event : Type 0 where
  message error : Event
  custom : Str → Event
  connect close : Event

abbrev pub message_text : Str
message_text = b'm' ∷ b'e' ∷ b's' ∷ b's' ∷ b'a' ∷ b'g' ∷ b'e' ∷ []

abbrev pub error_text : Str
error_text = b'e' ∷ b'r' ∷ b'r' ∷ b'o' ∷ b'r' ∷ []

abbrev pub open_text : Str
open_text = b'o' ∷ b'p' ∷ b'e' ∷ b'n' ∷ []

abbrev pub close_text : Str
close_text = b'c' ∷ b'l' ∷ b'o' ∷ b's' ∷ b'e' ∷ []

-- `impl From<String> for Event`.
unfoldable pub from_string : Str → Event
from_string s =
    let lower = to_lowercase s in
    if list_eq lower message_text
    then Event.message
    else if list_eq lower error_text
    then Event.error
    else if list_eq lower open_text
    then Event.connect
    else if list_eq lower close_text
    then Event.close
    else Event.custom s

-- `impl From<Event> for String`.
unfoldable pub into_string : Event → Str
into_string Event.message = message_text
into_string Event.connect = open_text
into_string Event.close = close_text
into_string Event.error = error_text
into_string (Event.custom s) = s

-- An event that was made from a name is the event of its own name, whatever the letters' case.
pub from_string-into_string : (s : Str) → from_string (into_string (from_string s)) ≡ from_string s
unfolding from_string into_string to_lowercase
from_string-into_string s = ground arith

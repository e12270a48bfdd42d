-- ===== src/Socketio/Error.antt =====
-- socketio/src/error.rs: the errors. What a variant carries from a library is left out; an engine.io
-- error is kept.
use socket_io.Base.{ℕ, Str}
use socket_io.Base
use socket_io.Engineio.Error as Engine

pub data Error : Type 0 where
  invalid_packet_type : ℕ → Error
  incomplete_packet invalid_packet invalid_utf8 invalid_base64 invalid_url : Error
  invalid_url_scheme invalid_handshake invalid_reconnect : Str → Error
  illegal_action_before_open invalid_json invalid_poisoned_lock incomplete_io invalid_integer :
      Error
  stopped_engine_io_socket : Error
  incomplete_response_from_engine_io : Engine.Error → Error
  invalid_attachment_packet_type : ℕ → Error

abbrev pub Result : Type 0 → Type 0
Result = Base.Result Error

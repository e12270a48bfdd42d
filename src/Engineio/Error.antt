-- ===== src/Engineio/Error.antt =====
-- engineio/src/error.rs: the errors. What a variant carries from a library is left out.
use socket_io.Base.{ℕ, Str}
use socket_io.Base

pub data Error : Type 0 where
  invalid_packet_type : ℕ → Error
  invalid_packet incomplete_packet : Error
  invalid_base64 invalid_json : Error
  invalid_header_name_from_reqwest invalid_header_value_from_reqwest : Error
  invalid_hand_shake invalid_url_scheme : Str → Error
  io_error ws_error utf8_error http_error : Error
  invalid_http_response_status : ℕ → Error
  send_error event_send_error : Error
  illegal_websocket_upgrade illegal_action_before_open : Error

abbrev pub Result : Type 0 → Type 0
Result = Base.Result Error

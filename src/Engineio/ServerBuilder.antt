-- ===== src/Engineio/ServerBuilder.antt =====
-- engineio/src/server/builder.rs: the options of a server. The sizes of the buffers are those of its
-- channels, which never fill up here, and nothing else reads the port.
use socket_io.Base.{ℕ}
use socket_io.Engineio.Server.{ServerOption, default_option, Server, new_server}

pub record ServerBuilder : Type 0 where
  pub port : ℕ
  pub option : ServerOption
  pub buffer : ℕ
  pub events : ℕ

unfoldable pub new_builder : ℕ → ServerBuilder
unfolding default_option
new_builder port = record { port = port; option = default_option; buffer = 100; events = 1000 }

unfoldable pub server_option : ServerBuilder → ServerOption → ServerBuilder
server_option b option = record b { option = option }

unfoldable pub polling_buffer : ServerBuilder → ℕ → ServerBuilder
polling_buffer b buffer = record b { buffer = buffer }

unfoldable pub event_size : ServerBuilder → ℕ → ServerBuilder
event_size b size = record b { events = size }

unfoldable pub build : ServerBuilder → Server
unfolding new_server
build b = new_server b.option

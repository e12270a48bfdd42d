-- ===== src/Engineio/Http/Response.antt =====
-- engineio/src/server/http.rs, `http_response`: the text of a response. The types of the crate http
-- are a parameter: how it writes the version, a status and the headers.
use socket_io.Base.{ℕ, List, [], ◌∷◌, ◌++◌, Option, none, some, Str, length}
use socket_io.Base.Utf8.{utf8}
use socket_io.Base.Decimal.{to_string}

-- The default version as it is debugged, a status as it is displayed, and what is met in a map that
-- some headers were appended to.
pub record HttpText : Type 0 where
  pub version : Str
  pub status : ℕ → Str
  pub headers : List (Str × Str) → List (Str × Str)

abbrev pub carriage_return : ℕ
carriage_return = 0x0d

abbrev pub line_feed : ℕ
line_feed = 0x0a

abbrev pub crlf : Str
crlf = carriage_return ∷ line_feed ∷ []

abbrev content_type : Str × Str
content_type = (
  b'C' ∷ b'o' ∷ b'n' ∷ b't' ∷ b'e' ∷ b'n' ∷ b't' ∷ b'-' ∷ b'T' ∷ b'y' ∷ b'p' ∷ b'e' ∷ [],
  b't' ∷ b'e' ∷ b'x' ∷ b't' ∷ b'/' ∷ b'p' ∷ b'l' ∷ b'a' ∷ b'i' ∷ b'n' ∷ b';' ∷ b' ' ∷ b'c' ∷ b'h'
      ∷ b'a' ∷ b'r' ∷ b's' ∷ b'e' ∷ b't' ∷ b'=' ∷ b'U' ∷ b'T' ∷ b'F' ∷ b'-' ∷ b'8' ∷ [],
)

abbrev connection : Str × Str
connection = (
  b'C' ∷ b'o' ∷ b'n' ∷ b'n' ∷ b'e' ∷ b'c' ∷ b't' ∷ b'i' ∷ b'o' ∷ b'n' ∷ [],
  b'C' ∷ b'l' ∷ b'o' ∷ b's' ∷ b'e' ∷ [],
)

abbrev content_length_name : Str
content_length_name =
    b'C' ∷ b'o' ∷ b'n' ∷ b't' ∷ b'e' ∷ b'n' ∷ b't' ∷ b'-' ∷ b'L' ∷ b'e' ∷ b'n' ∷ b'g' ∷ b't' ∷ b'h'
    ∷ []

abbrev pub body_len : Option Str → ℕ
body_len none = 0
body_len (some b) = length (utf8 b)

-- The headers in the order in which they are appended.
abbrev pub response_headers : ℕ → List (Str × Str)
response_headers n = content_type ∷ connection ∷ (content_length_name, to_string n) ∷ []

abbrev pub header_line : Str × Str → Str
header_line (k, v) = k ++ b':' ∷ b' ' ∷ v

-- The loop over the headers.
unfoldable pub push_headers : List (Str × Str) → Str → Str
push_headers [] response_str = response_str
push_headers (h ∷ hs) response_str = push_headers hs (response_str ++ (header_line h ++ crlf))

abbrev pub push_body : Option Str → Str → Str
push_body none response_str = response_str
push_body (some body) response_str = (response_str ++ crlf) ++ body

abbrev pub status_line : HttpText → ℕ → Str
status_line lib status = lib.version ++ b' ' ∷ lib.status status

-- `http_response`.
unfoldable pub http_response : HttpText → ℕ → Option Str → Str
unfolding push_headers to_string utf8
http_response lib status body =
    push_body body (
      push_headers (lib.headers (response_headers (body_len body)))
        (status_line lib status ++ crlf))

-- ===== src/Engineio/Http.antt =====
-- engineio/src/server/http.rs, `parse_request_type`: what a request asks for. The libraries httparse
-- and url are parameters; the address of the peer is its text.
pub mod Requests
pub mod Peeks
pub mod Response
pub mod Reading
use socket_io.Base.{
  ℕ, ◌+◌, ◌-◌, ◌%◌, ◌^◌, List, [], ◌∷◌, ◌++◌, Bool, true, false, ◌&&◌, ◌||◌, not, Option, none,
  some, Bytes, Str, leb, if◌then◌else◌, list_eq, length,
}
use socket_io.Base.Case.{to_lowercase, to_uppercase}
use socket_io.Base.Utf8.{from_utf8}
use socket_io.Base.Decimal.{parse}
use socket_io.Engineio.External.{HttpLibrary, Request, max_usize}
use socket_io.Engineio.Payload.{slice}

pub data RequestType : Type 0 where
  ws_upgrade : Option Str → RequestType
  polling_open : RequestType
  polling_get : Str → RequestType
  polling_post : Str → Bytes → RequestType

-- A request type, or `None`, or the panic of a slice out of bounds.
pub data Parsed : Type 0 where
  found : RequestType → Parsed
  refused panicked : Parsed

pub data QueryTransport : Type 0 where
  websocket polling : QueryTransport

abbrev pub get_text : Str
get_text = b'G' ∷ b'E' ∷ b'T' ∷ []

abbrev pub post_text : Str
post_text = b'P' ∷ b'O' ∷ b'S' ∷ b'T' ∷ []

abbrev pub eio_text : Str
eio_text = b'E' ∷ b'I' ∷ b'O' ∷ []

abbrev pub sid_text : Str
sid_text = b's' ∷ b'i' ∷ b'd' ∷ []

abbrev pub transport_text : Str
transport_text = b't' ∷ b'r' ∷ b'a' ∷ b'n' ∷ b's' ∷ b'p' ∷ b'o' ∷ b'r' ∷ b't' ∷ []

abbrev pub websocket_text : Str
websocket_text = b'w' ∷ b'e' ∷ b'b' ∷ b's' ∷ b'o' ∷ b'c' ∷ b'k' ∷ b'e' ∷ b't' ∷ []

abbrev pub polling_name : Str
polling_name = b'p' ∷ b'o' ∷ b'l' ∷ b'l' ∷ b'i' ∷ b'n' ∷ b'g' ∷ []

abbrev upgrade_text : Str
upgrade_text = b'u' ∷ b'p' ∷ b'g' ∷ b'r' ∷ b'a' ∷ b'd' ∷ b'e' ∷ []

abbrev content_length_text : Str
content_length_text =
    b'c' ∷ b'o' ∷ b'n' ∷ b't' ∷ b'e' ∷ b'n' ∷ b't' ∷ b'-' ∷ b'l' ∷ b'e' ∷ b'n' ∷ b'g' ∷ b't' ∷ b'h'
    ∷ []

-- The transport that a pair of the query names, the one before if it names none.
unfoldable pub pair_transport : Str → Str → Option QueryTransport → Option QueryTransport
unfolding to_lowercase
pair_transport key value before =
    if list_eq (to_lowercase key) transport_text
    then (if list_eq (to_lowercase value) polling_name
        then some polling
        else if list_eq (to_lowercase value) websocket_text
        then some websocket
        else before)
    else before

-- The loop over the query: the id and the transport, or `none` for another version of the protocol.
unfoldable pub scan_query :
    List (Str × Str)
    → Option Str
    → Option QueryTransport
    → Option (Option Str × Option QueryTransport)
unfolding to_lowercase to_uppercase
scan_query [] sid transport = some (sid, transport)
scan_query ((key, value) ∷ pairs) sid transport =
    let rest =
      scan_query pairs (if list_eq (to_lowercase key) sid_text then some value else sid)
        (pair_transport key value transport) in
    if list_eq (to_uppercase key) eio_text && not (list_eq value (b'4' ∷ [])) then none else rest

pub data HeaderScan : Type 0 where
  upgrade bad : HeaderScan
  content_length : ℕ → HeaderScan

unfoldable pub parse_length : Bytes → Option ℕ
unfolding from_utf8 parse
parse_length value = elim (from_utf8 value) [ none ↦ none | some s ↦ parse max_usize s ]

-- The loop over the headers. The flag says whether the request is a `GET` for a websocket.
unfoldable pub scan_headers : List (Str × Bytes) → Bool → ℕ → HeaderScan
unfolding to_lowercase parse_length
scan_headers [] get_websocket len = content_length len
scan_headers ((name, value) ∷ headers) get_websocket len =
    let rest = scan_headers headers get_websocket len in
    let with_length : HeaderScan = elim (parse_length value) [
      | none ↦ bad
      | some n ↦ scan_headers headers get_websocket n
    ] in
    if list_eq (to_lowercase name) upgrade_text && get_websocket
    then upgrade
    else if list_eq (to_lowercase name) content_length_text
    then with_length
    else rest

-- The request that a body makes: one without an id opens a connection.
abbrev pub with_body : Option Str → Bytes → RequestType
with_body none body = polling_open
with_body (some sid) body = polling_post sid body

-- A request whose body ends at `end`.
unfoldable pub post_until : Bool → Bytes → ℕ → ℕ → Option Str → Parsed
post_until is_peek buf idx end sid =
    if is_peek
    then found (with_body sid [])
    else if leb end (length buf)
    then (if leb idx end then found (with_body sid (slice idx end buf)) else panicked)
    else refused

-- A request with a body of `len` bytes behind `idx`. `idx + content_length` wraps around (in a build
-- with overflow checks it panics); then the slice ends before it begins.
unfoldable pub post_request : Bool → Bytes → ℕ → ℕ → Option Str → Parsed
unfolding post_until
post_request is_peek buf idx len sid = post_until is_peek buf idx ((idx + len) % 2 ^ 64) sid

unfoldable pub by_sid : Option Str → RequestType
by_sid none = polling_open
by_sid (some sid) = polling_get sid

-- What follows the loop over the headers.
unfoldable pub finish_request : HeaderScan → Bool → Bool → Bytes → ℕ → Option Str → Parsed
unfolding post_request by_sid
finish_request upgrade is_post is_peek buf idx sid = found (ws_upgrade sid)
finish_request bad is_post is_peek buf idx sid = refused
finish_request (content_length len) is_post is_peek buf idx sid =
    if is_post then post_request is_peek buf idx len sid else found (by_sid sid)

abbrev pub is_websocket : QueryTransport → Bool
is_websocket websocket = true
is_websocket polling = false

-- A request whose method and query are read.
unfoldable pub parse_headers :
    Request → Str → Option Str → Option QueryTransport → Bool → Bytes → ℕ → Parsed
unfolding scan_headers finish_request to_uppercase
parse_headers req method sid none is_peek buf idx = refused
parse_headers req method sid (some transport) is_peek buf idx =
    finish_request
      (scan_headers req.headers (list_eq (to_uppercase method) get_text && is_websocket transport)
        0)
      (list_eq (to_uppercase method) post_text) is_peek buf idx sid

abbrev http_text : Str
http_text = b'h' ∷ b't' ∷ b't' ∷ b'p' ∷ b':' ∷ b'/' ∷ b'/' ∷ []

module _ (http : HttpLibrary) where
  unfoldable pub parse_query : Request → Str → Str → Str → Bool → Bytes → ℕ → Parsed
  unfolding scan_query parse_headers
  parse_query req method path addr is_peek buf idx =
      elim (http.query_pairs (http_text ++ (addr ++ path))) [
        | none ↦ refused
        | some pairs ↦ elim (scan_query pairs none none) [
          | none ↦ refused
          | some (sid, transport) ↦ parse_headers req method sid transport is_peek buf idx
        ]
      ]

  abbrev pub is_method : Str → Bool
  is_method method =
      list_eq (to_uppercase method) get_text || list_eq (to_uppercase method) post_text

  unfoldable pub parse_request : Request → Str → Bool → Bytes → ℕ → Parsed
  unfolding parse_query to_uppercase
  parse_request req addr is_peek buf idx = elim req.method [
    | none ↦ refused
    | some method ↦ elim req.path [
      | none ↦ refused
      | some path ↦
          if is_method method then parse_query req method path addr is_peek buf idx else refused
    ]
  ]

  unfoldable pub parse_request_type : Bytes → Str → Bool → Parsed
  unfolding parse_request
  parse_request_type buf addr is_peek = elim (http.parse buf) [
    | none ↦ refused
    | some (req, idx) ↦ parse_request req addr is_peek buf idx
  ]

-- ===== src/Engineio/Http/Peeks.antt =====
-- engineio/src/server/http.rs: a request that is peeked at has no body cut out of it, so that this
-- does not panic.
use socket_io.Base.{
  ℕ, ◌≡◌, ◌≢◌, refl, ap, List, arith, Bool, true, false, Option, none, some, Bytes, Str,
  if◌then◌else◌,
}
use socket_io.Engineio.External.{HttpLibrary, Request}
use socket_io.Engineio.Http.{
  Parsed, found, refused, panicked, QueryTransport, HeaderScan, upgrade, bad, content_length,
  scan_query, scan_headers, post_until, post_request, finish_request, parse_headers, parse_query,
  parse_request, parse_request_type, is_method,
}

abbrev is_panic : Parsed → Bool
is_panic (found request) = false
is_panic refused = false
is_panic panicked = true

finish_calm :
    (h : HeaderScan) (post : Bool) (buf : Bytes) (idx : ℕ) (sid : Option Str)
    → is_panic (finish_request h post true buf idx sid) ≡ false
unfolding finish_request post_request post_until
finish_calm upgrade post buf idx sid = refl
finish_calm bad post buf idx sid = refl
finish_calm (content_length n) true buf idx sid = refl
finish_calm (content_length n) false buf idx sid = refl

headers_calm :
    (req : Request) (method : Str) (sid : Option Str) (t : Option QueryTransport) (buf : Bytes)
    (idx : ℕ)
    → is_panic (parse_headers req method sid t true buf idx) ≡ false
unfolding parse_headers
headers_calm req method sid none buf idx = refl
headers_calm req method sid (some t) buf idx =
    finish_calm (scan_headers req.headers _ 0) _ buf idx sid

module _ (http : HttpLibrary) where
  query_calm :
      (req : Request) (method path addr : Str) (buf : Bytes) (idx : ℕ)
      → is_panic (parse_query http req method path addr true buf idx) ≡ false
  unfolding parse_query
  query_calm req method path addr buf idx = from (http.query_pairs _)
    where
      scanned : Option (Option Str × Option QueryTransport) → Parsed
      scanned o = elim o [
        | none ↦ refused
        | some (sid, transport) ↦ parse_headers req method sid transport true buf idx
      ]

      from_scan : (o : Option (Option Str × Option QueryTransport)) → is_panic (scanned o) ≡ false
      from_scan none = refl
      from_scan (some (sid, transport)) = headers_calm req method sid transport buf idx

      from :
          (o : Option (List (Str × Str)))
          → is_panic (elim o [ none ↦ refused | some ps ↦ scanned (scan_query ps none none) ])
            ≡ false
      from none = refl
      from (some ps) = from_scan (scan_query ps none none)

  request_calm :
      (req : Request) (addr : Str) (buf : Bytes) (idx : ℕ)
      → is_panic (parse_request http req addr true buf idx) ≡ false
  unfolding parse_request
  request_calm req addr buf idx = from req.method req.path
    where
      parsed : Option Str → Option Str → Parsed
      parsed m q = elim m [
        | none ↦ refused
        | some method ↦ elim q [
          | none ↦ refused
          | some path ↦
              if is_method http method
              then parse_query http req method path addr true buf idx
              else refused
        ]
      ]

      from : (m q : Option Str) → is_panic (parsed m q) ≡ false
      from none q = refl
      from (some m) none = refl
      from (some m) (some path) = ground (arith, query_calm req m path addr buf idx)

  parse_calm : (buf : Bytes) (addr : Str) → is_panic (parse_request_type http buf addr true) ≡ false
  unfolding parse_request_type
  parse_calm buf addr = from (http.parse buf)
    where
      from :
          (o : Option (Request × ℕ))
          → is_panic (elim o [
            | none ↦ refused
            | some (req, idx) ↦ parse_request http req addr true buf idx
          ])
            ≡ false
      from none = refl
      from (some (req, idx)) = request_calm req addr buf idx

  -- To peek at a request does not panic, whatever is there.
  pub peek_calm : (buf : Bytes) (addr : Str) → parse_request_type http buf addr true ≢ panicked
  peek_calm buf addr e = cc (parse_calm buf addr, ap is_panic e)

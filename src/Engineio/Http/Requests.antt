-- ===== src/Engineio/Http/Requests.antt =====
-- engineio/src/server/http.rs: that a request is read the same when it is peeked at and when it is
-- taken, and what becomes of its body.
use socket_io.Base.{
  ℕ, ◌+◌, ◌-◌, ◌%◌, ◌^◌, ◌≤◌, ◌<◌, ◌≡◌, ◌↔◌, ◌⊎◌, inl, inr, refl, sym, ap, ◌∙◌, List, arith, Bool,
  true, false, Option, none, some, Bytes, Str, leb, if◌then◌else◌, length, drop, length-take,
  length-drop, Bool-cases, leb→le, ltb, if_true, if_false,
}
use socket_io.Engineio.External.{HttpLibrary, Request}
use socket_io.Engineio.Payload.{slice}
use socket_io.Engineio.Http.{
  ws_upgrade, polling_open, polling_get, polling_post, Parsed, found, refused, panicked,
  QueryTransport, HeaderScan, with_body, post_until, upgrade, bad, content_length, scan_query,
  scan_headers, post_request, by_sid, finish_request, parse_headers, parse_query, parse_request,
  parse_request_type, is_method,
}

-- The id of a websocket request.
abbrev upgraded : Parsed → Option (Option Str)
upgraded (found (ws_upgrade sid)) = some sid
upgraded (found polling_open) = none
upgraded (found (polling_get sid)) = none
upgraded (found (polling_post sid b)) = none
upgraded refused = none
upgraded panicked = none

upgraded_iff :
    (r : Parsed) (sid : Option Str) → (upgraded r ≡ some sid) ↔ (r ≡ found (ws_upgrade sid))
upgraded_iff (found (ws_upgrade s)) sid = (λ h. cc h, λ h. cc h)
upgraded_iff (found polling_open) sid = (λ h. cc h, λ h. ap upgraded h)
upgraded_iff (found (polling_get s)) sid = (λ h. cc h, λ h. ap upgraded h)
upgraded_iff (found (polling_post s b)) sid = (λ h. cc h, λ h. ap upgraded h)
upgraded_iff refused sid = (λ h. cc h, λ h. ap upgraded h)
upgraded_iff panicked sid = (λ h. cc h, λ h. ap upgraded h)

upgraded-by_sid : (sid : Option Str) → upgraded (found (by_sid sid)) ≡ none
unfolding by_sid
upgraded-by_sid none = refl
upgraded-by_sid (some s) = refl

upgraded-post_request :
    (p : Bool) (buf : Bytes) (idx len : ℕ) (sid : Option Str)
    → upgraded (post_request p buf idx len sid) ≡ none
unfolding post_request post_until
upgraded-post_request p buf idx len none = ground arith
upgraded-post_request p buf idx len (some s) = ground arith

upgraded-finish_request :
    (h : HeaderScan) (post : Bool) (buf : Bytes) (idx : ℕ) (sid : Option Str)
    → upgraded (finish_request h post true buf idx sid)
      ≡ upgraded (finish_request h post false buf idx sid)
unfolding finish_request
upgraded-finish_request upgrade post buf idx sid = refl
upgraded-finish_request bad post buf idx sid = refl
upgraded-finish_request (content_length n) true buf idx sid =
    upgraded-post_request true buf idx n sid ∙ sym (upgraded-post_request false buf idx n sid)
upgraded-finish_request (content_length n) false buf idx sid = refl

upgraded-parse_headers :
    (req : Request) (method : Str) (sid : Option Str) (t : Option QueryTransport) (buf : Bytes)
    (idx : ℕ)
    → upgraded (parse_headers req method sid t true buf idx)
      ≡ upgraded (parse_headers req method sid t false buf idx)
unfolding parse_headers
upgraded-parse_headers req method sid none buf idx = refl
upgraded-parse_headers req method sid (some t) buf idx =
    upgraded-finish_request (scan_headers req.headers _ 0) _ buf idx sid

module _ (http : HttpLibrary) where
  upgraded-parse_query :
      (req : Request) (method path addr : Str) (buf : Bytes) (idx : ℕ)
      → upgraded (parse_query http req method path addr true buf idx)
        ≡ upgraded (parse_query http req method path addr false buf idx)
  unfolding parse_query
  upgraded-parse_query req method path addr buf idx = from (http.query_pairs _)
    where
      scanned : Bool → Option (Option Str × Option QueryTransport) → Parsed
      scanned p o = elim o [
        | none ↦ refused
        | some (sid, transport) ↦ parse_headers req method sid transport p buf idx
      ]

      from_scan :
          (o : Option (Option Str × Option QueryTransport))
          → upgraded (scanned true o) ≡ upgraded (scanned false o)
      from_scan none = refl
      from_scan (some (sid, transport)) = upgraded-parse_headers req method sid transport buf idx

      from :
          (o : Option (List (Str × Str)))
          → upgraded (elim o [ none ↦ refused | some ps ↦ scanned true (scan_query ps none none) ])
            ≡ upgraded
                (elim o [ none ↦ refused | some ps ↦ scanned false (scan_query ps none none) ])
      from none = refl
      from (some ps) = from_scan (scan_query ps none none)

  upgraded-parse_request :
      (req : Request) (addr : Str) (buf : Bytes) (idx : ℕ)
      → upgraded (parse_request http req addr true buf idx)
        ≡ upgraded (parse_request http req addr false buf idx)
  unfolding parse_request
  upgraded-parse_request req addr buf idx = from req.method req.path
    where
      parsed : Bool → Option Str → Option Str → Parsed
      parsed p m q = elim m [
        | none ↦ refused
        | some method ↦ elim q [
          | none ↦ refused
          | some path ↦
              if is_method http method
              then parse_query http req method path addr p buf idx
              else refused
        ]
      ]

      from : (m q : Option Str) → upgraded (parsed true m q) ≡ upgraded (parsed false m q)
      from none q = refl
      from (some m) none = refl
      from (some m) (some path) = ground (arith, upgraded-parse_query req m path addr buf idx)

  upgraded-parse :
      (buf : Bytes) (addr : Str)
      → upgraded (parse_request_type http buf addr true)
        ≡ upgraded (parse_request_type http buf addr false)
  unfolding parse_request_type
  upgraded-parse buf addr = from (http.parse buf)
    where
      from :
          (o : Option (Request × ℕ))
          → upgraded (elim o [
            | none ↦ refused
            | some (req, idx) ↦ parse_request http req addr true buf idx
          ])
            ≡ upgraded (elim o [
              | none ↦ refused
              | some (req, idx) ↦ parse_request http req addr false buf idx
            ])
      from none = refl
      from (some (req, idx)) = upgraded-parse_request req addr buf idx

  -- The same bytes are peeked at as a request for a websocket exactly if they are read as one, and
  -- with the same id.
  pub parse_peek_iff :
      (buf : Bytes) (addr : Str) (sid : Option Str)
      → (parse_request_type http buf addr true ≡ found (ws_upgrade sid))
        ↔ (parse_request_type http buf addr false ≡ found (ws_upgrade sid))
  parse_peek_iff buf addr sid =
      let e = upgraded-parse buf addr in
      (
        λ h. (upgraded_iff _ sid).0 (sym e ∙ (upgraded_iff _ sid).1 h),
        λ h. (upgraded_iff _ sid).0 (e ∙ (upgraded_iff _ sid).1 h),
      )

length-slice : (i n : ℕ) (buf : Bytes) → i + n ≤ length buf → length (slice i (i + n) buf) ≡ n
length-slice i n buf h =
    let e : i + n - i ≡ n = omega arith in
    rw e (length-take n (drop i buf) (omega (arith, length-drop i buf (omega arith))))

post_at :
    (buf : Bytes) (idx len e : ℕ) (sid : Option Str)
    → (idx + len) % 2 ^ 64 ≡ e
    → post_request false buf idx len sid ≡ post_until false buf idx e sid
unfolding post_request
post_at buf idx len e sid h = ap (λ n. post_until false buf idx n sid) h

-- The body of a request that is read, behind a head within the buffer, by the length that its header
-- gives: it is there and taken whole, or it is not all there and the request is refused, or its end
-- is beyond `usize` and the task panics.
pub post_request_cases :
    (buf : Bytes) (idx len : ℕ) (sid : Option Str)
    → idx ≤ length buf
    → length buf < 2 ^ 64
    → len < 2 ^ 64
    → ((idx + len ≤ length buf)
        × (length (slice idx (idx + len) buf) ≡ len)
        × (post_request false buf idx len sid ≡ found (with_body sid (slice idx (idx + len) buf))))
      ⊎ ((length buf < idx + len)
          × (idx + len < 2 ^ 64)
          × (post_request false buf idx len sid ≡ refused))
      ⊎ ((2 ^ 64 ≤ idx + len) × (post_request false buf idx len sid ≡ panicked))
post_request_cases buf idx len sid hi hb hl = elim (Bool-cases (leb (idx + len) (length buf))) [
  | inl a ↦
      let h : idx + len ≤ length buf = leb→le _ _ a in
      inl (
        h,
        length-slice idx len buf h,
        post_at buf idx len (idx + len) sid (omega arith)
            ∙ (unfold post_until in
                if_true _ _ _ a ∙ if_true (leb idx (idx + len)) _ _ (ground arith)),
      )
  | inr a ↦ elim (Bool-cases (ltb (idx + len) (2 ^ 64))) [
    | inl b ↦ inr (
        inl (
          ground arith,
          ground arith,
          post_at buf idx len (idx + len) sid (ground arith)
              ∙ (unfold post_until in if_false _ _ _ a),
        ))
    | inr b ↦ inr (inr (ground arith, wraps (ground arith)))
  ]
]
  where
    wraps : 2 ^ 64 ≤ idx + len → post_request false buf idx len sid ≡ panicked
    wraps h =
        post_at buf idx len (idx + len - 2 ^ 64) sid (omega arith)
        ∙ (unfold post_until in
            if_true (leb (idx + len - 2 ^ 64) (length buf)) _ _ (ground arith)
            ∙ if_false (leb idx (idx + len - 2 ^ 64)) _ _ (ground arith))

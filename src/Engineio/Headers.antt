-- ===== src/Engineio/Headers.antt =====
-- engineio/src/header.rs: headers, and their conversion to those of the crate http.
use socket_io.Base.{
  ◌≡◌, sym, ap, ◌∙◌, List, [], ◌∷◌, ◌++◌, append-nil, snoc-append, Option, none, some, Bytes, Str,
  ok, err, ok_or, ◌>>=◌,
}
use socket_io.Base.Maps.{Map, get, put}
use socket_io.Engineio.Error.{
  Error, Result, invalid_header_name_from_reqwest, invalid_header_value_from_reqwest,
}

-- The crate http: its names and values, how they are made, and what they are made of.
pub record HttpHeaders : Type 1 where
  pub Name : Type 0
  pub Value : Type 0
  pub name_from_str : Str → Option Name
  pub value_from_bytes : Bytes → Option Value
  pub name_text : Name → Str
  pub value_bytes : Value → Bytes

-- What is documented: what a name or a value is made of makes it.
pub record IsLawful (http : HttpHeaders) : Type 0 where
  pub from_str-text : (n : http.Name) → http.name_from_str (http.name_text n) ≡ some n
  pub from_bytes-bytes : (v : http.Value) → http.value_from_bytes (http.value_bytes v) ≡ some v

pub record HeaderName : Type 0 where
  pub inner : Str

pub record HeaderValue : Type 0 where
  pub inner : Bytes

-- The map by the texts of the names, in the order in which it is gone through.
pub record HeaderMap : Type 0 where
  pub map : Map HeaderValue

unfoldable pub new_map : HeaderMap
new_map = record { map = [] }

-- `HeaderMap::insert`: the map, and the value that was there.
unfoldable pub insert : HeaderMap → HeaderName → HeaderValue → HeaderMap × Option HeaderValue
unfolding get put
insert m key value = (record { map = put key.inner value m.map }, get key.inner m.map)

module _ (http : HttpHeaders) where
  -- The conversions of names and values to those of the crate http, and back.
  unfoldable pub try_name : HeaderName → Result http.Name
  try_name header = ok_or (http.name_from_str header.inner) invalid_header_name_from_reqwest

  unfoldable pub try_value : HeaderValue → Result http.Value
  try_value value = ok_or (http.value_from_bytes value.inner) invalid_header_value_from_reqwest

  unfoldable pub from_name : http.Name → HeaderName
  from_name header = record { inner = http.name_text header }

  unfoldable pub from_value : http.Value → HeaderValue
  from_value value = record { inner = http.value_bytes value }

  -- The loop of `TryFrom<HeaderMap>`, with the headers that are appended.
  unfoldable pub try_headers :
      Map HeaderValue → List (http.Name × http.Value) → Result (List (http.Name × http.Value))
  unfolding try_name try_value
  try_headers [] result = ok result
  try_headers ((key, value) ∷ headers) result = try_name (record { inner = key }) >>= λ n.
      try_value value >>= λ v. try_headers headers (result ++ (n, v) ∷ [])

  unfoldable pub try_from_map : HeaderMap → Result (List (http.Name × http.Value))
  unfolding try_headers
  try_from_map headers = try_headers headers.map []

  -- How the conversion of a builder's headers ends, if there are any.
  abbrev pub fault_of : {A : Type 0} → Result A → Option Error
  fault_of (ok a) = none
  fault_of (err e) = some e

  unfoldable pub conversion_fault : Option HeaderMap → Option Error
  unfolding try_from_map
  conversion_fault none = none
  conversion_fault (some headers) = fault_of (try_from_map headers)

  -- The headers that a list of names and values was converted from.
  abbrev pub written : List (http.Name × http.Value) → Map HeaderValue
  written [] = []
  written ((n, v) ∷ hs) = (http.name_text n, record { inner = http.value_bytes v }) ∷ written hs

module _ (http : HttpHeaders) (lawful : IsLawful http) where
  try_headers-written :
      (hs result : List (http.Name × http.Value))
      → try_headers http (written http hs) result ≡ ok (result ++ hs)
  unfolding try_headers try_name try_value
  try_headers-written [] result = ap ok (sym (append-nil result))
  try_headers-written ((n, v) ∷ hs) result =
      rw (lawful.from_str-text, lawful.from_bytes-bytes)
        (try_headers-written hs (result ++ (n, v) ∷ []) ∙ ap ok (snoc-append result (n, v) hs))

  -- Headers that come from the crate http are converted back to the same, in order.
  pub try_from_map-written :
      (hs : List (http.Name × http.Value))
      → try_from_map http (record { map = written http hs }) ≡ ok hs
  unfolding try_from_map
  try_from_map-written hs = try_headers-written hs []

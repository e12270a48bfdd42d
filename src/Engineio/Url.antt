-- ===== src/Engineio/Url.antt =====
-- The crate url, a parameter, as far as it is used for the URLs of clients; and of a URL what
-- engineio reads and changes: the scheme, the path, and the decoded pairs of the query.
use socket_io.Base.{
  ◌≡◌, List, [], ◌∷◌, ◌++◌, Bool, true, false, ◌||◌, Option, none, some, Str, list_eq,
}

pub record Url : Type 0 where
  pub scheme : Str
  pub path : Str
  pub query : List (Str × Str)

-- `Url::parse`, and `set_scheme` with the URL that is there when it succeeds.
pub record UrlLibrary : Type 0 where
  pub parse : Str → Option Url
  pub set_scheme : Url → Str → Option Url

-- `url.query_pairs_mut().append_pair(key, value)`.
abbrev pub append_pair : Url → Str → Str → Url
append_pair url key value = record url { query = url.query ++ (key, value) ∷ [] }

abbrev pub http_scheme : Str
http_scheme = b'h' ∷ b't' ∷ b't' ∷ b'p' ∷ []

abbrev pub https_scheme : Str
https_scheme = b'h' ∷ b't' ∷ b't' ∷ b'p' ∷ b's' ∷ []

abbrev pub ws_scheme : Str
ws_scheme = b'w' ∷ b's' ∷ []

abbrev pub wss_scheme : Str
wss_scheme = b'w' ∷ b's' ∷ b's' ∷ []

abbrev ftp_scheme : Str
ftp_scheme = b'f' ∷ b't' ∷ b'p' ∷ []

-- The schemes between which `set_scheme` changes.
unfoldable pub is_web : Str → Bool
is_web s =
    list_eq s http_scheme
    || list_eq s https_scheme
    || list_eq s ws_scheme
    || list_eq s wss_scheme
    || list_eq s ftp_scheme

-- From one of them to another `set_scheme` succeeds, and from any other scheme to one of them not.
pub record IsLawfulUrls (urls : UrlLibrary) : Type 0 where
  pub changes :
      (url : Url) (s : Str)
      → is_web url.scheme ≡ true
      → is_web s ≡ true
      → urls.set_scheme url s ≡ some (record url { scheme = s })
  pub refuses :
      (url : Url) (s : Str)
      → is_web url.scheme ≡ false
      → is_web s ≡ true
      → urls.set_scheme url s ≡ none

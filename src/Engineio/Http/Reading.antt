-- ===== src/Engineio/Http/Reading.antt =====
-- engineio/src/server/http.rs, `http_response`: what a client reads in the text of a response.
use socket_io.Base.{
  ℕ, ◌≡◌, ◌≢◌, refl, sym, ap, ◌∙◌, List, [], ◌∷◌, ◌++◌, map, append_assoc, snoc-append, append-nil,
  arith, true, false, ◌&&◌, Option, none, some, Str, ◌==◌, ==_ne, is_empty, length, Lacks, All,
  All-append, All-imp,
}
use socket_io.Base.Utf8.{utf8}
use socket_io.Base.Decimal.{IsDigit, to_string-IsDigit}
use socket_io.Engineio.Http.Response.{
  HttpText, carriage_return, line_feed, crlf, response_headers, header_line, push_headers,
  status_line, http_response,
}

abbrev prepend : Str → Option (List Str × Str) → Option (List Str × Str)
prepend line none = none
prepend line (some (lines, rest)) = some (line ∷ lines, rest)

-- How a client reads a message, by RFC 9112: lines up to the first empty one, and what follows. In
-- front are the characters of the line so far; there is `none` where no line is empty.
unfoldable pub read_head : Str → Str → Option (List Str × Str)
read_head cur [] = none
read_head cur (c ∷ []) = none
read_head cur (c ∷ d ∷ s) = elim (c == carriage_return && d == line_feed) [
  | true ↦ elim (is_empty cur) [ true ↦ some ([], s) | false ↦ prepend cur (read_head [] s) ]
  | false ↦ read_head (cur ++ c ∷ []) (d ∷ s)
]

abbrev pub read_response : Str → Option (List Str × Str)
read_response s = read_head [] s

-- A line of a message.
abbrev pub IsLine : Str → Type 0
IsLine l = (l ≢ []) × Lacks carriage_return l

nonempty : (s : Str) → s ≢ [] → is_empty s ≡ false
nonempty [] h = absurd (h refl)
nonempty (c ∷ s) h = refl

read_char :
    (cur : Str) (c d : ℕ) (s : Str)
    → c ≢ carriage_return
    → read_head cur (c ∷ d ∷ s) ≡ read_head (cur ++ c ∷ []) (d ∷ s)
unfolding read_head
read_char cur c d s h = rw (==_ne c carriage_return h, read_head)

read_line :
    (l cur s : Str)
    → Lacks carriage_return l
    → cur ++ l ≢ []
    → read_head cur (l ++ (crlf ++ s)) ≡ prepend (cur ++ l) (read_head [] s)
unfolding read_head
read_line [] cur s h full =
    rw (read_head, nonempty cur (λ e. full (append-nil cur ∙ e)), append-nil cur)
read_line (c ∷ []) cur s (hc, h) full =
    read_char cur c carriage_return (line_feed ∷ s) hc
    ∙ read_line [] (cur ++ c ∷ []) s tt (λ e. full (sym (append-nil _) ∙ e))
    ∙ rw (append-nil (cur ++ c ∷ []))
read_line (c ∷ d ∷ l) cur s (hc, h) full =
    read_char cur c d (l ++ (crlf ++ s)) hc
    ∙ read_line (d ∷ l) (cur ++ c ∷ []) s h (λ e. full (sym (snoc-append cur c (d ∷ l)) ∙ e))
    ∙ rw (snoc-append cur c (d ∷ l))

abbrev prepend_all : List Str → Option (List Str × Str) → Option (List Str × Str)
prepend_all [] r = r
prepend_all (l ∷ ls) r = prepend l (prepend_all ls r)

abbrev ended : List Str → Str
ended [] = []
ended (l ∷ ls) = l ++ (crlf ++ ended ls)

read_lines :
    (ls : List Str) (s : Str)
    → All IsLine ls
    → read_head [] (ended ls ++ s) ≡ prepend_all ls (read_head [] s)
read_lines [] s h = refl
read_lines (l ∷ ls) s ((full, clean), h) =
    ap (read_head []) (append_assoc l (crlf ++ ended ls) s)
    ∙ read_line l [] (ended ls ++ s) clean full
    ∙ ap (prepend l) (read_lines ls s h)

all_lines : (ls : List Str) (b : Str) → prepend_all ls (some ([], b)) ≡ some (ls, b)
all_lines [] b = refl
all_lines (l ∷ ls) b = ap (prepend l) (all_lines ls b)

no_line : (ls : List Str) → prepend_all ls none ≡ none
no_line [] = refl
no_line (l ∷ ls) = ap (prepend l) (no_line ls)

push_headers-ended :
    (hs : List (Str × Str)) (r : Str) → push_headers hs r ≡ r ++ ended (map header_line hs)
unfolding push_headers
push_headers-ended [] r = sym (append-nil r)
push_headers-ended (h ∷ hs) r =
    push_headers-ended hs (r ++ (header_line h ++ crlf))
    ∙ append_assoc r (header_line h ++ crlf) _
    ∙ ap (λ t. r ++ t) (append_assoc (header_line h) crlf _)

-- What the crate http documents: the texts have no control characters, and a map of headers that
-- have none is written without.
abbrev pub IsHeader : Str × Str → Type 0
IsHeader (k, v) = Lacks carriage_return k × Lacks carriage_return v

pub record IsLawful (lib : HttpText) : Type 0 where
  pub version : Lacks carriage_return lib.version
  pub status : (n : ℕ) → Lacks carriage_return (lib.status n)
  pub headers : (hs : List (Str × Str)) → All IsHeader hs → All IsHeader (lib.headers hs)

lines_of_headers : (hs : List (Str × Str)) → All IsHeader hs → All IsLine (map header_line hs)
lines_of_headers [] h = tt
lines_of_headers ((k, v) ∷ hs) ((hk, hv), h) = (
  (
    λ e. absurd (behind_full k v e),
    All-append (λ c. c ≢ carriage_return) k _ hk (omega arith, (omega arith, hv)),
  ),
  lines_of_headers hs h,
)
  where
    behind_full : (k v : Str) → ¬ (header_line (k, v) ≡ [])
    behind_full [] v e = cc e
    behind_full (c ∷ k) v e = cc e

-- The lines of a response with a length in its head.
abbrev pub head_lines : HttpText → ℕ → ℕ → List Str
head_lines lib status len =
    status_line lib status ∷ map header_line (lib.headers (response_headers len))

module _ (lib : HttpText) (lawful : IsLawful lib) where
  headers-IsHeader : (n : ℕ) → All IsHeader (response_headers n)
  headers-IsHeader n = (
    (omega arith, omega arith),
    (
      (omega arith, omega arith),
      (
        (
          omega arith,
          All-imp IsDigit (λ c. c ≢ carriage_return) (λ c d. omega arith) _ (to_string-IsDigit n),
        ),
        tt,
      ),
    ),
  )

  status_line-IsLine : (status : ℕ) → IsLine (status_line lib status)
  status_line-IsLine status = (
    full lib.version,
    All-append (λ c. c ≢ carriage_return) lib.version _ lawful.version
        (omega arith, lawful.status status),
  )
    where
      full : (v : Str) → ¬ (v ++ b' ' ∷ lib.status status ≡ [])
      full [] e = cc e
      full (c ∷ v) e = cc e

  head-IsLine : (status len : ℕ) → All IsLine (head_lines lib status len)
  head-IsLine status len =
      (status_line-IsLine status, lines_of_headers _ (lawful.headers _ (headers-IsHeader len)))

  push_headers-head_lines :
      (status len : ℕ)
      → push_headers (lib.headers (response_headers len)) (status_line lib status ++ crlf)
        ≡ ended (head_lines lib status len)
  push_headers-head_lines status len =
      push_headers-ended _ (status_line lib status ++ crlf)
      ∙ append_assoc (status_line lib status) crlf _

  -- A client that reads a response with a body finds the line of the status and then those of the
  -- headers, which give the length of the body in bytes, and the body itself behind an empty line.
  -- In a response without a body there is no empty line: the client does not find the end of its
  -- head. The crate http writes no carriage return in a version, a status or a header.
  pub read_response-http_response :
      (status : ℕ) (body : Str)
      → (read_response (http_response lib status (some body))
          ≡ some (head_lines lib status (length (utf8 body)), body))
        × (read_response (http_response lib status none) ≡ none)
  unfolding http_response read_head
  read_response-http_response status body =
      let lines = head_lines lib status (length (utf8 body)) in
      (
        ap (λ t. read_response ((t ++ crlf) ++ body))
              (push_headers-head_lines status (length (utf8 body)))
            ∙ ap read_response (append_assoc (ended lines) crlf body)
            ∙ read_lines lines (crlf ++ body) (head-IsLine status (length (utf8 body)))
            ∙ all_lines lines body,
        ap read_response (
              push_headers-head_lines status 0 ∙ sym (append-nil (ended (head_lines lib status 0))))
            ∙ read_lines (head_lines lib status 0) [] (head-IsLine status 0)
            ∙ no_line (head_lines lib status 0),
      )

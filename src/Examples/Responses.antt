-- ===== src/Examples/Responses.antt =====
-- The theorems about responses: to one with the body `ok`, and to one that arrives in two pieces.
use socket_io.Base.{◌≡◌, ◌≢◌, ◌++◌, [], ◌∷◌, arith, none, some, ok, Str, length, All-imp}
use socket_io.Base.Decimal.{to_string, IsDigit, to_string-IsDigit}
use socket_io.Base.Utf8.{utf8}
use socket_io.Engineio.Http.Response.{HttpText, carriage_return, http_response}
use socket_io.Engineio.Http.Reading.{
  IsLawful, read_response, head_lines, read_response-http_response,
}
use socket_io.Engineio.Payload.{decode}
use socket_io.Engineio.Polling.{client_stream}
use socket_io.Engineio.Polling.Pieces.{message_in_pieces}
use socket_io.Engineio.Socket.Stream.{stream, parsed}
use socket_io.Engineio.Socket.Wire.{plain_message}
use socket_io.Examples.Base64.{two_letters}

-- A crate that writes a status as a number and keeps the headers.
abbrev http : HttpText
http = record { version = b'H' ∷ []; status = to_string; headers = λ hs. hs }

http-IsLawful : IsLawful http
http-IsLawful = record {
  version = omega arith;
  status =
      λ n. All-imp IsDigit (λ c. c ≢ carriage_return) (λ c d. omega arith) _ (to_string-IsDigit n);
  headers = λ hs h. h;
}

abbrev fine : Str
fine = b'o' ∷ b'k' ∷ []

response_example :
    (read_response (http_response http 200 (some fine))
      ≡ some (head_lines http 200 (length (utf8 fine)), fine))
    × (read_response (http_response http 200 none) ≡ none)
response_example = read_response-http_response http http-IsLawful 200 fine

pieces_example :
    (stream two_letters (client_stream (ok (ok (b'4' ∷ ((1 ∷ []) ++ 2 ∷ [])) ∷ []) ∷ []))
      ≡ ok (plain_message two_letters ((1 ∷ []) ++ 2 ∷ [])) ∷ stream two_letters (client_stream []))
    × (stream two_letters (client_stream (ok (ok (b'4' ∷ 1 ∷ []) ∷ ok (2 ∷ []) ∷ []) ∷ []))
        ≡ ok (plain_message two_letters (1 ∷ []))
          ∷ parsed two_letters
              (decode two_letters (2 ∷ []))
              (stream two_letters (client_stream [])))
pieces_example =
    message_in_pieces two_letters (1 ∷ []) (2 ∷ []) [] (λ e. cc e) (omega arith) (omega arith)

-- ===== src/Examples/Requests.antt =====
-- The theorem about requests at one with a body.
use socket_io.Base.{◌+◌, ◌^◌, ◌≤◌, ◌<◌, ◌≡◌, ◌⊎◌, [], ◌∷◌, arith, some, false, Bytes, Str, length}
use socket_io.Engineio.Http.{found, refused, panicked, with_body, post_request}
use socket_io.Engineio.Http.Requests.{post_request_cases}
use socket_io.Engineio.Payload.{slice}

abbrev four : Bytes
four = 1 ∷ 2 ∷ 3 ∷ 4 ∷ []

abbrev id : Str
id = b'x' ∷ []

body_example :
    ((2 + 1 ≤ length four)
      × (length (slice 2 (2 + 1) four) ≡ 1)
      × (post_request false four 2 1 (some id)
          ≡ found (with_body (some id) (slice 2 (2 + 1) four))))
    ⊎ ((length four < 2 + 1) × (2 + 1 < 2 ^ 64) × (post_request false four 2 1 (some id) ≡ refused))
    ⊎ ((2 ^ 64 ≤ 2 + 1) × (post_request false four 2 1 (some id) ≡ panicked))
body_example = post_request_cases four 2 1 (some id) (omega arith) (omega arith) (omega arith)

-- ===== src/Examples/Clients.antt =====
-- The theorems about a client: one that reconnects, with a limit of two attempts, and its
-- namespace.
use socket_io.Base.{◌≡◌, refl, List, [], ◌∷◌, ◌++◌, map, true, some, ok, err, ℕ, ◌+◌}
use socket_io.Socketio.Error.{Error, Result, invalid_packet}
use socket_io.Socketio.Reconnect.{gave_up, reconnect, reconnect_gave_up}

abbrev two_errors : List Error
two_errors = invalid_packet ∷ invalid_packet ∷ []

abbrev three_errors : List Error
three_errors = invalid_packet ∷ two_errors

-- The new socket is the number 9.
abbrev nine : List (Result ℕ)
nine = ok 9 ∷ []

gave_up_example : reconnect true (some 2) (map err three_errors ++ nine) ≡ some (gave_up (2 + 1))
gave_up_example = reconnect_gave_up 2 three_errors nine refl

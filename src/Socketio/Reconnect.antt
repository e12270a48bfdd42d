-- ===== src/Socketio/Reconnect.antt =====
-- socketio/src/client/client.rs, `Client::reconnect`: the loop that connects again. What
-- `connect_socket` will return is a list of results, the environment's; the waits between the
-- attempts are left out.
use socket_io.Base.{
  ℕ, ◌+◌, ◌≤◌, ◌<◌, ◌≡◌, ap, ◌∙◌, List, [], ◌∷◌, ◌++◌, map, arith, Bool, true, false, Option, none,
  some, ok, err, ltb, if◌then◌else◌, length, if_true, if_false,
}
use socket_io.Socketio.Error.{Error, Result}

-- How `reconnect` ends, with the number of attempts: with a new socket, without one, or not yet,
-- where the results end.
pub data Reconnected (S : Type 0) : Type 0 where
  replaced : S → ℕ → Reconnected S
  gave_up trying : ℕ → Reconnected S

abbrev pub exceeds : Option ℕ → ℕ → Bool
exceeds none attempts = false
exceeds (some limit) attempts = ltb limit attempts

unfoldable pub reconnect_loop : {S : Type 0} → Option ℕ → ℕ → List (Result S) → Reconnected S
reconnect_loop limit attempts [] =
    if exceeds limit attempts then gave_up attempts else trying attempts
reconnect_loop limit attempts (ok s ∷ results) =
    if exceeds limit attempts then gave_up attempts else replaced s (attempts + 1)
reconnect_loop limit attempts (err e ∷ results) =
    let rest = reconnect_loop limit (attempts + 1) results in
    if exceeds limit attempts then gave_up attempts else rest

-- `none` is a client that does not reconnect.
unfoldable pub reconnect : {S : Type 0} → Bool → Option ℕ → List (Result S) → Option (Reconnected S)
unfolding reconnect_loop
reconnect enabled limit results = if enabled then some (reconnect_loop limit 0 results) else none

loop_failed :
    {S : Type 0} (limit n : ℕ) (e : Error) (results : List (Result S))
    → n ≤ limit
    → reconnect_loop (some limit) n (err e ∷ results) ≡ reconnect_loop (some limit) (n + 1) results
unfolding reconnect_loop
loop_failed limit n e results h = if_false (ltb limit n) _ _ (ground arith)

loop_replaced :
    {S : Type 0} (limit n : ℕ) (s : S) (results : List (Result S))
    → n ≤ limit
    → reconnect_loop (some limit) n (ok s ∷ results) ≡ replaced s (n + 1)
unfolding reconnect_loop
loop_replaced limit n s results h = if_false (ltb limit n) _ _ (ground arith)

loop_over :
    {S : Type 0} (limit n : ℕ) (results : List (Result S))
    → limit < n
    → reconnect_loop (some limit) n results ≡ gave_up n
unfolding reconnect_loop
loop_over limit n [] h = if_true (ltb limit n) _ _ (ground arith)
loop_over limit n (ok s ∷ results) h = if_true (ltb limit n) _ _ (ground arith)
loop_over limit n (err e ∷ results) h = if_true (ltb limit n) _ _ (ground arith)

loop_failures :
    {S : Type 0} (limit attempts k : ℕ) (errors : List Error) (results : List (Result S))
    → k ≡ attempts + length errors
    → k ≤ limit + 1
    → reconnect_loop (some limit) attempts (map err errors ++ results)
      ≡ reconnect_loop (some limit) k results
loop_failures limit attempts k [] results e h =
    let e' : attempts ≡ k = omega (arith, e) in ap (λ n. reconnect_loop (some limit) n results) e'
loop_failures limit attempts k (x ∷ errors) results e h =
    loop_failed limit attempts x (map err errors ++ results) (omega (arith, e))
    ∙ loop_failures limit (attempts + 1) k errors results (omega (arith, e)) h

-- With a limit on the attempts, a connection that comes after at most so many failures is taken,
-- in the attempt behind them.
pub reconnect_replaced :
    {S : Type 0} (limit : ℕ) (errors : List Error) (s : S) (results : List (Result S))
    → length errors ≤ limit
    → reconnect true (some limit) (map err errors ++ ok s ∷ results)
      ≡ some (replaced s (length errors + 1))
unfolding reconnect
reconnect_replaced limit errors s results h = ap some (
    loop_failures limit 0 (length errors) errors (ok s ∷ results) (omega arith) (omega arith)
    ∙ loop_replaced limit (length errors) s results h)

-- The client gives up behind one more failure than the limit says, whatever would follow.
pub reconnect_gave_up :
    {S : Type 0} (limit : ℕ) (errors : List Error) (results : List (Result S))
    → length errors ≡ limit + 1
    → reconnect true (some limit) (map err errors ++ results) ≡ some (gave_up (limit + 1))
unfolding reconnect
reconnect_gave_up limit errors results h = ap some (
    loop_failures limit 0 (limit + 1) errors results (omega (arith, h)) (omega arith)
    ∙ loop_over limit (limit + 1) results (omega arith))

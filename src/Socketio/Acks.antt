-- ===== src/Socketio/Acks.antt =====
-- socketio/src/ack.rs, and from socketio/src/packet.rs and socketio/src/socket.rs what the socket
-- does with the acknowledgements that it waits for. Times are numbers; a callback is the number that
-- stands for it.
pub mod Removal
use socket_io.Base.{
  ℕ, zero, suc, ◌+◌, ◌-◌, ◌%◌, ◌^◌, List, [], ◌∷◌, Bool, Option, none, some, ltb, ◌==◌,
  if◌then◌else◌,
}

pub record Ack : Type 0 where
  pub id : ℕ
  pub timeout : ℕ
  pub time_started : ℕ
  pub callback : ℕ

-- `AckIdGenerator::generate`: the id, and the next value of `seq`; `fetch_add` wraps around.
unfoldable pub generate : ℕ → ℕ × ℕ
generate seq = (seq, (seq + 1) % 2 ^ 64)

-- `elapsed` is zero for a time that is still to come.
unfoldable pub is_alive : ℕ → Ack → Bool
is_alive now a = ltb (now - a.time_started) a.timeout

-- The loop of `handle_ack` over the acks with their index: the indices that are to be removed, and
-- the callbacks that are called.
unfoldable pub ack_loop : ℕ → ℕ → ℕ → List Ack → List ℕ × List ℕ
unfolding is_alive
ack_loop id now index [] = ([], [])
ack_loop id now index (a ∷ acks) =
    let rest = ack_loop id now (index + 1) acks in
    if a.id == id
    then (index ∷ rest.0, (if is_alive now a then a.callback ∷ rest.1 else rest.1))
    else rest

-- `Vec::remove`; `none` is its panic.
unfoldable pub remove {ℓ} : {A : Type ℓ} → List A → ℕ → Option (List A)
remove [] i = none
remove (x ∷ xs) zero = some xs
remove (x ∷ xs) (suc i) = elim (remove xs i) [ none ↦ none | some ys ↦ some (x ∷ ys) ]

-- The second loop of `handle_ack`.
unfoldable pub remove_all : List Ack → List ℕ → Option (List Ack)
unfolding remove
remove_all acks [] = some acks
remove_all acks (i ∷ is) = elim (remove acks i) [ none ↦ none | some acks' ↦ remove_all acks' is ]

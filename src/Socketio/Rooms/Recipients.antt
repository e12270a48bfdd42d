-- ===== src/Socketio/Rooms/Recipients.antt =====
-- socketio/src/server/server.rs, `sids_to_emit`: who gets what is emitted to rooms.
use socket_io.Base.{
  ◌≡◌, refl, ◌∙◌, List, [], ◌∷◌, arith, Bool, true, false, ◌||◌, Option, none, some, Str,
  if◌then◌else◌, list_eq,
}
use socket_io.Base.Maps.{Map, get}
use socket_io.Socketio.Rooms.{
  Set, Rooms, contains, insert, union, room_sids, collect_sids, sids_to_emit,
}
use socket_io.Socketio.Rooms.Membership.{is_in, or_empty, contains-insert}

-- Whether there is a room of this name, even an empty one.
abbrev pub is_room : Rooms → Str → Str → Bool
is_room rooms nsp room = elim (get room (or_empty (get nsp rooms))) [ none ↦ false | some s ↦ true ]

-- One of the names is that of a room with the socket, or is no room's and is the socket's id.
unfoldable pub is_addressed : Rooms → Str → List Str → Str → Bool
is_addressed rooms nsp [] x = false
is_addressed rooms nsp (r ∷ rs) x =
    (if is_room rooms nsp r then is_in rooms nsp r x else list_eq r x)
    || is_addressed rooms nsp rs x

contains-union : (x : Str) (s t : Set) → contains x (union s t) ≡ (contains x s || contains x t)
unfolding contains
contains-union x s [] = ground arith
contains-union x s (y ∷ t) = contains-union x (insert y s) t ∙ ground (arith, contains-insert x y s)

contains-room_sids :
    (rooms : Rooms) (nsp : Str) (m : Map Set) (r x : Str)
    → get nsp rooms ≡ some m
    → contains x (room_sids m r)
      ≡ (if is_room rooms nsp r then is_in rooms nsp r x else list_eq r x)
unfolding is_in
contains-room_sids rooms nsp m r x e = rw (is_room, e) (from (get r m) refl)
  where
    from :
        (o : Option Set)
        → get r m ≡ o
        → contains x (room_sids m r) ≡ (
            if (elim (get r m) [ none ↦ false | some s ↦ true ])
            then contains x (or_empty (get r m))
            else list_eq r x)
    from none f = unfold room_sids contains in rw (room_sids, f) (ground arith)
    from (some s) f = unfold room_sids in rw (room_sids, f) refl

contains-collect_sids :
    (names : List Str) (rooms : Rooms) (nsp : Str) (m : Map Set) (acc : Set) (x : Str)
    → get nsp rooms ≡ some m
    → contains x (collect_sids m names acc) ≡ (contains x acc || is_addressed rooms nsp names x)
unfolding collect_sids is_addressed
contains-collect_sids [] rooms nsp m acc x e = ground arith
contains-collect_sids (r ∷ rs) rooms nsp m acc x e =
    contains-collect_sids rs rooms nsp m (union acc (room_sids m r)) x e
    ∙ ground (arith, contains-union x acc (room_sids m r), contains-room_sids rooms nsp m r x e)

-- What is emitted to some names of a namespace that has had a room goes to the sockets of the rooms
-- that they name, and to the sockets whose ids they are where there is no such room.
pub contains-sids_to_emit :
    (rooms : Rooms) (nsp : Str) (m : Map Set) (names : List Str) (x : Str)
    → get nsp rooms ≡ some m
    → contains x (sids_to_emit rooms nsp names) ≡ is_addressed rooms nsp names x
unfolding sids_to_emit
contains-sids_to_emit rooms nsp m names x e =
    rw (sids_to_emit, e)
      (contains-collect_sids names rooms nsp m [] x e ∙ (unfold contains in refl))

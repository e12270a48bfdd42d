-- ===== src/Socketio/Rooms.antt =====
-- socketio/src/server/server.rs: the rooms of the server, by namespace and name, each a set of the
-- ids of sockets. A set is a list.
pub mod Membership
pub mod Changes
pub mod Recipients
pub mod Distinct
use socket_io.Base.{
  ℕ, List, [], ◌∷◌, ◌++◌, Bool, true, false, ◌||◌, not, Option, none, some, Str, if◌then◌else◌,
  list_eq,
}
use socket_io.Base.Maps.{Map, get, put, map_values}
use socket_io.Engineio.External.{Base64}
use socket_io.Socketio.Sids.{decode}

abbrev pub Set : Type 0
Set = List Str

unfoldable pub contains : Str → Set → Bool
contains x [] = false
contains x (y ∷ ys) = list_eq y x || contains x ys

unfoldable pub insert : Str → Set → Set
unfolding contains
insert x s = if contains x s then s else s ++ x ∷ []

-- `retain`.
unfoldable pub retain : (Str → Bool) → Set → Set
retain p [] = []
retain p (x ∷ xs) = let rest = retain p xs in if p x then x ∷ rest else rest

abbrev pub Rooms : Type 0
Rooms = Map (Map Set)

-- One round of `join`: the room of a namespace's rooms, and the namespace.
unfoldable pub join_room : Map Set → Str → Str → Map Set
unfolding insert get put
join_room rooms room sid = elim (get room rooms) [
  | some sids ↦ put room (insert sid sids) rooms
  | none ↦ put room (sid ∷ []) rooms
]

unfoldable pub join_one : Rooms → Str → Str → Str → Rooms
unfolding join_room get put
join_one rooms nsp room sid = elim (get nsp rooms) [
  | none ↦ put nsp ((room, sid ∷ []) ∷ []) rooms
  | some nsp_rooms ↦ put nsp (join_room nsp_rooms room sid) rooms
]

unfoldable pub join : Rooms → Str → List Str → Str → Rooms
join rooms nsp [] sid = rooms
join rooms nsp (r ∷ rs) sid = join (join_one rooms nsp r sid) nsp rs sid

unfoldable pub leave_room : Map Set → Str → Str → Map Set
unfolding get put retain
leave_room rooms room sid = elim (get room rooms) [
  | some sids ↦ put room (retain (λ x. not (list_eq x sid)) sids) rooms
  | none ↦ rooms
]

unfoldable pub leave_one : Rooms → Str → Str → Str → Rooms
unfolding leave_room get put
leave_one rooms nsp room sid = elim (get nsp rooms) [
  | some nsp_rooms ↦ put nsp (leave_room nsp_rooms room sid) rooms
  | none ↦ rooms
]

unfoldable pub leave : Rooms → Str → List Str → Str → Rooms
leave rooms nsp [] sid = rooms
leave rooms nsp (r ∷ rs) sid = leave (leave_one rooms nsp r sid) nsp rs sid

abbrev pub union : Set → Set → Set
union s [] = s
union s (x ∷ xs) = union (insert x s) xs

-- The sockets of a room; a name that is no room may be the id of a socket.
unfoldable pub room_sids : Map Set → Str → Set
unfolding get
room_sids nsp_rooms room = elim (get room nsp_rooms) [ some sids ↦ sids | none ↦ room ∷ [] ]

unfoldable pub collect_sids : Map Set → List Str → Set → Set
unfolding room_sids insert
collect_sids nsp_rooms [] sids = sids
collect_sids nsp_rooms (r ∷ rs) sids =
    collect_sids nsp_rooms rs (union sids (room_sids nsp_rooms r))

unfoldable pub sids_to_emit : Rooms → Str → List Str → Set
unfolding collect_sids get
sids_to_emit rooms nsp names = elim (get nsp rooms) [
  | none ↦ []
  | some nsp_rooms ↦ collect_sids nsp_rooms names []
]

-- `SidGenerator::decode(sid).as_ref() != Some(esid)`.
unfoldable pub is_other : Base64 → Str → Str → Bool
is_other b64 esid sid = elim (decode b64 sid) [ none ↦ true | some e ↦ not (list_eq e esid) ]

-- What `drop_client` does to the rooms.
unfoldable pub drop_sids : Base64 → Str → Rooms → Rooms
unfolding map_values retain is_other
drop_sids b64 esid rooms = map_values (map_values (retain (is_other b64 esid))) rooms

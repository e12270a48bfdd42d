-- ===== src/Socketio/Rooms/Changes.antt =====
-- socketio/src/server/server.rs: joining, leaving and dropping as changes of the membership.
use socket_io.Base.{
  ◌≡◌, refl, ap, ◌∙◌, List, [], ◌∷◌, arith, Bool, true, ◌||◌, ◌&&◌, not, Option, none, some, Str,
  list_eq, Bool-cases, inl, inr,
}
use socket_io.Base.Maps.{Map, get, put, map_values, get_same, get-map_values}
use socket_io.Engineio.External.{Base64}
use socket_io.Socketio.Rooms.{
  Set, Rooms, contains, retain, join_room, join_one, join, leave_room, leave_one, leave, is_other,
  drop_sids,
}
use socket_io.Socketio.Rooms.Membership.{
  is_in, holds, or_empty, in-put, holds-join_room, holds-leave_room, contains-retain,
}

is_in_by :
    (rooms : Rooms) (nsp n r x : Str) (o : Option (Map Set))
    → get nsp rooms ≡ o
    → list_eq nsp n ≡ true
    → is_in rooms n r x ≡ holds (or_empty o) r x
unfolding is_in
is_in_by rooms nsp n r x o e f = ap (λ z. holds (or_empty z) r x) (get_same nsp n rooms f ∙ e)

join_one_by :
    (rooms : Rooms) (nsp room sid : Str) (o : Option (Map Set))
    → get nsp rooms ≡ o
    → join_one rooms nsp room sid ≡ elim o [
      | none ↦ put nsp ((room, sid ∷ []) ∷ []) rooms
      | some m ↦ put nsp (join_room m room sid) rooms
    ]
unfolding join_one
join_one_by rooms nsp room sid o e =
    ap
      (λ z. elim z [
        | none ↦ put nsp ((room, sid ∷ []) ∷ []) rooms
        | some m ↦ put nsp (join_room m room sid) rooms
      ])
      e

holds_single :
    (room sid r x : Str) → holds ((room, sid ∷ []) ∷ []) r x ≡ (list_eq room r && list_eq sid x)
unfolding get contains
holds_single room sid r x = ground arith

in-join_one :
    (rooms : Rooms) (nsp room sid n r x : Str)
    → is_in (join_one rooms nsp room sid) n r x
      ≡ (is_in rooms n r x || (list_eq nsp n && (list_eq room r && list_eq sid x)))
in-join_one rooms nsp room sid n r x = from (get nsp rooms) refl
  where
    from :
        (o : Option (Map Set))
        → get nsp rooms ≡ o
        → is_in (join_one rooms nsp room sid) n r x
          ≡ (is_in rooms n r x || (list_eq nsp n && (list_eq room r && list_eq sid x)))
    from none e =
        ap (λ z. is_in z n r x) (join_one_by rooms nsp room sid none e)
        ∙ in-put rooms nsp ((room, sid ∷ []) ∷ []) n r x
        ∙ elim (Bool-cases (list_eq nsp n)) [
          | inl f ↦
              rw (is_in_by rooms nsp n r x none e f, f, holds_single room sid r x)
                (unfold get contains in refl)
          | inr f ↦ rw f (ground arith)
        ]
    from (some m) e =
        ap (λ z. is_in z n r x) (join_one_by rooms nsp room sid (some m) e)
        ∙ in-put rooms nsp (join_room m room sid) n r x
        ∙ elim (Bool-cases (list_eq nsp n)) [
          | inl f ↦ rw (is_in_by rooms nsp n r x (some m) e f, f) (holds-join_room m room sid r x)
          | inr f ↦ rw f (ground arith)
        ]

leave_one_by :
    (rooms : Rooms) (nsp room sid : Str) (o : Option (Map Set))
    → get nsp rooms ≡ o
    → leave_one rooms nsp room sid
      ≡ elim o [ none ↦ rooms | some m ↦ put nsp (leave_room m room sid) rooms ]
unfolding leave_one
leave_one_by rooms nsp room sid o e =
    ap (λ z. elim z [ none ↦ rooms | some m ↦ put nsp (leave_room m room sid) rooms ]) e

in-leave_one :
    (rooms : Rooms) (nsp room sid n r x : Str)
    → is_in (leave_one rooms nsp room sid) n r x
      ≡ (is_in rooms n r x && not (list_eq nsp n && (list_eq room r && list_eq x sid)))
in-leave_one rooms nsp room sid n r x = from (get nsp rooms) refl
  where
    from :
        (o : Option (Map Set))
        → get nsp rooms ≡ o
        → is_in (leave_one rooms nsp room sid) n r x
          ≡ (is_in rooms n r x && not (list_eq nsp n && (list_eq room r && list_eq x sid)))
    from none e =
        ap (λ z. is_in z n r x) (leave_one_by rooms nsp room sid none e)
        ∙ elim (Bool-cases (list_eq nsp n)) [
          | inl f ↦ rw (is_in_by rooms nsp n r x none e f, f) (unfold get contains in refl)
          | inr f ↦ rw f (ground arith)
        ]
    from (some m) e =
        ap (λ z. is_in z n r x) (leave_one_by rooms nsp room sid (some m) e)
        ∙ in-put rooms nsp (leave_room m room sid) n r x
        ∙ elim (Bool-cases (list_eq nsp n)) [
          | inl f ↦ rw (is_in_by rooms nsp n r x (some m) e f, f) (holds-leave_room m room sid r x)
          | inr f ↦ rw f (ground arith)
        ]

-- After `join`, a socket is in a room of a namespace if it was, or if it is the one that joined,
-- the namespace is the one given, and the room is among those given.
pub in-join :
    (rs : List Str) (rooms : Rooms) (nsp sid n r x : Str)
    → is_in (join rooms nsp rs sid) n r x
      ≡ (is_in rooms n r x || (list_eq nsp n && (contains r rs && list_eq sid x)))
unfolding join contains
in-join [] rooms nsp sid n r x = ground arith
in-join (room ∷ rs) rooms nsp sid n r x =
    in-join rs (join_one rooms nsp room sid) nsp sid n r x
    ∙ ground (arith, in-join_one rooms nsp room sid n r x)

-- After `leave`, a socket is in a room of a namespace if it was, unless it is the one that left,
-- the namespace is the one given, and the room is among those given.
pub in-leave :
    (rs : List Str) (rooms : Rooms) (nsp sid n r x : Str)
    → is_in (leave rooms nsp rs sid) n r x
      ≡ (is_in rooms n r x && not (list_eq nsp n && (contains r rs && list_eq x sid)))
unfolding leave contains
in-leave [] rooms nsp sid n r x = ground arith
in-leave (room ∷ rs) rooms nsp sid n r x =
    in-leave rs (leave_one rooms nsp room sid) nsp sid n r x
    ∙ ground (arith, in-leave_one rooms nsp room sid n r x)

holds-map_values :
    (p : Str → Bool) (m : Map Set) (r x : Str)
    → holds (map_values (retain p) m) r x ≡ (holds m r x && p x)
holds-map_values p m r x =
    ap (λ o. contains x (or_empty o)) (get-map_values (retain p) r m) ∙ by_option (get r m)
  where
    by_option :
        (o : Option Set)
        → contains x (or_empty (elim o [ none ↦ none | some s ↦ some (retain p s) ]))
          ≡ (contains x (or_empty o) && p x)
    by_option none = unfold contains in refl
    by_option (some s) = contains-retain x p s

-- After a client is dropped, a socket is in a room if it was and its id is not decoded to the id
-- of the client's engine.io socket.
pub in-drop_sids :
    (b64 : Base64) (esid : Str) (rooms : Rooms) (n r x : Str)
    → is_in (drop_sids b64 esid rooms) n r x ≡ (is_in rooms n r x && is_other b64 esid x)
unfolding is_in drop_sids
in-drop_sids b64 esid rooms n r x =
    ap (λ o. holds (or_empty o) r x)
      (get-map_values (map_values (retain (is_other b64 esid))) n rooms)
    ∙ by_option (get n rooms)
  where
    by_option :
        (o : Option (Map Set))
        → holds
            (or_empty
              (elim o [ none ↦ none | some m ↦ some (map_values (retain (is_other b64 esid)) m) ]))
            r
            x
          ≡ (holds (or_empty o) r x && is_other b64 esid x)
    by_option none = unfold get contains in refl
    by_option (some m) = holds-map_values (is_other b64 esid) m r x

-- ===== src/Socketio/Rooms/Membership.antt =====
-- socketio/src/server/server.rs: which socket is in which room, the view in which joining, leaving
-- and dropping are set operations.
use socket_io.Base.{
  ◌≡◌, refl, ap, ◌∙◌, List, [], ◌∷◌, ◌++◌, arith, Bool, true, false, ◌||◌, ◌&&◌, not, Option, none,
  some, Str, if◌then◌else◌, list_eq, list_eq_sound, subst, Bool-cases, inl, inr, if_true, if_false,
}
use socket_io.Base.Maps.{Map, get, put, get-put, get_same}
use socket_io.Socketio.Rooms.{Set, Rooms, contains, insert, retain, join_room, leave_room}

abbrev pub or_empty : {A : Type 0} → Option (List A) → List A
or_empty none = []
or_empty (some s) = s

-- The socket is in the room of the namespace.
unfoldable pub is_in : Rooms → Str → Str → Str → Bool
unfolding get contains
is_in rooms nsp room sid = contains sid (or_empty (get room (or_empty (get nsp rooms))))

contains-append : (x : Str) (s t : Set) → contains x (s ++ t) ≡ (contains x s || contains x t)
unfolding contains
contains-append x [] t = refl
contains-append x (y ∷ s) t = rw (contains-append x s t) (ground arith)

pub contains-insert :
    (x y : Str) (s : Set) → contains x (insert y s) ≡ (contains x s || list_eq y x)
unfolding insert
contains-insert x y s = elim (Bool-cases (contains y s)) [
  | inl e ↦ rw (if_true (contains y s) s (s ++ y ∷ []) e) (elim (Bool-cases (list_eq y x)) [
    | inl f ↦
        let e' : contains x s ≡ true = subst (λ z. contains z s ≡ true) (list_eq_sound y x f) e in
        ground arith
    | inr f ↦ ground arith
  ])
  | inr e ↦
      rw (if_false (contains y s) s (s ++ y ∷ []) e, contains-append x s (y ∷ []))
        (unfold contains in ground arith)
]

pub contains-retain :
    (x : Str) (p : Str → Bool) (s : Set) → contains x (retain p s) ≡ (contains x s && p x)
unfolding contains retain
contains-retain x p [] = refl
contains-retain x p (y ∷ s) = elim (Bool-cases (list_eq y x)) [
  | inl f ↦ let q : p y ≡ p x = ap p (list_eq_sound y x f) in ground (arith, contains-retain x p s)
  | inr f ↦ ground (arith, contains-retain x p s)
]

-- The rooms of one namespace.
abbrev pub holds : Map Set → Str → Str → Bool
holds m room sid = contains sid (or_empty (get room m))

holds-put :
    (m : Map Set) (room : Str) (s : Set) (r x : Str)
    → holds (put room s m) r x ≡ (if list_eq room r then contains x s else holds m r x)
holds-put m room s r x =
    ap (λ o. contains x (or_empty o)) (get-put room r s m) ∙ by_bool (list_eq room r)
  where
    by_bool :
        (b : Bool)
        → contains x (or_empty (if b then some s else get r m))
          ≡ (if b then contains x s else holds m r x)
    by_bool true = refl
    by_bool false = refl

pub in-put :
    (rooms : Rooms) (nsp : Str) (m : Map Set) (n r x : Str)
    → is_in (put nsp m rooms) n r x ≡ (if list_eq nsp n then holds m r x else is_in rooms n r x)
unfolding is_in
in-put rooms nsp m n r x =
    ap (λ o. holds (or_empty o) r x) (get-put nsp n m rooms) ∙ by_bool (list_eq nsp n)
  where
    by_bool :
        (b : Bool)
        → holds (or_empty (if b then some m else get n rooms)) r x
          ≡ (if b then holds m r x else holds (or_empty (get n rooms)) r x)
    by_bool true = refl
    by_bool false = refl

join_room_by :
    (m : Map Set) (room sid : Str) (o : Option Set)
    → get room m ≡ o
    → join_room m room sid
      ≡ elim o [ some s ↦ put room (insert sid s) m | none ↦ put room (sid ∷ []) m ]
unfolding join_room
join_room_by m room sid o e =
    ap (λ z. elim z [ some s ↦ put room (insert sid s) m | none ↦ put room (sid ∷ []) m ]) e

pub holds-join_room :
    (m : Map Set) (room sid r x : Str)
    → holds (join_room m room sid) r x ≡ (holds m r x || (list_eq room r && list_eq sid x))
holds-join_room m room sid r x = from (get room m) refl
  where
    from :
        (o : Option Set)
        → get room m ≡ o
        → holds (join_room m room sid) r x ≡ (holds m r x || (list_eq room r && list_eq sid x))
    from none e =
        ap (λ z. holds z r x) (join_room_by m room sid none e)
        ∙ holds-put m room (sid ∷ []) r x
        ∙ elim (Bool-cases (list_eq room r)) [
          | inl f ↦ rw (get_same room r m f, e, f) (unfold contains in ground arith)
          | inr f ↦ rw f (ground arith)
        ]
    from (some s) e =
        ap (λ z. holds z r x) (join_room_by m room sid (some s) e)
        ∙ holds-put m room (insert sid s) r x
        ∙ elim (Bool-cases (list_eq room r)) [
          | inl f ↦ rw (get_same room r m f, e, f) (contains-insert x sid s)
          | inr f ↦ rw f (ground arith)
        ]

leave_room_by :
    (m : Map Set) (room sid : Str) (o : Option Set)
    → get room m ≡ o
    → leave_room m room sid
      ≡ elim o [ some s ↦ put room (retain (λ x. not (list_eq x sid)) s) m | none ↦ m ]
unfolding leave_room
leave_room_by m room sid o e =
    ap (λ z. elim z [ some s ↦ put room (retain (λ x. not (list_eq x sid)) s) m | none ↦ m ]) e

pub holds-leave_room :
    (m : Map Set) (room sid r x : Str)
    → holds (leave_room m room sid) r x ≡ (holds m r x && not (list_eq room r && list_eq x sid))
holds-leave_room m room sid r x = from (get room m) refl
  where
    from :
        (o : Option Set)
        → get room m ≡ o
        → holds (leave_room m room sid) r x ≡ (holds m r x && not (list_eq room r && list_eq x sid))
    from none e =
        ap (λ z. holds z r x) (leave_room_by m room sid none e)
        ∙ elim (Bool-cases (list_eq room r)) [
          | inl f ↦ rw (get_same room r m f, e, f) (unfold contains in ground arith)
          | inr f ↦ rw f (ground arith)
        ]
    from (some s) e =
        ap (λ z. holds z r x) (leave_room_by m room sid (some s) e)
        ∙ holds-put m room (retain (λ y. not (list_eq y sid)) s) r x
        ∙ elim (Bool-cases (list_eq room r)) [
          | inl f ↦ rw (get_same room r m f, e, f) (contains-retain x (λ y. not (list_eq y sid)) s)
          | inr f ↦ rw f (ground arith)
        ]

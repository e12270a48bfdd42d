-- ===== src/Socketio/Rooms/Distinct.antt =====
-- socketio/src/server/server.rs, `sids_to_emit`: no socket is met twice, in whatever rooms it is.
use socket_io.Base.{
  ◌≡◌, ◌≢◌, refl, sym, ap, subst, ◌∙◌, List, [], ◌∷◌, ◌++◌, arith, true, false, ◌||◌, Option, none,
  some, Str, list_eq, list_eq_sound, list_eq_refl, list_eq_ne, All, Bool-cases, inl, inr, if_true,
  if_false,
}
use socket_io.Base.Maps.{Map, get}
use socket_io.Socketio.Rooms.{
  Set, Rooms, contains, insert, union, collect_sids, room_sids, sids_to_emit,
}

abbrev pub IsDistinct : Set → Type 0
IsDistinct [] = Unit {0}
IsDistinct (x ∷ xs) = (contains x xs ≡ false) × IsDistinct xs

unequal : (s t : Str) → list_eq s t ≡ false → s ≢ t
unequal s t h e =
    let t' : list_eq s t ≡ true = ap (list_eq s) (sym e) ∙ list_eq_refl s in cc (h, t')

contains-snoc : (y x : Str) (s : Set) → contains y (s ++ x ∷ []) ≡ (contains y s || list_eq x y)
unfolding contains
contains-snoc y x [] = ground arith
contains-snoc y x (z ∷ s) = ground (arith, contains-snoc y x s)

-- An element that is not there is another than all.
pub others : (x : Str) (s : Set) → contains x s ≡ false → All (λ (y : Str). y ≢ x) s
unfolding contains
others x [] h = tt
others x (y ∷ s) h = (unequal y x (ground arith), others x s (ground arith))

snoc-IsDistinct :
    (s : Set) (x : Str) → IsDistinct s → contains x s ≡ false → IsDistinct (s ++ x ∷ [])
unfolding contains
snoc-IsDistinct [] x d h = (unfold contains in refl, tt)
snoc-IsDistinct (y ∷ s) x (hy, d) h =
    let (n, hs) = others x (y ∷ s) h in
    (
      contains-snoc y x s ∙ rw (hy, list_eq_ne x y (λ e. n (sym e))) refl,
      snoc-IsDistinct s x d (ground arith),
    )

insert-IsDistinct : (x : Str) (s : Set) → IsDistinct s → IsDistinct (insert x s)
unfolding insert
insert-IsDistinct x s d = elim (Bool-cases (contains x s)) [
  | inl e ↦ subst IsDistinct (sym (if_true _ s (s ++ x ∷ []) e)) d
  | inr e ↦ subst IsDistinct (sym (if_false _ s (s ++ x ∷ []) e)) (snoc-IsDistinct s x d e)
]

union-IsDistinct : (t s : Set) → IsDistinct s → IsDistinct (union s t)
union-IsDistinct [] s d = d
union-IsDistinct (x ∷ t) s d = union-IsDistinct t (insert x s) (insert-IsDistinct x s d)

collect_sids-IsDistinct :
    (m : Map Set) (names : List Str) (s : Set) → IsDistinct s → IsDistinct (collect_sids m names s)
unfolding collect_sids
collect_sids-IsDistinct m [] s d = d
collect_sids-IsDistinct m (r ∷ rs) s d =
    collect_sids-IsDistinct m rs _ (union-IsDistinct (room_sids m r) s d)

-- What is emitted to some names of a namespace goes to each socket once.
pub sids_to_emit-IsDistinct :
    (rooms : Rooms) (nsp : Str) (names : List Str) → IsDistinct (sids_to_emit rooms nsp names)
unfolding sids_to_emit
sids_to_emit-IsDistinct rooms nsp names = from (get nsp rooms)
  where
    from :
        (o : Option (Map Set))
        → IsDistinct (elim o [ none ↦ [] | some m ↦ collect_sids m names [] ])
    from none = tt
    from (some m) = collect_sids-IsDistinct m names [] tt

-- One of distinct elements stands between others.
pub split_at :
    (x : Str) (s : Set)
    → IsDistinct s
    → contains x s ≡ true
    → (pre post : Set) × (s ≡ pre ++ x ∷ post)
      × All (λ (y : Str). y ≢ x) pre
      × All (λ (y : Str). y ≢ x) post
unfolding contains
split_at x [] d h = unfold contains in cc h
split_at x (y ∷ s) (hy, d) h = elim (Bool-cases (list_eq y x)) [
  | inl e ↦
      let e' = list_eq_sound y x e in
      ([], s, ap (λ z. z ∷ s) e', tt, others x s (ap (λ z. contains z s) (sym e') ∙ hy))
  | inr e ↦
      let (pre, post, f, hp, hq) = split_at x s d (ground arith) in
      (y ∷ pre, post, ap (◌∷◌ y) f, (unequal y x e, hp), hq)
]

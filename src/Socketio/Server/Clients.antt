-- ===== src/Socketio/Server/Clients.antt =====
-- socketio/src/server/server.rs: which clients a server has after the operations on its table.
use socket_io.Base.{
  ◌≡◌, refl, sym, ap, ◌∙◌, arith, true, false, ◌&&◌, not, Option, none, some, Str, if◌then◌else◌,
  list_eq, list_eq_refl, list_eq_sound, Bool-cases, inl, inr,
}
use socket_io.Base.Maps.{Map, get, put, erase, get-put, get-erase, get_same}
use socket_io.Engineio.External.{Base64}
use socket_io.Socketio.External.{Json}
use socket_io.Socketio.Rooms.{is_other}
use socket_io.Socketio.Sids.{decode}
use socket_io.Socketio.Socket.{Socket}
use socket_io.Socketio.Server.{Server, option_bind, or_default, client, insert_client, drop_client}

list_eq_comm : (s t : Str) → list_eq s t ≡ list_eq t s
list_eq_comm s t = elim (Bool-cases (list_eq s t)) [
  | inl e ↦ ap (λ x. list_eq x t) (list_eq_sound s t e) ∙ ap (list_eq t) (sym (list_eq_sound s t e))
  | inr e ↦ elim (Bool-cases (list_eq t s)) [
    | inl f ↦
        ap (λ x. list_eq x t) (sym (list_eq_sound t s f)) ∙ ap (list_eq t) (list_eq_sound t s f)
    | inr f ↦ e ∙ sym f
  ]
]

-- The value below two keys.
abbrev below : {A : Type 0} → Map (Map A) → Str → Str → Option A
below m sid nsp = option_bind (get sid m) (λ n. get nsp n)

get-or_default :
    {A : Type 0} (o : Option (Map A)) (k : Str)
    → get k (or_default o) ≡ option_bind o (λ m. get k m)
unfolding get
get-or_default none k = refl
get-or_default (some m) k = refl

below-or_default :
    {A : Type 0} (o : Option (Map (Map A))) (sid nsp : Str)
    → below (or_default o) sid nsp ≡ option_bind o (λ m. below m sid nsp)
unfolding get
below-or_default none sid nsp = refl
below-or_default (some m) sid nsp = refl

below-put :
    {A : Type 0} (m : Map (Map A)) (sid nsp sid' nsp' : Str) (a : A)
    → below (put sid (put nsp a (or_default (get sid m))) m) sid' nsp'
      ≡ (if list_eq sid sid' && list_eq nsp nsp' then some a else below m sid' nsp')
below-put m sid nsp sid' nsp' a =
    let inner = put nsp a (or_default (get sid m)) in
    ap (λ o. option_bind o (λ n. get nsp' n)) (get-put sid sid' inner m)
    ∙ (elim (Bool-cases (list_eq sid sid')) [
      | inl e ↦ ground (
        arith,
        e,
        get-put nsp nsp' a (or_default (get sid m)),
        get-or_default (get sid m) nsp',
        get_same sid sid' m e,
      )
      | inr e ↦ ground (arith, e)
    ])

module _ (j : Json) (b64 : Base64) where
  -- What `client` finds below an engine.io id.
  abbrev found : Option (Map (Map (Socket j))) → Str → Str → Option (Socket j)
  found o sid nsp = option_bind o (λ sids. below sids sid nsp)

  client-drop_client_by :
      (server : Server j) (esid sid nsp : Str) (o : Option Str)
      → option_bind o (λ e. found (get e (erase esid server.clients)) sid nsp) ≡ (
          if elim o [ none ↦ true | some e ↦ not (list_eq e esid) ]
          then option_bind o (λ e. found (get e server.clients) sid nsp)
          else none)
  client-drop_client_by server esid sid nsp none = refl
  client-drop_client_by server esid sid nsp (some e) =
      ap (λ o. found o sid nsp) (get-erase esid e server.clients)
      ∙ ap (λ b. found (if b then none else get e server.clients) sid nsp) (list_eq_comm esid e)
      ∙ ground arith

  -- The clients of a server after `drop_client`: none of the engine.io socket that is dropped, and
  -- all of the others as before.
  pub client-drop_client :
      (server : Server j) (esid sid nsp : Str)
      → client j b64 (drop_client j b64 server esid) sid nsp
        ≡ (if is_other b64 esid sid then client j b64 server sid nsp else none)
  unfolding client drop_client is_other
  client-drop_client server esid sid nsp =
      client-drop_client_by server esid sid nsp (decode b64 sid)

  other_sid :
      (esid sid sid' x : Str)
      → decode b64 sid ≡ some esid
      → decode b64 sid' ≡ some x
      → list_eq esid x ≡ false
      → list_eq sid sid' ≡ false
  other_sid esid sid sid' x there e g = elim (Bool-cases (list_eq sid sid')) [
    | inl f ↦ absurd (cc (there, e, ap (decode b64) (list_eq_sound sid sid' f), g, list_eq_refl x))
    | inr f ↦ f
  ]

  insert_by :
      (server : Server j) (esid sid nsp sid' nsp' : Str) (c : Socket j) (o : Option Str)
      → decode b64 sid ≡ some esid
      → decode b64 sid' ≡ o
      → option_bind o (λ e. found (get e (insert_client j server esid sid nsp c).clients) sid' nsp')
        ≡ (if list_eq sid sid' && list_eq nsp nsp'
            then some c
            else option_bind o (λ e. found (get e server.clients) sid' nsp'))
  unfolding insert_client
  insert_by server esid sid nsp sid' nsp' c none there e = elim (Bool-cases (list_eq sid sid')) [
    | inl f ↦ absurd (cc (there, e, ap (decode b64) (list_eq_sound sid sid' f)))
    | inr f ↦ ground (arith, f)
  ]
  insert_by server esid sid nsp sid' nsp' c (some x) there e =
      let sids = or_default (get esid server.clients) in
      let new_sids = put sid (put nsp c (or_default (get sid sids))) sids in
      ap (λ o. found o sid' nsp') (get-put esid x new_sids server.clients)
      ∙ (elim (Bool-cases (list_eq esid x)) [
        | inl g ↦
            ap (λ b. found (if b then some new_sids else get x server.clients) sid' nsp') g
            ∙ below-put sids sid nsp sid' nsp' c
            ∙ ap (λ r. if list_eq sid sid' && list_eq nsp nsp' then some c else r)
                (below-or_default (get esid server.clients) sid' nsp'
                  ∙ ap (λ o. found o sid' nsp') (sym (get_same esid x server.clients g)))
        | inr g ↦
            ap (λ b. found (if b then some new_sids else get x server.clients) sid' nsp') g
            ∙ sym (
                ap
                  (λ b.
                    if b && list_eq nsp nsp'
                    then some c
                    else found (get x server.clients) sid' nsp')
                  (other_sid esid sid sid' x there e g))
      ])

  -- The clients of a server after a client is inserted.
  pub client-insert_client :
      (server : Server j) (esid sid nsp sid' nsp' : Str) (c : Socket j)
      → decode b64 sid ≡ some esid
      → client j b64 (insert_client j server esid sid nsp c) sid' nsp'
        ≡ (if list_eq sid sid' && list_eq nsp nsp' then some c else client j b64 server sid' nsp')
  unfolding client
  client-insert_client server esid sid nsp sid' nsp' c there =
      insert_by server esid sid nsp sid' nsp' c (decode b64 sid') there refl

-- ===== src/Socketio/Acks/Removal.antt =====
-- socketio/src/socket.rs: the two loops of `handle_ack` remove the one ack with an id, where no
-- two have the same id.
use socket_io.Base.{
  ℕ, suc, ◌+◌, ◌≡◌, ◌≢◌, ◌⊎◌, inl, inr, refl, sym, ap, ◌∙◌, List, [], ◌∷◌, ◌++◌, arith, some, ◌==◌,
  ==_refl, ==_ne, if◌then◌else◌, length, All, Bool-cases, ==_iff, All-append, All-split,
}
use socket_io.Socketio.Acks.{Ack, ack_loop, is_alive, remove, remove_all}

-- No ack has the id.
abbrev pub LacksId : ℕ → List Ack → Type 0
LacksId id = All (λ a. a.id ≢ id)

abbrev pub DistinctIds : List Ack → Type 0
DistinctIds [] = Unit {0}
DistinctIds (a ∷ acks) = LacksId a.id acks × DistinctIds acks

pub ack_loop_lacks :
    (id now index : ℕ) (acks : List Ack) → LacksId id acks → ack_loop id now index acks ≡ ([], [])
unfolding ack_loop
ack_loop_lacks id now index [] h = refl
ack_loop_lacks id now index (a ∷ acks) (ha, h) =
    rw (==_ne a.id id ha) (ack_loop_lacks id now (index + 1) acks h)

ack_loop_found :
    (now index : ℕ) (pre : List Ack) (a : Ack) (post : List Ack)
    → LacksId a.id pre
    → LacksId a.id post
    → ack_loop a.id now index (pre ++ a ∷ post)
      ≡ ((index + length pre) ∷ [], (if is_alive now a then a.callback ∷ [] else []))
unfolding ack_loop
ack_loop_found now index [] a post hp hq =
    rw (==_refl a.id, ack_loop_lacks a.id now (index + 1) post hq)
      (let e : index + 0 ≡ index = omega arith in ap (λ n. (n ∷ [], _)) (sym e))
ack_loop_found now index (b ∷ pre) a post (hb, hp) hq = rw (==_ne b.id a.id hb) (
    ack_loop_found now (index + 1) pre a post hp hq
    ∙ let e : index + 1 + length pre ≡ index + suc (length pre) = omega arith in rw e)

remove_mid {ℓ} :
    {A : Type ℓ} (pre : List A) (a : A) (post : List A)
    → remove (pre ++ a ∷ post) (length pre) ≡ some (pre ++ post)
unfolding remove
remove_mid [] a post = refl
remove_mid (b ∷ pre) a post = rw (remove_mid pre a post)

pub Distinct-split :
    (pre : List Ack) (a : Ack) (post : List Ack)
    → DistinctIds (pre ++ a ∷ post)
    → LacksId a.id pre × LacksId a.id post × DistinctIds (pre ++ post)
Distinct-split [] a post (ha, h) = (tt, ha, h)
Distinct-split (b ∷ pre) a post (hb, h) =
    let (p, q, d) = Distinct-split pre a post h in
    let (hp, (ha, hq)) = All-split (λ c. c.id ≢ b.id) pre (a ∷ post) hb in
    ((λ e. ha (sym e), p), q, (All-append (λ c. c.id ≢ b.id) pre post hp hq, d))

-- An id is that of no ack, or of one that is between others.
pub find_id :
    (id : ℕ) (acks : List Ack)
    → LacksId id acks
      ⊎ ((pre : List Ack) × (a : Ack) × (post : List Ack) × (a.id ≡ id) × (acks ≡ pre ++ a ∷ post))
find_id id [] = inl tt
find_id id (b ∷ acks) = elim (Bool-cases (b.id == id)) [
  | inl e ↦ inr ([], b, acks, (==_iff b.id id).0 e, refl)
  | inr e ↦ elim (find_id id acks) [
    | inl h ↦ inl (ground arith, h)
    | inr (pre, a, post, ea, es) ↦ inr (b ∷ pre, a, post, ea, ap (◌∷◌ b) es)
  ]
]

-- The one ack with its id is removed, and its callback is called if its time is not over.
pub remove_all_found :
    (now : ℕ) (pre : List Ack) (a : Ack) (post : List Ack)
    → DistinctIds (pre ++ a ∷ post)
    → (remove_all (pre ++ a ∷ post) (ack_loop a.id now 0 (pre ++ a ∷ post)).0 ≡ some (pre ++ post))
      × ((ack_loop a.id now 0 (pre ++ a ∷ post)).1
          ≡ (if is_alive now a then a.callback ∷ [] else []))
unfolding remove_all
remove_all_found now pre a post h =
    let (p, q, _) = Distinct-split pre a post h in
    let e : 0 + length pre ≡ length pre = omega arith in
    rw (ack_loop_found now 0 pre a post p q, e, remove_all, remove_mid pre a post) (refl, refl)

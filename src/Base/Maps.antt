-- ===== src/Base/Maps.antt =====
-- The maps of the servers, whose keys are texts: a list of keys and values, the first of a key being
-- its value.
use mathlib.Core.Path.{◌≡◌, refl, sym, ap, ◌∙◌}
use mathlib.Core.Logic.{inl, inr}
use mathlib.Core.Bool.{true, false}
use mathlib.Core.Option.{Option, none, some}
use mathlib.Core.List.{List, [], ◌∷◌}
use native.Mathlib.Omega.{arith}
use socket_io.Base.Tests.{if◌then◌else◌, Bool-cases}
use socket_io.Base.Lists.{Str, list_eq, list_eq_refl, list_eq_sound}

abbrev pub Map : Type 0 → Type 0
Map A = List (Str × A)

unfoldable pub get : {A : Type 0} → Str → Map A → Option A
get k [] = none
get k ((l, a) ∷ m) = if list_eq l k then some a else get k m

-- The value of a key is changed in place, or put behind the others.
unfoldable pub put : {A : Type 0} → Str → A → Map A → Map A
put k a [] = (k, a) ∷ []
put k a ((l, b) ∷ m) = let rest = put k a m in if list_eq l k then (l, a) ∷ m else (l, b) ∷ rest

unfoldable pub map_values : {A : Type 0} → (A → A) → Map A → Map A
map_values f [] = []
map_values f ((k, a) ∷ m) = (k, f a) ∷ map_values f m

-- All entries of a key go; there is at most one.
unfoldable pub erase : {A : Type 0} → Str → Map A → Map A
erase k [] = []
erase k ((l, a) ∷ m) = let rest = erase k m in if list_eq l k then rest else (l, a) ∷ rest

pub list_eq_join : (n k l : Str) → list_eq n l ≡ true → list_eq k l ≡ true → list_eq n k ≡ true
list_eq_join n k l e f =
    ap (λ m. list_eq m k) (list_eq_sound n l e ∙ sym (list_eq_sound k l f)) ∙ list_eq_refl k

pub get-put :
    {A : Type 0} (k l : Str) (a : A) (m : Map A)
    → get l (put k a m) ≡ (if list_eq k l then some a else get l m)
unfolding get put
get-put k l a [] = refl
get-put k l a ((n, b) ∷ m) = elim (Bool-cases (list_eq n k)) [
  | inl f ↦
      let q : list_eq n l ≡ list_eq k l = ap (λ z. list_eq z l) (list_eq_sound n k f) in
      ground (arith, get-put k l a m)
  | inr f ↦ ground (arith, get-put k l a m, list_eq_join n k l)
]

pub get-map_values :
    {A : Type 0} (f : A → A) (k : Str) (m : Map A)
    → get k (map_values f m) ≡ elim (get k m) [ none ↦ none | some a ↦ some (f a) ]
unfolding get map_values
get-map_values f k [] = refl
get-map_values f k ((l, a) ∷ m) = ground (arith, get-map_values f k m)

pub get-erase :
    {A : Type 0} (k l : Str) (m : Map A)
    → get l (erase k m) ≡ (if list_eq k l then none else get l m)
unfolding get erase
get-erase k l [] = ground arith
get-erase k l ((n, b) ∷ m) = elim (Bool-cases (list_eq n k)) [
  | inl f ↦
      let q : list_eq n l ≡ list_eq k l = ap (λ z. list_eq z l) (list_eq_sound n k f) in
      ground (arith, get-erase k l m)
  | inr f ↦ ground (arith, get-erase k l m, list_eq_join n k l)
]

pub get_same : {A : Type 0} (k l : Str) (m : Map A) → list_eq k l ≡ true → get l m ≡ get k m
get_same k l m e = ap (λ z. get z m) (sym (list_eq_sound k l e))

pub get_put_same : {A : Type 0} (k : Str) (a : A) (m : Map A) → get k (put k a m) ≡ some a
get_put_same k a m = get-put k k a m ∙ ap (λ b. if b then some a else get k m) (list_eq_refl k)

pub get_erase_same : {A : Type 0} (k : Str) (m : Map A) → get k (erase k m) ≡ none
get_erase_same k m = get-erase k k m ∙ ap (λ b. if b then none else get k m) (list_eq_refl k)

pub get_put_other :
    {A : Type 0} (k l : Str) (a : A) (m : Map A) → list_eq k l ≡ false → get l (put k a m) ≡ get l m
get_put_other k l a m n = get-put k l a m ∙ ap (λ b. if b then some a else get l m) n

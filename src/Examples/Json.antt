-- ===== src/Examples/Json.antt =====
-- A stand-in for the library serde_json: trees with their printer, and a reader of one sample.
use socket_io.Base.{
  ℕ, ◌≡◌, refl, ap, List, [], ◌∷◌, ◌++◌, Bool, true, false, Option, none, some, Str, list_eq,
  if◌then◌else◌,
}
use socket_io.Base.Decimal.{to_string as decimal}
use socket_io.Socketio.External.{Json, IsLawful, lookup}

mutual
  pub data Tree : Type 0 where
    null : Tree
    bool : Bool → Tree
    number : ℕ → Tree
    string : Str → Tree
    array : Items → Tree
    object : Fields → Tree

  pub data Items : Type 0 where
    end : Items
    item : Tree → Items → Items

  pub data Fields : Type 0 where
    done : Fields
    field : Str → Tree → Fields → Fields

abbrev quoted : Str → Str
quoted s = b'"' ∷ (s ++ b'"' ∷ [])

unfoldable mutual
  unfolding decimal

  pub print : Tree → Str
  print null = b'n' ∷ b'u' ∷ b'l' ∷ b'l' ∷ []
  print (bool true) = b't' ∷ b'r' ∷ b'u' ∷ b'e' ∷ []
  print (bool false) = b'f' ∷ b'a' ∷ b'l' ∷ b's' ∷ b'e' ∷ []
  print (number n) = decimal n
  print (string s) = quoted s
  print (array xs) = b'[' ∷ print_items xs
  print (object fs) = b'{' ∷ print_fields fs

  pub print_items : Items → Str
  print_items end = b']' ∷ []
  print_items (item x xs) = print x ++ b',' ∷ print_items xs

  pub print_fields : Fields → Str
  print_fields done = b'}' ∷ []
  print_fields (field k v fs) = quoted k ++ (b':' ∷ (print v ++ b',' ∷ print_fields fs))

abbrev pub of_list : List Tree → Items
of_list [] = end
of_list (v ∷ vs) = item v (of_list vs)

abbrev pub to_list : Items → List Tree
to_list end = []
to_list (item v vs) = v ∷ to_list vs

abbrev of_fields : List (Str × Tree) → Fields
of_fields [] = done
of_fields ((k, v) ∷ fs) = field k v (of_fields fs)

abbrev find : Str → Fields → Option Tree
find k done = none
find k (field i v fs) = if list_eq i k then some v else find k fs

abbrev as_array : Tree → Option (List Tree)
as_array (array xs) = some (to_list xs)
as_array _ = none

abbrev as_str : Tree → Option Str
as_str (string s) = some s
as_str _ = none

abbrev as_u64 : Tree → Option ℕ
as_u64 (number n) = some n
as_u64 _ = none

abbrev get : Tree → Str → Option Tree
get (object fs) k = find k fs
get _ k = none

-- The library that can read the text of one value.
abbrev pub trees : Tree → Json
trees sample = record {
  Value = Tree;
  null = null;
  bool = bool;
  number = number;
  string = string;
  array = λ vs. array (of_list vs);
  object = λ fs. object (of_fields fs);
  as_array = as_array;
  as_str = as_str;
  as_u64 = as_u64;
  get = get;
  to_string = print;
  from_str = λ s. if list_eq s (print sample) then some sample else none;
}

to_list-of_list : (vs : List Tree) → to_list (of_list vs) ≡ vs
to_list-of_list [] = refl
to_list-of_list (v ∷ vs) = ap (◌∷◌ v) (to_list-of_list vs)

find-of_fields : (k : Str) (fs : List (Str × Tree)) → find k (of_fields fs) ≡ lookup k fs
find-of_fields k [] = refl
find-of_fields k ((i, v) ∷ fs) = ap (λ r. if list_eq i k then some v else r) (find-of_fields k fs)

pub trees-IsLawful : (sample : Tree) → IsLawful (trees sample)
unfolding print
trees-IsLawful sample = record {
  as_array-array = λ vs. ap some (to_list-of_list vs);
  as_str-array = λ vs. refl;
  as_str-string = λ s. refl;
  as_u64-number = λ n h. refl;
  get-object = find-of_fields;
  to_string-array = λ vs. (print_items (of_list vs), refl);
}

-- ===== src/Socketio/Packet/Scan.antt =====
-- socketio/src/packet.rs: the steps of the reader, each on what the writer wrote for it.
use socket_io.Base.{
  ℕ, ◌≤◌, ◌<◌, ◌≡◌, ◌≢◌, refl, List, [], ◌∷◌, ◌++◌, append-nil, arith, Bool, true, false, Option,
  none, some, Str, ==_ne, ==_refl, ok, Lacks, All, All-imp, Option-cases, inl, inr, snoc-append,
  subst,
}
use socket_io.Base.Decimal.{
  to_string, parse, is_ascii_digit, IsDigit, to_string-IsDigit, parse-to_string,
}
use socket_io.Socketio.External.{Json, max_u64}
use socket_io.Socketio.Packet.{
  PacketType, Packet, count_text, nsp_text, id_text, is_binary, take_until, take_digits,
  default_packet, some_content, decode_content, decode_id, decode_nsp, decode_count,
}

take_until-append :
    (stop : ℕ) (s rest : Str) → Lacks stop s → take_until stop (s ++ stop ∷ rest) ≡ some (s, rest)
unfolding take_until
take_until-append stop [] rest h = rw (==_refl stop)
take_until-append stop (c ∷ s) rest (hc, hs) =
    rw (==_ne c stop hc, take_until-append stop s rest hs)

digit_test : (c : ℕ) → IsDigit c → is_ascii_digit c ≡ true
digit_test c h = ground arith

take_digits-append :
    (ds : Str) (c : ℕ) (rest : Str)
    → All IsDigit ds
    → is_ascii_digit c ≡ false
    → take_digits (ds ++ c ∷ rest) ≡ some (ds, c ∷ rest)
unfolding take_digits
take_digits-append [] c rest h n = rw n
take_digits-append (d ∷ ds) c rest (hd, hs) n =
    rw (digit_test d hd, take_digits-append ds c rest hs n)

take_digits_end : (ds : Str) → All IsDigit ds → take_digits ds ≡ none
unfolding take_digits
take_digits_end [] h = refl
take_digits_end (d ∷ ds) (hd, hs) = rw (digit_test d hd, take_digits_end ds hs)

digits-Lacks : (stop : ℕ) (ds : Str) → ¬ IsDigit stop → All IsDigit ds → Lacks stop ds
digits-Lacks stop ds n = All-imp IsDigit (λ c. c ≢ stop) (λ c h e. n (subst IsDigit e h)) ds

-- The first character of a text is another than `b`.
abbrev pub HeadNot : ℕ → Str → Type 0
HeadNot b [] = Unit {0}
HeadNot b (c ∷ s) = c ≢ b

-- A number of attachments is a `u8`, and there are none but in a binary packet.
abbrev pub CountFits : Bool → ℕ → Type 0
CountFits true n = n < 256
CountFits false n = n ≡ 0

abbrev pub IdFits : Option ℕ → Type 0
IdFits none = Unit {0}
IdFits (some n) = n ≤ max_u64

module _ (j : Json) where
  abbrev pub counted : PacketType → ℕ → Packet j
  counted t n = record (default_packet j) { ptype = t; attachment_count = n }

  decode_count_test :
      (t : PacketType) (b : Bool) (n : ℕ) (s : Str)
      → is_binary t ≡ b
      → CountFits b n
      → decode_count j t (count_text t n ++ s) ≡ decode_nsp j (counted t n) s
  unfolding decode_count
  decode_count_test t true n s e fits =
      rw
        (
          e,
          snoc-append (to_string n) b'-' s,
          take_until-append b'-' (to_string n) s
              (digits-Lacks b'-' (to_string n) (λ d. omega arith) (to_string-IsDigit n)),
          parse-to_string 255 n (omega arith),
        )
        refl
  decode_count_test t false n s e fits = rw (e, fits) (unfold parse in refl)

  pub decode_count-text :
      (t : PacketType) (n : ℕ) (s : Str)
      → CountFits (is_binary t) n
      → decode_count j t (count_text t n ++ s) ≡ decode_nsp j (counted t n) s
  decode_count-text t n s fits = decode_count_test t (is_binary t) n s refl fits

  pub decode_nsp-text :
      (t : PacketType) (n : ℕ) (nsp s : Str)
      → Lacks b',' nsp
      → HeadNot b'/' s
      → decode_nsp j (counted t n) (nsp_text (b'/' ∷ nsp) ++ s)
        ≡ decode_id j (record (counted t n) { nsp = b'/' ∷ nsp }) s
  unfolding decode_nsp
  decode_nsp-text t n [] [] h hs = unfold decode_id in refl
  decode_nsp-text t n [] (c ∷ s) h hs = rw (==_ne c b'/' hs)
  decode_nsp-text t n (x ∷ nsp) s h hs =
      rw (snoc-append nsp b',' s, take_until-append b',' (x ∷ nsp) s h)

  pub decode_id-text :
      (p : Packet j) (id : Option ℕ) (c : ℕ) (s : Str)
      → IdFits id
      → is_ascii_digit c ≡ false
      → decode_id j p (id_text id ++ c ∷ s) ≡ decode_content j (record p { id = id }) (c ∷ s)
  unfolding decode_id
  decode_id-text p none c s h n =
      rw (decode_id, take_digits-append [] c s tt n) (unfold parse in refl)
  decode_id-text p (some i) c s h n =
      rw
        (
          decode_id,
          take_digits-append (to_string i) c s (to_string-IsDigit i) n,
          parse-to_string max_u64 i h,
        )
        refl

  -- Without data the digits of the id run to the end of the text, and are dropped.
  pub decode_id_end : (p : Packet j) (id : Option ℕ) → decode_id j p (id_text id ++ []) ≡ ok p
  unfolding decode_id
  decode_id_end p none = refl
  decode_id_end p (some i) =
      rw (append-nil (to_string i), decode_id, take_digits_end (to_string i) (to_string-IsDigit i))

  pub some_content_lem : (v : j.Value) → j.as_array v ≢ some [] → some_content j v ≡ some v
  unfolding some_content
  some_content_lem v h = elim (Option-cases (j.as_array v)) [
    | inl e ↦ rw (e, some_content)
    | inr (vs, e) ↦ filled vs e
  ]
    where
      filled : (vs : List j.Value) → j.as_array v ≡ some vs → some_content j v ≡ some v
      filled [] e = absurd (h e)
      filled (x ∷ xs) e = rw (e, some_content)

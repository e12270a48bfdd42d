-- ===== src/Engineio/Payload/Split.antt =====
-- The specification of a payload: the pieces between the separators, each decoded as a packet.
use socket_io.Base.{
  ℕ, suc, ◌+◌, ◌-◌, ◌≡◌, ◌≢◌, refl, sym, ap, ◌∙◌, List, [], ◌∷◌, ◌++◌, append_assoc, arith, true,
  false, Bytes, ◌==◌, ==_ne, if◌then◌else◌, ok, err, ◌>>=◌, length, take-append, drop-append,
  get_elem?-append, length-append, snoc-append, append-nil, Lacks, All, Bool-cases, inl, inr,
}
use socket_io.Engineio.Error.{Result}
use socket_io.Engineio.External.{Base64}
use socket_io.Engineio.Packet.{Packet}
use socket_io.Engineio.Packet
use socket_io.Engineio.Payload.{separator, slice, is_separator, at_separator, decode_loop, decode}

unfoldable pub push_front : ℕ → List Bytes → List Bytes
push_front c [] = (c ∷ []) ∷ []
push_front c (p ∷ ps) = (c ∷ p) ∷ ps

-- The pieces between the separators.
unfoldable pub split : Bytes → List Bytes
unfolding push_front
split [] = [] ∷ []
split (c ∷ s) = let rest = split s in if c == separator then [] ∷ rest else push_front c rest

-- The pieces with a separator between them.
unfoldable pub join : List Bytes → Bytes
join [] = []
join (p ∷ []) = p
join (p ∷ q ∷ ps) = p ++ separator ∷ join (q ∷ ps)

-- Decode every piece, up to the first that fails.
unfoldable pub decode_all : Base64 → List Bytes → Result (List Packet)
decode_all b64 [] = ok []
decode_all b64 (b ∷ bs) = Packet.decode b64 b >>= λ p. decode_all b64 bs >>= λ ps. ok (p ∷ ps)

-- `split` with the piece read so far.
cut : Bytes → Bytes → List Bytes
cut cur [] = cur ∷ []
cut cur (c ∷ s) = elim (c == separator) [ true ↦ cur ∷ cut [] s | false ↦ cut (cur ++ c ∷ []) s ]

prepend : Bytes → List Bytes → List Bytes
prepend b [] = b ∷ []
prepend b (p ∷ ps) = (b ++ p) ∷ ps

prepend-push_front :
    (b : Bytes) (c : ℕ) (ps : List Bytes) → prepend (b ++ c ∷ []) ps ≡ prepend b (push_front c ps)
unfolding prepend push_front
prepend-push_front b c [] = refl
prepend-push_front b c (p ∷ ps) = rw (snoc-append b c p)

pub split-ne-nil : (s : Bytes) → split s ≢ []
unfolding split
split-ne-nil [] h = cc
split-ne-nil (c ∷ s) h = ground (arith, split-ne-nil s)

prepend-nil : (ps : List Bytes) → ps ≢ [] → prepend [] ps ≡ ps
unfolding prepend
prepend-nil [] h = absurd (h refl)
prepend-nil (p ∷ ps) h = refl

cut-separator : (cur s : Bytes) (c : ℕ) → (c == separator) ≡ true → cut cur (c ∷ s) ≡ cur ∷ cut [] s
unfolding cut
cut-separator cur s c e = rw (e, cut)

cut_other :
    (cur s : Bytes) (c : ℕ) → (c == separator) ≡ false → cut cur (c ∷ s) ≡ cut (cur ++ c ∷ []) s
unfolding cut
cut_other cur s c e = rw (e, cut)

cut-split : (cur s : Bytes) → cut cur s ≡ prepend cur (split s)
cut-split cur [] = unfold cut split prepend in rw append-nil
cut-split cur (c ∷ s) = elim (Bool-cases (c == separator)) [
  | inl e ↦
      rw (cut-separator cur s c e, cut-split [] s, prepend-nil (split s) (split-ne-nil s))
        (unfold split prepend in ground (arith, append-nil cur))
  | inr e ↦
      rw (cut_other cur s c e, cut-split (cur ++ c ∷ []) s, prepend-push_front cur c (split s))
        (unfold split in ground arith)
]

slice_mid :
    (pre cur rest : Bytes)
    → slice (length pre) (length pre + length cur) (pre ++ (cur ++ rest)) ≡ cur
slice_mid pre cur rest =
    rw
      (
        drop-append pre (cur ++ rest),
        let e : length pre + length cur - length pre ≡ length cur = omega arith in e,
      )
      (take-append cur rest)

is_separator_mid :
    (pre cur rest : Bytes) (c : ℕ)
    → is_separator (pre ++ (cur ++ c ∷ rest)) (length pre + length cur) ≡ (c == separator)
is_separator_mid pre cur rest c =
    rw (← append_assoc pre cur (c ∷ rest), ← length-append pre cur)
      (ap at_separator (get_elem?-append (pre ++ cur) (c ∷ rest)))

regroup :
    (pre cur rest : Bytes) (c : ℕ)
    → pre ++ (cur ++ c ∷ rest) ≡ (pre ++ (cur ++ c ∷ [])) ++ ([] ++ rest)
regroup pre cur rest c = rw (append_assoc pre (cur ++ c ∷ []) rest, snoc-append cur c rest)

length_regroup :
    (pre cur : Bytes) (c : ℕ) → length pre + length cur + 1 ≡ length (pre ++ (cur ++ c ∷ [])) + 0
length_regroup pre cur c =
    omega (arith, length-append pre (cur ++ c ∷ []), length-append cur (c ∷ []))

behind_nil : (r : Result (List Packet)) → (r >>= λ ps. ok ([] ++ ps)) ≡ r
behind_nil (ok ps) = refl
behind_nil (err e) = refl

module _ (b64 : Base64) where
  abbrev behind : List Packet → Result (List Packet) → Result (List Packet)
  behind vec r = r >>= λ ps. ok (vec ++ ps)

  behind_snoc :
      (vec : List Packet) (p : Packet) (g : Result (List Packet))
      → behind (vec ++ p ∷ []) g ≡ behind vec (g >>= λ ps. ok (p ∷ ps))
  behind_snoc vec p (ok ps) = ap ok (snoc-append vec p ps)
  behind_snoc vec p (err e) = refl

  >>=-behind :
      (vec : List Packet) (r : Result Packet) (f : Packet → Result (List Packet))
      (g : Result (List Packet))
      → ((p : Packet) → f p ≡ behind (vec ++ p ∷ []) g)
      → (r >>= f) ≡ behind vec (r >>= λ p. g >>= λ ps. ok (p ∷ ps))
  >>=-behind vec (ok p) f g h = h p ∙ behind_snoc vec p g
  >>=-behind vec (err e) f g h = refl

  loop_separator :
      (k i last : ℕ) (vec : List Packet) (payload : Bytes)
      → is_separator payload i ≡ true
      → decode_loop b64 (suc k) i last vec payload ≡ (
          Packet.decode b64 (slice last i payload) >>= λ p.
          decode_loop b64 k (i + 1) (i + 1) (vec ++ p ∷ []) payload)
  unfolding decode_loop
  loop_separator k i last vec payload e = rw (e, decode_loop)

  loop_other :
      (k i last : ℕ) (vec : List Packet) (payload : Bytes)
      → is_separator payload i ≡ false
      → decode_loop b64 (suc k) i last vec payload ≡ decode_loop b64 k (i + 1) last vec payload
  unfolding decode_loop
  loop_other k i last vec payload e = rw (e, decode_loop)

  decode_all-cons :
      (b : Bytes) (bs : List Bytes)
      → decode_all b64 (b ∷ bs)
        ≡ (Packet.decode b64 b >>= λ p. decode_all b64 bs >>= λ ps. ok (p ∷ ps))
  unfolding decode_all
  decode_all-cons b bs = refl

  -- The loop has read `pre ++ cur`, and its last piece begins behind `pre`.
  decode_loop-cut :
      (rest pre cur : Bytes) (vec : List Packet) (i last : ℕ)
      → i ≡ length pre + length cur
      → last ≡ length pre
      → decode_loop b64 (length rest) i last vec (pre ++ (cur ++ rest))
        ≡ behind vec (decode_all b64 (cut cur rest))
  unfolding decode_loop decode_all
  decode_loop-cut [] pre cur vec i last ei el =
      rw
        (
          el,
          length-append pre (cur ++ []),
          length-append cur [],
          let e : length pre + (length cur + 0) ≡ length pre + length cur = omega arith in e,
        )
        (unfold cut in
          rw (slice_mid pre cur []) (
            >>=-behind vec (Packet.decode b64 cur) (λ p. ok (vec ++ p ∷ [])) (ok [])
              (λ p. ap ok (sym (append-nil _)))))
  decode_loop-cut (c ∷ rest) pre cur vec i last ei el = elim (Bool-cases (c == separator)) [
    | inl s ↦
        rw
          (
            el,
            ei,
            loop_separator (length rest) (length pre + length cur) (length pre) vec _
                (is_separator_mid pre cur rest c ∙ s),
            slice_mid pre cur (c ∷ rest),
            cut-separator cur rest c s,
            decode_all-cons cur (cut [] rest),
          )
          (>>=-behind vec (Packet.decode b64 cur) _ _ (λ p. rw (regroup pre cur rest c) (
            decode_loop-cut rest (pre ++ (cur ++ c ∷ [])) [] (vec ++ p ∷ []) _ _
              (length_regroup pre cur c) (length_regroup pre cur c ∙ omega arith))))
    | inr s ↦
        rw
          (
            el,
            ei,
            loop_other (length rest) (length pre + length cur) (length pre) vec _
                (is_separator_mid pre cur rest c ∙ s),
            cut_other cur rest c s,
          )
          (rw (← snoc-append cur c rest) (
            decode_loop-cut rest pre (cur ++ c ∷ []) vec _ _
              (omega (arith, length-append cur (c ∷ []))) refl))
  ]

-- The index loop of `Payload::try_from` decodes the pieces between the separators, in order, up to
-- the first that fails: it is `decode_all` behind `split`.
pub decode-split :
    (b64 : Base64) (payload : Bytes) → decode b64 payload ≡ decode_all b64 (split payload)
unfolding decode
decode-split b64 payload =
    decode_loop-cut b64 payload [] [] [] 0 0 (omega arith) refl
    ∙ rw (cut-split [] payload, prepend-nil (split payload) (split-ne-nil payload))
        (behind_nil (decode_all b64 (split payload)))

split-piece : (p rest : Bytes) → Lacks separator p → split (p ++ rest) ≡ prepend p (split rest)
unfolding split
split-piece [] rest h = sym (prepend-nil (split rest) (split-ne-nil rest))
split-piece (c ∷ p) rest (hc, hp) =
    rw (==_ne c separator hc, split-piece p rest hp) (push_front-prepend c p (split rest))
  where
    push_front-prepend :
        (c : ℕ) (p : Bytes) (ps : List Bytes) → push_front c (prepend p ps) ≡ prepend (c ∷ p) ps
    push_front-prepend c p [] = unfold push_front prepend in refl
    push_front-prepend c p (q ∷ ps) = unfold push_front prepend in refl

split-separator : (s : Bytes) → split (separator ∷ s) ≡ [] ∷ split s
unfolding split
split-separator s = refl

prepend_nil_front : (p : Bytes) (ps : List Bytes) → prepend p ([] ∷ ps) ≡ p ∷ ps
unfolding prepend
prepend_nil_front p ps = rw append-nil

-- Pieces without a separator are found again.
pub split-join : (ps : List Bytes) → ps ≢ [] → All (Lacks separator) ps → split (join ps) ≡ ps
unfolding join
split-join [] ne h = absurd (ne refl)
split-join (p ∷ []) ne (hp, _) =
    rw (← append-nil p, split-piece p [] hp) (unfold split prepend in refl)
split-join (p ∷ q ∷ ps) ne (hp, hs) =
    split-piece p (separator ∷ join (q ∷ ps)) hp
    ∙ ap (prepend p)
        (split-separator (join (q ∷ ps)) ∙ ap (◌∷◌ []) (split-join (q ∷ ps) (λ e. cc) hs))
    ∙ prepend_nil_front p (q ∷ ps)

pub split_single : (p : Bytes) → Lacks separator p → split p ≡ p ∷ []
split_single p h = unfold join in split-join (p ∷ []) (λ e. cc) (h, tt)

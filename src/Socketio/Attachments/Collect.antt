-- ===== src/Socketio/Attachments/Collect.antt =====
-- socketio/src/socket.rs: the loop that collects attachments takes as many packets as the header
-- said, and ends in a panic only where the stream does.
use socket_io.Base.{
  ℕ, zero, suc, ◌<◌, ◌≡◌, refl, sym, ap, ◌∙◌, List, [], ◌∷◌, ◌++◌, map, append-nil, arith, true,
  false, Bytes, ok, err, length, snoc-append, All, Bool-cases, inl, inr,
}
use socket_io.Engineio.Packet as EnginePacket
use socket_io.Socketio.Error.{invalid_attachment_packet_type}
use socket_io.Socketio.Attachments.{Stream, done, fails, panics, is_attachment, collect}

abbrev pub contents : List EnginePacket.Packet → List Bytes
contents = map (λ p. p.content)

abbrev pub IsAttachment : EnginePacket.Packet → Type 0
IsAttachment p = is_attachment p.ptype ≡ true

pub collect_all :
    (ws : List EnginePacket.Packet) (acc : List Bytes) (rest : Stream)
    → All IsAttachment ws
    → collect (length ws) acc (map ok ws ++ rest) ≡ done (acc ++ contents ws) rest
unfolding collect
collect_all [] acc rest h = rw (append-nil acc)
collect_all (w ∷ ws) acc rest (hw, hs) =
    rw (collect, hw)
      (collect_all ws (acc ++ w.content ∷ []) rest hs
        ∙ rw (snoc-append acc w.content (contents ws)))

collect_step :
    (left : ℕ) (acc : List Bytes) (p : EnginePacket.Packet) (stream : Stream)
    → IsAttachment p
    → collect (suc left) acc (ok p ∷ stream) ≡ collect left (acc ++ p.content ∷ []) stream
unfolding collect
collect_step left acc p stream h = rw (collect, h)

collect_stop :
    (left : ℕ) (acc : List Bytes) (p : EnginePacket.Packet) (stream : Stream)
    → is_attachment p.ptype ≡ false
    → collect (suc left) acc (ok p ∷ stream)
      ≡ fails (invalid_attachment_packet_type (EnginePacket.type_to_u8 p.ptype)) stream
unfolding collect
collect_stop left acc p stream h = rw (collect, h)

-- The loop ends in a panic only where the stream ends before the last attachment.
pub collect_panics :
    (left : ℕ) (acc : List Bytes) (stream : Stream)
    → collect left acc stream ≡ panics
    → length stream < left
collect_panics zero acc stream h = unfold collect in cc h
collect_panics (suc left) acc [] h = omega arith
collect_panics (suc left) acc (err e ∷ stream) h = unfold collect in cc h
collect_panics (suc left) acc (ok p ∷ stream) h = elim (Bool-cases (is_attachment p.ptype)) [
  | inl e ↦ omega (
    arith,
    collect_panics left (acc ++ p.content ∷ []) stream (sym (collect_step left acc p stream e) ∙ h),
  )
  | inr e ↦ cc (collect_stop left acc p stream e)
]

-- A loop that ends well has taken as many packets as were left from the front of the stream, all
-- of them attachments, and has added their contents.
pub collect_done :
    (left : ℕ) (acc : List Bytes) (stream : Stream) (atts : List Bytes) (rest : Stream)
    → collect left acc stream ≡ done atts rest
    → (ws : List EnginePacket.Packet) × (stream ≡ map ok ws ++ rest)
      × (length ws ≡ left)
      × All IsAttachment ws
      × (atts ≡ acc ++ contents ws)
collect_done zero acc stream atts rest h =
    ([], unfold collect in cc h, refl, tt, unfold collect in cc (h, append-nil acc))
collect_done (suc left) acc [] atts rest h = unfold collect in cc h
collect_done (suc left) acc (err e ∷ stream) atts rest h = unfold collect in cc h
collect_done (suc left) acc (ok p ∷ stream) atts rest h =
    elim (Bool-cases (is_attachment p.ptype)) [
      | inl e ↦
          let (ws, s, n, a, t) =
            collect_done left (acc ++ p.content ∷ []) stream atts rest
              (sym (collect_step left acc p stream e) ∙ h) in
          (p ∷ ws, ap (◌∷◌ (ok p)) s, ap suc n, (e, a), t ∙ snoc-append acc p.content (contents ws))
      | inr e ↦ cc (collect_stop left acc p stream e)
    ]

-- ===== src/Socketio/Builder.antt =====
-- socketio/src/client/builder.rs: the options of a client, but its handlers, headers and
-- transport, which are handed on to libraries; and the namespace on the wire.
use socket_io.Base.{
  ℕ, ◌≡◌, refl, ap, ◌∙◌, [], ◌∷◌, Bool, true, Option, none, some, Str, ◌==◌, if◌then◌else◌, ok, All,
  Lacks, inl, if_true, if_false, ==_iff, Bool-cases, inr,
}
use socket_io.Base.Utf8.{IsScalar}
use socket_io.Socketio.External.{Json}
use socket_io.Socketio.Packet.{PacketType, encode, decode}
use socket_io.Socketio.Packet.RoundTrip.{decode-encode_no_content}
use socket_io.Socketio.Socket.{control_packet}

pub record ClientBuilder : Type 0 where
  pub address : Str
  pub nsp : Str
  pub reconnects : Bool
  pub max_attempts : Option ℕ
  pub delay_min : ℕ
  pub delay_max : ℕ

unfoldable pub new_builder : Str → ClientBuilder
new_builder address = record {
  address = address;
  nsp = b'/' ∷ [];
  reconnects = true;
  max_attempts = none;
  delay_min = 1000;
  delay_max = 5000;
}

-- A slash is put in front where there is none.
unfoldable pub with_slash : Str → Str
with_slash [] = b'/' ∷ []
with_slash (c ∷ s) = if c == b'/' then c ∷ s else b'/' ∷ c ∷ s

unfoldable pub namespace : ClientBuilder → Str → ClientBuilder
unfolding with_slash
namespace b name = record b { nsp = with_slash name }

unfoldable pub set_reconnect : ClientBuilder → Bool → ClientBuilder
set_reconnect b reconnect = record b { reconnects = reconnect }

unfoldable pub reconnect_delay : ClientBuilder → ℕ → ℕ → ClientBuilder
reconnect_delay b min max = record b { delay_min = min; delay_max = max }

unfoldable pub max_reconnect_attempts : ClientBuilder → ℕ → ClientBuilder
max_reconnect_attempts b attempts = record b { max_attempts = some attempts }

-- A slash is in front, and the characters behind it keep what those of the name have.
with_slash-path :
    (name : Str)
    → All IsScalar name
    → Lacks b',' name
    → (path : Str) × (with_slash name ≡ b'/' ∷ path) × All IsScalar path × Lacks b',' path
unfolding with_slash
with_slash-path [] h k = ([], refl, tt, tt)
with_slash-path (c ∷ s) (hc, h) (kc, k) = elim (Bool-cases (c == b'/')) [
  | inl e ↦ (s, if_true (c == b'/') _ _ e ∙ ap (λ d. d ∷ s) ((==_iff c b'/').0 e), h, k)
  | inr e ↦ (c ∷ s, if_false (c == b'/') _ _ e, (hc, h), (kc, k))
]

-- Whatever name with no comma the namespace of a builder is set to, the packets that connect its
-- socket to the namespace and disconnect it are decoded from their own bytes.
pub decode-encode_namespace :
    (j : Json) (b : ClientBuilder) (name : Str)
    → All IsScalar name
    → Lacks b',' name
    → (decode j (encode j (control_packet j PacketType.connect (namespace b name).nsp none))
        ≡ ok (control_packet j PacketType.connect (namespace b name).nsp none))
      × (decode j (encode j (control_packet j PacketType.disconnect (namespace b name).nsp none))
          ≡ ok (control_packet j PacketType.disconnect (namespace b name).nsp none))
unfolding namespace
decode-encode_namespace j b name h k =
    let (path, e, scalars, clean) = with_slash-path name h k in
    (
      decode-encode_no_content j (control_packet j PacketType.connect (with_slash name) none) refl
          (record {
            path = path;
            nsp_path = e;
            no_comma = clean;
            scalars = scalars;
            count_fits = refl;
            id_fits = tt;
            bare = refl;
          }),
      decode-encode_no_content j (control_packet j PacketType.disconnect (with_slash name) none)
          refl
          (record {
            path = path;
            nsp_path = e;
            no_comma = clean;
            scalars = scalars;
            count_fits = refl;
            id_fits = tt;
            bare = refl;
          }),
    )

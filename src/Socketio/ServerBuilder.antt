-- ===== src/Socketio/ServerBuilder.antt =====
-- socketio/src/server/builder.rs: the handlers of a server, by namespace and event. A callback is
-- a number. Of the handlers of a namespace, the last that was inserted for an event is the first
-- in the list.
use socket_io.Base.{
  ℕ, ◌≡◌, refl, ap, ◌∙◌, Bool, true, false, ◌&&◌, [], ◌∷◌, List, Option, none, some, Str,
  if◌then◌else◌, list_eq, list_eq_sound, Bool-cases, inl, inr,
}
use socket_io.Base.Maps.{Map, get, put, get_put_same, get_put_other, get_same}
use socket_io.Engineio.Server.{ServerOption, default_option}
use socket_io.Engineio.ServerBuilder as Engine
use socket_io.Socketio.Event.{Event}
use socket_io.Socketio.External.{Json}
use socket_io.Socketio.Server.{Server}

pub record ServerBuilder : Type 0 where
  pub options : ServerOption
  pub handlers : Map (List (Event × ℕ))
  pub builder : Engine.ServerBuilder

unfoldable pub new_builder : ℕ → ServerBuilder
unfolding default_option Engine.new_builder
new_builder port = record {
  options = default_option;
  handlers = [];
  builder = Engine.new_builder port;
}

-- The option goes to the builder of the engine.io server.
unfoldable pub server_option : ServerBuilder → ServerOption → ServerBuilder
unfolding Engine.server_option
server_option b option = record b { builder = Engine.server_option b.builder option }

unfoldable pub on : ServerBuilder → Str → Event → ℕ → ServerBuilder
unfolding get put
on b namespace event callback = elim (get namespace b.handlers) [
  | some handlers ↦ record b { handlers = put namespace ((event, callback) ∷ handlers) b.handlers }
  | none ↦ record b { handlers = put namespace ((event, callback) ∷ []) b.handlers }
]

-- `==` on events.
unfoldable pub event_eq : Event → Event → Bool
event_eq Event.message Event.message = true
event_eq Event.error Event.error = true
event_eq Event.connect Event.connect = true
event_eq Event.close Event.close = true
event_eq (Event.custom s) (Event.custom t) = list_eq s t
event_eq _ _ = false

-- The callback for an event.
unfoldable pub find_handler : List (Event × ℕ) → Event → Option ℕ
unfolding event_eq
find_handler [] event = none
find_handler ((e, callback) ∷ handlers) event =
    if event_eq e event then some callback else find_handler handlers event

abbrev pub handlers_of : Option (List (Event × ℕ)) → Option (Event → Option ℕ)
handlers_of none = none
handlers_of (some handlers) = some (find_handler handlers)

unfoldable pub build : (j : Json) → ServerBuilder → Server j
unfolding get Engine.build
build j b = record {
  on = λ namespace. handlers_of (get namespace b.handlers);
  rooms = [];
  clients = [];
  engine_server = Engine.build b.builder;
  seq = 0;
}

-- The callback that a server has for an event in a namespace.
abbrev pub handler : {j : Json} → Server j → Str → Event → Option ℕ
handler server namespace event = elim (server.on namespace) [ none ↦ none | some h ↦ h event ]

abbrev found : Option (List (Event × ℕ)) → Event → Option ℕ
found handlers event = elim (handlers_of handlers) [ none ↦ none | some h ↦ h event ]

abbrev old : Option (List (Event × ℕ)) → List (Event × ℕ)
old none = []
old (some handlers) = handlers

on-handlers :
    (b : ServerBuilder) (namespace : Str) (event : Event) (callback : ℕ)
    → (on b namespace event callback).handlers
      ≡ put namespace ((event, callback) ∷ old (get namespace b.handlers)) b.handlers
unfolding on
on-handlers b namespace event callback = from (get namespace b.handlers)
  where
    from :
        (o : Option (List (Event × ℕ)))
        → (elim o as (λ _. ServerBuilder) [
          | some hs ↦ record b { handlers = put namespace ((event, callback) ∷ hs) b.handlers }
          | none ↦ record b { handlers = put namespace ((event, callback) ∷ []) b.handlers }
        ]).handlers
          ≡ put namespace ((event, callback) ∷ old o) b.handlers
    from none = refl
    from (some hs) = refl

found_before :
    (o : Option (List (Event × ℕ))) (event e : Event) (callback : ℕ)
    → found (some ((event, callback) ∷ old o)) e
      ≡ (if event_eq event e then some callback else found o e)
unfolding find_handler
found_before none event e callback = refl
found_before (some hs) event e callback = refl

-- What a server that is built calls back for an event in a namespace: what was set last for the two,
-- whatever else was set before. `on` sets the callback for its event in its namespace, and leaves
-- the others.
pub handler-build :
    (j : Json) (b : ServerBuilder) (namespace n : Str) (event e : Event) (callback : ℕ)
    → handler (build j (on b namespace event callback)) n e
      ≡ (if list_eq namespace n && event_eq event e then some callback else handler (build j b) n e)
unfolding build
handler-build j b namespace n event e callback =
    ap (λ m. found (get n m) e) (on-handlers b namespace event callback)
    ∙ elim (Bool-cases (list_eq namespace n)) [
      | inl same ↦
          ap (λ m. found m e) (get_same namespace n _ same ∙ get_put_same namespace _ b.handlers)
          ∙ found_before (get namespace b.handlers) event e callback
          ∙ rw same (
              ap (λ z. if event_eq event e then some callback else found (get z b.handlers) e)
                (list_eq_sound namespace n same))
      | inr other ↦
          ap (λ m. found m e) (get_put_other namespace n _ b.handlers other) ∙ rw other refl
    ]

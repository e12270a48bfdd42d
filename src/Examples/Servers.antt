-- ===== src/Examples/Servers.antt =====
-- The theorems about the ids of sockets and the rooms of a server at concrete rooms.
use socket_io.Base.{◌≡◌, refl, [], ◌∷◌, ◌||◌, ◌&&◌, not, Str, list_eq}
use socket_io.Base.Maps.{get}
use socket_io.Socketio.Rooms.{Rooms, contains, join, leave, sids_to_emit, is_other, drop_sids}
use socket_io.Socketio.Rooms.Membership.{is_in}
use socket_io.Socketio.Rooms.Changes.{in-join, in-leave, in-drop_sids}
use socket_io.Socketio.Rooms.Recipients.{is_addressed, contains-sids_to_emit}
use socket_io.Examples.Base64.{two_letters}

abbrev admin : Str
admin = b'/' ∷ b'a' ∷ []

abbrev hall : Str
hall = b'h' ∷ []

abbrev attic : Str
attic = b't' ∷ []

abbrev alice : Str
alice = b'1' ∷ []

abbrev bob : Str
bob = b'2' ∷ []

-- Both are in the hall, and the attic is empty.
abbrev rooms : Rooms
rooms = (admin, (hall, alice ∷ bob ∷ []) ∷ (attic, []) ∷ []) ∷ []

join_example : is_in (join rooms admin (attic ∷ hall ∷ []) alice) admin attic alice ≡ (
    is_in rooms admin attic alice
    || (list_eq admin admin && (contains attic (attic ∷ hall ∷ []) && list_eq alice alice)))
join_example = in-join (attic ∷ hall ∷ []) rooms admin alice admin attic alice

leave_example : is_in (leave rooms admin (hall ∷ []) alice) admin hall bob ≡ (
    is_in rooms admin hall bob
    && not (list_eq admin admin && (contains hall (hall ∷ []) && list_eq bob alice)))
leave_example = in-leave (hall ∷ []) rooms admin alice admin hall bob

drop_example :
    is_in (drop_sids two_letters (b'e' ∷ []) rooms) admin hall bob
    ≡ (is_in rooms admin hall bob && is_other two_letters (b'e' ∷ []) bob)
drop_example = in-drop_sids two_letters (b'e' ∷ []) rooms admin hall bob

recipients_example :
    contains bob (sids_to_emit rooms admin (attic ∷ hall ∷ alice ∷ []))
    ≡ is_addressed rooms admin (attic ∷ hall ∷ alice ∷ []) bob
unfolding get
recipients_example =
    contains-sids_to_emit rooms admin ((hall, alice ∷ bob ∷ []) ∷ (attic, []) ∷ [])
      (attic ∷ hall ∷ alice ∷ []) bob refl

-- ===== src/Server/Hub.antt =====
-- The rooms of WebSocket clients: wsHub of server/public/ws_hub.go.
--
-- An operation is one step: the code releases its lock between choosing the clients and sending, and
-- a channel of 128 messages is the list of those that its writer has not taken yet.
pub mod Valid
pub mod Delivery
use ho.Prelude.{ℕ, zero, suc, ◌+◌, ◌-◌, ◌*◌, ◌/◌, ◌%◌, ◌≤◌, ◌<◌, ◌≡◌, refl, sym, ap, ◌∙◌, subst}
use ho.Prelude.{◌≢◌, ◌↔◌, ◌⊎◌, inl, inr, Bool, true, false, not, ◌&&◌, ◌||◌, Option, none, some}
use ho.Prelude.{
  List, [], ◌∷◌, ◌++◌, map, arith, if◌then◌else◌, ltb, leb, ◌==◌, Bool-cases, Option-cases,
}
use ho.Prelude.{length, All, any, all, select, take, drop, length-append, any-append, All-append}
use ho.Prelude.{All-map, take-drop, length-drop, ==_iff, ==_refl, String, min, max}
use ho.Prelude.Bytes.{Bytes, same, has_prefix}
use ho.Prelude.Dict.{bytes_eq, find, put, remove, IsDict}

-- What the hub sends: its own notices, and what it is given.
pub data Message : Type 0 where
  welcome : Bytes → Bytes → ℕ → List Bytes → Message
  joined : Bytes → Bytes → ℕ → Message
  left : Bytes → Bytes → ℕ → Message
  dropped : Message
  payload : Bytes → Message

pub record Client : Type 0 where
  pub id : Bytes
  pub queue : List Message

-- By the client's id
abbrev pub Room : Type 0
Room = List (Bytes × Client)

-- By the room's key
abbrev pub Hub : Type 0
Hub = List (Bytes × Room)

abbrev pub capacity : ℕ
capacity = 128

abbrev pub is_full : Client → Bool
is_full c = leb capacity (length c.queue)

-- A send that does not wait: nothing happens where the channel is full.
unfoldable pub deliver : Message → Client → Client
deliver msg c = if is_full c then c else record { id = c.id; queue = c.queue ++ (msg ∷ []) }

-- The send of broadcast: a client whose channel is full is sent an error, which finds it full too.
unfoldable pub deliver_or_warn : Message → Client → Client
deliver_or_warn msg c = if is_full c then deliver dropped c else deliver msg c

-- Not to the sender
abbrev pub deliver_from : Bytes → Message → Client → Client
deliver_from sender msg c = if same c.id sender then c else deliver_or_warn msg c

abbrev pub map_room : (Client → Client) → Room → Room
map_room f [] = []
map_room f ((i, c) ∷ room) = (i, f c) ∷ map_room f room

-- What is done to the clients of a room, if there is one.
abbrev pub in_room : (Client → Client) → Bytes → Option Room → Hub → Hub
in_room f key none h = h
in_room f key (some room) h = put key (map_room f room) h

unfoldable pub broadcast_all : Bytes → Message → Hub → Hub
broadcast_all key msg h = in_room (deliver msg) key (find key h) h

unfoldable pub broadcast : Bytes → Bytes → Message → Hub → Hub
broadcast key sender msg h = in_room (deliver_from sender msg) key (find key h) h

abbrev pub or_empty : Option Room → Room
or_empty none = []
or_empty (some room) = room

abbrev pub ids : Room → List Bytes
ids [] = []
ids ((i, c) ∷ room) = i ∷ ids room

-- A client that joins has an empty channel.
abbrev pub fresh : Bytes → Client
fresh id = record { id = id; queue = [] }

abbrev pub add_client : Bytes → Room → Room
add_client id room = put id (fresh id) room

-- The welcome, sent to the one who joined.
unfoldable pub greet : Bytes → Bytes → Room → Room
greet key id room = put id (deliver (welcome id key (length room) (ids room)) (fresh id)) room

unfoldable pub join : Bytes → Bytes → Hub → Hub
join key id h =
    let room = add_client id (or_empty (find key h)) in
    broadcast_all key (joined id key (length room)) (put key (greet key id room) h)

-- The hub without the client, its room dropped when it is empty.
abbrev pub put_room : Bytes → Bytes → Room → Hub → Hub
put_room key id [] h = remove key h
put_room key id (c ∷ room) h =
    broadcast_all key (left id key (length (c ∷ room))) (put key (c ∷ room) h)

abbrev pub leave_room : Bytes → Bytes → Option Room → Hub → Hub
leave_room key id none h = h
leave_room key id (some room) h = put_room key id (remove id room) h

unfoldable pub leave : Bytes → Bytes → Hub → Hub
leave key id h = leave_room key id (find key h) h

-- A client of a room
abbrev pub member : Bytes → Option Room → Option Client
member id none = none
member id (some room) = find id room

abbrev pub lookup : Bytes → Bytes → Hub → Option Client
lookup key id h = member id (find key h)

abbrev pub can_receive : Option Client → Bool
can_receive none = false
can_receive (some c) = not (is_full c)

-- What sendTo returns
abbrev pub sends_to : Bytes → Bytes → Hub → Bool
sends_to key id h = can_receive (lookup key id h)

abbrev pub update_client : (Client → Client) → Bytes → Option Client → Room → Room
update_client f id none room = room
update_client f id (some c) room = put id (f c) room

abbrev pub update_room : (Client → Client) → Bytes → Bytes → Option Room → Hub → Hub
update_room f key id none h = h
update_room f key id (some room) h = put key (update_client f id (find id room) room) h

unfoldable pub send_to : Bytes → Bytes → Message → Hub → Hub
send_to key id msg h = update_room (deliver msg) key id (find key h) h

abbrev pub room_clients : Bytes → Hub → List Bytes
room_clients key h = ids (or_empty (find key h))

-- The active rooms whose key has the prefix, with their sizes.
abbrev pub active_rooms : Bytes → Hub → List (Bytes × ℕ)
active_rooms prefix [] = []
active_rooms prefix ((key, room) ∷ h) =
    let rest = active_rooms prefix h in
    if has_prefix key prefix then (key, length room) ∷ rest else rest

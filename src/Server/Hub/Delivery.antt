-- ===== src/Server/Hub/Delivery.antt =====
-- Who gets which message (server/public/ws_hub.go).
use ho.Server.Hub.{
  Message, Client, Room, Hub, is_full, deliver, deliver_or_warn, deliver_from, map_room,
}
use ho.Server.Hub.{
  in_room, broadcast_all, broadcast, or_empty, add_client, fresh, greet, join, put_room, leave_room,
  leave, lookup, member,
}
use ho.Server.Hub.{update_client, update_room, send_to, welcome, joined, left, ids}
use ho.Server.Hub.Valid.{
  IsValid, IsRoom, IsClient, Op, apply, do_join, do_leave, do_broadcast, do_broadcast_all,
  do_send_to,
}
use ho.Prelude.{◌≡◌, refl, ap, ◌∙◌, subst}
use ho.Prelude.{inl, inr, false, ◌||◌, Option, none, some}
use ho.Prelude.{[], ◌∷◌, ◌++◌, if◌then◌else◌, Bool-cases, Option-cases}
use ho.Prelude.{length}
use ho.Prelude.Bytes.{Bytes, same, same_refl}
use ho.Prelude.Dict.{bytes_eq, find, put, remove, find-put, find-remove, find-All}

-- The room that an operation is about.
abbrev pub room_of : Op → Bytes
room_of (do_join key id) = key
room_of (do_leave key id) = key
room_of (do_broadcast key sender msg) = key
room_of (do_broadcast_all key msg) = key
room_of (do_send_to key id msg) = key

put_other :
    (key j : Bytes) (room : Room) (h : Hub)
    → same key j ≡ false
    → find j (put key room h) ≡ find j h
put_other key j room h d = find-put key j room h ∙ rw d refl

in_room_other :
    (f : Client → Client) (key j : Bytes) (o : Option Room) (h : Hub)
    → same key j ≡ false
    → find j (in_room f key o h) ≡ find j h
in_room_other f key j none h d = refl
in_room_other f key j (some room) h d = put_other key j (map_room f room) h d

put_room_other :
    (key id j : Bytes) (room : Room) (h : Hub)
    → same key j ≡ false
    → find j (put_room key id room h) ≡ find j h
unfolding broadcast_all
put_room_other key id j [] h d = find-remove key j h ∙ rw d refl
put_room_other key id j (c ∷ room) h d =
    let h' = put key (c ∷ room) h in
    in_room_other (deliver (left id key (length (c ∷ room)))) key j (find key h') h' d
    ∙ put_other key j (c ∷ room) h d

leave_room_other :
    (key id j : Bytes) (o : Option Room) (h : Hub)
    → same key j ≡ false
    → find j (leave_room key id o h) ≡ find j h
leave_room_other key id j none h d = refl
leave_room_other key id j (some room) h d = put_room_other key id j (remove id room) h d

update_room_other :
    (f : Client → Client) (key id j : Bytes) (o : Option Room) (h : Hub)
    → same key j ≡ false
    → find j (update_room f key id o h) ≡ find j h
update_room_other f key id j none h d = refl
update_room_other f key id j (some room) h d =
    put_other key j (update_client f id (find id room) room) h d

-- An operation on one room leaves every other room, its clients and their channels, as it is.
pub apply-find :
    (op : Op) (j : Bytes) (h : Hub) → same (room_of op) j ≡ false → find j (apply op h) ≡ find j h
unfolding apply join leave broadcast broadcast_all send_to
apply-find (do_join key id) j h d =
    let room = add_client id (or_empty (find key h)) in
    let h' = put key (greet key id room) h in
    in_room_other (deliver (joined id key (length room))) key j (find key h') h' d
    ∙ put_other key j (greet key id room) h d
apply-find (do_leave key id) j h d = leave_room_other key id j (find key h) h d
apply-find (do_broadcast key sender msg) j h d =
    in_room_other (deliver_from sender msg) key j (find key h) h d
apply-find (do_broadcast_all key msg) j h d = in_room_other (deliver msg) key j (find key h) h d
apply-find (do_send_to key id msg) j h d = update_room_other (deliver msg) key id j (find key h) h d

abbrev pub on_client : (Client → Client) → Option Client → Option Client
on_client f none = none
on_client f (some c) = some (f c)

find-map_room :
    (f : Client → Client) (id : Bytes) (room : Room)
    → find id (map_room f room) ≡ on_client f (find id room)
find-map_room f id [] = refl
find-map_room f id ((i, c) ∷ room) = elim (Bool-cases (same i id)) [
  | inl e ↦ rw e refl
  | inr e ↦ rw e (find-map_room f id room)
]

find-put_here : (key : Bytes) (room : Room) (h : Hub) → find key (put key room h) ≡ some room
find-put_here key room h = find-put key key room h ∙ rw (same_refl key) refl

lookup-in_room :
    (f : Client → Client) (key id : Bytes) (h : Hub)
    → lookup key id (in_room f key (find key h) h) ≡ on_client f (lookup key id h)
lookup-in_room f key id h = elim (Option-cases (find key h)) [
  | inl e ↦ rw e (ap (member id) e)
  | inr e ↦ rw e.1 (ap (member id) (find-put_here key (map_room f e.0) h) ∙ find-map_room f id e.0)
]

client_id :
    (key id : Bytes) (c : Client) (h : Hub) → IsValid h → lookup key id h ≡ some c → c.id ≡ id
client_id key id c h v l = elim (Option-cases (find key h)) [
  | inl e ↦ let no : none ≡ some c = rw e at l in cc
  | inr e ↦
      let l' : find id e.0 ≡ some c = rw e.1 at l in
      (find-All IsClient id c e.0 l' (find-All IsRoom key e.0 h e.1 v.1).2).0
]

-- What a client is after the message of a sender.
abbrev received : Bytes → Message → Bytes → Client → Client
received sender msg id c =
    if same id sender || is_full c then c else record { id = id; queue = c.queue ++ (msg ∷ []) }

deliver_from-received :
    (sender : Bytes) (msg : Message) (id : Bytes) (c : Client)
    → c.id ≡ id
    → deliver_from sender msg c ≡ received sender msg id c
unfolding deliver_or_warn deliver
deliver_from-received sender msg id c e = elim (Bool-cases (same id sender)) [
  | inl s ↦ rw (e, s) refl
  | inr s ↦ elim (Bool-cases (is_full c)) [ inl f ↦ rw (e, s, f) refl | inr f ↦ rw (e, s, f) refl ]
]

-- A broadcast puts the message last in the channel of each client of the room but the sender; the sender,
-- and a client whose channel is full, keep what they have.
pub broadcast-lookup :
    (key sender : Bytes) (msg : Message) (id : Bytes) (c : Client) (h : Hub)
    → IsValid h
    → lookup key id h ≡ some c
    → lookup key id (broadcast key sender msg h)
      ≡ some (
          if same id sender || is_full c
          then c
          else record { id = id; queue = c.queue ++ (msg ∷ []) })
unfolding broadcast
broadcast-lookup key sender msg id c h v l =
    let sent : lookup key id (broadcast key sender msg h) ≡ some (deliver_from sender msg c) =
      lookup-in_room (deliver_from sender msg) key id h
      ∙ ap (on_client (deliver_from sender msg)) l in
    sent ∙ ap some (deliver_from-received sender msg id c (client_id key id c h v l))

lookup-put :
    (key id : Bytes) (room : Room) (h : Hub) → lookup key id (put key room h) ≡ find id room
lookup-put key id room h = ap (member id) (find-put_here key room h)

lookup-put_room :
    (key id j : Bytes) (room : Room) (h : Hub)
    → lookup key j (put_room key id room h)
      ≡ on_client (deliver (left id key (length room))) (find j room)
unfolding broadcast_all
lookup-put_room key id j [] h = ap (member j) (find-remove key key h) ∙ rw (same_refl key) refl
lookup-put_room key id j (c ∷ room) h =
    let f = deliver (left id key (length (c ∷ room))) in
    lookup-in_room f key j (put key (c ∷ room) h) ∙ ap (on_client f) (lookup-put key j (c ∷ room) h)

-- A client that leaves is in its room no more, and each client that stays is sent the notice with the
-- number of those that are left.
pub leave-lookup :
    (key id j : Bytes) (room : Room) (h : Hub)
    → find key h ≡ some room
    → lookup key j (leave key id h) ≡ (
        if same id j
        then none
        else on_client (deliver (left id key (length (remove id room)))) (find j room))
unfolding leave
leave-lookup key id j room h e =
    let f = deliver (left id key (length (remove id room))) in
    let gone : lookup key j (leave key id h) ≡ on_client f (find j (remove id room)) =
      rw e (lookup-put_room key id j (remove id room) h) in
    gone
    ∙ ap (on_client f) (find-remove id j room)
    ∙ elim (Bool-cases (same id j)) [ inl s ↦ rw s refl | inr s ↦ rw s refl ]

deliver_twice :
    (id : Bytes) (first second : Message)
    → deliver second (deliver first (fresh id)) ≡ record { id = id; queue = first ∷ second ∷ [] }
unfolding deliver
deliver_twice id first second = refl

-- A client that joins has the welcome, with the number and the ids of the room's clients, and then the
-- notice of its own joining.
pub join-lookup :
    (key id : Bytes) (h : Hub) (room : Room)
    → room ≡ add_client id (or_empty (find key h))
    → lookup key id (join key id h)
      ≡ some (record {
        id = id;
        queue = welcome id key (length room) (ids room) ∷ joined id key (length room) ∷ [];
      })
unfolding join broadcast_all greet
join-lookup key id h room e =
    let first = welcome id key (length room) (ids room) in
    let second = joined id key (length room) in
    let here : lookup key id (put key (greet key id room) h) ≡ some (deliver first (fresh id)) =
      lookup-put key id (greet key id room) h
      ∙ (find-put id id (deliver first (fresh id)) room ∙ rw (same_refl id) refl) in
    subst
      (λ r.
        lookup key id (broadcast_all key (joined id key (length r)) (put key (greet key id r) h))
        ≡ some (record { id = id; queue = first ∷ second ∷ [] }))
      e
      (lookup-in_room (deliver second) key id (put key (greet key id room) h)
        ∙ ap (on_client (deliver second)) here
        ∙ ap some (deliver_twice id first second))

-- ===== src/Server/Hub/Valid.antt =====
-- What holds of the hub after any operations (server/public/ws_hub.go).
use ho.Server.Hub.{
  Message, Client, Room, Hub, capacity, is_full, deliver, deliver_or_warn, deliver_from, map_room,
}
use ho.Server.Hub.{
  in_room, broadcast_all, broadcast, or_empty, add_client, fresh, greet, join, put_room, leave, ids,
}
use ho.Server.Hub.{send_to, welcome, joined, left, dropped}
use ho.Prelude.{suc, ◌≤◌, ◌≡◌, refl, sym, ap, ◌∙◌}
use ho.Prelude.{inl, inr, ◌||◌}
use ho.Prelude.{List, [], ◌∷◌, ◌++◌, arith, Bool-cases, Option-cases}
use ho.Prelude.{length, All, length-append}
use ho.Prelude.Bytes.{Bytes, same, same_eq}
use ho.Prelude.Dict.{
  bytes_eq, find, put, remove, IsDict, has_key, put-IsDict, remove-IsDict, put-All, remove-All,
  find-All, length-put,
}

-- A client stands under its own id, and its channel is not over capacity.
abbrev pub IsClient : Bytes × Client → Type 0
IsClient (i, c) = (c.id ≡ i) × (length c.queue ≤ capacity)

abbrev pub IsRoom : Bytes × Room → Type 0
IsRoom (key, room) = IsDict room × (1 ≤ length room) × All IsClient room

abbrev pub IsValid : Hub → Type 0
IsValid h = IsDict h × All IsRoom h

pub data Op : Type 0 where
  do_join : Bytes → Bytes → Op
  do_leave : Bytes → Bytes → Op
  do_broadcast : Bytes → Bytes → Message → Op
  do_broadcast_all : Bytes → Message → Op
  do_send_to : Bytes → Bytes → Message → Op

unfoldable pub apply : Op → Hub → Hub
apply (do_join key id) h = join key id h
apply (do_leave key id) h = leave key id h
apply (do_broadcast key sender msg) h = broadcast key sender msg h
apply (do_broadcast_all key msg) h = broadcast_all key msg h
apply (do_send_to key id msg) h = send_to key id msg h

unfoldable pub run : List Op → Hub → Hub
run [] h = h
run (op ∷ ops) h = run ops (apply op h)

deliver-IsClient :
    (msg : Message) (i : Bytes) (c : Client) → IsClient (i, c) → IsClient (i, deliver msg c)
unfolding deliver
deliver-IsClient msg i c h = elim (Bool-cases (is_full c)) [
  | inl e ↦ rw e h
  | inr e ↦
      let room_left : suc (length c.queue) ≤ capacity = ground arith in
      let size : length (c.queue ++ (msg ∷ [])) ≤ capacity =
        omega (arith, length-append c.queue (msg ∷ [])) in
      rw e ((h.0, size))
]

deliver_or_warn-IsClient :
    (msg : Message) (i : Bytes) (c : Client) → IsClient (i, c) → IsClient (i, deliver_or_warn msg c)
unfolding deliver_or_warn
deliver_or_warn-IsClient msg i c h = elim (Bool-cases (is_full c)) [
  | inl e ↦ rw e (deliver-IsClient dropped i c h)
  | inr e ↦ rw e (deliver-IsClient msg i c h)
]

deliver_from-IsClient :
    (sender : Bytes) (msg : Message) (i : Bytes) (c : Client)
    → IsClient (i, c)
    → IsClient (i, deliver_from sender msg c)
deliver_from-IsClient sender msg i c h = elim (Bool-cases (same c.id sender)) [
  | inl e ↦ rw e h
  | inr e ↦ rw e (deliver_or_warn-IsClient msg i c h)
]

-- A function that keeps the client's place and its channel within capacity.
abbrev Keeps : (Client → Client) → Type 0
Keeps f = (i : Bytes) (c : Client) → IsClient (i, c) → IsClient (i, f c)

has_key-map_room :
    (f : Client → Client) (k : Bytes) (room : Room) → has_key k (map_room f room) ≡ has_key k room
has_key-map_room f k [] = refl
has_key-map_room f k ((i, c) ∷ room) = ap (λ b. same i k || b) (has_key-map_room f k room)

map_room-IsDict : (f : Client → Client) (room : Room) → IsDict room → IsDict (map_room f room)
map_room-IsDict f [] h = tt
map_room-IsDict f ((i, c) ∷ room) h = (has_key-map_room f i room ∙ h.0, map_room-IsDict f room h.1)

map_room-All :
    (f : Client → Client)
    → Keeps f
    → (room : Room) → All IsClient room
    → All IsClient (map_room f room)
map_room-All f k [] h = tt
map_room-All f k ((i, c) ∷ room) h = (k i c h.0, map_room-All f k room h.1)

length-map_room : (f : Client → Client) (room : Room) → length (map_room f room) ≡ length room
length-map_room f [] = refl
length-map_room f ((i, c) ∷ room) = ap (λ n. suc n) (length-map_room f room)

map_room-IsRoom :
    (f : Client → Client)
    → Keeps f
    → (key : Bytes) (room : Room) → IsRoom (key, room)
    → IsRoom (key, map_room f room)
map_room-IsRoom f k key room h = (
  map_room-IsDict f room h.0,
  omega (arith, length-map_room f room, h.1),
  map_room-All f k room h.2,
)

put-IsValid :
    (key : Bytes) (room : Room) (h : Hub)
    → IsRoom (key, room)
    → IsValid h
    → IsValid (put key room h)
put-IsValid key room h r v = (put-IsDict key room h v.0, put-All IsRoom key room h (λ k e. r) v.1)

in_room-IsValid :
    (f : Client → Client)
    → Keeps f
    → (key : Bytes) (h : Hub) → IsValid h
    → IsValid (in_room f key (find key h) h)
in_room-IsValid f k key h v = elim (Option-cases (find key h)) [
  | inl e ↦ rw e v
  | inr e ↦ rw e.1 (
      put-IsValid key (map_room f e.0) h
        (map_room-IsRoom f k key e.0 (find-All IsRoom key e.0 h e.1 v.1)) v)
]

broadcast_all-IsValid :
    (key : Bytes) (msg : Message) (h : Hub) → IsValid h → IsValid (broadcast_all key msg h)
unfolding broadcast_all
broadcast_all-IsValid key msg h v = in_room-IsValid (deliver msg) (deliver-IsClient msg) key h v

broadcast-IsValid :
    (key sender : Bytes) (msg : Message) (h : Hub)
    → IsValid h
    → IsValid (broadcast key sender msg h)
unfolding broadcast
broadcast-IsValid key sender msg h v =
    in_room-IsValid (deliver_from sender msg) (deliver_from-IsClient sender msg) key h v

-- A room with a client put under its own id.
put_client-IsRoom :
    (key id : Bytes) (c : Client) (room : Room)
    → c.id ≡ id
    → length c.queue ≤ capacity
    → IsDict room
    → All IsClient room
    → IsRoom (key, put id c room)
put_client-IsRoom key id c room e q d a = (
  put-IsDict id c room d,
  length-put id c room,
  put-All IsClient id c room (λ k same_id. (e ∙ sym (same_eq k id same_id), q)) a,
)

or_empty-room :
    (key : Bytes) (h : Hub)
    → IsValid h
    → IsDict (or_empty (find key h)) × All IsClient (or_empty (find key h))
or_empty-room key h v = elim (Option-cases (find key h)) [
  | inl e ↦ rw e ((tt, tt))
  | inr e ↦ let r = find-All IsRoom key e.0 h e.1 v.1 in rw e.1 ((r.0, r.2))
]

greet-IsRoom :
    (key id : Bytes) (room : Room)
    → IsDict room
    → All IsClient room
    → IsRoom (key, greet key id (add_client id room))
unfolding greet
greet-IsRoom key id room d a =
    let entered = add_client id room in
    let notice = welcome id key (length entered) (ids entered) in
    let one = put_client-IsRoom key id (fresh id) room refl (omega arith) d a in
    let c = deliver-IsClient notice id (fresh id) (refl, omega arith) in
    put_client-IsRoom key id (deliver notice (fresh id)) entered c.0 c.1 one.0 one.2

join-IsValid : (key id : Bytes) (h : Hub) → IsValid h → IsValid (join key id h)
unfolding join
join-IsValid key id h v =
    let before = or_empty (find key h) in
    let room = add_client id before in
    let r = or_empty-room key h v in
    broadcast_all-IsValid key (joined id key (length room)) (put key (greet key id room) h)
      (put-IsValid key (greet key id room) h (greet-IsRoom key id before r.0 r.1) v)

put_room-IsValid :
    (key id : Bytes) (room : Room) (h : Hub)
    → IsDict room
    → All IsClient room
    → IsValid h
    → IsValid (put_room key id room h)
put_room-IsValid key id [] h d a v = (remove-IsDict key h v.0, remove-All IsRoom key h v.1)
put_room-IsValid key id (c ∷ room) h d a v =
    broadcast_all-IsValid key (left id key (length (c ∷ room))) (put key (c ∷ room) h)
      (put-IsValid key (c ∷ room) h (d, omega arith, a) v)

leave-IsValid : (key id : Bytes) (h : Hub) → IsValid h → IsValid (leave key id h)
unfolding leave
leave-IsValid key id h v = elim (Option-cases (find key h)) [
  | inl e ↦ rw e v
  | inr e ↦
      let r = find-All IsRoom key e.0 h e.1 v.1 in
      rw e.1 (
        put_room-IsValid key id (remove id e.0) h (remove-IsDict id e.0 r.0)
          (remove-All IsClient id e.0 r.2) v)
]

send_to-IsValid :
    (key id : Bytes) (msg : Message) (h : Hub) → IsValid h → IsValid (send_to key id msg h)
unfolding send_to
send_to-IsValid key id msg h v = elim (Option-cases (find key h)) [
  | inl e ↦ rw e v
  | inr e ↦
      let r = find-All IsRoom key e.0 h e.1 v.1 in
      elim (Option-cases (find id e.0)) [
        | inl f ↦ rw (e.1, f) (put-IsValid key e.0 h r v)
        | inr f ↦
            let c = deliver-IsClient msg id f.0 (find-All IsClient id f.0 e.0 f.1 r.2) in
            rw (e.1, f.1)
              (put-IsValid key (put id (deliver msg f.0) e.0) h
                (put_client-IsRoom key id (deliver msg f.0) e.0 c.0 c.1 r.0 r.2) v)
      ]
]

apply-IsValid : (op : Op) (h : Hub) → IsValid h → IsValid (apply op h)
unfolding apply
apply-IsValid (do_join key id) h v = join-IsValid key id h v
apply-IsValid (do_leave key id) h v = leave-IsValid key id h v
apply-IsValid (do_broadcast key sender msg) h v = broadcast-IsValid key sender msg h v
apply-IsValid (do_broadcast_all key msg) h v = broadcast_all-IsValid key msg h v
apply-IsValid (do_send_to key id msg) h v = send_to-IsValid key id msg h v

-- From a valid hub, after any operations on any rooms, the hub is valid: no room's key and no client's id
-- stands twice, no room is empty, each client stands under its own id, and no channel holds more than
-- 128 messages.
pub run-IsValid : (ops : List Op) (h : Hub) → IsValid h → IsValid (run ops h)
unfolding run
run-IsValid [] h v = v
run-IsValid (op ∷ ops) h v = run-IsValid ops (apply op h) (apply-IsValid op h v)

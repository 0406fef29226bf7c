-- ===== src/Examples/Hub.antt =====
-- Clients of two rooms: server/public/ws_hub.go.
use ho.Server.Hub.{Hub, Client, payload}
use ho.Server.Hub.Valid.{IsValid, Op, do_join, do_broadcast, do_leave, apply, run, run-IsValid}
use ho.Server.Hub.Delivery.{apply-find}
use ho.Prelude.{◌≡◌, refl}
use ho.Prelude.{List, [], ◌∷◌, arith}
use ho.Prelude.Bytes.{Bytes, codes}
use ho.Prelude.Dict.{bytes_eq, find}

abbrev lobby : Bytes
lobby = codes "1:chat:lobby"

abbrev ann : Bytes
ann = codes "ann"

abbrev bob : Bytes
bob = codes "bob"

abbrev visits : List Op
visits =
    do_join lobby ann
    ∷ do_join lobby bob
    ∷ do_broadcast lobby ann (payload (codes "hi"))
    ∷ do_leave lobby ann
    ∷ []

run-IsValid_example : IsValid (run visits [])
run-IsValid_example = run-IsValid visits [] ((tt, tt))

abbrev bob_client : Client
bob_client = record { id = bob; queue = [] }

abbrev small : Hub
small = (lobby, (ann, record { id = ann; queue = [] }) ∷ (bob, bob_client) ∷ []) ∷ []

small-IsValid : IsValid small
small-IsValid = (
  ((refl, tt)),
  (((refl, (refl, tt)), omega arith, ((refl, omega arith), ((refl, omega arith), tt))), tt),
)

apply-find_example :
    find lobby (apply (do_join (codes "2:chat:lobby") ann) small) ≡ find lobby small
apply-find_example = apply-find (do_join (codes "2:chat:lobby") ann) lobby small refl

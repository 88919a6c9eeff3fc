-- ===== src/Server/Rooms/Expiry.antt =====
-- The rooms that the timer of gcTask takes away.
use go_cfc.Base.{ℕ, ◌≤◌, ◌≡◌, some, List, [], ◌∷◌, String, arith}
use go_cfc.Base.Assoc.{lookup}
use go_cfc.Server.State.{ProxyServer, ProxyTaskRoom, World}
use go_cfc.Server.Rooms.{get_task_room, keep_rooms, del_expire_task_room}

keep_rooms_kept :
    (now : ℕ) (tid : String) (m : List (String × ProxyTaskRoom)) (room : ProxyTaskRoom)
    → lookup tid m ≡ some room
    → now ≤ room.expire_time
    → lookup tid (keep_rooms now m) ≡ some room
unfolding keep_rooms lookup
keep_rooms_kept now tid [] room e h = cc
keep_rooms_kept now tid ((key, one) ∷ m) room e h = ground (arith, keep_rooms_kept now tid m room)

keep_rooms_fresh :
    (now : ℕ) (tid : String) (m : List (String × ProxyTaskRoom)) (room : ProxyTaskRoom)
    → lookup tid (keep_rooms now m) ≡ some room
    → now ≤ room.expire_time
unfolding keep_rooms lookup
keep_rooms_fresh now tid [] room e = cc
keep_rooms_fresh now tid ((key, one) ∷ m) room e = ground (arith, keep_rooms_fresh now tid m room)

-- delExpireTaskRoom keeps every room whose time is not over under its key, and no room that can be
-- found afterwards is past its time.
pub del_expire_task_room_lem :
    (w : World) (s : ProxyServer) (tid : String) (room : ProxyTaskRoom)
    → (get_task_room tid s ≡ some room
        → w.now ≤ room.expire_time
        → get_task_room tid (del_expire_task_room w s) ≡ some room)
      × (get_task_room tid (del_expire_task_room w s) ≡ some room → w.now ≤ room.expire_time)
unfolding get_task_room del_expire_task_room
del_expire_task_room_lem w s tid room = (
  keep_rooms_kept w.now tid s.proxy_task_room_map room,
  keep_rooms_fresh w.now tid s.proxy_task_room_map room,
)

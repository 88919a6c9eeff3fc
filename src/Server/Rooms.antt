-- ===== src/Server/Rooms.antt =====
-- Task rooms: server/proxy_task.go. A room is reached through the map alone, so its fields are
-- changed there; a room that has been taken off the map is forgotten.
pub mod Expiry
pub mod Pairing
use go_cfc.Base.{
  ℕ, zero, suc, ◌+◌, ◌*◌, Bool, true, false, not, Option, none, some, List, [], ◌∷◌, String, ltb,
  ◌==◌, if◌then◌else◌,
}
use go_cfc.Base.Assoc.{lookup, delete, insert}
use go_cfc.Base.Int.{pos}
use go_cfc.Speed.{second}
use go_cfc.Server.State.{
  ProxyClient, ProxyServer, ProxyTaskRoom, World, Body, Fault, sub_info, SubInfo, OdjSubReq, peer,
  miss_proxy_task_room, modify, task_room_p1, task_room_p2,
}
use go_cfc.Server.Sending.{write_c_msg_and_check, check_err_and_send_400_err_c_msg, init_link_conn}

unfoldable pub get_task_room : String → ProxyServer → Option ProxyTaskRoom
get_task_room tid s = lookup tid s.proxy_task_room_map

unfoldable pub del_task_room : String → ProxyServer → ProxyServer
del_task_room tid s = record s { proxy_task_room_map = delete tid s.proxy_task_room_map }

unfoldable pub set_task_room : String → ProxyTaskRoom → ProxyServer → ProxyServer
set_task_room tid room s = record s { proxy_task_room_map = insert tid room s.proxy_task_room_map }

unfoldable pub new_task_room : World → ProxyServer → String × ProxyServer
new_task_room w s =
    let tid = w.new_id s.ids in
    (
      tid,
      set_task_room tid
          (record {
            id = tid;
            step = task_room_p1;
            expire_time = w.now + 30 * second;
            c1 = none;
            i1 = none;
          })
          (record s { ids = suc s.ids }),
    )

-- The rooms whose time is not over.
unfoldable pub keep_rooms : ℕ → List (String × ProxyTaskRoom) → List (String × ProxyTaskRoom)
keep_rooms now [] = []
keep_rooms now ((key, room) ∷ rooms) =
    let rest = keep_rooms now rooms in if ltb room.expire_time now then rest else (key, room) ∷ rest

unfoldable pub del_expire_task_room : World → ProxyServer → ProxyServer
del_expire_task_room w s = record s { proxy_task_room_map = keep_rooms w.now s.proxy_task_room_map }

-- What one side of a link is told: its own request and address, and those of the other side.
unfoldable pub link_info : OdjSubReq → OdjSubReq → String → String → SubInfo
link_info local remote local_addr remote_addr = record {
  local_name = local.src_name;
  remote_name = remote.src_name;
  local_intranet_addr = local.addr;
  remote_intranet_addr = remote.addr;
  local_public_addr = some local_addr;
  remote_public_addr = some remote_addr;
  u_local_intranet_addr = none;
  u_remote_intranet_addr = none;
  u_local_public_addr = none;
  u_remote_public_addr = none;
}

unfoldable pub no_deadline : ℕ → ProxyServer → ProxyServer
no_deadline r = modify r λ c. record c { deadline = none }

module _ (w : World) where
  -- The case taskRoomP2: the first side `r1` with the request `i1`, the second one `r2` with `i2`.
  unfoldable pub link_room : OdjSubReq → ℕ → OdjSubReq → ℕ → ProxyServer → ProxyServer
  link_room i1 r1 i2 r2 s =
      let s1 = del_task_room i2.dst_key s in
      let s2 = init_link_conn (peer r2) "LinkTypePC" r1 s1 in
      let s3 = init_link_conn (peer r1) "LinkTypePC" r2 s2 in
      let a1 = (s3.clients r1).remote_addr in
      let a2 = (s3.clients r2).remote_addr in
      let s4 =
        write_c_msg_and_check w "TaskA" i1.id (pos 200) (sub_info (link_info i1 i2 a1 a2)) r1 s3 in
      let s5 =
        write_c_msg_and_check w "TaskA" i2.id (pos 200) (sub_info (link_info i2 i1 a2 a1)) r2 s4 in
      no_deadline r2 (no_deadline r1 s5)

  missing_room : OdjSubReq → ℕ → ProxyServer → ProxyServer
  missing_room info r s =
      (check_err_and_send_400_err_c_msg w "TaskA" info.id (some miss_proxy_task_room) true r s).1

  -- A room at its second step has its first side.
  unfoldable pub link_first :
      Option OdjSubReq → Option ℕ → OdjSubReq → ℕ → ProxyServer → ProxyServer
  link_first (some i1) (some r1) info r s = link_room i1 r1 info r s
  link_first _ _ info r s = s

  -- The switch on the step of the room.
  unfoldable pub join_room : ProxyTaskRoom → OdjSubReq → ℕ → ProxyServer → ProxyServer
  unfolding missing_room
  join_room room info r s =
      if room.step == task_room_p1
      then set_task_room info.dst_key
          (record room { c1 = some r; i1 = some info; step = suc room.step }) s
      else if room.step == task_room_p2
      then link_first room.i1 room.c1 info r s
      else missing_room info r s

  unfoldable pub join_task_room : OdjSubReq → ℕ → ProxyServer → ProxyServer
  unfolding missing_room
  join_task_room info r s = elim (get_task_room info.dst_key s) [
    | none ↦ missing_room info r s
    | some room ↦ join_room room info r s
  ]

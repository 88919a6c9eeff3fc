-- ===== src/Server/Names/Rooms.antt =====
-- Joining a task room keeps the table of names exact.
use go_cfc.Base.{
  ℕ, inl, inr, refl, Bool, true, Option, none, some, String, ◌==◌, Bool-cases, Option-cases,
}
use go_cfc.Base.Assoc.{insert, delete}
use go_cfc.Base.Int.{ℤ, pos}
use go_cfc.Server.State.{
  ProxyServer, ProxyTaskRoom, World, OdjSubReq, Fault, Body, miss_proxy_task_room, peer,
}
use go_cfc.Server.Closing.{close, set_proxy_sub_client}
use go_cfc.Server.Closing.Relation.{modify-Closes}
use go_cfc.Server.Sending.{write_c_msg_and_check, check_err_and_send_400_err_c_msg}
use go_cfc.Server.Rooms.{
  del_task_room, set_task_room, no_deadline, link_room, join_room, join_task_room, link_first,
  get_task_room,
}
use go_cfc.Server.Names.Invariant.{Exact, Exact-Closes, Exact-Keeps, close-Keeps, elsewhere-Exact}
use go_cfc.Server.Names.Sending.{
  write_c_msg_and_check-Keeps, check_err_and_send_400_err_c_msg-Keeps, init_link_conn-Keeps,
  set_proxy_sub_client-Keeps,
}

-- A function that keeps the table exact.
abbrev pub Safe : (ProxyServer → ProxyServer) → Type 0
Safe f = (s : ProxyServer) → Exact s → Exact (f s)

pub write-Safe :
    (w : World) (header id : String) (code : ℤ) (body : Body) (r : ℕ)
    → Safe (write_c_msg_and_check w header id code body r)
write-Safe w header id code body r s =
    Exact-Keeps s (write_c_msg_and_check-Keeps w header id code body r)

pub check-Safe :
    (w : World) (header id : String) (fault : Option Fault) (need_close : Bool) (r : ℕ)
    → Safe (λ s. (check_err_and_send_400_err_c_msg w header id fault need_close r s).1)
check-Safe w header id fault need_close r s =
    Exact-Keeps s (check_err_and_send_400_err_c_msg-Keeps w header id fault need_close r)

pub close-Safe : (r : ℕ) → Safe (close r)
close-Safe r s = Exact-Keeps s (close-Keeps r)

no_deadline-Safe : (r : ℕ) → Safe (no_deadline r)
unfolding no_deadline
no_deadline-Safe r s = Exact-Closes (
    modify-Closes r (λ c. record c { deadline = none }) s
      (record { name = λ c. refl; step = λ c. refl; disable = λ c. refl; once = λ c. refl }))

del_task_room-Safe : (tid : String) → Safe (del_task_room tid)
unfolding del_task_room
del_task_room-Safe tid s =
    elsewhere-Exact s (delete tid s.proxy_task_room_map) s.proxy_up2p_map s.ids s.sent

set_task_room-Safe : (tid : String) (room : ProxyTaskRoom) → Safe (set_task_room tid room)
unfolding set_task_room
set_task_room-Safe tid room s =
    elsewhere-Exact s (insert tid room s.proxy_task_room_map) s.proxy_up2p_map s.ids s.sent

link_room-Safe :
    (w : World) (i1 : OdjSubReq) (r1 : ℕ) (i2 : OdjSubReq) (r2 : ℕ) → Safe (link_room w i1 r1 i2 r2)
unfolding link_room
link_room-Safe w i1 r1 i2 r2 s v = no_deadline-Safe r2 _ (
    no_deadline-Safe r1 _ (
      write-Safe w "TaskA" i2.id (pos 200) _ r2 _ (
        write-Safe w "TaskA" i1.id (pos 200) _ r1 _ (
          Exact-Keeps _ (init_link_conn-Keeps (peer r1) "LinkTypePC" r2) (
            Exact-Keeps _ (init_link_conn-Keeps (peer r2) "LinkTypePC" r1)
              (del_task_room-Safe i2.dst_key s v))))))

link_first-Safe :
    (w : World) (i1 : Option OdjSubReq) (r1 : Option ℕ) (info : OdjSubReq) (r : ℕ)
    → Safe (link_first w i1 r1 info r)
unfolding link_first
link_first-Safe w (some i1) (some r1) info r s v = link_room-Safe w i1 r1 info r s v
link_first-Safe w _ _ info r s v = v

join_room-Safe :
    (w : World) (room : ProxyTaskRoom) (info : OdjSubReq) (r : ℕ) → Safe (join_room w room info r)
unfolding join_room
join_room-Safe w room info r s v = elim (Bool-cases (room.step == 0)) [
  | inl h ↦ rw h (set_task_room-Safe info.dst_key _ s v)
  | inr h ↦ elim (Bool-cases (room.step == 1)) [
    | inl h1 ↦ rw (h, h1) (link_first-Safe w room.i1 room.c1 info r s v)
    | inr h1 ↦ rw (h, h1) (check-Safe w "TaskA" info.id (some miss_proxy_task_room) true r s v)
  ]
]

pub join_task_room-Safe : (w : World) (info : OdjSubReq) (r : ℕ) → Safe (join_task_room w info r)
unfolding join_task_room
join_task_room-Safe w info r s v = elim (Option-cases (get_task_room info.dst_key s)) [
  | inl e ↦
      rw (e, join_task_room) (check-Safe w "TaskA" info.id (some miss_proxy_task_room) true r s v)
  | inr (room, e) ↦ rw (e, join_task_room) (join_room-Safe w room info r s v)
]

pub set_proxy_sub_client-Safe :
    (r : ℕ) (key : String) (sub : ℕ) → Safe (set_proxy_sub_client r key sub)
set_proxy_sub_client-Safe r key sub s = Exact-Keeps s (set_proxy_sub_client-Keeps r key sub)

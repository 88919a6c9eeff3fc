-- ===== src/Server/Runs.antt =====
-- Concrete runs of the server, and its theorems at concrete inputs.
use go_cfc.Base.{
  ℕ, length, ◌*◌, ◌⊎◌, ◌≤◌, ◌≡◌, ◌≢◌, refl, true, false, Option, none, some, [], ◌∷◌, ◌++◌, String,
  arith, eq_iff,
}
use go_cfc.Base.Assoc.{lookup, insert, delete}
use go_cfc.Base.Int.{pos, negsuc}
use go_cfc.Speed.{second, set}
use go_cfc.Wire.Message.{ConnMsg}
use go_cfc.Server.State.{ProxyServer, ProxyTaskRoom, Config, World, Incoming, OdjSubReq, modify}
use go_cfc.Server.Closing.{get_proxy_client, close, set_proxy_client}
use go_cfc.Server.Sending.{write_c_msg_and_check, write_c_msg, write_packets, count_packet}
use go_cfc.Server.Rooms.{get_task_room, del_expire_task_room, join_task_room}
use go_cfc.Server.Rooms.Expiry.{del_expire_task_room_lem}
use go_cfc.Server.Rooms.Pairing.{Paired, task_a, join_task_room_twice}
use go_cfc.Server.Up2p.{handle, new_up2p, udp_sub_info}
use go_cfc.Server.Up2p.Punching.{up2p_answer, hole_punched}
use go_cfc.Server.Handlers.Link.{c_msg_proxy_initialization}
use go_cfc.Server.Handlers.Business.{c_msg_proxy_register, name_client, register}
use go_cfc.Server.Handlers.Dispatch.{
  accept, new_proxy_client, c_msg_handler, start, Reach, here, next, accepts, handles,
}
use go_cfc.Server.Handlers.Joining.{Asks}
use go_cfc.Server.Names.Invariant.{Exact}
use go_cfc.Server.Names.Handlers.{c_msg_handler-Exact}
use go_cfc.Server.Names.Reach.{Reach-Exact, get_proxy_client_registered, registered_once}
use go_cfc.Server.State.{Body, Sent, client_info, sub_info}
use go_cfc.Server.Setup.{Fills, RawConfig, check, new_proxy_server, check_lem}
use go_cfc.Loger.{init, is_logged, log_level_error}
use go_cfc.Wire.Toys.{replicate}
use go_cfc.Client.Errors.{Replies}
use go_cfc.Client.State.{DeviceBox}
use go_cfc.Client.Toys.{blank, empty_box}
use go_cfc.Client.Opening.{task_req}
use go_cfc.Client.Opening.Handshake.{Decodes, Meets, sub_boxes_meet}

abbrev world : World
world = record {
  now = 5;
  new_id = λ n. "id";
  write_ok = λ r n. true;
  packet_sizes = λ header id code body. 100 ∷ [];
  resolve_tcp = λ a. true;
  dial_tcp = λ a. none;
  resolve_udp = λ a. true;
  dial_udp = λ a. none;
}

abbrev config : Config
config = record {
  ping_wait_time = 50;
  switch_vpn_proxy = false;
  switch_link_client = true;
  switch_udp_p2p = true;
  switch_anonymity = false;
}

-- Every message names the client "ann".
abbrev incoming : Incoming
incoming = record {
  D = Unit {0};
  to_client_info = λ d. some (record { name = "ann"; anonymity = false });
  to_ping = λ d. none;
  to_sub_open_req = λ d. none;
  to_id_list = λ d. none;
  to_up2p_name = λ d. none;
  to_sub_req = λ d. none;
  to_vpn_link = λ d. none;
  to_up2p_req = λ d. none;
}

abbrev message : String → ConnMsg (Unit {0})
message header = record { header = header; code = pos 200; payload = tt; id = "1" }

abbrev outcome : ProxyServer → Option ProxyServer → ProxyServer
outcome s none = s
outcome s (some t) = t

-- A connection is accepted, greets the server and says its name.
abbrev fresh : ProxyServer
unfolding accept start c_msg_handler c_msg_proxy_initialization c_msg_proxy_register name_client
    register write_c_msg_and_check write_c_msg write_packets count_packet set modify
    set_proxy_client get_proxy_client close lookup insert delete new_proxy_client
fresh = accept config world "1.2.3.4:5" (start config world)

abbrev hello : Option ProxyServer
unfolding accept start c_msg_handler c_msg_proxy_initialization c_msg_proxy_register name_client
    register write_c_msg_and_check write_c_msg write_packets count_packet set modify
    set_proxy_client get_proxy_client close lookup insert delete new_proxy_client fresh
hello = c_msg_handler config world incoming (message "Hello! I want to shake hands.") 0 fresh

abbrev greeted : ProxyServer
unfolding hello
greeted = outcome fresh hello

abbrev here_it_is : Option ProxyServer
unfolding accept start c_msg_handler c_msg_proxy_initialization c_msg_proxy_register name_client
    register write_c_msg_and_check write_c_msg write_packets count_packet set modify
    set_proxy_client get_proxy_client close lookup insert delete new_proxy_client greeted
here_it_is = c_msg_handler config world incoming (message "Here it is") 0 greeted

abbrev named : ProxyServer
unfolding here_it_is
named = outcome greeted here_it_is

named_is : (named.clients 0).name ≡ "ann"
unfolding named
named_is = refl

named_open : (named.clients 0).disable ≡ false
unfolding named
named_open = refl

fresh_next : (fresh.next ≡ 1) × (greeted.next ≡ 1)
unfolding fresh greeted
fresh_next = (refl, refl)

hello_some :
    c_msg_handler config world incoming (message "Hello! I want to shake hands.") 0 fresh
    ≡ some greeted
unfolding accept start c_msg_handler c_msg_proxy_initialization c_msg_proxy_register name_client
    register write_c_msg_and_check write_c_msg write_packets count_packet set modify
    set_proxy_client get_proxy_client close lookup insert delete new_proxy_client greeted
hello_some = refl

here_some : c_msg_handler config world incoming (message "Here it is") 0 greeted ≡ some named
unfolding accept start c_msg_handler c_msg_proxy_initialization c_msg_proxy_register name_client
    register write_c_msg_and_check write_c_msg write_packets count_packet set modify
    set_proxy_client get_proxy_client close lookup insert delete new_proxy_client named
here_some = refl

ids_some : (n : ℕ) → world.new_id n ≢ ""
ids_some n = ground (arith, eq_iff "id" "")

Reach-greeted : Reach config incoming (start config world) greeted
unfolding fresh accept
Reach-greeted = next (next here (accepts world "1.2.3.4:5" (start config world))) (
    handles world (message "Hello! I want to shake hands.") 0 fresh greeted ids_some
      (omega (arith, fresh_next.0)) hello_some)

Reach-named : Reach config incoming (start config world) named
Reach-named = next Reach-greeted (
    handles world (message "Here it is") 0 greeted named ids_some (omega (arith, fresh_next.1))
      here_some)

named_some : (named.clients 0).name ≢ ""
named_some e = let a = named_is in ground (arith, eq_iff "ann" "")

get_proxy_client_registered_example : get_proxy_client (named.clients 0).name named ≡ some 0
get_proxy_client_registered_example =
    get_proxy_client_registered world 0 Reach-named named_open named_some

registered_once_example : ◌≡◌ {A = ℕ} 0 0
registered_once_example =
    registered_once world 0 0 Reach-named named_open named_open named_some refl

c_msg_handler-Exact_example : Exact named
c_msg_handler-Exact_example =
    c_msg_handler-Exact config world incoming (message "Here it is") 0 greeted named ids_some
      (omega (arith, fresh_next.1)) (Reach-Exact world Reach-greeted) here_some

-- Two connections, and a room that a request has opened.
abbrev room : ProxyTaskRoom
room = record { id = "key"; step = 0; expire_time = 7; c1 = none; i1 = none }

abbrev request : String → OdjSubReq
request name = record { id = "9"; src_name = name; dst_key = "key"; addr = none }

abbrev two : ProxyServer
unfolding accept start modify new_proxy_client
two =
    record (accept config world "1.1.1.1:1"
      (accept config world "2.2.2.2:2" (start config world))) {
        proxy_task_room_map = ("key", room) ∷ ("old", record room { expire_time = 3 }) ∷ [];
      }

two_room : get_task_room "key" two ≡ some room
unfolding two get_task_room lookup
two_room = refl

two_open : ((two.clients 0).disable ≡ false) × ((two.clients 1).disable ≡ false)
unfolding two
two_open = (refl, refl)

join_task_room_twice_example :
    let t = join_task_room world (request "bob") 1 (join_task_room world (request "ann") 0 two) in
    Paired 0 1 t
    × (t.sent
        ≡ (two.sent
            ++ task_a 0
                (request "ann")
                (request "bob")
                (two.clients 0).remote_addr
                (two.clients 1).remote_addr
              ∷ [])
          ++ task_a 1
              (request "bob")
              (request "ann")
              (two.clients 1).remote_addr
              (two.clients 0).remote_addr
            ∷ [])
    × (get_task_room "key" t ≡ none)
join_task_room_twice_example =
    join_task_room_twice world 0 1 (λ e. omega (arith, e)) (λ r n. refl) (request "ann")
      (request "bob") room two two_open.0 two_open.1 refl two_room refl

del_expire_task_room_lem_example :
    (get_task_room "key" two ≡ some room
      → 5 ≤ 7
      → get_task_room "key" (del_expire_task_room world two) ≡ some room)
    × (get_task_room "key" (del_expire_task_room world two) ≡ some room → 5 ≤ 7)
del_expire_task_room_lem_example = del_expire_task_room_lem world two "key" room

hole_punched_example :
    let (over1, up1, s1) =
      handle world (new_up2p world "e") (some "10.0.0.1:1") "1.1.1.1:9" 0 two in
    let (over2, up2, s2) = handle world up1 none "2.2.2.2:9" 1 s1 in
    (over1 ≡ false)
    × ((i : Option String) (r : ℕ) → handle world up1 i "1.1.1.1:9" r s1 ≡ (false, up1, s1))
    × (over2 ≡ true)
    × (s2.sent
        ≡ (two.sent
            ++ up2p_answer "e" 0 "2.2.2.2:9"
                (udp_sub_info "" "" (some "10.0.0.1:1") none "1.1.1.1:9" "2.2.2.2:9")
              ∷ [])
          ++ up2p_answer "e" 1 "1.1.1.1:9"
              (udp_sub_info "" "" none (some "10.0.0.1:1") "2.2.2.2:9" "1.1.1.1:9")
            ∷ [])
unfolding two new_up2p
hole_punched_example =
    hole_punched world (λ r n. refl) (new_up2p world "e") 0 1 (some "10.0.0.1:1") none "1.1.1.1:9"
      "2.2.2.2:9" two refl (λ e. ground (arith, eq_iff "2.2.2.2:9" "1.1.1.1:9")) two_open.0
      two_open.1

-- Two clients, whose sub boxes join the room.
abbrev as_client : String → DeviceBox
as_client name = record empty_box {
  name = name;
  subs = λ q. record blank { local_addr = "10.0.0.1:1" };
}

abbrev replies : Replies
replies = record {
  D = Body;
  to_client_info = λ d. elim d [ client_info i ↦ some i | _ ↦ none ];
  to_sub_open_resp = λ d. none;
  to_sub_info = λ d. elim d [ sub_info i ↦ some i | _ ↦ none ];
  to_pings = λ d. none;
  to_vpn_info = λ d. none;
  to_bytes = λ d. none;
  to_up2p_id = λ d. none;
  to_up2p_resp = λ d. none;
}

decodes : Decodes replies
decodes = record { seen = λ b. b; sub_info_seen = λ i. refl; client_info_seen = λ i. refl }

-- Two clients are registered, and two more connections are open; a message has its request.
abbrev asking : Incoming
asking = record {
  D = OdjSubReq;
  to_client_info = λ d. none;
  to_ping = λ d. none;
  to_sub_open_req = λ d. none;
  to_id_list = λ d. none;
  to_up2p_name = λ d. none;
  to_sub_req = λ d. some d;
  to_vpn_link = λ d. none;
  to_up2p_req = λ d. none;
}

abbrev task_q : OdjSubReq → ConnMsg OdjSubReq
task_q info = record { header = "TaskQ"; code = pos 200; payload = info; id = info.id }

abbrev four : ProxyServer
unfolding two accept start modify new_proxy_client
four = record (accept config world "1.1.1.1:3" (accept config world "2.2.2.2:4" two)) {
  proxy_client_map = ("ann", 2) ∷ ("bob", 3) ∷ [];
}

four_room : get_task_room "key" four ≡ some room
unfolding four two get_task_room lookup
four_room = refl

four_open : ((four.clients 0).disable ≡ false) × ((four.clients 1).disable ≡ false)
unfolding four
four_open = (refl, refl)

ann-Asks :
    Asks asking 0
      (task_q (task_req "1" "key" 0 (as_client "ann")))
      (task_req "1" "key" 0 (as_client "ann"))
      2
      four
unfolding four get_proxy_client lookup task_req
ann-Asks = record {
  step = refl;
  header = refl;
  request = refl;
  key = refl;
  near = "10.0.0.1:1";
  addr = refl;
  name = refl;
  registered = refl;
  up = refl;
}

bob-Asks :
    Asks asking 1
      (task_q (task_req "2" "key" 0 (as_client "bob")))
      (task_req "2" "key" 0 (as_client "bob"))
      3
      four
unfolding four get_proxy_client lookup task_req
bob-Asks = record {
  step = refl;
  header = refl;
  request = refl;
  key = refl;
  near = "10.0.0.1:1";
  addr = refl;
  name = refl;
  registered = refl;
  up = refl;
}

sub_boxes_meet_example :
    (t1 : ProxyServer) × ((t : ProxyServer) × (c_msg_handler config world asking
          (task_q (task_req "1" "key" 0 (as_client "ann")))
          0
          four
        ≡ some t1)
      × (c_msg_handler config world asking (task_q (task_req "2" "key" 0 (as_client "bob"))) 1 t1
          ≡ some t)
      × Paired 0 1 t
      × ((a1 a2 : Sent) × (t.sent ≡ (four.sent ++ a1 ∷ []) ++ a2 ∷ [])
          × (a1.to ≡ 0)
          × (a2.to ≡ 1)
          × Meets decodes world 0 (as_client "ann") a1 "bob" (four.clients 1).remote_addr
          × Meets decodes world 0 (as_client "bob") a2 "ann" (four.clients 0).remote_addr))
sub_boxes_meet_example =
    sub_boxes_meet decodes config asking world world world 0 0 0 1 2 3 (as_client "ann")
      (as_client "bob") "1" "2" "key" (task_q (task_req "1" "key" 0 (as_client "ann")))
      (task_q (task_req "2" "key" 0 (as_client "bob"))) room four refl ann-Asks bob-Asks
      (λ e. omega (arith, e)) (λ c n. refl) four_open.0 four_open.1 four_room refl

-- The time for a message is negative, and stays so.
abbrev raw : RawConfig
raw = record (new_proxy_server "1.2.3.4:5" (replicate 32 1)) {
  handle_wait_time = negsuc 4;
  ping_wait_time = pos 7;
}

abbrev filled : RawConfig
unfolding new_proxy_server
filled = record raw { resolved = some "1.2.3.4:5"; cg_task_time = pos 60000000000 }

checked : check init (λ a. some a) raw ≡ some filled
unfolding check filled new_proxy_server init is_logged
checked = refl

check_lem_example :
    Fills (negsuc 4) (10 * second) (negsuc 4)
    × Fills (pos 7) (30 * second) (pos 7)
    × Fills (pos 0) (60 * second) (pos 60000000000)
    × (check init (λ a. some a) filled ≡ some filled)
    × ((is_logged init log_level_error ≡ false)
        ⊎ ((length filled.raw_key ≡ 32)
            × (filled.resolved ≢ none)
            × (filled.resolved ≡ some raw.ln_addr)))
unfolding filled new_proxy_server
check_lem_example = check_lem init (λ a. some a) raw filled checked

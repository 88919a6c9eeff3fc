-- ===== src/Server/Traffic.antt =====
-- Two linked clients, one of which sends two bytes: the theorems about links at a concrete run.
use go_cfc.Base.{
  ℕ, ◌≡◌, ◌≢◌, refl, true, false, Option, none, some, [], ◌∷◌, ◌++◌, String, Bytes, arith, ◌==◌,
  map, if◌then◌else◌, take, drop,
}
use go_cfc.Base.Lists.{sum}
use go_cfc.Speed.{set, new_network_speed_ticker}
use go_cfc.Wire.Message.{ConnMsg, Data}
use go_cfc.Wire.Toys.{toy, Toy, toy_json, shared_key}
use go_cfc.LinkBox.{new_link_box, write_link_box_from_reader, writes, write_list, read_some}
use go_cfc.Server.State.{
  ProxyServer, ProxyClient, Config, World, Incoming, peer, modify, proxy_initialization,
}
use go_cfc.Server.Sending.{count_packet}
use go_cfc.Server.Piping.{
  Wires, arrive, put_box, pc_accepts, count_pieces, write_link_conn, tcp_round,
}
use go_cfc.Server.Piping.Pipes.{Spec, Runs, rests, sends, serves, End}
use go_cfc.Server.Piping.Ends.{view}
use go_cfc.Server.Piping.Order.{InOrder}
use go_cfc.Base.Assoc.{lookup}
use go_cfc.Server.State.{ProxyTaskRoom, OdjSubReq, no_conn}
use go_cfc.Server.Rooms.{get_task_room, join_task_room}
use go_cfc.Server.Piping.{link_boxes}
use go_cfc.Server.Piping.Ends.{duplex}
use go_cfc.Server.Piping.Progress.{piece_size, rounds, link_drains}
use go_cfc.Server.Piping.Meeting.{met_clients_refine_pipes}
use go_cfc.Server.Piping.Refinement.{linked_clients_refine_pipes, linked_clients-InOrder}

abbrev world : World
world = record {
  now = 5;
  new_id = λ n. "id";
  write_ok = λ r n. true;
  packet_sizes = λ header id code body. 100 ∷ [];
  resolve_tcp = λ a. true;
  dial_tcp = λ a. none;
  resolve_udp = λ a. true;
  dial_udp = λ a. none;
}

abbrev config : Config
config = record {
  ping_wait_time = 50;
  switch_vpn_proxy = false;
  switch_link_client = true;
  switch_udp_p2p = true;
  switch_anonymity = false;
}

abbrev incoming : Incoming
incoming = record {
  D = Unit {0};
  to_client_info = λ d. none;
  to_ping = λ d. none;
  to_sub_open_req = λ d. none;
  to_id_list = λ d. none;
  to_up2p_name = λ d. none;
  to_sub_req = λ d. none;
  to_vpn_link = λ d. none;
  to_up2p_req = λ d. none;
}

abbrev to_message : ConnMsg (Data Toy) → ConnMsg (Unit {0})
to_message m = record { header = m.header; code = m.code; payload = tt; id = m.id }

abbrev to_bytes : Data Toy → Option Bytes
to_bytes d = none

-- A client that is linked with the one numbered `other`.
abbrev linked_with : ℕ → ProxyClient
linked_with other = record {
  id = "id";
  name = "";
  disable = false;
  raw_closed = false;
  writes = 0;
  remote_addr = "1.1.1.1:1";
  deadline = none;
  link_conn = peer other;
  link_switch = true;
  link_type = "LinkTypePC";
  reading = false;
  ping = 0;
  network_speed = new_network_speed_ticker;
  step = proxy_initialization;
  once = false;
  parent = none;
  sub_map = [];
}

abbrev pair : ProxyServer
pair = record {
  clients = λ p. if p == 0 then linked_with 1 else linked_with 0;
  next = 2;
  proxy_client_map = [];
  proxy_task_room_map = [];
  proxy_up2p_map = [];
  ids = 2;
  sent = [];
  hung = false;
}

abbrev quiet : Wires
unfolding new_link_box
quiet = record { incoming = λ p. []; boxes = λ p. new_link_box 8 [] none none; serving = λ p. true }

-- After the bytes have come in, and after they have been passed on.
abbrev sent : Wires
unfolding arrive
sent = arrive 0 (1 ∷ 2 ∷ []) quiet

abbrev counted : ProxyServer
unfolding modify count_packet set
counted = modify 1 (count_packet world 2) pair

abbrev passed : Wires
unfolding arrive put_box new_link_box
passed =
    put_box 0 (record (new_link_box 8 [] none none) { link_written = (1 ∷ 2 ∷ []) ∷ [] })
      (arrive 0 [] sent)

passed_lem :
    tcp_round toy
      (toy_json "" "")
      shared_key
      config
      incoming
      to_message
      to_bytes
      world
      (λ n. false)
      (some 2)
      (λ n. true)
      0
      0
      pair
      sent
    ≡ some (counted, passed)
unfolding tcp_round write_link_conn write_link_box_from_reader writes write_list read_some
    pc_accepts count_pieces arrive put_box take drop new_link_box modify count_packet set sent
    counted passed quiet
passed_lem = refl

pair_runs :
    Runs toy
      (toy_json "" "")
      shared_key
      config
      incoming
      to_message
      to_bytes
      0
      1
      pair
      quiet
      (1 ∷ 2 ∷ [])
      []
      counted
      passed
unfolding arrive sent quiet
pair_runs = sends (1 ∷ 2 ∷ []) [] [] pair counted quiet passed (
    serves world (λ n. false) (some 2) (λ n. true) 0 [] [] pair counted counted sent passed passed
      passed_lem (rests counted passed))

left_End : End 0 1 pair quiet
unfolding quiet new_link_box
left_End = record { switch = refl; conn = refl; raw = refl; flag = refl; gone = λ h. ground arith }

right_End : End 1 0 pair quiet
unfolding quiet new_link_box
right_End = record { switch = refl; conn = refl; raw = refl; flag = refl; gone = λ h. ground arith }

apart : (let zeroth : ℕ = 0 in zeroth) ≢ 1
apart h = omega arith

linked_clients_refine_pipes_example : Spec (view 0 1 quiet) (1 ∷ 2 ∷ []) [] (view 0 1 passed)
linked_clients_refine_pipes_example =
    linked_clients_refine_pipes toy (toy_json "" "") shared_key config incoming to_message to_bytes
      0 1 pair counted quiet passed (1 ∷ 2 ∷ []) [] apart left_End right_End pair_runs

linked_clients-InOrder_example :
    InOrder (view 0 1 quiet).there (1 ∷ 2 ∷ []) (view 0 1 passed).there (view 0 1 passed).alive
    × InOrder (view 0 1 quiet).back [] (view 0 1 passed).back (view 0 1 passed).alive
linked_clients-InOrder_example =
    linked_clients-InOrder toy (toy_json "" "") shared_key config incoming to_message to_bytes 0 1
      pair counted quiet passed (1 ∷ 2 ∷ []) [] apart left_End right_End pair_runs

-- Two connections that join the same room.
abbrev alone : ProxyClient
alone = record (linked_with 0) { link_conn = no_conn; link_switch = false; link_type = "" }

abbrev room : ProxyTaskRoom
room = record { id = "key"; step = 0; expire_time = 7; c1 = none; i1 = none }

abbrev request : String → OdjSubReq
request name = record { id = "9"; src_name = name; dst_key = "key"; addr = none }

abbrev apart_pair : ProxyServer
apart_pair = record pair { clients = λ p. alone; proxy_task_room_map = ("key", room) ∷ [] }

room_there : get_task_room "key" apart_pair ≡ some room
unfolding get_task_room lookup
room_there = refl

abbrev joined_first : ProxyServer
joined_first = join_task_room world (request "ann") 0 apart_pair

abbrev joined : ProxyServer
joined = join_task_room world (request "bob") 1 joined_first

abbrev new_links : Wires
new_links =
    link_boxes toy (toy_json "" "") shared_key config incoming to_message to_bytes (λ n. false)
      (some 2) 0 joined_first joined quiet

abbrev more : Wires
more = arrive 0 (new_links.incoming 0 ++ (1 ∷ 2 ∷ [])) new_links

met_clients_refine_pipes_example : Spec (duplex [] [] [] [] true) (1 ∷ 2 ∷ []) [] (view 0 1 more)
unfolding quiet
met_clients_refine_pipes_example =
    met_clients_refine_pipes toy (toy_json "" "") shared_key config incoming to_message to_bytes
      world 0 1 (request "ann") (request "bob") room apart_pair quiet (λ n. false) (some 2) 0 joined
      more (1 ∷ 2 ∷ []) [] apart (λ r n. refl) refl refl refl refl refl refl refl refl refl
      room_there refl (sends (1 ∷ 2 ∷ []) [] [] joined joined new_links more (rests joined more))

-- The two bytes on their way.
left_sent-End : End 0 1 pair sent
unfolding sent quiet arrive new_link_box
left_sent-End = record {
  switch = refl;
  conn = refl;
  raw = refl;
  flag = refl;
  gone = λ h. ground arith;
}

right_sent-End : End 1 0 pair sent
unfolding sent quiet arrive new_link_box
right_sent-End = record {
  switch = refl;
  conn = refl;
  raw = refl;
  flag = refl;
  gone = λ h. ground arith;
}

-- A round that reads one byte, and one that could read five.
link_drains_example :
    let total = sum (map piece_size (1 ∷ 5 ∷ [])) in
    (t : ProxyServer) × ((v' : Wires) × (rounds toy
          (toy_json "" "")
          shared_key
          config
          incoming
          to_message
          to_bytes
          world
          (λ n. false)
          (λ n. true)
          0
          0
          (1 ∷ 5 ∷ [])
          pair
          sent
        ≡ some (t, v'))
      × ((view 0 1 v').there.delivered
          ≡ (view 0 1 sent).there.delivered ++ take total (view 0 1 sent).there.flight)
      × ((view 0 1 v').there.flight ≡ drop total (view 0 1 sent).there.flight)
      × (v'.serving 0 ≡ true))
unfolding sent quiet arrive
link_drains_example =
    link_drains toy (toy_json "" "") shared_key config incoming to_message to_bytes world
      (λ n. false) (λ n. true) 0 0 1 apart (λ n. refl) (1 ∷ 5 ∷ []) pair sent refl refl
      left_sent-End right_sent-End

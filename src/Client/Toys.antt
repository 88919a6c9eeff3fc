-- ===== src/Client/Toys.antt =====
-- A box without sub boxes, a sub box, and what comes from outside: for the runs.
use go_cfc.Base.{true, false, none, some, [], ◌∷◌, String}
use go_cfc.Base.Int.{pos}
use go_cfc.Wire.Toys.{shared_key}
use go_cfc.Server.State.{World, SubInfo, VpnInfo}
use go_cfc.Speed.{new_network_speed_ticker}
use go_cfc.Client.State.{SubBox}
use go_cfc.Client.Errors.{Answer, answer, Replies}
use go_cfc.Client.State.{DeviceBox}

abbrev pub blank : SubBox
blank = record {
  id = "";
  sub_type = "";
  key = shared_key;
  conn_closed = false;
  local_addr = "";
  remote_addr = "";
  deadline = none;
  writes = 0;
  written = [];
  network_speed = new_network_speed_ticker;
  addr = none;
  disable = false;
  sub_map = [];
  once = false;
}

abbrev pub empty_box : DeviceBox
empty_box = record {
  name = "ann";
  is_anonymity = false;
  disable = false;
  handshake = false;
  addr = "7.7.7.7:7";
  has_conn = false;
  conn_closed = false;
  writes = 0;
  written = [];
  deadline = none;
  stop = false;
  ping = 0;
  network_speed = new_network_speed_ticker;
  key = shared_key;
  sub_map = [];
  is_listen = false;
  listening = none;
  switch_listen_up2p = false;
  once = false;
  subs = λ q. blank;
  next = 0;
  ids = 0;
}

-- Everything that comes is decoded to the same values, and nothing is a map of rooms.
abbrev pub addresses : VpnInfo
addresses = record {
  link_conn_type = "LinkConnTypeTCP";
  link_remote_addr_tcp = some "9.9.9.9:80";
  link_local_addr_tcp = some "8.8.8.8:1000";
  link_remote_addr_udp = none;
  link_local_addr_udp = none;
  copy_conn_type = "CopyConnTypeTCP";
  copy_remote_addr_tcp = none;
  copy_local_addr_tcp = none;
  copy_remote_addr_udp = none;
  copy_local_addr_udp = none;
}

abbrev pub met : SubInfo
met = record {
  local_name = "ann";
  remote_name = "bob";
  local_intranet_addr = some "10.0.0.1:1";
  remote_intranet_addr = some "10.0.0.2:2";
  local_public_addr = some "1.1.1.1:1";
  remote_public_addr = some "2.2.2.2:2";
  u_local_intranet_addr = none;
  u_remote_intranet_addr = none;
  u_local_public_addr = none;
  u_remote_public_addr = none;
}

abbrev pub replies : Replies
replies = record {
  D = Unit {0};
  to_client_info = λ d. none;
  to_sub_open_resp = λ d. some ("room", "SubOpenTypeDefault");
  to_sub_info = λ d. some met;
  to_pings = λ d. none;
  to_vpn_info = λ d. some addresses;
  to_bytes = λ d. none;
  to_up2p_id = λ d. none;
  to_up2p_resp = λ d. none;
}

abbrev pub message : String → Answer (Unit {0})
message header = answer (record { header = header; code = pos 200; payload = tt; id = "" })

abbrev pub world : World
world = record {
  now = 5;
  new_id = λ n. "id";
  write_ok = λ r n. true;
  packet_sizes = λ header id code body. 100 ∷ [];
  resolve_tcp = λ a. true;
  dial_tcp = λ a. some ("9.9.9.9:80", "8.8.8.8:1000");
  resolve_udp = λ a. true;
  dial_udp = λ a. none;
}

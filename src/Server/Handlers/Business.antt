-- ===== src/Server/Handlers/Business.antt =====
-- Registering, and the messages of a registered client: cMsgProxyRegister and cMsgProxyBusiness
-- of server/proxy.go.
use go_cfc.Base.{
  ℕ, suc, ◌+◌, Bool, true, false, not, ◌&&◌, Option, none, some, List, String, if◌then◌else◌,
  str_eq,
}
use go_cfc.Base.Int.{pos}
use go_cfc.Wire.Message.{ConnMsg}
use go_cfc.Server.State.{
  ProxyServer, Config, World, Incoming, Fault, Body, OdjClientInfo, OdjSubOpenReq, modify, empty,
  err_msg, client_info, sub_open_resp, pings, speed, speeds, up2p_id, method_is_refused, bad_json,
  miss_proxy_client, proxy_client_name_is_nil,
}
use go_cfc.Server.Closing.{get_proxy_client, set_proxy_client}
use go_cfc.Server.Sending.{write_c_msg_and_check, check_err_and_send_400_err_c_msg}
use go_cfc.Server.Rooms.{new_task_room}
use go_cfc.Server.Up2p.{new_and_set_up2p}
use go_cfc.Server.Handlers.Reports.{
  get_proxy_client_delay, get_all_proxy_client_network_speed, get_proxy_client_network_speed,
  get_all_network_speed, get_network_speed,
}

module _ (config : Config) (w : World) (u : Incoming) where
  -- From `pc.ps.setProxyClient(pc.name, pc)` on, with the name that was given or drawn.
  unfoldable pub register : String → OdjClientInfo → ℕ → ProxyServer → ProxyServer
  register id info r s =
      let s1 = modify r (λ c. record c { name = info.name }) s in
      let s2 = set_proxy_client info.name r s1 in
      let s3 = write_c_msg_and_check w "OK! Happy handshake" id (pos 200) (client_info info) r s2 in
      modify r (λ c. record c { step = suc c.step }) s3

  -- checkErrAndSend400ErrCMsg(header, id, err, need_close)
  unfoldable pub fail : Bool → String → String → Fault → ℕ → ProxyServer → ProxyServer
  fail need_close header id fault r s =
      (check_err_and_send_400_err_c_msg w header id (some fault) need_close r s).1

  unfoldable pub name_client : String → OdjClientInfo → ℕ → ProxyServer → ProxyServer
  name_client id info r s =
      if not (str_eq info.name "")
      then register id info r s
      else if info.anonymity && config.switch_anonymity
      then register id (record info { name = w.new_id s.ids }) r (record s { ids = suc s.ids })
      else fail true "OK! Happy handshake" id proxy_client_name_is_nil r s

  unfoldable pub c_msg_proxy_register : ConnMsg u.D → ℕ → ProxyServer → ProxyServer
  c_msg_proxy_register m r s =
      if str_eq m.header "Here it is"
      then elim (u.to_client_info m.payload) [
        | none ↦ fail true "OK! Happy handshake" m.id bad_json r s
        | some info ↦ name_client m.id info r s
      ]
      else s

  unfoldable pub reply : String → String → Body → ℕ → ProxyServer → ProxyServer
  reply header id = write_c_msg_and_check w header id (pos 200)

  -- A request that a switch forbids; the connection stays open.
  unfoldable pub forbid : String → String → ℕ → ProxyServer → ProxyServer
  forbid header id = write_c_msg_and_check w header id (pos 401) (err_msg method_is_refused)

  unfoldable pub on_ping : String → Option ℕ → ℕ → ProxyServer → ProxyServer
  on_ping id none r s = fail true "Ping" id bad_json r s
  on_ping id (some ping) r s =
      reply "Pong" id empty r (
        modify r (λ c. record c { ping = ping; deadline = some (w.now + config.ping_wait_time) }) s)

  -- The case sOpenQ: a new room, told first to the side that is asked for, then to the asker.
  unfoldable pub open_room : String → OdjSubOpenReq → ℕ → ProxyServer → ProxyServer
  open_room id info r s = elim (get_proxy_client info.odj_name s) [
    | none ↦ fail false "sOpenA" id miss_proxy_client r s
    | some odj ↦
        let (tid, s1) = new_task_room w s in
        reply "sOpenA" id (sub_open_resp tid info.open_type) r
          (reply "sOpenA" "" (sub_open_resp tid info.open_type) odj s1)
  ]

  unfoldable pub on_sub_open : String → Option OdjSubOpenReq → ℕ → ProxyServer → ProxyServer
  on_sub_open id req r s =
      if not config.switch_link_client then forbid "sOpenA" id r s else elim req [
        | none ↦ fail false "sOpenA" id bad_json r s
        | some info ↦ open_room id info r s
      ]

  unfoldable pub on_delay : String → Option (List String) → ℕ → ProxyServer → ProxyServer
  on_delay id none r s = fail false "DelayA" id bad_json r s
  on_delay id (some keys) r s = reply "DelayA" id (pings (get_proxy_client_delay keys s)) r s

  unfoldable pub on_speed_q1 : String → Option (List String) → ℕ → ProxyServer → ProxyServer
  on_speed_q1 id none r s = fail false "SpeedA1" id bad_json r s
  on_speed_q1 id (some keys) r s =
      let (list, s1) = get_proxy_client_network_speed w keys s in
      reply "SpeedA1" id (speeds list) r s1

  -- The case P2PUdpQ1: the asker is answered first.
  unfoldable pub open_up2p : String → String → ℕ → ProxyServer → ProxyServer
  open_up2p id name r s = elim (get_proxy_client name s) [
    | none ↦ fail false "P2PUdpQ1" id miss_proxy_client r s
    | some c ↦
        let (kid, s1) = new_and_set_up2p w s in
        reply "P2PUdpQ1" "" (up2p_id kid) c (reply "P2PUdpQ1" id (up2p_id kid) r s1)
  ]

  unfoldable pub on_p2p_udp : String → Option String → ℕ → ProxyServer → ProxyServer
  on_p2p_udp id req r s = if not config.switch_udp_p2p then forbid "P2PUdpQ1" id r s else elim req [
    | none ↦ fail false "P2PUdpQ1" id bad_json r s
    | some name ↦ open_up2p id name r s
  ]

  unfoldable pub c_msg_proxy_business : ConnMsg u.D → ℕ → ProxyServer → ProxyServer
  c_msg_proxy_business m r s =
      if str_eq m.header "Ping"
      then on_ping m.id (u.to_ping m.payload) r s
      else if str_eq m.header "sOpenQ"
      then on_sub_open m.id (u.to_sub_open_req m.payload) r s
      else if str_eq m.header "DelayQ"
      then on_delay m.id (u.to_id_list m.payload) r s
      else if str_eq m.header "SpeedQ0"
      then (let (view, s1) = get_all_proxy_client_network_speed w s in
          reply "SpeedA0" m.id (speed view) r s1)
      else if str_eq m.header "SpeedQ1"
      then on_speed_q1 m.id (u.to_id_list m.payload) r s
      else if str_eq m.header "SpeedQ2"
      then (let (view, s1) = get_all_network_speed w r s in reply "SpeedA2" m.id (speed view) r s1)
      else if str_eq m.header "SpeedQ3"
      then (let (view, s1) = get_network_speed w r s in reply "SpeedA3" m.id (speed view) r s1)
      else if str_eq m.header "P2PUdpQ1"
      then on_p2p_udp m.id (u.to_up2p_name m.payload) r s
      else s

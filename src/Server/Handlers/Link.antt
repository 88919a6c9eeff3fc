-- ===== src/Server/Handlers/Link.antt =====
-- A connection that has not registered: cMsgProxyInitialization (server/proxy.go), and the VPN link
-- (server/proxy_vpn.go). `none` is a panic, which ends the process.
use go_cfc.Base.{ℕ, suc, Bool, true, false, not, Option, none, some, String, if◌then◌else◌, str_eq}
use go_cfc.Base.Int.{pos}
use go_cfc.Wire.Message.{ConnMsg}
use go_cfc.Server.State.{
  ProxyServer, Config, World, Incoming, Fault, VpnInfo, OdjVpnLinkAddr, OdjSubReq, modify, empty,
  err_msg, vpn_info, method_is_refused, bad_json, sub_dst_key_is_nil, sub_local_addr_is_nil,
  miss_proxy_client, unexpected_link_conn_type, resolve_failed, dial_failed, dialled,
}
use go_cfc.Server.Closing.{close, get_proxy_client, set_proxy_sub_client}
use go_cfc.Server.Sending.{write_c_msg_and_check, check_err_and_send_400_err_c_msg, init_link_conn}
use go_cfc.Server.Rooms.{join_task_room}

-- linkVPNConn. Without AddrInfo, setting its fields panics; else the info is the changed one.
pub data Dialling : Type 0 where
  refused : Fault → Dialling
  linked : VpnInfo → ProxyServer → Dialling
  nil_pointer : Dialling

unfoldable pub tcp_info : String × String → VpnInfo → VpnInfo
tcp_info (remote, local) info = record info {
  link_conn_type = "LinkConnTypeTCP";
  link_remote_addr_tcp = some remote;
  link_local_addr_tcp = some local;
}

unfoldable pub udp_link_info : String × String → VpnInfo → VpnInfo
udp_link_info (remote, local) info = record info {
  link_conn_type = "LinkConnTypeUDP";
  link_remote_addr_udp = some remote;
  link_local_addr_udp = some local;
}

-- What follows a dial: filling in the info, then initVPNSettings.
unfoldable pub dialling :
    Bool
    → Option (String × String)
    → (String × String → VpnInfo → VpnInfo)
    → Option VpnInfo
    → ℕ
    → ProxyServer
    → Dialling
unfolding init_link_conn
dialling false conn fill info r s = refused resolve_failed
dialling true none fill info r s = refused dial_failed
dialling true (some addrs) fill none r s = nil_pointer
dialling true (some addrs) fill (some info) r s =
    linked (fill addrs info) (init_link_conn (dialled false) "LinkTypeVPN" r s)

unfoldable pub link_vpn_conn : World → OdjVpnLinkAddr → ℕ → ProxyServer → Dialling
unfolding dialling
link_vpn_conn w info r s =
    if str_eq info.conn_type "LinkConnTypeTCP"
    then dialling (w.resolve_tcp info.addr) (w.dial_tcp info.addr) tcp_info info.addr_info r s
    else if str_eq info.conn_type "LinkConnTypeUDP"
    then dialling (w.resolve_udp info.addr) (w.dial_udp info.addr) udp_link_info info.addr_info r s
    else refused unexpected_link_conn_type

module _ (config : Config) (w : World) (u : Incoming) where
  -- A request that a switch forbids.
  unfoldable pub refuse : String → String → ℕ → ProxyServer → ProxyServer
  refuse header id r s =
      close r (write_c_msg_and_check w header id (pos 401) (err_msg method_is_refused) r s)

  -- checkErrAndSend400ErrCMsg(header, id, err, true)
  unfoldable pub reject : String → String → Fault → ℕ → ProxyServer → ProxyServer
  reject header id fault r s =
      (check_err_and_send_400_err_c_msg w header id (some fault) true r s).1

  -- The case TaskQ, from the checks of the request on.
  unfoldable pub attach : String → OdjSubReq → ℕ → ProxyServer → ProxyServer
  attach id info r s =
      if str_eq info.dst_key "" then reject "TaskA" id sub_dst_key_is_nil r s else elim info.addr [
        | none ↦ reject "TaskA" id sub_local_addr_is_nil r s
        | some addr ↦
            if not (str_eq info.src_name "")
            then elim (get_proxy_client info.src_name s) [
              | none ↦ reject "TaskA" id miss_proxy_client r s
              | some parent ↦
                  let s1 = set_proxy_sub_client parent (s.clients r).id r s in
                  let s2 = modify r (λ c. record c { parent = some parent }) s1 in
                  join_task_room w info r s2
            ]
            else join_task_room w info r s
      ]

  unfoldable pub answer_vpn : String → OdjVpnLinkAddr → ℕ → ProxyServer → Option ProxyServer
  answer_vpn id info r s = elim (link_vpn_conn w info r s) [
    | refused fault ↦ some (reject "ConnVPNA1" id fault r s)
    | linked changed s1 ↦
        some (write_c_msg_and_check w "ConnVPNA1" id (pos 200) (vpn_info (some changed)) r s1)
    | nil_pointer ↦ none
  ]

  unfoldable pub c_msg_proxy_initialization : ConnMsg u.D → ℕ → ProxyServer → Option ProxyServer
  unfolding attach answer_vpn refuse reject
  c_msg_proxy_initialization m r s =
      if str_eq m.header "Hello! I want to shake hands."
      then some (
          write_c_msg_and_check w "Hi! What's your Info?" m.id (pos 200) empty r
            (modify r (λ c. record c { step = suc c.step }) s))
      else if str_eq m.header "TaskQ"
      then if not config.switch_link_client
        then some (refuse "TaskA" m.id r s)
        else elim (u.to_sub_req m.payload) [
          | none ↦ some (reject "TaskA" m.id bad_json r s)
          | some info ↦ some (attach m.id info r s)
        ]
      else if str_eq m.header "ConnVPNQ1"
      then if not config.switch_vpn_proxy
        then some (refuse "ConnVPNA1" m.id r s)
        else elim (u.to_vpn_link m.payload) [
          | none ↦ some (reject "ConnVPNA1" m.id bad_json r s)
          | some info ↦ answer_vpn m.id info r s
        ]
      else some s

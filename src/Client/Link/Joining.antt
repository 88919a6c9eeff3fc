-- ===== src/Client/Link/Joining.antt =====
-- LinkOtherConn of client/client_vpn.go: the handshake with the proxy server, or a connection without
-- one.
use go_cfc.Base.{
  Bool, true, false, not, Option, none, some, [], length, ◌==◌, ◌||◌, ◌&&◌, if◌then◌else◌, str_eq,
}
use go_cfc.Speed.{new_network_speed_ticker}
use go_cfc.Wire.Message.{ConnMsg, new_key}
use go_cfc.Loger.{Logger, is_logged, log_level_error}
use go_cfc.Server.State.{World, VpnInfo, OdjVpnLinkAddr}
use go_cfc.Client.Errors.{
  ClientError, Answer, Try, fine, fault, ◌>>=◌, wait_answer, check, decoded, Replies, dial_failed,
  resolve_failed,
}
use go_cfc.Client.Link.{tcp_conn, udp_conn, other_conn, LinkConnReq, LinkClient}

-- Whether SetLogError panics, or returns and lets its caller go on.
unfoldable pub set_log_error : Logger → Bool
set_log_error l = is_logged l log_level_error

-- The request of handshakeCheck. CopyConnTypeUDP is the text "LinkConnTypeUDP".
abbrev no_info : VpnInfo
no_info = record {
  link_conn_type = "";
  link_remote_addr_tcp = none;
  link_local_addr_tcp = none;
  link_remote_addr_udp = none;
  link_local_addr_udp = none;
  copy_conn_type = "";
  copy_remote_addr_tcp = none;
  copy_local_addr_tcp = none;
  copy_remote_addr_udp = none;
  copy_local_addr_udp = none;
}

unfoldable pub vpn_req : LinkClient → OdjVpnLinkAddr
vpn_req lc =
    let info = elim lc.copy_kind as (λ _. VpnInfo) [
      | tcp_conn ↦ record no_info {
        copy_conn_type = "CopyConnTypeTCP";
        copy_remote_addr_tcp = some lc.copy_remote_addr;
        copy_local_addr_tcp = some lc.copy_local_addr;
      }
      | udp_conn ↦ record no_info {
        copy_conn_type = "LinkConnTypeUDP";
        copy_remote_addr_udp = some lc.copy_remote_addr;
        copy_local_addr_udp = some lc.copy_local_addr;
      }
      | other_conn ↦ no_info
    ] in
    record { conn_type = lc.conn_type; addr = lc.conn_addr; addr_info = some info }

-- The literal at the beginning of LinkOtherConn.
unfoldable pub new_link : LinkConnReq → LinkClient
new_link req = record {
  stop = none;
  disable = false;
  proxy_addr = "";
  proxy_key = record { key = []; key_b = [] };
  proxy_switch = false;
  proxy_speed = new_network_speed_ticker;
  conn_addr = req.conn_addr;
  conn_type = req.conn_type;
  addr = none;
  copy_kind = req.copy_kind;
  copy_local_addr = req.copy_local_addr;
  copy_remote_addr = req.copy_remote_addr;
  link_addrs = none;
  link_closed = false;
  link_written = [];
  link_deadlines = record { reading = none; writing = none };
  has_task = false;
  task_disable = false;
  copy_closed = false;
  copy_written = [];
  copy_deadlines = record { reading = none; writing = none };
}

-- `if err != nil { return nil, err }`, and `return &vc, nil` after it.
unfoldable pub linked : Option (Option ClientError × LinkClient) → Option (Try LinkClient)
linked none = none
linked (some (none, lc)) = some (fine lc)
linked (some (some e, lc)) = some (fault e)

module _ (r : Replies) where
  unfoldable pub on_vpn_a1 : ConnMsg r.D → Try VpnInfo
  on_vpn_a1 m = do _ ← check m "ConnVPNA1"; decoded (r.to_vpn_info m.payload)

  unfoldable pub link_handshake_check : Answer r.D → LinkClient → Option ClientError × LinkClient
  unfolding on_vpn_a1
  link_handshake_check a lc = elim (wait_answer a on_vpn_a1) [
    | fault e ↦ (some e, lc)
    | fine info ↦ (none, record lc { addr = some info })
  ]

  -- proxyConn; what is read of copyConn from then on goes to `write_from_copy_conn`.
  unfoldable pub proxy_conn :
      World → Logger → Answer r.D → LinkClient → Option (Option ClientError × LinkClient)
  unfolding link_handshake_check set_log_error
  proxy_conn w l a lc =
      let known = str_eq lc.conn_type "LinkConnTypeTCP" || str_eq lc.conn_type "LinkConnTypeUDP" in
      if not known && set_log_error l
      then none
      else if not (w.resolve_tcp lc.proxy_addr)
      then some (some resolve_failed, lc)
      else elim (w.dial_tcp lc.proxy_addr) [
        | none ↦ some (some dial_failed, lc)
        | some (far, near) ↦
            some (
              link_handshake_check a (record lc { link_addrs = some (near, far); has_task = true }))
      ]

  -- directConn, up to the two copies that it starts.
  unfoldable pub direct_conn :
      World → Logger → LinkClient → Option (Option ClientError × LinkClient)
  unfolding set_log_error
  direct_conn w l lc =
      if str_eq lc.conn_type "LinkConnTypeTCP"
      then if not (w.resolve_tcp lc.conn_addr)
        then some (some resolve_failed, lc)
        else elim (w.dial_tcp lc.conn_addr) [
          | none ↦ some (some dial_failed, lc)
          | some (far, near) ↦ some (none, record lc { link_addrs = some (near, far) })
        ]
      else if str_eq lc.conn_type "LinkConnTypeUDP"
      then if not (w.resolve_udp lc.conn_addr)
        then some (some resolve_failed, lc)
        else elim (w.dial_udp lc.conn_addr) [
          | none ↦ some (some dial_failed, lc)
          | some (far, near) ↦ some (none, record lc { link_addrs = some (near, far) })
        ]
      else if set_log_error l
      then none
      else some (none, lc)

  -- LinkOtherConn. With a proxy, a key of another length goes on when SetLogError returns.
  unfoldable pub link_other_conn :
      World → Logger → Answer r.D → LinkConnReq → Option (Try LinkClient)
  unfolding proxy_conn direct_conn set_log_error new_link linked
  link_other_conn w l a req =
      let vc = new_link req in
      if not (str_eq req.proxy_addr "")
      then if not (length req.proxy_key == 32) && set_log_error l
        then none
        else linked (
            proxy_conn w l a (record vc {
              proxy_key = new_key req.proxy_key;
              proxy_addr = req.proxy_addr;
              proxy_switch = true;
            }))
      else linked (direct_conn w l vc)

-- ===== src/Server/Sending.antt =====
-- Sending a message: Writes, writeCMsg, writeCMsgAndCheck, checkErrAndSend400ErrCMsg and
-- initLinkConn of server/proxy_client.go.
pub mod Delivery
use go_cfc.Base.{
  ℕ, zero, suc, ◌+◌, Bool, true, false, Option, none, some, List, [], ◌∷◌, ◌++◌, String, ◌==◌,
  if◌then◌else◌, str_eq,
}
use go_cfc.Base.Int.{ℤ, pos}
use go_cfc.Speed.{set}
use go_cfc.Server.State.{
  ProxyClient, ProxyServer, World, Body, Fault, err_msg, LinkConn, Sent, modify,
}
use go_cfc.Server.Closing.{close}

module _ (w : World) where
  -- One packet that was written: its size goes to the download ticker.
  unfoldable pub count_packet : ℕ → ProxyClient → ProxyClient
  unfolding set
  count_packet n c = record c {
    writes = suc c.writes;
    network_speed = record c.network_speed { download = set w.now n c.network_speed.download };
  }

  -- The loop of Writes over the packets; false is an error of rawConn.Write.
  unfoldable pub write_packets : List ℕ → ℕ → ProxyServer → Bool × ProxyServer
  write_packets [] r s = (true, s)
  write_packets (n ∷ packets) r s =
      let rest = write_packets packets r (modify r (count_packet n) s) in
      if w.write_ok r (s.clients r).writes then rest else (false, s)

  -- writeCMsg; a message that was written whole is recorded.
  unfoldable pub write_c_msg : String → String → ℤ → Body → ℕ → ProxyServer → Bool × ProxyServer
  write_c_msg header id code body r s =
      if (s.clients r).disable
      then (false, s)
      else let (written, s') = write_packets (w.packet_sizes header id code body) r s in
        if written
        then (
          true,
          record s' {
            sent =
                s'.sent
                ++ record { to = r; header = header; id = id; code = code; body = body } ∷ [];
          },
        )
        else (false, s')

  unfoldable pub write_c_msg_and_check : String → String → ℤ → Body → ℕ → ProxyServer → ProxyServer
  write_c_msg_and_check header id code body r s =
      let (written, s') = write_c_msg header id code body r s in if written then s' else close r s'

  -- The result says whether there was an error.
  unfoldable pub check_err_and_send_400_err_c_msg :
      String → String → Option Fault → Bool → ℕ → ProxyServer → Bool × ProxyServer
  check_err_and_send_400_err_c_msg header id none need_close r s = (false, s)
  check_err_and_send_400_err_c_msg header id (some fault) need_close r s =
      let s' = write_c_msg_and_check header id (pos 400) (err_msg fault) r s in
      (true, if need_close then close r s' else s')

-- initLinkConn; a VPN link starts the goroutine readLinkConn.
unfoldable pub init_link_conn : LinkConn → String → ℕ → ProxyServer → ProxyServer
init_link_conn conn link_type r = modify r λ c. record c {
  link_conn = conn;
  link_type = link_type;
  link_switch = true;
  reading = if str_eq link_type "LinkTypeVPN" then true else c.reading;
}

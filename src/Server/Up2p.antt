-- ===== src/Server/Up2p.antt =====
-- UDP hole punching: server/proxy_p2p.go. An entry is reached through the map alone; the address
-- fields of its second side are only read to make the two answers.
pub mod Punching
use go_cfc.Base.{
  ℕ, suc, ◌+◌, ◌*◌, Bool, true, false, Option, none, some, List, [], ◌∷◌, String, ltb, ◌==◌,
  if◌then◌else◌, str_eq,
}
use go_cfc.Base.Assoc.{lookup, delete, insert}
use go_cfc.Base.Int.{pos}
use go_cfc.Speed.{second}
use go_cfc.Wire.Message.{ConnMsg, check_conn_msg_header_and_code}
use go_cfc.Server.State.{ProxyServer, ProxyUp2P, World, Incoming, OdjUp2PReq, udp_info, SubInfo}
use go_cfc.Server.Closing.{get_proxy_client}
use go_cfc.Server.Sending.{write_c_msg_and_check}

unfoldable pub get_up2p : String → ProxyServer → Option ProxyUp2P
get_up2p tid s = lookup tid s.proxy_up2p_map

unfoldable pub del_up2p : String → ProxyServer → ProxyServer
del_up2p tid s = record s { proxy_up2p_map = delete tid s.proxy_up2p_map }

unfoldable pub set_up2p : String → ProxyUp2P → ProxyServer → ProxyServer
set_up2p tid up s = record s { proxy_up2p_map = insert tid up s.proxy_up2p_map }

unfoldable pub new_up2p : World → String → ProxyUp2P
new_up2p w id = record {
  id = id;
  expire_time = w.now + 30 * second;
  step = 0;
  c1 = none;
  c1_i_addr = none;
  c1_p_addr = "";
}

unfoldable pub new_and_set_up2p : World → ProxyServer → String × ProxyServer
unfolding new_up2p
new_and_set_up2p w s =
    let id = w.new_id s.ids in (id, set_up2p id (new_up2p w id) (record s { ids = suc s.ids }))

unfoldable pub keep_up2ps : ℕ → List (String × ProxyUp2P) → List (String × ProxyUp2P)
keep_up2ps now [] = []
keep_up2ps now ((key, up) ∷ ups) =
    let rest = keep_up2ps now ups in if ltb up.expire_time now then rest else (key, up) ∷ rest

unfoldable pub del_expire_up2p : World → ProxyServer → ProxyServer
del_expire_up2p w s = record s { proxy_up2p_map = keep_up2ps w.now s.proxy_up2p_map }

-- The SubInfo of one side, in which only the UDP addresses are set.
unfoldable pub udp_sub_info :
    String → String → Option String → Option String → String → String → SubInfo
udp_sub_info local remote local_i remote_i local_p remote_p = record {
  local_name = local;
  remote_name = remote;
  local_intranet_addr = none;
  remote_intranet_addr = none;
  local_public_addr = none;
  remote_public_addr = none;
  u_local_intranet_addr = local_i;
  u_remote_intranet_addr = remote_i;
  u_local_public_addr = some local_p;
  u_remote_public_addr = some remote_p;
}

module _ (w : World) where
  -- The second request of `handle`, from another address than the first one.
  unfoldable pub answer_both :
      ProxyUp2P → ℕ → Option String → String → ℕ → ProxyServer → ProxyServer
  unfolding udp_sub_info
  answer_both up r1 i_addr p_addr r2 s =
      let n1 = (s.clients r1).name in
      let n2 = (s.clients r2).name in
      let resp1 = udp_sub_info n1 n2 up.c1_i_addr i_addr up.c1_p_addr p_addr in
      let resp2 = udp_sub_info n2 n1 i_addr up.c1_i_addr p_addr up.c1_p_addr in
      let s1 =
        write_c_msg_and_check w "P2PUdpA1" up.id (pos 200) (udp_info (some p_addr) resp1) r1 s in
      write_c_msg_and_check w "P2PUdpA1" up.id (pos 200) (udp_info (some up.c1_p_addr) resp2) r2 s1

  -- `handle`: whether the entry is done with, and the entry and the server after it.
  unfoldable pub handle :
      ProxyUp2P → Option String → String → ℕ → ProxyServer → Bool × ProxyUp2P × ProxyServer
  handle up i_addr p_addr r s =
      if up.step == 0
      then (
        false,
        record up { c1_p_addr = p_addr; c1_i_addr = i_addr; c1 = some r; step = suc up.step },
        s,
      )
      else if up.step == 1
      then if str_eq p_addr up.c1_p_addr then (false, up, s) else elim up.c1 [
        | none ↦ (true, up, s)
        | some r1 ↦ (true, record up { step = suc up.step }, answer_both up r1 i_addr p_addr r s)
      ]
      else (true, up, s)

  -- The case of handleUP2P in which the entry is found.
  unfoldable pub punch : OdjUp2PReq → String → ℕ → ProxyUp2P → ProxyServer → ProxyServer
  punch info addr r up s =
      let (over, up', s') = handle up info.addr addr r s in
      if over then del_up2p info.id s' else set_up2p info.id up' s'

  -- handleUP2P at a datagram from `addr`; `none` is an error of ReadCMsg.
  unfoldable pub handle_up2p :
      (u : Incoming) → Option (ConnMsg u.D) → String → ProxyServer → ProxyServer
  handle_up2p u none addr s = s
  handle_up2p u (some m) addr s = elim (check_conn_msg_header_and_code m "P2PUdpO" (pos 200)) [
    | some _ ↦ s
    | none ↦ elim (u.to_up2p_req m.payload) [
      | none ↦ s
      | some info ↦ elim (get_proxy_client info.src_name s) [
        | none ↦ s
        | some r ↦ elim (get_up2p info.id s) [ none ↦ s | some up ↦ punch info addr r up s ]
      ]
    ]
  ]

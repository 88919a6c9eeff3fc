-- ===== src/Client/Link.antt =====
-- Links through the proxy server or without it: client/client_vpn.go. A call that panics is `none`.
-- Whether SetLogError panics is up to the logger; what comes of the network and of the other side
-- is given. Here are the client's state, Close, its deadlines and its addresses.
pub mod Answers
pub mod Carrying
pub mod Ending
pub mod Joining
pub mod Loops
pub mod Sending
use go_cfc.Base.{
  ℕ, zero, suc, ◌+◌, Bool, true, false, not, Option, none, some, List, [], ◌∷◌, ◌++◌, String, Bytes,
  length, ◌==◌, ◌||◌, ◌&&◌, if◌then◌else◌, str_eq,
}
use go_cfc.Speed.{NetworkSpeedTicker, new_network_speed_ticker, set}
use go_cfc.Wire.Errors.{ok, err, panic, stuck}
use go_cfc.Wire.Cipher.{Gcm}
use go_cfc.Wire.Message.{
  ConnMsg, Json, Data, bytes, Key, new_key, set_msg, check_conn_msg_header_and_code,
}
use go_cfc.Base.Int.{pos}
use go_cfc.Loger.{Logger, is_logged, log_level_error}
use go_cfc.Server.State.{World, VpnInfo, OdjVpnLinkAddr}
use go_cfc.Client.Errors.{
  ClientError, Answer, Try, fine, fault, ◌>>=◌, wait_answer, check, decoded, Replies, dial_failed,
  resolve_failed, write_failed, read_failed, link_client_is_closed, checked, bad_json, close_failed,
}

pub data ConnKind : Type 0 where
  tcp_conn udp_conn other_conn : ConnKind

pub record LinkConnReq : Type 0 where
  pub copy_kind : ConnKind
  pub copy_local_addr : String
  pub copy_remote_addr : String
  pub conn_type : String
  pub conn_addr : String
  pub proxy_addr : String
  pub proxy_key : Bytes

-- The deadlines of a connection; `none` is the zero time.
pub record Deadlines : Type 0 where
  pub reading : Option ℕ
  pub writing : Option ℕ

-- `stop` is the channel with room for one error. The fields from `link_addrs` on are linkConn (its
-- local and its remote address, `none` is nil), taskCbCtx and what happens to copyConn.
pub record LinkClient : Type 0 where
  pub stop : Option (Option ClientError)
  pub disable : Bool
  pub proxy_addr : String
  pub proxy_key : Key
  pub proxy_switch : Bool
  pub proxy_speed : NetworkSpeedTicker
  pub conn_addr : String
  pub conn_type : String
  pub addr : Option VpnInfo
  pub copy_kind : ConnKind
  pub copy_local_addr : String
  pub copy_remote_addr : String
  pub link_addrs : Option (String × String)
  pub link_closed : Bool
  pub link_written : List Bytes
  pub link_deadlines : Deadlines
  pub has_task : Bool
  pub task_disable : Bool
  pub copy_closed : Bool
  pub copy_written : List Bytes
  pub copy_deadlines : Deadlines

-- Close, where `disable` is set exactly when the Once is done.
unfoldable pub close : Option ClientError → LinkClient → Option (Option ClientError × LinkClient)
close e lc =
    if lc.disable
    then some (some link_client_is_closed, lc)
    else if not lc.has_task
    then none
    else some (
      none,
      record lc {
        disable = true;
        task_disable = true;
        copy_closed = true;
        link_closed = true;
        stop = some e;
      },
    )

-- Wait takes the error; `none` waits.
unfoldable pub wait_link : LinkClient → Option (Option ClientError × LinkClient)
wait_link lc = elim lc.stop [ none ↦ none | some e ↦ some (e, record lc { stop = none }) ]

unfoldable pub local_addr : LinkClient → String
local_addr lc = lc.copy_local_addr

unfoldable pub remote_addr : LinkClient → Option String
remote_addr lc = elim lc.link_addrs [ none ↦ none | some (near, far) ↦ some far ]

-- SetDeadline, SetReadDeadline and SetWriteDeadline, which `f` tells apart, on both connections; the
-- flags say whether the connections take it.
unfoldable pub set_deadlines :
    (link_ok copy_ok : Bool) → (Deadlines → Deadlines) → LinkClient → Bool × LinkClient
set_deadlines link_ok copy_ok f lc =
    if not link_ok
    then (false, lc)
    else let lc1 = record lc { link_deadlines = f lc.link_deadlines } in
      if not copy_ok
      then (false, lc1)
      else (true, record lc1 { copy_deadlines = f lc.copy_deadlines })

unfoldable pub set_link_deadlines : Bool → (Deadlines → Deadlines) → LinkClient → Bool × LinkClient
set_link_deadlines link_ok f lc =
    if link_ok then (true, record lc { link_deadlines = f lc.link_deadlines }) else (false, lc)

unfoldable pub set_copy_deadlines : Bool → (Deadlines → Deadlines) → LinkClient → Bool × LinkClient
set_copy_deadlines copy_ok f lc =
    if copy_ok then (true, record lc { copy_deadlines = f lc.copy_deadlines }) else (false, lc)

-- LinkLocalAddr, LinkRemoteAddr, CopyLocalAddr and CopyRemoteAddr, where the address may be nil.
unfoldable pub link_local_addr : LinkClient → Option (Option String)
link_local_addr lc = elim lc.addr [
  | none ↦ none
  | some i ↦ some (
      if str_eq i.link_conn_type "LinkConnTypeTCP"
      then i.link_local_addr_tcp
      else i.link_local_addr_udp)
]

unfoldable pub link_remote_addr : LinkClient → Option (Option String)
link_remote_addr lc = elim lc.addr [
  | none ↦ none
  | some i ↦ some (
      if str_eq i.link_conn_type "LinkConnTypeTCP"
      then i.link_remote_addr_tcp
      else i.link_remote_addr_udp)
]

unfoldable pub copy_local_addr : LinkClient → Option (Option String)
copy_local_addr lc = elim lc.addr [
  | none ↦ none
  | some i ↦ some (
      if str_eq i.copy_conn_type "CopyConnTypeTCP"
      then i.copy_local_addr_tcp
      else i.copy_local_addr_udp)
]

unfoldable pub copy_remote_addr : LinkClient → Option (Option String)
copy_remote_addr lc = elim lc.addr [
  | none ↦ none
  | some i ↦ some (
      if str_eq i.copy_conn_type "CopyConnTypeTCP"
      then i.copy_remote_addr_tcp
      else i.copy_remote_addr_udp)
]

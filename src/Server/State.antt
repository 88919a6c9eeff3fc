-- ===== src/Server/State.antt =====
-- The state of server/proxy_server.go, proxy_client.go, proxy_task.go, proxy_p2p.go, proxy_const.go
-- and proxy_config.go, and the messages of tool/cMsgModel.go.
-- Connections are numbers: `clients` is the heap of ProxyClient objects, of which those below
-- `next` exist. An address is its text. Instants are nanoseconds.
use go_cfc.Base.{ℕ, Bool, Option, List, String, ◌==◌, if◌then◌else◌}
use go_cfc.Base.Int.{ℤ}
use go_cfc.Speed.{NetworkSpeedTicker, NetworkSpeedView}

-- The errors that are sent to a client.
pub data Fault : Type 0 where
  bad_json method_is_refused sub_dst_key_is_nil sub_local_addr_is_nil : Fault
  miss_proxy_client miss_proxy_task_room proxy_client_name_is_nil : Fault
  unexpected_link_conn_type resolve_failed dial_failed : Fault

pub record OdjClientInfo : Type 0 where
  pub name : String
  pub anonymity : Bool

pub record OdjSubOpenReq : Type 0 where
  pub open_type : String
  pub odj_name : String

pub record OdjSubReq : Type 0 where
  pub id : String
  pub src_name : String
  pub dst_key : String
  pub addr : Option String

-- The TCP addresses of a sub connection, or its UDP addresses; `none` is a nil pointer.
pub record SubInfo : Type 0 where
  pub local_name : String
  pub remote_name : String
  pub local_intranet_addr : Option String
  pub remote_intranet_addr : Option String
  pub local_public_addr : Option String
  pub remote_public_addr : Option String
  pub u_local_intranet_addr : Option String
  pub u_remote_intranet_addr : Option String
  pub u_local_public_addr : Option String
  pub u_remote_public_addr : Option String

pub record OdjPing : Type 0 where
  pub name : String
  pub ping : ℕ
  pub active : Bool

pub record VpnInfo : Type 0 where
  pub link_conn_type : String
  pub link_remote_addr_tcp : Option String
  pub link_local_addr_tcp : Option String
  pub link_remote_addr_udp : Option String
  pub link_local_addr_udp : Option String
  pub copy_conn_type : String
  pub copy_remote_addr_tcp : Option String
  pub copy_local_addr_tcp : Option String
  pub copy_remote_addr_udp : Option String
  pub copy_local_addr_udp : Option String

pub record OdjVpnLinkAddr : Type 0 where
  pub conn_type : String
  pub addr : String
  pub addr_info : Option VpnInfo

pub record OdjUp2PReq : Type 0 where
  pub id : String
  pub src_name : String
  pub addr : Option String

-- The data of the messages that the server sends. `udp_info` is an OdjUP2PResp.
pub data Body : Type 0 where
  empty : Body
  err_msg : Fault → Body
  client_info : OdjClientInfo → Body
  sub_open_resp : (tid open_type : String) → Body
  sub_info : SubInfo → Body
  pings : List OdjPing → Body
  speed : NetworkSpeedView → Body
  speeds : List NetworkSpeedView → Body
  vpn_info : Option VpnInfo → Body
  up2p_id : String → Body
  udp_info : Option String → SubInfo → Body

-- What cMsg.Unmarshal makes of the data of a message that came in; `none` is an error.
pub record Incoming : Type 1 where
  pub D : Type 0
  pub to_client_info : D → Option OdjClientInfo
  pub to_ping : D → Option ℕ
  pub to_sub_open_req : D → Option OdjSubOpenReq
  pub to_id_list : D → Option (List String)
  pub to_up2p_name : D → Option String
  pub to_sub_req : D → Option OdjSubReq
  pub to_vpn_link : D → Option OdjVpnLinkAddr
  pub to_up2p_req : D → Option OdjUp2PReq

pub record Config : Type 0 where
  pub ping_wait_time : ℕ
  pub switch_vpn_proxy : Bool
  pub switch_link_client : Bool
  pub switch_udp_p2p : Bool
  pub switch_anonymity : Bool

-- ProxyClient.linkConn: nil, another ProxyClient, or a connection that was dialled.
pub data LinkConn : Type 0 where
  no_conn : LinkConn
  peer : ℕ → LinkConn
  dialled : (closed : Bool) → LinkConn

-- `raw_closed` and `writes` are the state of rawConn: closed by us, and the packets written to it.
-- `once` says that closerOnce has been used. `reading` says that readLinkConn was started.
pub record ProxyClient : Type 0 where
  pub id : String
  pub name : String
  pub disable : Bool
  pub raw_closed : Bool
  pub writes : ℕ
  pub remote_addr : String
  pub deadline : Option ℕ
  pub link_conn : LinkConn
  pub link_switch : Bool
  pub link_type : String
  pub reading : Bool
  pub ping : ℕ
  pub network_speed : NetworkSpeedTicker
  pub step : ℕ
  pub once : Bool
  pub parent : Option ℕ
  pub sub_map : List (String × ℕ)

pub record ProxyTaskRoom : Type 0 where
  pub id : String
  pub step : ℕ
  pub expire_time : ℕ
  pub c1 : Option ℕ
  pub i1 : Option OdjSubReq

pub record ProxyUp2P : Type 0 where
  pub id : String
  pub expire_time : ℕ
  pub step : ℕ
  pub c1 : Option ℕ
  pub c1_i_addr : Option String
  pub c1_p_addr : String

-- A message that was written whole: the connection, and its header, id, code and data.
pub record Sent : Type 0 where
  pub to : ℕ
  pub header : String
  pub id : String
  pub code : ℤ
  pub body : Body

-- `ids` counts the calls of tool.NewId; `sent` is in the order of the writes.
pub record ProxyServer : Type 0 where
  pub clients : ℕ → ProxyClient
  pub next : ℕ
  pub proxy_client_map : List (String × ℕ)
  pub proxy_task_room_map : List (String × ProxyTaskRoom)
  pub proxy_up2p_map : List (String × ProxyUp2P)
  pub ids : ℕ
  pub sent : List Sent
  pub hung : Bool

-- The outside of a handler's call: the clock, what tool.NewId returns (for the n-th call), whether a
-- write to a connection succeeds (for its n-th packet), the sizes of the packets that key.SetMsg
-- makes of a message, and the outcome of dialling: `inr` has the remote and the local address.
pub record World : Type 0 where
  pub now : ℕ
  pub new_id : ℕ → String
  pub write_ok : ℕ → ℕ → Bool
  pub packet_sizes : String → String → ℤ → Body → List ℕ
  pub resolve_tcp : String → Bool
  pub dial_tcp : String → Option (String × String)
  pub resolve_udp : String → Bool
  pub dial_udp : String → Option (String × String)

abbrev pub proxy_initialization : ℕ
proxy_initialization = 0

abbrev pub proxy_register : ℕ
proxy_register = 1

abbrev pub proxy_business : ℕ
proxy_business = 2

abbrev pub task_room_p1 : ℕ
task_room_p1 = 0

abbrev pub task_room_p2 : ℕ
task_room_p2 = 1

-- Writing to one object of the heap.
unfoldable pub modify : ℕ → (ProxyClient → ProxyClient) → ProxyServer → ProxyServer
modify r f s = record s { clients = λ q. if r == q then f (s.clients q) else s.clients q }

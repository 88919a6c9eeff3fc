-- ===== src/Server/Handlers/Dispatch.antt =====
-- A connection from tcpHandler's point of view: server/proxy.go.
use go_cfc.Base.{
  ℕ, suc, ◌+◌, ◌<◌, ◌≡◌, ◌≢◌, false, Option, none, some, [], String, if◌then◌else◌, ◌==◌,
}
use go_cfc.Speed.{new_network_speed_ticker}
use go_cfc.Wire.Message.{ConnMsg}
use go_cfc.Server.State.{
  ProxyServer, ProxyClient, Config, World, Incoming, no_conn, modify, proxy_initialization,
  proxy_register, proxy_business,
}
use go_cfc.Server.Closing.{close}
use go_cfc.Server.Rooms.{del_expire_task_room}
use go_cfc.Server.Up2p.{del_expire_up2p, handle_up2p}
use go_cfc.Server.Handlers.Link.{c_msg_proxy_initialization}
use go_cfc.Server.Handlers.Business.{c_msg_proxy_register, c_msg_proxy_business}

-- The object that tcpHandler makes for a connection from `addr`, with its first deadline.
unfoldable pub new_proxy_client : Config → World → String → String → ProxyClient
new_proxy_client config w id addr = record {
  id = id;
  name = "";
  disable = false;
  raw_closed = false;
  writes = 0;
  remote_addr = addr;
  deadline = some (w.now + config.ping_wait_time);
  link_conn = no_conn;
  link_switch = false;
  link_type = "";
  reading = false;
  ping = 0;
  network_speed = new_network_speed_ticker;
  step = proxy_initialization;
  once = false;
  parent = none;
  sub_map = [];
}

-- A connection is accepted: it is the object `s.next`.
unfoldable pub accept : Config → World → String → ProxyServer → ProxyServer
unfolding new_proxy_client modify
accept config w addr s =
    record (modify s.next (λ _. new_proxy_client config w (w.new_id s.ids) addr) s) {
      next = suc s.next;
      ids = suc s.ids;
    }

module _ (config : Config) (w : World) (u : Incoming) where
  -- cMsgHandler; `none` is a panic.
  unfoldable pub c_msg_handler : ConnMsg u.D → ℕ → ProxyServer → Option ProxyServer
  c_msg_handler m r s =
      if (s.clients r).step == proxy_initialization
      then c_msg_proxy_initialization config w u m r s
      else if (s.clients r).step == proxy_register
      then some (c_msg_proxy_register config w u m r s)
      else if (s.clients r).step == proxy_business
      then some (c_msg_proxy_business config w u m r s)
      else some s

-- The server that NewProxyServer2 makes: nobody is connected.
unfoldable pub start : Config → World → ProxyServer
unfolding new_proxy_client
start config w = record {
  clients = λ _. new_proxy_client config w "" "";
  next = 0;
  proxy_client_map = [];
  proxy_task_room_map = [];
  proxy_up2p_map = [];
  ids = 0;
  hung = false;
  sent = [];
}

-- What gcTask does when its timer fires.
unfoldable pub gc_task : Config → World → ProxyServer → ProxyServer
gc_task config w s =
    let s1 = del_expire_task_room w s in if config.switch_udp_p2p then del_expire_up2p w s1 else s1

-- One event in the life of the server: a connection is accepted, its next message is handled, it
-- ends, a datagram comes in, or the timer of gcTask fires. Each has an outside of its own.
pub data Step (config : Config) (u : Incoming) : ProxyServer → ProxyServer → Type 0 where
  accepts : (w : World) (addr : String) (s : ProxyServer) → Step config u s (accept config w addr s)
  handles :
      (w : World) (m : ConnMsg u.D) (r : ℕ) (s t : ProxyServer)
      → ((n : ℕ) → w.new_id n ≢ "")
      → r < s.next
      → c_msg_handler config w u m r s ≡ some t
      → Step config u s t
  ends : (r : ℕ) (s : ProxyServer) → Step config u s (close r s)
  datagram :
      (w : World) (m : Option (ConnMsg u.D)) (addr : String) (s : ProxyServer)
      → Step config u s (handle_up2p w u m addr s)
  collects : (w : World) (s : ProxyServer) → Step config u s (gc_task config w s)

pub data Reach (config : Config) (u : Incoming) (s : ProxyServer) : ProxyServer → Type 0 where
  here : Reach config u s s
  next : {t t' : ProxyServer} → Reach config u s t → Step config u t t' → Reach config u s t'

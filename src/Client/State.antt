-- ===== src/Client/State.antt =====
-- The state of a client: client/client_box.go and client/client_sub.go. There is one DeviceBox;
-- the sub boxes are numbers, of which those below `next` exist. An address is its text.
use go_cfc.Base.{
  ℕ, suc, Bool, false, not, Option, none, List, [], String, Bytes, length, ◌==◌, if◌then◌else◌,
  str_eq, ◌&&◌,
}
use go_cfc.Speed.{NetworkSpeedTicker, new_network_speed_ticker}
use go_cfc.Wire.Message.{Key, new_key}
use go_cfc.Server.State.{SubInfo, World}
use go_cfc.Client.Errors.{
  ClientError, Try, fine, fault, name_is_nil, key_is_not_32_bytes, resolve_failed,
}

-- `conn_closed`, `local_addr`, `remote_addr`, `deadline`, `writes` and `written` are the state of
-- conn, which every sub box has from the start.
pub record SubBox : Type 0 where
  pub id : String
  pub sub_type : String
  pub key : Key
  pub conn_closed : Bool
  pub local_addr : String
  pub remote_addr : String
  pub deadline : Option ℕ
  pub writes : ℕ
  pub written : List Bytes
  pub network_speed : NetworkSpeedTicker
  pub addr : Option SubInfo
  pub disable : Bool
  pub sub_map : List (String × ℕ)
  pub once : Bool

-- A channel of sub boxes: its buffer, and how many calls wait to receive.
pub record Listening : Type 0 where
  pub cap : ℕ
  pub sub_listen : List ℕ
  -- the buffer of subListenStop, which has the room `stop_cap`
  pub stop_cap : ℕ
  pub sub_listen_stop : List ClientError
  pub receivers : ℕ

-- `conn` is nil until LinkProxyServerRaw has dialled. The value in the channel `stop` is put back
-- by whoever takes it, so it is a flag. `listening` is both channels: nil before the first listen.
pub record DeviceBox : Type 0 where
  pub name : String
  pub is_anonymity : Bool
  pub disable : Bool
  pub handshake : Bool
  pub addr : String
  pub has_conn : Bool
  pub conn_closed : Bool
  pub writes : ℕ
  pub written : List Bytes
  pub deadline : Option ℕ
  pub stop : Bool
  pub ping : ℕ
  pub network_speed : NetworkSpeedTicker
  pub key : Key
  pub sub_map : List (String × ℕ)
  pub is_listen : Bool
  pub listening : Option Listening
  pub switch_listen_up2p : Bool
  pub once : Bool
  pub subs : ℕ → SubBox
  pub next : ℕ
  -- the calls of tool.NewId
  pub ids : ℕ

-- Writing to one sub box.
unfoldable pub update : ℕ → (SubBox → SubBox) → DeviceBox → DeviceBox
update q f box = record box { subs = λ p. if q == p then f (box.subs p) else box.subs p }

-- The literal `&SubBox{…}` over a connection that has just been dialled, as the object `box.next`.
unfoldable pub new_sub :
    World → String → Option SubInfo → (local remote : String) → DeviceBox → DeviceBox
unfolding update
new_sub w sub_type addr local remote box =
    record (update box.next
      (λ _. record {
        id = w.new_id box.ids;
        sub_type = sub_type;
        key = box.key;
        conn_closed = false;
        local_addr = local;
        remote_addr = remote;
        deadline = none;
        writes = 0;
        written = [];
        network_speed = new_network_speed_ticker;
        addr = addr;
        disable = false;
        sub_map = [];
        once = false;
      })
      box) { next = suc box.next; ids = suc box.ids }

-- newBox. Before the first sub box, what stands in the heap is never looked at.
unfoldable pub new_box : World → (ℕ → SubBox) → (name addr : String) → Bytes → Bool → Try DeviceBox
new_box w subs name addr key is_anonymity =
    if str_eq name "" && not is_anonymity
    then fault name_is_nil
    else if not (length key == 32)
    then fault key_is_not_32_bytes
    else if not (w.resolve_tcp addr)
    then fault resolve_failed
    else fine (record {
      name = name;
      is_anonymity = is_anonymity;
      disable = false;
      handshake = false;
      addr = addr;
      has_conn = false;
      conn_closed = false;
      writes = 0;
      written = [];
      deadline = none;
      stop = false;
      ping = 0;
      network_speed = new_network_speed_ticker;
      key = new_key key;
      sub_map = [];
      is_listen = false;
      listening = none;
      switch_listen_up2p = false;
      once = false;
      subs = subs;
      next = 0;
      ids = 0;
    })

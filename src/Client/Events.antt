-- ===== src/Client/Events.antt =====
-- What a box does of itself: cMsgHandler, the pings and SetDeadline of client/client_box.go, and the
-- ways to link of client/client.go.
use go_cfc.Base.{
  ℕ, ◌+◌, Bool, true, false, not, Option, none, some, String, Bytes, ◌==◌, if◌then◌else◌, str_eq,
}
use go_cfc.Wire.Message.{ConnMsg}
use go_cfc.Server.State.{World}
use go_cfc.Client.Errors.{Answer, Try, Replies}
use go_cfc.Client.State.{DeviceBox, SubBox}
use go_cfc.Client.Boxes.{close_box}
use go_cfc.Client.Opening.{listen_sub}
use go_cfc.Client.Opening.Login.{link_proxy_server_raw}
use go_cfc.Client.Up2p.{Punching, listen_up2p}

-- SetDeadline of a box, where 0 lifts the deadline: whether conn refuses it.
unfoldable pub set_deadline : (accepts : Bool) → (now timeout : ℕ) → DeviceBox → Bool × DeviceBox
set_deadline accepts now timeout box =
    if not box.has_conn
    then (false, box)
    else if not accepts
    then (true, box)
    else (false, record box { deadline = if timeout == 0 then none else some (now + timeout) })

-- A round of asyncWaitSendAndPing: whether a ping is sent. On the signal to stop, the box is
-- closed; `none` is a Close that blocks.
unfoldable pub ping_round : (stopped : Bool) → DeviceBox → Option (Bool × DeviceBox)
ping_round true box = elim (close_box box) [ none ↦ none | some (e, box') ↦ some (false, box') ]
ping_round false box = some (box.handshake, box)

module _ (r : Replies) where
  -- What a call of listenSub or listenUP2P meets outside: the answer to the request, the sockets, and
  -- whether it ends in the signal to stop.
  pub record Outside : Type 0 where
    pub reply : Answer r.D
    pub listens : Bool
    pub dials : ℕ → Option String
    pub punching : Punching
    pub stopped : Bool

  -- cMsgHandler; `none` waits forever, in a goroutine of its own for listenUP2P.
  unfoldable pub c_msg_handler :
      World → (String → Bytes) → Outside → ConnMsg r.D → DeviceBox → Option DeviceBox
  unfolding listen_sub listen_up2p
  c_msg_handler w bytes_of o m box =
      if str_eq m.header "sOpenA"
      then listen_sub r w m o.reply o.listens o.dials o.stopped box
      else if str_eq m.header "P2PUdpQ1"
      then if not box.switch_listen_up2p
        then some box
        else listen_up2p r w bytes_of m o.reply o.punching o.stopped box
      else some box

  unfoldable pub link_proxy_server :
      World
      → (ℕ → SubBox)
      → (name addr : String) → Bytes
      → (a b : Answer r.D) → Try DeviceBox × Option DeviceBox
  unfolding link_proxy_server_raw
  link_proxy_server w subs name addr key a b =
      link_proxy_server_raw r w subs name addr key false a b

  unfoldable pub link_proxy_server_from_anonymity :
      World
      → (ℕ → SubBox)
      → (addr : String) → Bytes
      → (a b : Answer r.D) → Try DeviceBox × Option DeviceBox
  unfolding link_proxy_server_raw
  link_proxy_server_from_anonymity w subs addr key a b =
      link_proxy_server_raw r w subs "" addr key true a b

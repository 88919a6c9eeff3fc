-- ===== src/Client/Opening/Login.antt =====
-- The connection of a box to the server: newBox, handshakeCheck and LinkProxyServerRaw, and the
-- pings (client/client.go and client/client_box.go).
use go_cfc.Base.{
  ℕ, ◌-◌, Bool, true, not, Option, none, some, List, String, Bytes, if◌then◌else◌, str_eq,
}
use go_cfc.Base.Int.{pos, int_eq}
use go_cfc.Wire.Message.{ConnMsg}
use go_cfc.Server.State.{World, OdjClientInfo, OdjPing}
use go_cfc.Client.Errors.{
  ClientError, Answer, Try, fine, fault, wait_answer, check, decoded, Replies, dial_failed,
  handshake_is_bad, req_bad,
}
use go_cfc.Client.State.{DeviceBox, SubBox, new_box}
use go_cfc.Client.Boxes.{close_box}

module _ (r : Replies) where
  -- The callbacks of handshakeCheck: the answers to both messages, and then the flag.
  unfoldable pub on_shake_a1 : ConnMsg r.D → Try (Unit {0})
  on_shake_a1 m = elim (check m "Hi! What's your Info?") [
    | fine _ ↦ fine tt
    | fault e ↦ fault (handshake_is_bad e)
  ]

  unfoldable pub on_shake_a2 : ConnMsg r.D → Try OdjClientInfo
  on_shake_a2 m = elim (check m "OK! Happy handshake") [
    | fault e ↦ fault (handshake_is_bad e)
    | fine _ ↦ elim (decoded (r.to_client_info m.payload)) [
      | fault e ↦ fault (handshake_is_bad e)
      | fine info ↦ fine info
    ]
  ]

  unfoldable pub client_req : DeviceBox → OdjClientInfo
  client_req box = record { name = box.name; anonymity = box.is_anonymity }

  unfoldable pub handshake_check : (a b : Answer r.D) → DeviceBox → Option ClientError × DeviceBox
  unfolding on_shake_a1 on_shake_a2
  handshake_check a b box = elim (wait_answer a on_shake_a1) [
    | fault e ↦ (some e, box)
    | fine _ ↦ elim (wait_answer b on_shake_a2) [
      | fault e ↦ (some e, box)
      | fine info ↦
          (none, record box { name = info.name; is_anonymity = info.anonymity; handshake = true })
    ]
  ]

  -- LinkProxyServerRaw; a box that fails is closed.
  unfoldable pub link_proxy_server_raw :
      World
      → (ℕ → SubBox)
      → (name addr : String) → Bytes
      → Bool
      → (a b : Answer r.D) → Try DeviceBox × Option DeviceBox
  unfolding handshake_check new_box
  link_proxy_server_raw w subs name addr key is_anonymity a b =
      elim (new_box w subs name addr key is_anonymity) [
        | fault e ↦ (fault e, none)
        | fine box ↦ elim (w.dial_tcp addr) [
          | none ↦ (fault dial_failed, some box)
          | some _ ↦
              let (e, box1) = handshake_check a b (record box { has_conn = true }) in
              elim e [
                | none ↦ (fine box1, some box1)
                | some x ↦ elim (close_box box1) [
                  | none ↦ (fault x, none)
                  | some (_, box2) ↦ (fault x, some box2)
                ]
              ]
        ]
      ]

  -- GetOtherDelayPing.
  unfoldable pub get_other_delay_ping : Answer r.D → Try (List OdjPing)
  get_other_delay_ping a = wait_answer a λ m.
      if not (str_eq m.header "DelayA")
      then fault req_bad
      else if not (int_eq m.code (pos 200))
      then fault req_bad
      else decoded (r.to_pings m.payload)

  -- The callback of a ping that was sent at `t` and is answered at `now`.
  unfoldable pub on_pong : (t now : ℕ) → ConnMsg r.D → DeviceBox → DeviceBox
  on_pong t now m box =
      if str_eq m.header "Pong"
      then if int_eq m.code (pos 200) then record box { ping = now - t } else box
      else box

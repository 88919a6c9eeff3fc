-- ===== src/Server/Names/Handlers.antt =====
-- Every handler of a message keeps the table of names exact.
use go_cfc.Base.{
  ℕ, suc, ◌+◌, ◌<◌, ◌≡◌, ◌≢◌, inl, inr, refl, subst, Bool, true, false, not, ◌&&◌, Option, none,
  some, List, String, ◌==◌, arith, eq_iff, str_eq, Bool-cases, Option-cases,
}
use go_cfc.Base.Assoc.{insert}
use go_cfc.Base.Int.{pos}
use go_cfc.Wire.Message.{ConnMsg}
use go_cfc.Server.State.{
  ProxyServer, Config, World, Incoming, OdjClientInfo, OdjSubOpenReq, Fault, Body, err_msg, empty,
  method_is_refused, bad_json, miss_proxy_client, proxy_client_name_is_nil,
}
use go_cfc.Server.Closing.{get_proxy_client}
use go_cfc.Server.Rooms.{new_task_room, set_task_room}
use go_cfc.Server.Up2p.{new_and_set_up2p, set_up2p}
use go_cfc.Server.Handlers.Business.{
  fail, name_client, c_msg_proxy_register, reply, forbid, on_ping, open_room, on_sub_open, on_delay,
  on_speed_q1, open_up2p, on_p2p_udp, c_msg_proxy_business,
}
use go_cfc.Server.Handlers.Dispatch.{c_msg_handler}
use go_cfc.Server.Names.Invariant.{Exact, elsewhere-Exact}
use go_cfc.Server.Names.Register.{register-Exact}
use go_cfc.Server.Names.Rooms.{Safe, write-Safe, check-Safe}
use go_cfc.Server.Names.Reports.{
  quiet-Safe, get_network_speed-Safe, get_all_network_speed-Safe,
  get_proxy_client_network_speed-Safe, get_all_proxy_client_network_speed-Safe,
}
use go_cfc.Server.Names.Linking.{ExactIf, if_Exact, c_msg_proxy_initialization-ExactIf}

module _ (config : Config) (w : World) (u : Incoming) where
  fail-Safe :
      (need_close : Bool) (header id : String) (fault : Fault) (r : ℕ)
      → Safe (fail config w u need_close header id fault r)
  unfolding fail
  fail-Safe need_close header id fault r = check-Safe w header id (some fault) need_close r

  name_client-Exact :
      (id : String) (info : OdjClientInfo) (r : ℕ) (s : ProxyServer)
      → ((n : ℕ) → w.new_id n ≢ "")
      → r < s.next
      → (s.clients r).step ≡ 1
      → Exact s
      → Exact (name_client config w u id info r s)
  unfolding name_client
  name_client-Exact id info r s ids below here v = elim (Bool-cases (str_eq info.name "")) [
    | inr h ↦
        let named : info.name ≢ "" = λ e. cc ((eq_iff info.name "").1 e) in
        rw h (
          register-Exact info.name named r s v below (omega arith) config w u id info.anonymity
            here)
    | inl h ↦ elim (Bool-cases (info.anonymity && config.switch_anonymity)) [
      | inr off ↦
          rw (h, off) (fail-Safe true "OK! Happy handshake" id proxy_client_name_is_nil r s v)
      | inl on ↦
          rw (h, on)
            (register-Exact (w.new_id s.ids) (ids s.ids) r (record s { ids = suc s.ids })
              (elsewhere-Exact s s.proxy_task_room_map s.proxy_up2p_map (suc s.ids) s.sent v) below
              (omega arith) config w u id info.anonymity here)
    ]
  ]

  c_msg_proxy_register-Exact :
      (m : ConnMsg u.D) (r : ℕ) (s : ProxyServer)
      → ((n : ℕ) → w.new_id n ≢ "")
      → r < s.next
      → (s.clients r).step ≡ 1
      → Exact s
      → Exact (c_msg_proxy_register config w u m r s)
  unfolding c_msg_proxy_register
  c_msg_proxy_register-Exact m r s ids below here v =
      elim (Bool-cases (str_eq m.header "Here it is")) [
        | inr h ↦ rw h v
        | inl h ↦ elim (Option-cases (u.to_client_info m.payload)) [
          | inl e ↦ rw (h, e) (fail-Safe true "OK! Happy handshake" m.id bad_json r s v)
          | inr (info, e) ↦ rw (h, e) (name_client-Exact m.id info r s ids below here v)
        ]
      ]

  reply-Safe : (header id : String) (body : Body) (r : ℕ) → Safe (reply config w u header id body r)
  unfolding reply
  reply-Safe header id body r = write-Safe w header id (pos 200) body r

  forbid-Safe : (header id : String) (r : ℕ) → Safe (forbid config w u header id r)
  unfolding forbid
  forbid-Safe header id r = write-Safe w header id (pos 401) (err_msg method_is_refused) r

  on_ping-Safe : (id : String) (ping : Option ℕ) (r : ℕ) → Safe (on_ping config w u id ping r)
  unfolding on_ping
  on_ping-Safe id none r s v = fail-Safe true "Ping" id bad_json r s v
  on_ping-Safe id (some ping) r s v = reply-Safe "Pong" id empty r _ (
      quiet-Safe w r
        (λ c. record c { ping = ping; deadline = some (w.now + config.ping_wait_time) }) (λ c. refl)
        (λ c. refl) (λ c. refl) (λ c. refl) s v)

  new_task_room-Safe : Safe (λ s. (new_task_room w s).1)
  unfolding new_task_room set_task_room
  new_task_room-Safe s v =
      elsewhere-Exact s (insert (w.new_id s.ids) _ s.proxy_task_room_map) s.proxy_up2p_map
        (suc s.ids) s.sent v

  open_room-Safe :
      (id : String) (info : OdjSubOpenReq) (r : ℕ) → Safe (open_room config w u id info r)
  unfolding open_room
  open_room-Safe id info r s v = elim (Option-cases (get_proxy_client info.odj_name s)) [
    | inl e ↦ rw (e, open_room) (fail-Safe false "sOpenA" id miss_proxy_client r s v)
    | inr (odj, e) ↦
        rw (e, open_room)
          (reply-Safe "sOpenA" id _ r _
            (reply-Safe "sOpenA" "" _ odj (new_task_room w s).1 (new_task_room-Safe s v)))
  ]

  on_sub_open-Safe :
      (id : String) (req : Option OdjSubOpenReq) (r : ℕ) → Safe (on_sub_open config w u id req r)
  unfolding on_sub_open
  on_sub_open-Safe id none r s v =
      if_Exact (not config.switch_link_client) (forbid-Safe "sOpenA" id r s v)
        (fail-Safe false "sOpenA" id bad_json r s v)
  on_sub_open-Safe id (some info) r s v =
      if_Exact (not config.switch_link_client) (forbid-Safe "sOpenA" id r s v)
        (open_room-Safe id info r s v)

  on_delay-Safe :
      (id : String) (keys : Option (List String)) (r : ℕ) → Safe (on_delay config w u id keys r)
  unfolding on_delay
  on_delay-Safe id none r s v = fail-Safe false "DelayA" id bad_json r s v
  on_delay-Safe id (some keys) r s v = reply-Safe "DelayA" id _ r s v

  on_speed_q1-Safe :
      (id : String) (keys : Option (List String)) (r : ℕ) → Safe (on_speed_q1 config w u id keys r)
  unfolding on_speed_q1
  on_speed_q1-Safe id none r s v = fail-Safe false "SpeedA1" id bad_json r s v
  on_speed_q1-Safe id (some keys) r s v =
      reply-Safe "SpeedA1" id _ r _ (get_proxy_client_network_speed-Safe w keys s v)

  open_up2p-Safe : (id name : String) (r : ℕ) → Safe (open_up2p config w u id name r)
  unfolding open_up2p new_and_set_up2p set_up2p
  open_up2p-Safe id name r s v = elim (Option-cases (get_proxy_client name s)) [
    | inl e ↦ rw (e, open_up2p) (fail-Safe false "P2PUdpQ1" id miss_proxy_client r s v)
    | inr (c, e) ↦
        rw (e, open_up2p)
          (reply-Safe "P2PUdpQ1" "" _ c _ (
            reply-Safe "P2PUdpQ1" id _ r _ (
              elsewhere-Exact s s.proxy_task_room_map (insert (w.new_id s.ids) _ s.proxy_up2p_map)
                (suc s.ids) s.sent v)))
  ]

  on_p2p_udp-Safe :
      (id : String) (req : Option String) (r : ℕ) → Safe (on_p2p_udp config w u id req r)
  unfolding on_p2p_udp
  on_p2p_udp-Safe id none r s v =
      if_Exact (not config.switch_udp_p2p) (forbid-Safe "P2PUdpQ1" id r s v)
        (fail-Safe false "P2PUdpQ1" id bad_json r s v)
  on_p2p_udp-Safe id (some name) r s v =
      if_Exact (not config.switch_udp_p2p) (forbid-Safe "P2PUdpQ1" id r s v)
        (open_up2p-Safe id name r s v)

  c_msg_proxy_business-Safe : (m : ConnMsg u.D) (r : ℕ) → Safe (c_msg_proxy_business config w u m r)
  unfolding c_msg_proxy_business
  c_msg_proxy_business-Safe m r s v =
      if_Exact (str_eq m.header "Ping") (on_ping-Safe m.id (u.to_ping m.payload) r s v) (
        if_Exact (str_eq m.header "sOpenQ")
          (on_sub_open-Safe m.id (u.to_sub_open_req m.payload) r s v)
          (if_Exact (str_eq m.header "DelayQ") (on_delay-Safe m.id (u.to_id_list m.payload) r s v) (
            if_Exact (str_eq m.header "SpeedQ0")
              (reply-Safe "SpeedA0" m.id _ r _ (get_all_proxy_client_network_speed-Safe w s v))
              (if_Exact (str_eq m.header "SpeedQ1")
                (on_speed_q1-Safe m.id (u.to_id_list m.payload) r s v)
                (if_Exact (str_eq m.header "SpeedQ2")
                  (reply-Safe "SpeedA2" m.id _ r _ (get_all_network_speed-Safe w r s v))
                  (if_Exact (str_eq m.header "SpeedQ3")
                    (reply-Safe "SpeedA3" m.id _ r _ (get_network_speed-Safe w r s v))
                    (if_Exact (str_eq m.header "P2PUdpQ1")
                      (on_p2p_udp-Safe m.id (u.to_up2p_name m.payload) r s v) v)))))))

  -- Whatever message an accepted connection sends, in whatever step, and whichever writes fail: an
  -- exact table of names stays exact, unless the handler panics. The ids that are drawn are not
  -- empty.
  pub c_msg_handler-Exact :
      (m : ConnMsg u.D) (r : ℕ) (s s' : ProxyServer)
      → ((n : ℕ) → w.new_id n ≢ "")
      → r < s.next
      → Exact s
      → c_msg_handler config w u m r s ≡ some s'
      → Exact s'
  unfolding c_msg_handler
  c_msg_handler-Exact m r s s' ids below v e = elim (Bool-cases ((s.clients r).step == 0)) [
    | inl h ↦ subst ExactIf (rw h at e) (c_msg_proxy_initialization-ExactIf config w u m r s v)
    | inr h ↦ elim (Bool-cases ((s.clients r).step == 1)) [
      | inl h1 ↦
          subst ExactIf (rw (h, h1) at e)
            (c_msg_proxy_register-Exact m r s ids below (ground arith) v)
      | inr h1 ↦ elim (Bool-cases ((s.clients r).step == 2)) [
        | inl h2 ↦ subst ExactIf (rw (h, h1, h2) at e) (c_msg_proxy_business-Safe m r s v)
        | inr h2 ↦ subst ExactIf (rw (h, h1, h2) at e) v
      ]
    ]
  ]

-- ===== src/Server/Names/Linking.antt =====
-- The messages of a connection that has just been accepted: server/proxy.go, server/proxy_vpn.go.
use go_cfc.Base.{
  ℕ, ◌≡◌, inl, inr, refl, Bool, true, false, Option, none, some, String, arith, if◌then◌else◌,
  str_eq, Bool-cases, Option-cases,
}
use go_cfc.Base.Int.{pos}
use go_cfc.Wire.Message.{ConnMsg}
use go_cfc.Server.State.{
  ProxyServer, Config, World, Incoming, OdjSubReq, OdjVpnLinkAddr, Fault, VpnInfo, dialled, err_msg,
  empty, method_is_refused, vpn_info, bad_json, sub_dst_key_is_nil, sub_local_addr_is_nil,
  miss_proxy_client,
}
use go_cfc.Server.Closing.{get_proxy_client}
use go_cfc.Server.Sending.{init_link_conn}
use go_cfc.Server.Handlers.Link.{
  Dialling, refused, linked, nil_pointer, tcp_info, udp_link_info, dialling, link_vpn_conn, refuse,
  reject, attach, answer_vpn, c_msg_proxy_initialization,
}
use go_cfc.Server.Names.Invariant.{Exact, Exact-Keeps, next_step-Exact}
use go_cfc.Server.Names.Sending.{init_link_conn-Keeps}
use go_cfc.Server.Names.Rooms.{
  Safe, write-Safe, check-Safe, close-Safe, join_task_room-Safe, set_proxy_sub_client-Safe,
}
use go_cfc.Server.Names.Reports.{quiet-Safe}

-- A result that is a panic or a server with an exact table.
abbrev pub ExactIf : Option ProxyServer → Type 0
ExactIf none = Unit {0}
ExactIf (some s) = Exact s

pub if_Exact : (b : Bool) {x y : ProxyServer} → Exact x → Exact y → Exact (if b then x else y)
if_Exact true x y = x
if_Exact false x y = y

module _ (config : Config) (w : World) (u : Incoming) where
  reject-Safe :
      (header id : String) (fault : Fault) (r : ℕ) → Safe (reject config w u header id fault r)
  unfolding reject
  reject-Safe header id fault r = check-Safe w header id (some fault) true r

  refuse-Safe : (header id : String) (r : ℕ) → Safe (refuse config w u header id r)
  unfolding refuse
  refuse-Safe header id r s v =
      close-Safe r _ (write-Safe w header id (pos 401) (err_msg method_is_refused) r s v)

  attach-Safe : (id : String) (info : OdjSubReq) (r : ℕ) → Safe (attach config w u id info r)
  unfolding attach
  attach-Safe id info r s v = elim (Bool-cases (str_eq info.dst_key "")) [
    | inl h ↦ rw h (reject-Safe "TaskA" id sub_dst_key_is_nil r s v)
    | inr h ↦ elim (Option-cases info.addr) [
      | inl e ↦ rw (h, e) (reject-Safe "TaskA" id sub_local_addr_is_nil r s v)
      | inr (addr, e) ↦ elim (Bool-cases (str_eq info.src_name "")) [
        | inl h1 ↦ rw (h, e, h1) (join_task_room-Safe w info r s v)
        | inr h1 ↦ elim (Option-cases (get_proxy_client info.src_name s)) [
          | inl e1 ↦ rw (h, e, h1, e1) (reject-Safe "TaskA" id miss_proxy_client r s v)
          | inr (parent, e1) ↦
              rw (h, e, h1, e1)
                (join_task_room-Safe w info r _ (
                  quiet-Safe w r (λ c. record c { parent = some parent }) (λ c. refl) (λ c. refl)
                    (λ c. refl) (λ c. refl) _
                    (set_proxy_sub_client-Safe parent (s.clients r).id r s v)))
        ]
      ]
    ]
  ]

  linked_by :
      (resolved : Bool) (conn : Option (String × String))
      (fill : String × String → VpnInfo → VpnInfo) (info : Option VpnInfo) (r : ℕ)
      (s s1 : ProxyServer) (changed : VpnInfo)
      → dialling resolved conn fill info r s ≡ linked changed s1
      → s1 ≡ init_link_conn (dialled false) "LinkTypeVPN" r s
  unfolding dialling
  linked_by false conn fill info r s s1 changed e = cc
  linked_by true none fill info r s s1 changed e = cc
  linked_by true (some a) fill none r s s1 changed e = cc
  linked_by true (some a) fill (some i) r s s1 changed e = cc

  link_vpn_conn-Exact :
      (info : OdjVpnLinkAddr) (r : ℕ) (s s1 : ProxyServer) (changed : VpnInfo)
      → Exact s
      → link_vpn_conn w info r s ≡ linked changed s1
      → Exact s1
  unfolding link_vpn_conn
  link_vpn_conn-Exact info r s s1 changed v e =
      let shape : s1 ≡ init_link_conn (dialled false) "LinkTypeVPN" r s = ground (
        arith,
        linked_by (w.resolve_tcp info.addr) (w.dial_tcp info.addr) tcp_info info.addr_info r s s1
            changed,
        linked_by (w.resolve_udp info.addr) (w.dial_udp info.addr) udp_link_info info.addr_info r s
            s1 changed,
      ) in
      rw shape (Exact-Keeps s (init_link_conn-Keeps (dialled false) "LinkTypeVPN" r) v)

  answer_vpn-ExactIf :
      (id : String) (info : OdjVpnLinkAddr) (r : ℕ) (s : ProxyServer)
      → Exact s
      → ExactIf (answer_vpn config w u id info r s)
  unfolding answer_vpn
  answer_vpn-ExactIf id info r s v = by_dial (link_vpn_conn w info r s) refl
    where
      by_dial :
          (d : Dialling)
          → link_vpn_conn w info r s ≡ d
          → ExactIf (answer_vpn config w u id info r s)
      by_dial (refused fault) e = rw (e, answer_vpn) (reject-Safe "ConnVPNA1" id fault r s v)
      by_dial (linked changed s1) e =
          rw (e, answer_vpn)
            (write-Safe w "ConnVPNA1" id (pos 200) (vpn_info (some changed)) r s1
              (link_vpn_conn-Exact info r s s1 changed v e))
      by_dial nil_pointer e = rw (e, answer_vpn) tt

  pub c_msg_proxy_initialization-ExactIf :
      (m : ConnMsg u.D) (r : ℕ) (s : ProxyServer)
      → Exact s
      → ExactIf (c_msg_proxy_initialization config w u m r s)
  unfolding c_msg_proxy_initialization
  c_msg_proxy_initialization-ExactIf m r s v =
      elim (Bool-cases (str_eq m.header "Hello! I want to shake hands.")) [
        | inl h ↦
            rw h (
              write-Safe w "Hi! What's your Info?" m.id (pos 200) empty r _ (next_step-Exact r s v))
        | inr h ↦ elim (Bool-cases (str_eq m.header "TaskQ")) [
          | inl h1 ↦ elim (Bool-cases config.switch_link_client) [
            | inr off ↦ rw (h, h1, off) (refuse-Safe "TaskA" m.id r s v)
            | inl on ↦ elim (Option-cases (u.to_sub_req m.payload)) [
              | inl e ↦ rw (h, h1, on, e) (reject-Safe "TaskA" m.id bad_json r s v)
              | inr (info, e) ↦ rw (h, h1, on, e) (attach-Safe m.id info r s v)
            ]
          ]
          | inr h1 ↦ elim (Bool-cases (str_eq m.header "ConnVPNQ1")) [
            | inr h2 ↦ rw (h, h1, h2) v
            | inl h2 ↦ elim (Bool-cases config.switch_vpn_proxy) [
              | inr off ↦ rw (h, h1, h2, off) (refuse-Safe "ConnVPNA1" m.id r s v)
              | inl on ↦ elim (Option-cases (u.to_vpn_link m.payload)) [
                | inl e ↦ rw (h, h1, h2, on, e) (reject-Safe "ConnVPNA1" m.id bad_json r s v)
                | inr (info, e) ↦ rw (h, h1, h2, on, e) (answer_vpn-ExactIf m.id info r s v)
              ]
            ]
          ]
        ]
      ]

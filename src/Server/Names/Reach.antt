-- ===== src/Server/Names/Reach.antt =====
-- The table of names in every state that the server can reach.
use go_cfc.Base.{
  ℕ, ◌≡◌, ◌≢◌, inl, inr, refl, ap, ◌∙◌, Bool, true, false, Option, none, some, String, ◌==◌, arith,
  eq_iff, if◌then◌else◌, str_eq, Bool-cases, Option-cases,
}
use go_cfc.Base.Assoc.{lookup, insert, delete}
use go_cfc.Base.Int.{pos}
use go_cfc.Wire.Message.{ConnMsg, check_conn_msg_header_and_code}
use go_cfc.Server.State.{ProxyServer, ProxyUp2P, Config, World, Incoming, OdjUp2PReq}
use go_cfc.Server.Closing.{get_proxy_client}
use go_cfc.Server.Closing.Relation.{IsOpen, entry}
use go_cfc.Server.Rooms.{keep_rooms, del_expire_task_room}
use go_cfc.Server.Up2p.{
  get_up2p, del_up2p, set_up2p, answer_both, handle, punch, handle_up2p, keep_up2ps,
  del_expire_up2p,
}
use go_cfc.Server.Handlers.Dispatch.{
  accept, start, gc_task, Step, accepts, handles, ends, datagram, collects, Reach, here, next,
}
use go_cfc.Server.Names.Invariant.{Exact, elsewhere-Exact}
use go_cfc.Server.Names.Rooms.{Safe, write-Safe, close-Safe}
use go_cfc.Server.Names.Handlers.{c_msg_handler-Exact}

accept-Safe : (config : Config) (w : World) (addr : String) → Safe (accept config w addr)
unfolding accept
accept-Safe config w addr s v = record {
  table = record {
    owned = λ k q e. ground (arith, v.owned k q);
    listed = λ q h named. ground (arith, v.listed q);
    flags = λ q. ground (arith, v.flags q);
  };
  nameless = λ q h. ground (arith, v.nameless q);
}

gc_task-Safe : (config : Config) (w : World) → Safe (gc_task config w)
unfolding gc_task del_expire_task_room del_expire_up2p
gc_task-Safe config w s v =
    let rooms =
      elsewhere-Exact s (keep_rooms w.now s.proxy_task_room_map) s.proxy_up2p_map s.ids s.sent v in
    let both =
      elsewhere-Exact s (keep_rooms w.now s.proxy_task_room_map) (keep_up2ps w.now s.proxy_up2p_map)
        s.ids s.sent v in
    choose config.switch_udp_p2p both rooms
  where
    choose : (b : Bool) {x y : ProxyServer} → Exact x → Exact y → Exact (if b then x else y)
    choose true a b = a
    choose false a b = b

module _ (w : World) where
  answer_both-Safe :
      (up : ProxyUp2P) (r1 : ℕ) (i_addr : Option String) (p_addr : String) (r2 : ℕ)
      → Safe (answer_both w up r1 i_addr p_addr r2)
  unfolding answer_both
  answer_both-Safe up r1 i_addr p_addr r2 s v =
      write-Safe w "P2PUdpA1" up.id (pos 200) _ r2 _
        (write-Safe w "P2PUdpA1" up.id (pos 200) _ r1 s v)

  handle-Exact :
      (up : ProxyUp2P) (i_addr : Option String) (p_addr : String) (r : ℕ) (s : ProxyServer)
      → Exact s
      → Exact (handle w up i_addr p_addr r s).2
  unfolding handle
  handle-Exact up i_addr p_addr r s v = elim (Bool-cases (up.step == 0)) [
    | inl h ↦ rw h v
    | inr h ↦ elim (Bool-cases (up.step == 1)) [
      | inr h1 ↦ rw (h, h1) v
      | inl h1 ↦ elim (Bool-cases (str_eq p_addr up.c1_p_addr)) [
        | inl h2 ↦ rw (h, h1, h2) v
        | inr h2 ↦ elim (Option-cases up.c1) [
          | inl e ↦ rw (h, h1, h2, e) v
          | inr (r1, e) ↦ rw (h, h1, h2, e) (answer_both-Safe up r1 i_addr p_addr r s v)
        ]
      ]
    ]
  ]

  punch-Safe :
      (info : OdjUp2PReq) (addr : String) (r : ℕ) (up : ProxyUp2P) → Safe (punch w info addr r up)
  unfolding punch del_up2p set_up2p
  punch-Safe info addr r up s v =
      let (over, up', s') = handle w up info.addr addr r s in
      let v' = handle-Exact up info.addr addr r s v in
      elim (Bool-cases over) [
        | inl h ↦ rw h (
            elsewhere-Exact s' s'.proxy_task_room_map (delete info.id s'.proxy_up2p_map) s'.ids
              s'.sent v')
        | inr h ↦ rw h (
            elsewhere-Exact s' s'.proxy_task_room_map (insert info.id up' s'.proxy_up2p_map) s'.ids
              s'.sent v')
      ]

  handle_up2p-Safe :
      (u : Incoming) (m : Option (ConnMsg u.D)) (addr : String) → Safe (handle_up2p w u m addr)
  unfolding handle_up2p
  handle_up2p-Safe u none addr s v = v
  handle_up2p-Safe u (some m) addr s v =
      elim (Option-cases (check_conn_msg_header_and_code m "P2PUdpO" (pos 200))) [
        | inr (x, e) ↦ rw (e, handle_up2p) v
        | inl e ↦ elim (Option-cases (u.to_up2p_req m.payload)) [
          | inl e1 ↦ rw (e, handle_up2p, e1) v
          | inr (info, e1) ↦ elim (Option-cases (get_proxy_client info.src_name s)) [
            | inl e2 ↦ rw (e, handle_up2p, e1, e2) v
            | inr (r, e2) ↦ elim (Option-cases (get_up2p info.id s)) [
              | inl e3 ↦ rw (e, handle_up2p, e1, e2, e3) v
              | inr (up, e3) ↦ rw (e, handle_up2p, e1, e2, e3) (punch-Safe info addr r up s v)
            ]
          ]
        ]
      ]

module _ {config : Config} {u : Incoming} where
  Step-Exact : {s t : ProxyServer} → Step config u s t → Exact s → Exact t
  Step-Exact (accepts w addr s) v = accept-Safe config w addr s v
  Step-Exact (handles w m r s t ids below e) v =
      c_msg_handler-Exact config w u m r s t ids below v e
  Step-Exact (ends r s) v = close-Safe r s v
  Step-Exact (datagram w m addr s) v = handle_up2p-Safe w u m addr s v
  Step-Exact (collects w s) v = gc_task-Safe config w s v

start-Exact : (config : Config) (w : World) → Exact (start config w)
unfolding start lookup
start-Exact config w = record {
  table = record {
    owned = λ k q e. cc;
    listed = λ q h named. absurd (named refl);
    flags = λ q. refl;
  };
  nameless = λ q h. refl;
}

module _ {config : Config} {u : Incoming} where
  -- The table of names is exact in every state that the server reaches from its start.
  pub Reach-Exact : (w : World) {s : ProxyServer} → Reach config u (start config w) s → Exact s
  Reach-Exact w here = start-Exact config w
  Reach-Exact w (next r st) = Step-Exact st (Reach-Exact w r)

  -- In every state that the server reaches, an open connection that has registered a name is the
  -- one that getProxyClient finds under it.
  pub get_proxy_client_registered :
      (w : World) {s : ProxyServer} (q : ℕ)
      → Reach config u (start config w) s
      → IsOpen s q
      → (s.clients q).name ≢ ""
      → get_proxy_client (s.clients q).name s ≡ some q
  unfolding get_proxy_client
  get_proxy_client_registered w {s} q reach h named =
      let listed = (Reach-Exact w reach).listed q h named in
      ground (arith, listed, eq_iff (s.clients q).name "")

  -- In every state that the server reaches, no two open connections have registered the same name.
  pub registered_once :
      (w : World) {s : ProxyServer} (p q : ℕ)
      → Reach config u (start config w) s
      → IsOpen s p
      → IsOpen s q
      → (s.clients p).name ≢ ""
      → (s.clients p).name ≡ (s.clients q).name
      → p ≡ q
  registered_once w {s} p q reach hp hq named same =
      let v = Reach-Exact w reach in
      let a = v.listed p hp named in
      let b = v.listed q hq (λ e. named (same ∙ e)) in cc (a, b, ap (entry s) same)

-- ===== src/Server/Handlers/Joining.antt =====
-- The requests TaskQ of two sub connections for one room, as cMsgProxyInitialization of
-- server/proxy.go handles them, up to joinTaskRoom.
use go_cfc.Base.{
  ℕ, ◌≡◌, refl, sym, ap, subst, ◌∙◌, true, false, Option, none, some, String, str_eq, arith,
}
use go_cfc.Base.Assoc.{insert}
use go_cfc.Wire.Message.{ConnMsg}
use go_cfc.Server.State.{
  ProxyServer, ProxyTaskRoom, Config, World, Incoming, OdjSubReq, modify, proxy_initialization,
}
use go_cfc.Server.Closing.{get_proxy_client, set_proxy_sub_client}
use go_cfc.Server.Rooms.{get_task_room, set_task_room, join_task_room}
use go_cfc.Server.Rooms.Pairing.{waiting, first_join}
use go_cfc.Server.Handlers.Link.{attach, c_msg_proxy_initialization}
use go_cfc.Server.Handlers.Dispatch.{c_msg_handler}

-- The connection `r` has become a sub connection of `p`.
abbrev pub attached : ℕ → ℕ → ProxyServer → ProxyServer
attached p r s =
    modify r (λ c. record c { parent = some p })
      (modify p (λ c. record c { sub_map = insert (s.clients r).id r c.sub_map }) s)

-- Two connections attached, and the state after the first one's request.
abbrev pub both : (p1 r1 p2 r2 : ℕ) → ProxyServer → ProxyServer
both p1 r1 p2 r2 s = attached p2 r2 (attached p1 r1 s)

abbrev pub asked_once : World → OdjSubReq → (p1 r1 : ℕ) → ProxyServer → ProxyServer
asked_once w i1 p1 r1 s = join_task_room w i1 r1 (attached p1 r1 s)

-- What attaching leaves alone.
record Alike (s t : ProxyServer) : Type 0 where
  steps : (q : ℕ) → (t.clients q).step ≡ (s.clients q).step
  disables : (q : ℕ) → (t.clients q).disable ≡ (s.clients q).disable
  addrs : (q : ℕ) → (t.clients q).remote_addr ≡ (s.clients q).remote_addr

attached-Alike : (p r : ℕ) (s : ProxyServer) → Alike s (attached p r s)
unfolding modify
attached-Alike p r s = record {
  steps = λ q. ground arith;
  disables = λ q. ground arith;
  addrs = λ q. ground arith;
}

module _ (u : Incoming) where
  -- A connection that has sent nothing yet asks for a room with the message `m`. Its request names
  -- the open connection `p`, which is registered.
  pub record Asks (r : ℕ) (m : ConnMsg u.D) (info : OdjSubReq) (p : ℕ) (s : ProxyServer)
      : Type 0 where
    pub step : (s.clients r).step ≡ proxy_initialization
    pub header : m.header ≡ "TaskQ"
    pub request : u.to_sub_req m.payload ≡ some info
    pub key : str_eq info.dst_key "" ≡ false
    pub near : String
    pub addr : info.addr ≡ some near
    pub name : str_eq info.src_name "" ≡ false
    pub registered : get_proxy_client info.src_name s ≡ some p
    pub up : (s.clients p).disable ≡ false

module _ (config : Config) (w : World) (u : Incoming) (on : config.switch_link_client ≡ true) where
  task_q_lem :
      (r p : ℕ) (m : ConnMsg u.D) (info : OdjSubReq) (s : ProxyServer)
      → Asks u r m info p s
      → c_msg_handler config w u m r s ≡ some (join_task_room w info r (attached p r s))
  unfolding c_msg_handler c_msg_proxy_initialization attach set_proxy_sub_client
  task_q_lem r p m info s a =
      rw (a.step, a.header, on, a.request, a.key)
        (by_addr info.addr a.near _ _ a.addr ∙ (rw (a.name, a.registered, a.up) refl))
    where
      by_addr :
          (o : Option String) (near : String) (x y : ProxyServer)
          → o ≡ some near
          → some (elim o [ none ↦ x | some _ ↦ y ]) ≡ some y
      by_addr none near x y h = absurd (let no : ⊥ = cc in no)
      by_addr (some z) near x y h = refl

  module _ (r1 r2 p1 p2 : ℕ) (m1 m2 : ConnMsg u.D) (i1 i2 : OdjSubReq) (room : ProxyTaskRoom)
      (s : ProxyServer) (e : get_task_room i1.dst_key s ≡ some room) (new : room.step ≡ 0)
      (a1 : Asks u r1 m1 i1 p1 s) (a2 : Asks u r2 m2 i2 p2 s) where
    opened_room :
        (asked_once w i1 p1 r1 s) ≡ set_task_room i1.dst_key (waiting room r1 i1) (attached p1 r1 s)
    unfolding get_task_room modify
    opened_room = first_join w i1 r1 room (attached p1 r1 s) e new

    still-Asks : Asks u r2 m2 i2 p2 (asked_once w i1 p1 r1 s)
    unfolding get_proxy_client set_task_room modify
    still-Asks =
        let t = set_task_room i1.dst_key (waiting room r1 i1) (attached p1 r1 s) in
        let alike = attached-Alike p1 r1 s in
        let there : Asks u r2 m2 i2 p2 t = record {
          step = alike.steps r2 ∙ a2.step;
          header = a2.header;
          request = a2.request;
          key = a2.key;
          near = a2.near;
          addr = a2.addr;
          name = a2.name;
          registered = a2.registered;
          up = alike.disables p2 ∙ a2.up;
        } in
        subst (Asks u r2 m2 i2 p2) (sym opened_room) there

    attached_later :
        attached p2 r2 (asked_once w i1 p1 r1 s) ≡ join_task_room w i1 r1 (both p1 r1 p2 r2 s)
    unfolding get_task_room modify set_task_room
    attached_later =
        ap (attached p2 r2) opened_room ∙ sym (first_join w i1 r1 room (both p1 r1 p2 r2 s) e new)

    -- The two requests come to joinTaskRoom with both connections attached.
    pub asked_twice :
        (c_msg_handler config w u m1 r1 s ≡ some (asked_once w i1 p1 r1 s))
        × (c_msg_handler config w u m2 r2 (asked_once w i1 p1 r1 s)
            ≡ some (join_task_room w i2 r2 (join_task_room w i1 r1 (both p1 r1 p2 r2 s))))
    asked_twice = (
      task_q_lem r1 p1 m1 i1 s a1,
      task_q_lem r2 p2 m2 i2 (asked_once w i1 p1 r1 s) still-Asks
          ∙ ap (λ t. some (join_task_room w i2 r2 t)) attached_later,
    )

pub both-same :
    (r1 r2 p1 p2 : ℕ) (s : ProxyServer)
    → let s2 = both p1 r1 p2 r2 s in
      ((tid : String) → get_task_room tid s2 ≡ get_task_room tid s)
      × (s2.sent ≡ s.sent)
      × ((q : ℕ) → (s2.clients q).disable ≡ (s.clients q).disable)
      × ((q : ℕ) → (s2.clients q).remote_addr ≡ (s.clients q).remote_addr)
unfolding get_task_room modify
both-same r1 r2 p1 p2 s =
    let x = attached-Alike p1 r1 s in
    let y = attached-Alike p2 r2 (attached p1 r1 s) in
    (λ tid. refl, refl, λ q. y.disables q ∙ x.disables q, λ q. y.addrs q ∙ x.addrs q)

-- ===== src/Client/Opening/Handshake.antt =====
-- The client's side of the handshakes against what the server sends.
use go_cfc.Base.{
  ℕ, ap, ◌∙◌, str_eq, ◌≡◌, ◌≢◌, refl, true, false, none, some, [], ◌∷◌, ◌++◌, List, String, arith,
  eq_iff,
}
use go_cfc.Base.Int.{pos}
use go_cfc.Wire.Message.{ConnMsg, check_conn_msg_header_and_code}
use go_cfc.Server.State.{
  World, Config, Incoming, ProxyServer, ProxyTaskRoom, OdjClientInfo, SubInfo, Sent, Body, sub_info,
  client_info,
}
use go_cfc.Server.Rooms.{link_info, get_task_room, join_task_room}
use go_cfc.Server.Rooms.Pairing.{Paired, task_a, join_task_room_twice}
use go_cfc.Server.Handlers.Dispatch.{c_msg_handler}
use go_cfc.Server.Handlers.Joining.{Asks, asked_once, both, asked_twice, both-same}
use go_cfc.Client.Errors.{Answer, answer, fine, wait_answer, check, Replies}
use go_cfc.Client.State.{DeviceBox, update}
use go_cfc.Client.Boxes.Views.{get_remote_name, get_remote_public_addr}
use go_cfc.Client.Opening.{task_req, is_whole, on_task_a, fast_handshake}

-- How the client decodes what the server has put into a message.
pub record Decodes (r : Replies) : Type 0 where
  pub seen : Body → r.D
  pub sub_info_seen : (i : SubInfo) → r.to_sub_info (seen (sub_info i)) ≡ some i
  pub client_info_seen : (i : OdjClientInfo) → r.to_client_info (seen (client_info i)) ≡ some i

-- A message of the server, as the client gets it.
abbrev pub received : {r : Replies} → Decodes r → Sent → ConnMsg r.D
received d m = record { header = m.header; code = m.code; payload = d.seen m.body; id = m.id }

named : (name : String) → str_eq name "" ≡ false → name ≢ ""
named name h e = ground (arith, eq_iff name "", e)

module _ {r : Replies} (d : Decodes r) where
  link_whole :
      (id tid id' : String) (q q' : ℕ) (mine other : DeviceBox) (a b : String)
      → mine.name ≢ ""
      → other.name ≢ ""
      → is_whole (link_info (task_req id tid q mine) (task_req id' tid q' other) a b) ≡ true
  unfolding is_whole link_info task_req
  link_whole id tid id' q q' mine other a b h k =
      ground (arith, eq_iff mine.name "", eq_iff other.name "")

  on_task_a_fine :
      (id : String) (x : r.D) (info : SubInfo)
      → r.to_sub_info x ≡ some info
      → is_whole info ≡ true
      → on_task_a r (record { header = "TaskA"; code = pos 200; payload = x; id = id }) ≡ fine info
  unfolding on_task_a check check_conn_msg_header_and_code
  on_task_a_fine id x info e h = rw (e, h) refl

  fast_handshake_fine :
      (w : World) (a : Answer r.D) (q : ℕ) (box : DeviceBox) (info : SubInfo)
      → wait_answer a (on_task_a r) ≡ fine info
      → ((fast_handshake r w a q box).0 ≡ none)
        × (((fast_handshake r w a q box).1.subs q).addr ≡ some info)
  unfolding fast_handshake update
  fast_handshake_fine w a q box info e = rw (e, fast_handshake) (refl, ground arith)

  handshake_fine :
      (w : World) (to : ℕ) (id tid id' : String) (q q' : ℕ) (mine other : DeviceBox) (a b : String)
      → mine.name ≢ ""
      → other.name ≢ ""
      → let m = task_a to (task_req id tid q mine) (task_req id' tid q' other) a b in
        let (e, box) = fast_handshake r w (answer (received d m)) q mine in
        (e ≡ none)
        × ((box.subs q).addr
            ≡ some (link_info (task_req id tid q mine) (task_req id' tid q' other) a b))
  unfolding wait_answer
  handshake_fine w to id tid id' q q' mine other a b h k =
      let info = link_info (task_req id tid q mine) (task_req id' tid q' other) a b in
      fast_handshake_fine w _ q mine info (
        on_task_a_fine (task_req id tid q mine).id (d.seen (sub_info info)) info
          (d.sub_info_seen info) (link_whole id tid id' q q' mine other a b h k))

  -- The handshake of the sub box `q` with the message `m` from the server: it succeeds, and the sub
  -- box knows the other side by its name and its address.
  abbrev pub Meets : World → ℕ → DeviceBox → Sent → (remote_name remote_addr : String) → Type 0
  Meets w q box m remote_name remote_addr =
      let (e, box') = fast_handshake r w (answer (received d m)) q box in
      (e ≡ none)
      × (get_remote_name (box'.subs q) ≡ remote_name)
      × (get_remote_public_addr (box'.subs q) ≡ some remote_addr)

  meets :
      (w : World) (to : ℕ) (id tid id' : String) (q q' : ℕ) (mine other : DeviceBox) (a b : String)
      → mine.name ≢ ""
      → other.name ≢ ""
      → Meets w q mine
          (task_a to (task_req id tid q mine) (task_req id' tid q' other) a b)
          other.name
          b
  unfolding get_remote_name get_remote_public_addr link_info task_req
  meets w to id tid id' q q' mine other a b h k =
      let (e, f) = handshake_fine w to id tid id' q q' mine other a b h k in
      (e, rw (f, get_remote_name) refl, rw (f, get_remote_public_addr) refl)

  -- Two clients with names, which are registered with open connections, open a connection for each
  -- of the sub boxes `q1` and `q2`, and send on it, as their first message, the request of
  -- fastHandshake for one new room, whose id is not empty. The two new connections are different and
  -- open, writes to them succeed, the server reads of each message the request that was made, and
  -- SwitchLinkClient is on. Then the handler of their messages accepts both, links the two
  -- connections with each other and answers both, the first one first; and with the answer that it
  -- gets, each client's handshake succeeds, and its sub box has the other client's name, and the
  -- address that the server sees of it.
  pub sub_boxes_meet :
      (config : Config) (u : Incoming) (w1 w2 w : World) (q1 q2 r1 r2 p1 p2 : ℕ)
      (box1 box2 : DeviceBox) (id1 id2 tid : String) (m1 m2 : ConnMsg u.D) (room : ProxyTaskRoom)
      (s : ProxyServer)
      → config.switch_link_client ≡ true
      → Asks u r1 m1 (task_req id1 tid q1 box1) p1 s
      → Asks u r2 m2 (task_req id2 tid q2 box2) p2 s
      → r1 ≢ r2
      → ((c n : ℕ) → w.write_ok c n ≡ true)
      → (s.clients r1).disable ≡ false
      → (s.clients r2).disable ≡ false
      → get_task_room tid s ≡ some room
      → room.step ≡ 0
      → (t1 : ProxyServer) × ((t : ProxyServer) × (c_msg_handler config w u m1 r1 s ≡ some t1)
          × (c_msg_handler config w u m2 r2 t1 ≡ some t)
          × Paired r1 r2 t
          × ((a1 a2 : Sent) × (t.sent ≡ (s.sent ++ a1 ∷ []) ++ a2 ∷ [])
              × (a1.to ≡ r1)
              × (a2.to ≡ r2)
              × Meets w1 q1 box1 a1 box2.name (s.clients r2).remote_addr
              × Meets w2 q2 box2 a2 box1.name (s.clients r1).remote_addr))
  unfolding task_req
  sub_boxes_meet config u w1 w2 w q1 q2 r1 r2 p1 p2 box1 box2 id1 id2 tid m1 m2 room s on asks1
        asks2 ne works o1 o2 e new =
      let i1 = task_req id1 tid q1 box1 in
      let i2 = task_req id2 tid q2 box2 in
      let x1 = (s.clients r1).remote_addr in
      let x2 = (s.clients r2).remote_addr in
      let told_both : List Sent → String → String → List Sent =
        λ l a b. (l ++ task_a r1 i1 i2 a b ∷ []) ++ task_a r2 i2 i1 b a ∷ [] in
      let h = named box1.name asks1.name in
      let k = named box2.name asks2.name in
      let (first, second) =
        asked_twice config w u on r1 r2 p1 p2 m1 m2 i1 i2 room s e new asks1 asks2 in
      let (room2, told, ups, addrs) = both-same r1 r2 p1 p2 s in
      let s2 = both p1 r1 p2 r2 s in
      let t = join_task_room w i2 r2 (join_task_room w i1 r1 s2) in
      let (paired, log, gone) =
        join_task_room_twice w r1 r2 ne works i1 i2 room s2 (ups r1 ∙ o1) (ups r2 ∙ o2) refl
          (room2 tid ∙ e) new in
      (
        asked_once w i1 p1 r1 s,
        (
          t,
          first,
          second,
          paired,
          (
            task_a r1 i1 i2 x1 x2,
            task_a r2 i2 i1 x2 x1,
            log
                ∙ ap (λ a. told_both s2.sent a (s2.clients r2).remote_addr) (addrs r1)
                ∙ ap (λ a. told_both s2.sent x1 a) (addrs r2)
                ∙ ap (λ l. told_both l x1 x2) told,
            refl,
            refl,
            meets w1 r1 id1 tid id2 q1 q2 box1 box2 x1 x2 h k,
            meets w2 r2 id2 tid id1 q2 q1 box2 box1 x2 x1 k h,
          ),
        ),
      )

-- ===== src/Server/Rooms/Pairing.antt =====
-- Two sides that join a task room are linked to each other.
use go_cfc.Base.{
  ℕ, suc, ◌≡◌, ◌≢◌, refl, ap, ◌∙◌, true, false, none, some, List, [], ◌∷◌, ◌++◌, String, arith,
  eq_iff,
}
use go_cfc.Base.Assoc.{lookup, delete, lookup-insert, lookup-delete}
use go_cfc.Base.Int.{pos}
use go_cfc.Server.State.{ProxyServer, ProxyTaskRoom, World, OdjSubReq, sub_info, peer, Sent, modify}
use go_cfc.Server.Sending.{init_link_conn}
use go_cfc.Server.Sending.Delivery.{write_c_msg_and_check_ok}
use go_cfc.Server.Rooms.{
  get_task_room, set_task_room, del_task_room, no_deadline, link_info, link_room, link_first,
  join_room, join_task_room,
}

-- The two sides are joined: each is the other's link, and neither has a deadline.
pub record Paired (r1 r2 : ℕ) (t : ProxyServer) : Type 0 where
  pub first : (t.clients r1).link_conn ≡ peer r2
  pub second : (t.clients r2).link_conn ≡ peer r1
  pub first_on : (t.clients r1).link_switch ≡ true
  pub second_on : (t.clients r2).link_switch ≡ true
  pub first_free : (t.clients r1).deadline ≡ none
  pub second_free : (t.clients r2).deadline ≡ none

abbrev pub task_a : ℕ → OdjSubReq → OdjSubReq → String → String → Sent
task_a r local remote a b = record {
  to = r;
  header = "TaskA";
  id = local.id;
  code = pos 200;
  body = sub_info (link_info local remote a b);
}

abbrev told : ℕ → ℕ → OdjSubReq → OdjSubReq → List Sent → String → String → List Sent
told r1 r2 i1 i2 l a b = (l ++ task_a r1 i1 i2 a b ∷ []) ++ task_a r2 i2 i1 b a ∷ []

same_told :
    (r1 r2 : ℕ) (i1 i2 : OdjSubReq) {l m : List Sent} {a b c d : String}
    → l ≡ m
    → a ≡ c
    → b ≡ d
    → told r1 r2 i1 i2 l a b ≡ told r1 r2 i1 i2 m c d
same_told r1 r2 i1 i2 {l} {m} {a} {b} {c} {d} e f g =
    ap (λ x. told r1 r2 i1 i2 x a b) e
    ∙ ap (λ x. told r1 r2 i1 i2 m x b) f
    ∙ ap (λ x. told r1 r2 i1 i2 m c x) g

module _ (w : World) (r1 r2 : ℕ) (i1 i2 : OdjSubReq) (s : ProxyServer) where
  abbrev pub linked : ProxyServer
  linked =
      init_link_conn (peer r1) "LinkTypePC" r2
        (init_link_conn (peer r2) "LinkTypePC" r1 (del_task_room i2.dst_key s))

  linked_state :
      r1 ≢ r2
      → ((linked.clients r1).link_conn ≡ peer r2)
        × ((linked.clients r2).link_conn ≡ peer r1)
        × ((linked.clients r1).link_switch ≡ true)
        × ((linked.clients r2).link_switch ≡ true)
        × ((linked.clients r1).disable ≡ (s.clients r1).disable)
        × ((linked.clients r2).disable ≡ (s.clients r2).disable)
        × ((linked.clients r1).remote_addr ≡ (s.clients r1).remote_addr)
        × ((linked.clients r2).remote_addr ≡ (s.clients r2).remote_addr)
        × (linked.sent ≡ s.sent)
  unfolding init_link_conn del_task_room modify
  linked_state ne = ground arith

  no_deadlines :
      (t : ProxyServer)
      → let u = no_deadline r2 (no_deadline r1 t) in
        ((u.clients r1).link_conn ≡ (t.clients r1).link_conn)
        × ((u.clients r2).link_conn ≡ (t.clients r2).link_conn)
        × ((u.clients r1).link_switch ≡ (t.clients r1).link_switch)
        × ((u.clients r2).link_switch ≡ (t.clients r2).link_switch)
        × ((u.clients r1).deadline ≡ none)
        × ((u.clients r2).deadline ≡ none)
        × (u.sent ≡ t.sent)
        × (u.proxy_task_room_map ≡ t.proxy_task_room_map)
  unfolding no_deadline modify
  no_deadlines t = ground arith

room_gone :
    (tid : String) (s t : ProxyServer)
    → t.proxy_task_room_map ≡ delete tid s.proxy_task_room_map
    → get_task_room tid t ≡ none
unfolding get_task_room
room_gone tid s t e =
    rw e (ground (arith, lookup-delete tid tid s.proxy_task_room_map, eq_iff tid tid))

linked_rooms :
    (w : World) (r1 r2 : ℕ) (i1 i2 : OdjSubReq) (s : ProxyServer)
    → (linked w r1 r2 i1 i2 s).proxy_task_room_map ≡ delete i2.dst_key s.proxy_task_room_map
unfolding init_link_conn del_task_room modify
linked_rooms w r1 r2 i1 i2 s = refl

abbrev pub waiting : ProxyTaskRoom → ℕ → OdjSubReq → ProxyTaskRoom
waiting room r1 i1 = record room { c1 = some r1; i1 = some i1; step = suc room.step }

found_again :
    (k j : String) (room : ProxyTaskRoom) (s : ProxyServer)
    → k ≡ j
    → lookup j (set_task_room k room s).proxy_task_room_map ≡ some room
unfolding set_task_room
found_again k j room s e = ground (arith, lookup-insert k j room s.proxy_task_room_map, eq_iff k j)

pub first_join :
    (w : World) (i1 : OdjSubReq) (r1 : ℕ) (room : ProxyTaskRoom) (s : ProxyServer)
    → get_task_room i1.dst_key s ≡ some room
    → room.step ≡ 0
    → join_task_room w i1 r1 s ≡ set_task_room i1.dst_key (waiting room r1 i1) s
unfolding join_task_room join_room
first_join w i1 r1 room s e new = rw (e, join_task_room) (simp new)

pub second_join :
    (w : World) (i1 i2 : OdjSubReq) (r1 r2 : ℕ) (room : ProxyTaskRoom) (s : ProxyServer)
    → i1.dst_key ≡ i2.dst_key
    → room.step ≡ 0
    → join_task_room w i2 r2 (set_task_room i1.dst_key (waiting room r1 i1) s)
      ≡ link_room w i1 r1 i2 r2 (set_task_room i1.dst_key (waiting room r1 i1) s)
unfolding join_task_room join_room link_first get_task_room
second_join w i1 i2 r1 r2 room s key new =
    let found : lookup i2.dst_key
          (set_task_room i1.dst_key (waiting room r1 i1) s).proxy_task_room_map
        ≡ some (waiting room r1 i1) =
      found_again i1.dst_key i2.dst_key (waiting room r1 i1) s key in
    rw (found, join_task_room) (simp new)

module _ (w : World) (r1 r2 : ℕ) (ne : r1 ≢ r2) (works : (r n : ℕ) → w.write_ok r n ≡ true) where
  link_room-Paired :
      (i1 i2 : OdjSubReq) (s : ProxyServer)
      → (s.clients r1).disable ≡ false
      → (s.clients r2).disable ≡ false
      → let a1 = (s.clients r1).remote_addr in
        let a2 = (s.clients r2).remote_addr in
        let t = link_room w i1 r1 i2 r2 s in
        Paired r1 r2 t
        × (t.sent ≡ (s.sent ++ task_a r1 i1 i2 a1 a2 ∷ []) ++ task_a r2 i2 i1 a2 a1 ∷ [])
        × (get_task_room i2.dst_key t ≡ none)
  unfolding link_room
  link_room-Paired i1 i2 s h1 h2 =
      let s3 = linked w r1 r2 i1 i2 s in
      let (l1, l2, on1, on2, d1, d2, b1, b2, log) = linked_state w r1 r2 i1 i2 s ne in
      let (u4, log4) =
        write_c_msg_and_check_ok w r1 (works r1) "TaskA" i1.id (pos 200)
          (sub_info (link_info i1 i2 (s3.clients r1).remote_addr (s3.clients r2).remote_addr)) s3
          (d1 ∙ h1) in
      let (u5, log5) =
        write_c_msg_and_check_ok w r2 (works r2) "TaskA" i2.id (pos 200)
          (sub_info (link_info i2 i1 (s3.clients r2).remote_addr (s3.clients r1).remote_addr)) _
          (u4.disable r2 ∙ d2 ∙ h2) in
      let (e1, e2, f1, f2, g1, g2, log6, rooms) = no_deadlines w r1 r2 i1 i2 s _ in
      (
        record {
          first = e1 ∙ u5.link_conn r1 ∙ u4.link_conn r1 ∙ l1;
          second = e2 ∙ u5.link_conn r2 ∙ u4.link_conn r2 ∙ l2;
          first_on = f1 ∙ u5.link_switch r1 ∙ u4.link_switch r1 ∙ on1;
          second_on = f2 ∙ u5.link_switch r2 ∙ u4.link_switch r2 ∙ on2;
          first_free = g1;
          second_free = g2;
        },
        log6
            ∙ log5
            ∙ ap
                (λ l.
                  l ++ task_a r2 i2 i1 (s3.clients r2).remote_addr (s3.clients r1).remote_addr ∷ [])
                log4
            ∙ same_told r1 r2 i1 i2 log b1 b2,
        room_gone i2.dst_key s _ (rooms ∙ u5.rooms ∙ u4.rooms ∙ linked_rooms w r1 r2 i1 i2 s),
      )

  -- Two connections join a room that is new, one after the other, with requests for the same key:
  -- each becomes the link of the other and is told so, the first one first, with its own request
  -- and address and those of the other side; their deadlines are lifted, and the room is gone, so
  -- nobody else can join it. The connections are different and open, and writes to them succeed.
  pub join_task_room_twice :
      (i1 i2 : OdjSubReq) (room : ProxyTaskRoom) (s : ProxyServer)
      → (s.clients r1).disable ≡ false
      → (s.clients r2).disable ≡ false
      → i1.dst_key ≡ i2.dst_key
      → get_task_room i1.dst_key s ≡ some room
      → room.step ≡ 0
      → let a1 = (s.clients r1).remote_addr in
        let a2 = (s.clients r2).remote_addr in
        let t = join_task_room w i2 r2 (join_task_room w i1 r1 s) in
        Paired r1 r2 t
        × (t.sent ≡ (s.sent ++ task_a r1 i1 i2 a1 a2 ∷ []) ++ task_a r2 i2 i1 a2 a1 ∷ [])
        × (get_task_room i2.dst_key t ≡ none)
  join_task_room_twice i1 i2 room s h1 h2 key e new =
      rw (first_join w i1 r1 room s e new, second_join w i1 i2 r1 r2 room s key new)
        (unfold set_task_room in
          link_room-Paired i1 i2
            (set_task_room i1.dst_key
              (record room { c1 = some r1; i1 = some i1; step = suc room.step }) s)
            h1 h2)

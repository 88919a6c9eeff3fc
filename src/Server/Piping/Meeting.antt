-- ===== src/Server/Piping/Meeting.antt =====
-- From the moment that two clients have joined a room, their link is a pair of new pipes.
use go_cfc.Base.{
  ℕ, ◌≡◌, ◌≢◌, refl, sym, ap, ◌∙◌, subst, Bool, true, false, Option, none, some, [], Bytes, arith,
  concat,
}
use go_cfc.Base.Int.{pos}
use go_cfc.Wire.Cipher.{Gcm}
use go_cfc.Wire.Packet.{buffer_size}
use go_cfc.Wire.Message.{ConnMsg, Json, Data, Key}
use go_cfc.LinkBox.{LinkBox, new_link_box}
use go_cfc.Server.State.{
  ProxyServer, ProxyTaskRoom, Config, World, Incoming, OdjSubReq, modify, sub_info,
}
use go_cfc.Server.Sending.{init_link_conn}
use go_cfc.Server.Sending.Delivery.{Untouched, write_c_msg_and_check_ok}
use go_cfc.Server.Rooms.{
  get_task_room, del_task_room, set_task_room, link_info, no_deadline, link_room, join_task_room,
}
use go_cfc.Server.Rooms.Pairing.{join_task_room_twice, linked, waiting, first_join, second_join}
use go_cfc.Server.Piping.{Wires, link_box_of, link_boxes}
use go_cfc.Server.Piping.Pipes.{Spec, Runs, End}
use go_cfc.Server.Piping.Ends.{duplex, view, duplex_eq, and_true}
use go_cfc.Server.Piping.Refinement.{linked_clients_refine_pipes}

-- What linking leaves of the flags of the two sides, and the type of the link.
record Flagged (r : ℕ) (s t : ProxyServer) : Type 0 where
  once : (t.clients r).once ≡ (s.clients r).once
  disable : (t.clients r).disable ≡ (s.clients r).disable
  link_type : (t.clients r).link_type ≡ "LinkTypePC"

linked-Flagged :
    (w : World) (r1 r2 : ℕ) (i1 i2 : OdjSubReq) (s : ProxyServer)
    → Flagged r1 s (linked w r1 r2 i1 i2 s) × Flagged r2 s (linked w r1 r2 i1 i2 s)
unfolding init_link_conn del_task_room modify
linked-Flagged w r1 r2 i1 i2 s = (
  record { once = ground arith; disable = ground arith; link_type = ground arith },
  record { once = ground arith; disable = ground arith; link_type = ground arith },
)

no_deadline-Flagged : (r p : ℕ) (s t : ProxyServer) → Flagged r s t → Flagged r s (no_deadline p t)
unfolding no_deadline modify
no_deadline-Flagged r p s t f = record {
  once = ground (arith, f.once);
  disable = ground (arith, f.disable);
  link_type = ground (arith, f.link_type);
}

Untouched-Flagged : (r : ℕ) {s t u : ProxyServer} → Untouched t u → Flagged r s t → Flagged r s u
Untouched-Flagged r c f = record {
  once = c.once r ∙ f.once;
  disable = c.disable r ∙ f.disable;
  link_type = c.link_type r ∙ f.link_type;
}

module _ (w : World) (r1 r2 : ℕ) (works : (r n : ℕ) → w.write_ok r n ≡ true) where
  link_room-Flagged :
      (i1 i2 : OdjSubReq) (s : ProxyServer)
      → (s.clients r1).disable ≡ false
      → (s.clients r2).disable ≡ false
      → Flagged r1 s (link_room w i1 r1 i2 r2 s) × Flagged r2 s (link_room w i1 r1 i2 r2 s)
  unfolding link_room
  link_room-Flagged i1 i2 s h1 h2 =
      let s3 = linked w r1 r2 i1 i2 s in
      let (f1, f2) = linked-Flagged w r1 r2 i1 i2 s in
      let a1 = (s3.clients r1).remote_addr in
      let a2 = (s3.clients r2).remote_addr in
      let (u4, log4) =
        write_c_msg_and_check_ok w r1 (works r1) "TaskA" i1.id (pos 200)
          (sub_info (link_info i1 i2 a1 a2)) s3 (f1.disable ∙ h1) in
      let (u5, log5) =
        write_c_msg_and_check_ok w r2 (works r2) "TaskA" i2.id (pos 200)
          (sub_info (link_info i2 i1 a2 a1)) _ (u4.disable r2 ∙ f2.disable ∙ h2) in
      (
        no_deadline-Flagged r1 r2 s _
            (no_deadline-Flagged r1 r1 s _ (Untouched-Flagged r1 u5 (Untouched-Flagged r1 u4 f1))),
        no_deadline-Flagged r2 r2 s _
            (no_deadline-Flagged r2 r1 s _ (Untouched-Flagged r2 u5 (Untouched-Flagged r2 u4 f2))),
      )

  joined-Flagged :
      (i1 i2 : OdjSubReq) (room : ProxyTaskRoom) (s : ProxyServer)
      → (s.clients r1).disable ≡ false
      → (s.clients r2).disable ≡ false
      → i1.dst_key ≡ i2.dst_key
      → get_task_room i1.dst_key s ≡ some room
      → room.step ≡ 0
      → let t = join_task_room w i2 r2 (join_task_room w i1 r1 s) in Flagged r1 s t × Flagged r2 s t
  unfolding set_task_room
  joined-Flagged i1 i2 room s h1 h2 key e new =
      rw (first_join w i1 r1 room s e new, second_join w i1 i2 r1 r2 room s key new)
        (let (f, f') =
            link_room-Flagged i1 i2 (set_task_room i1.dst_key (waiting room r1 i1) s) h1 h2 in
          (
            record { once = f.once; disable = f.disable; link_type = f.link_type },
            record { once = f'.once; disable = f'.disable; link_type = f'.link_type },
          ))

-- Joining first links nobody.
not_linked_yet :
    (w : World) (i1 : OdjSubReq) (r1 : ℕ) (room : ProxyTaskRoom) (s : ProxyServer)
    → get_task_room i1.dst_key s ≡ some room
    → room.step ≡ 0
    → (q : ℕ) → (s.clients q).link_switch ≡ false
    → ((join_task_room w i1 r1 s).clients q).link_switch ≡ false
unfolding set_task_room
not_linked_yet w i1 r1 room s e new q h =
    ap (λ (z : ProxyServer). (z.clients q).link_switch) (first_join w i1 r1 room s e new) ∙ h

module _ (g : Gcm) (json : Json) (k : Key) (config : Config) (u : Incoming)
    (decode : ConnMsg (Data json.J) → ConnMsg u.D) (to_bytes : Data json.J → Option Bytes) where
  -- A connection that has just been linked with another one has a new box without functions.
  new_box_lem :
      (skip : ℕ → Bool) (got : Option ℕ) (draw p : ℕ) (s t : ProxyServer) (v : Wires)
      → (t.clients p).link_switch ≡ true
      → (s.clients p).link_switch ≡ false
      → (t.clients p).link_type ≡ "LinkTypePC"
      → (link_boxes g json k config u decode to_bytes skip got draw s t v).boxes p
        ≡ new_link_box buffer_size [] none none
  unfolding link_boxes link_box_of
  new_box_lem skip got draw p s t v on off kind = rw (on, off, kind) refl

  -- Two different open connections that are not linked join a new room, one after the other, with
  -- requests for the same key, and the writes to them succeed; their tcpHandlers are served. From
  -- then on, whatever bytes their clients send, in whatever order and with whatever outcomes their
  -- tcpHandlers go round, and whatever connections are closed, what the two get of each other is a
  -- run of a pair of pipes that begins with nothing delivered, and with the bytes in flight that
  -- each client has sent after its request.
  pub met_clients_refine_pipes :
      (w : World) (r1 r2 : ℕ) (i1 i2 : OdjSubReq) (room : ProxyTaskRoom) (s : ProxyServer)
      (v : Wires) (skip : ℕ → Bool) (got : Option ℕ) (draw : ℕ) (t' : ProxyServer) (v' : Wires)
      (x y : Bytes)
      → r1 ≢ r2
      → ((r n : ℕ) → w.write_ok r n ≡ true)
      → (s.clients r1).disable ≡ false
      → (s.clients r2).disable ≡ false
      → (s.clients r1).once ≡ false
      → (s.clients r2).once ≡ false
      → (s.clients r1).link_switch ≡ false
      → (s.clients r2).link_switch ≡ false
      → v.serving r1 ≡ true
      → v.serving r2 ≡ true
      → i1.dst_key ≡ i2.dst_key
      → get_task_room i1.dst_key s ≡ some room
      → room.step ≡ 0
      → let s1 = join_task_room w i1 r1 s in
        let t = join_task_room w i2 r2 s1 in
        let v1 = link_boxes g json k config u decode to_bytes skip got draw s1 t v in
        Runs g json k config u decode to_bytes r1 r2 t v1 x y t' v'
        → Spec (duplex [] (v.incoming r1) [] (v.incoming r2) true) x y (view r1 r2 v')
  unfolding new_link_box link_boxes
  met_clients_refine_pipes w r1 r2 i1 i2 room s v skip got draw t' v' x y ne works d1 d2 o1 o2 l1 l2
        on1 on2 key e new run =
      let s1 = join_task_room w i1 r1 s in
      let t = join_task_room w i2 r2 s1 in
      let v1 = link_boxes g json k config u decode to_bytes skip got draw s1 t v in
      let (p, _, _) = join_task_room_twice w r1 r2 ne works i1 i2 room s d1 d2 key e new in
      let (f1, f2) = joined-Flagged w r1 r2 works i1 i2 room s d1 d2 key e new in
      let not_yet = not_linked_yet w i1 r1 room s e new in
      let b1 = new_box_lem skip got draw r1 s1 t v p.first_on (not_yet r1 l1) f1.link_type in
      let b2 = new_box_lem skip got draw r2 s1 t v p.second_on (not_yet r2 l2) f2.link_type in
      let end1 : End r1 r2 t v1 = record {
        switch = p.first_on;
        conn = p.first;
        raw = ap (λ (b : LinkBox). b.link_read_fn) b1;
        flag = f1.once ∙ o1 ∙ sym d1 ∙ sym f1.disable;
        gone = λ off. absurd (let no : ⊥ = cc in no);
      } in
      let end2 : End r2 r1 t v1 = record {
        switch = p.second_on;
        conn = p.second;
        raw = ap (λ (b : LinkBox). b.link_read_fn) b2;
        flag = f2.once ∙ o2 ∙ sym d2 ∙ sym f2.disable;
        gone = λ off. absurd (let no : ⊥ = cc in no);
      } in
      subst (λ d. Spec d x y (view r1 r2 v'))
        (duplex_eq (ap (λ (b : LinkBox). concat b.link_written) b1) refl
          (ap (λ (b : LinkBox). concat b.link_written) b2) refl (and_true on1 on2))
        (linked_clients_refine_pipes g json k config u decode to_bytes r1 r2 t t' v1 v' x y ne end1
          end2 run)

-- ===== src/Server/Names/Sending.antt =====
-- Sending keeps the table exact.
use go_cfc.Base.{
  ℕ, inl, inr, refl, Bool, true, false, Option, none, some, List, [], ◌∷◌, String, Bool-cases,
}
use go_cfc.Base.Assoc.{insert}
use go_cfc.Base.Int.{ℤ, pos}
use go_cfc.Server.State.{ProxyServer, World, Body, Fault, Sent, LinkConn, err_msg, modify}
use go_cfc.Server.Closing.{set_proxy_sub_client}
use go_cfc.Server.Closing.Relation.{Closes, Closes-refl, Closes-trans, modify-Closes}
use go_cfc.Server.Sending.{
  count_packet, write_packets, write_c_msg, write_c_msg_and_check, check_err_and_send_400_err_c_msg,
  init_link_conn,
}
use go_cfc.Server.Names.Invariant.{Table-Closes, Keeps, close-Keeps, Keeps-then}

module _ (w : World) where
  write_packets-Closes :
      (packets : List ℕ) (r : ℕ) (s : ProxyServer) → Closes s (write_packets w packets r s).1
  unfolding write_packets count_packet
  write_packets-Closes [] r s = Closes-refl s
  write_packets-Closes (n ∷ packets) r s =
      let one =
        modify-Closes r (count_packet w n) s
          (record { name = λ c. refl; step = λ c. refl; disable = λ c. refl; once = λ c. refl }) in
      let all = Closes-trans one (write_packets-Closes packets r (modify r (count_packet w n) s)) in
      elim (Bool-cases (w.write_ok r (s.clients r).writes)) [
        | inl h ↦ rw h all
        | inr h ↦ rw h (Closes-refl s)
      ]

  -- A log entry more.
  logged-Closes :
      {s t : ProxyServer} (log : List Sent) → Closes s t → Closes s (record t { sent = log })
  logged-Closes log c = record {
    names = c.names;
    steps = c.steps;
    kept = c.kept;
    flags = c.flags;
    fewer = c.fewer;
    lost = c.lost;
    same_next = c.same_next;
    same_rooms = c.same_rooms;
    same_up2ps = c.same_up2ps;
    same_ids = c.same_ids;
  }

  module _ (header id : String) (code : ℤ) (body : Body) (r : ℕ) where
    write_c_msg-Closes : (s : ProxyServer) → Closes s (write_c_msg w header id code body r s).1
    unfolding write_c_msg
    write_c_msg-Closes s =
        let sizes = w.packet_sizes header id code body in
        let c = write_packets-Closes sizes r s in
        elim (Bool-cases (s.clients r).disable) [
          | inl h ↦ rw h (Closes-refl s)
          | inr h ↦ elim (Bool-cases (write_packets w sizes r s).0) [
            | inl done ↦ rw (h, done) (logged-Closes _ c)
            | inr broken ↦ rw (h, broken) c
          ]
        ]

    pub write_c_msg_and_check-Keeps : Keeps (write_c_msg_and_check w header id code body r)
    unfolding write_c_msg_and_check
    write_c_msg_and_check-Keeps s v =
        let c = write_c_msg-Closes s in
        elim (Bool-cases (write_c_msg w header id code body r s).0) [
          | inl done ↦ rw done c
          | inr broken ↦ rw broken (Closes-trans c (close-Keeps r _ (Table-Closes c v)))
        ]

  pub check_err_and_send_400_err_c_msg-Keeps :
      (header id : String) (fault : Option Fault) (need_close : Bool) (r : ℕ)
      → Keeps (λ s. (check_err_and_send_400_err_c_msg w header id fault need_close r s).1)
  unfolding check_err_and_send_400_err_c_msg
  check_err_and_send_400_err_c_msg-Keeps header id none need_close r s v = Closes-refl s
  check_err_and_send_400_err_c_msg-Keeps header id (some fault) true r s v =
      Keeps-then (write_c_msg_and_check-Keeps header id (pos 400) (err_msg fault) r) (close-Keeps r)
        s v
  check_err_and_send_400_err_c_msg-Keeps header id (some fault) false r s v =
      write_c_msg_and_check-Keeps header id (pos 400) (err_msg fault) r s v

pub init_link_conn-Keeps :
    (l : LinkConn) (link_type : String) (r : ℕ) → Keeps (init_link_conn l link_type r)
unfolding init_link_conn
init_link_conn-Keeps l link_type r s v =
    modify-Closes r _ s
      (record { name = λ c. refl; step = λ c. refl; disable = λ c. refl; once = λ c. refl })

pub set_proxy_sub_client-Keeps :
    (r : ℕ) (key : String) (sub : ℕ) → Keeps (set_proxy_sub_client r key sub)
unfolding set_proxy_sub_client
set_proxy_sub_client-Keeps r key sub s v = elim (Bool-cases (s.clients r).disable) [
  | inl h ↦ rw h (close-Keeps sub s v)
  | inr h ↦ rw h (
      modify-Closes r (λ c. record c { sub_map = insert key sub c.sub_map }) s
        (record { name = λ c. refl; step = λ c. refl; disable = λ c. refl; once = λ c. refl }))
]

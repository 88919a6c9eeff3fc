-- ===== src/Server/Sending/Delivery.antt =====
-- Sending to an open connection whose writes succeed.
use go_cfc.Base.{ℕ, ◌≡◌, refl, ap, ◌∙◌, true, false, List, [], ◌∷◌, ◌++◌, String, arith}
use go_cfc.Base.Int.{ℤ}
use go_cfc.Server.State.{ProxyServer, World, Body, Sent, modify}
use go_cfc.Server.Sending.{count_packet, write_packets, write_c_msg, write_c_msg_and_check}

-- What sending leaves alone: all but the counters of one connection, and the log.
pub record Untouched (s t : ProxyServer) : Type 0 where
  pub link_conn : (q : ℕ) → (t.clients q).link_conn ≡ (s.clients q).link_conn
  pub link_switch : (q : ℕ) → (t.clients q).link_switch ≡ (s.clients q).link_switch
  pub disable : (q : ℕ) → (t.clients q).disable ≡ (s.clients q).disable
  pub once : (q : ℕ) → (t.clients q).once ≡ (s.clients q).once
  pub link_type : (q : ℕ) → (t.clients q).link_type ≡ (s.clients q).link_type
  pub remote_addr : (q : ℕ) → (t.clients q).remote_addr ≡ (s.clients q).remote_addr
  pub name : (q : ℕ) → (t.clients q).name ≡ (s.clients q).name
  pub rooms : t.proxy_task_room_map ≡ s.proxy_task_room_map
  pub names : t.proxy_client_map ≡ s.proxy_client_map

pub Untouched-trans : {s t u : ProxyServer} → Untouched s t → Untouched t u → Untouched s u
Untouched-trans a b = record {
  link_conn = λ q. b.link_conn q ∙ a.link_conn q;
  link_switch = λ q. b.link_switch q ∙ a.link_switch q;
  disable = λ q. b.disable q ∙ a.disable q;
  once = λ q. b.once q ∙ a.once q;
  link_type = λ q. b.link_type q ∙ a.link_type q;
  remote_addr = λ q. b.remote_addr q ∙ a.remote_addr q;
  name = λ q. b.name q ∙ a.name q;
  rooms = b.rooms ∙ a.rooms;
  names = b.names ∙ a.names;
}

module _ (w : World) (r : ℕ) (works : (n : ℕ) → w.write_ok r n ≡ true) where
  count_packet-Untouched : (n : ℕ) (s : ProxyServer) → Untouched s (modify r (count_packet w n) s)
  unfolding modify count_packet
  count_packet-Untouched n s = record {
    link_conn = λ q. ground arith;
    link_switch = λ q. ground arith;
    disable = λ q. ground arith;
    once = λ q. ground arith;
    link_type = λ q. ground arith;
    remote_addr = λ q. ground arith;
    name = λ q. ground arith;
    rooms = refl;
    names = refl;
  }

  write_packets_ok :
      (packets : List ℕ) (s : ProxyServer)
      → (write_packets w packets r s ≡ (true, (write_packets w packets r s).1))
        × Untouched s (write_packets w packets r s).1
        × ((write_packets w packets r s).1.sent ≡ s.sent)
  unfolding write_packets
  write_packets_ok [] s = (
    refl,
    record {
      link_conn = λ q. refl;
      link_switch = λ q. refl;
      disable = λ q. refl;
      once = λ q. refl;
      link_type = λ q. refl;
      remote_addr = λ q. refl;
      name = λ q. refl;
      rooms = refl;
      names = refl;
    },
    refl,
  )
  write_packets_ok (n ∷ packets) s =
      let (e, t, log) = write_packets_ok packets (modify r (count_packet w n) s) in
      rw (works (s.clients r).writes)
        (e, Untouched-trans (count_packet-Untouched n s) t, log ∙ unfold modify in refl)

  -- The message is recorded, and nobody is closed.
  pub write_c_msg_and_check_ok :
      (header id : String) (code : ℤ) (body : Body) (s : ProxyServer)
      → (s.clients r).disable ≡ false
      → let t = write_c_msg_and_check w header id code body r s in
        Untouched s t
        × (t.sent
            ≡ s.sent ++ record { to = r; header = header; id = id; code = code; body = body } ∷ [])
  unfolding write_c_msg_and_check write_c_msg
  write_c_msg_and_check_ok header id code body s h =
      let (e, t, log) = write_packets_ok (w.packet_sizes header id code body) s in
      rw (h, e)
        (
          record {
            link_conn = t.link_conn;
            link_switch = t.link_switch;
            disable = t.disable;
            once = t.once;
            link_type = t.link_type;
            remote_addr = t.remote_addr;
            name = t.name;
            rooms = t.rooms;
            names = t.names;
          },
          ap
              (λ (l : List Sent).
                l ++ record { to = r; header = header; id = id; code = code; body = body } ∷ [])
              log,
        )

-- ===== src/Server/Up2p/Punching.antt =====
-- Two datagrams from different addresses complete an exchange.
use go_cfc.Base.{
  ℕ, suc, ◌≡◌, ◌≢◌, refl, ap, ◌∙◌, true, false, Option, some, [], ◌∷◌, ◌++◌, String, arith, str_eq,
  eq_iff,
}
use go_cfc.Base.Int.{pos}
use go_cfc.Server.State.{ProxyServer, ProxyUp2P, World, Sent, udp_info, SubInfo}
use go_cfc.Server.Sending.Delivery.{write_c_msg_and_check_ok}
use go_cfc.Server.Up2p.{udp_sub_info, answer_both, handle}

-- The answer to the connection `r`, which is told the address `p` of the other side.
abbrev pub up2p_answer : String → ℕ → String → SubInfo → Sent
up2p_answer id r p info = record {
  to = r;
  header = "P2PUdpA1";
  id = id;
  code = pos 200;
  body = udp_info (some p) info;
}

different : (a b : String) → b ≢ a → str_eq b a ≡ false
different a b ne = ground (arith, eq_iff b a)

module _ (w : World) (works : (r n : ℕ) → w.write_ok r n ≡ true) (up : ProxyUp2P) (r1 r2 : ℕ)
    (i1 i2 : Option String) (a b : String) (s : ProxyServer) where
  abbrev waiting : ProxyUp2P
  waiting = record up { c1_p_addr = a; c1_i_addr = i1; c1 = some r1; step = suc up.step }

  first_datagram : up.step ≡ 0 → handle w up i1 a r1 s ≡ (false, waiting, s)
  unfolding handle
  first_datagram e = rw e refl

  same_again :
      (i : Option String) (r : ℕ) → up.step ≡ 0 → handle w waiting i a r s ≡ (false, waiting, s)
  unfolding handle
  same_again i r e = ground (arith, eq_iff a a)

  second_datagram :
      up.step ≡ 0
      → b ≢ a
      → handle w waiting i2 b r2 s
        ≡ (true, record waiting { step = suc (suc up.step) }, answer_both w waiting r1 i2 b r2 s)
  unfolding handle
  second_datagram e ne = rw (e, different a b ne) refl

  answers :
      (s.clients r1).disable ≡ false
      → (s.clients r2).disable ≡ false
      → (answer_both w waiting r1 i2 b r2 s).sent
        ≡ (s.sent
            ++ up2p_answer up.id r1 b
                (udp_sub_info (s.clients r1).name (s.clients r2).name i1 i2 a b)
              ∷ [])
          ++ up2p_answer up.id r2 a (udp_sub_info (s.clients r2).name (s.clients r1).name i2 i1 b a)
            ∷ []
  unfolding answer_both
  answers h1 h2 =
      let n1 = (s.clients r1).name in
      let n2 = (s.clients r2).name in
      let (u, log1) =
        write_c_msg_and_check_ok w r1 (works r1) "P2PUdpA1" up.id (pos 200)
          (udp_info (some b) (udp_sub_info n1 n2 i1 i2 a b)) s h1 in
      let (_, log2) =
        write_c_msg_and_check_ok w r2 (works r2) "P2PUdpA1" up.id (pos 200)
          (udp_info (some a) (udp_sub_info n2 n1 i2 i1 b a)) _ (u.disable r2 ∙ h2) in
      log2 ∙ ap (λ l. l ++ up2p_answer up.id r2 a (udp_sub_info n2 n1 i2 i1 b a) ∷ []) log1

  -- A new entry gets a datagram from the address `a` of the connection `r1`, and then one from
  -- another address `b` of the connection `r2`; both connections are open, and writes succeed. The
  -- entry waits after the first one, and a further datagram from `a` changes nothing; the second
  -- one completes it, and each side is told the address of the other, the first side first.
  pub hole_punched :
      up.step ≡ 0
      → b ≢ a
      → (s.clients r1).disable ≡ false
      → (s.clients r2).disable ≡ false
      → let n1 = (s.clients r1).name in
        let n2 = (s.clients r2).name in
        let (over1, up1, s1) = handle w up i1 a r1 s in
        let (over2, up2, s2) = handle w up1 i2 b r2 s1 in
        (over1 ≡ false)
        × ((i : Option String) (r : ℕ) → handle w up1 i a r s1 ≡ (false, up1, s1))
        × (over2 ≡ true)
        × (s2.sent
            ≡ (s.sent ++ up2p_answer up.id r1 b (udp_sub_info n1 n2 i1 i2 a b) ∷ [])
              ++ up2p_answer up.id r2 a (udp_sub_info n2 n1 i2 i1 b a) ∷ [])
  hole_punched e ne h1 h2 =
      rw (first_datagram e, second_datagram e ne)
        (refl, (λ i r. same_again i r e), refl, answers h1 h2)

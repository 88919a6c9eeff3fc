-- ===== src/Client/Link/Ending.antt =====
-- How a LinkClient that LinkOtherConn has returned ends.
use go_cfc.Base.{
  ◌≡◌, ◌≢◌, refl, subst, Bool, true, false, not, Option, none, some, String, ◌==◌, ◌||◌, ◌&&◌,
  length, str_eq, if◌then◌else◌, if_case, inl, inr, Option-cases,
}
use go_cfc.Wire.Message.{new_key}
use go_cfc.Loger.{Logger}
use go_cfc.Server.State.{World, VpnInfo}
use go_cfc.Client.Errors.{
  ClientError, dial_failed, resolve_failed, link_client_is_closed, Answer, Try, fine, fault,
  Replies, wait_answer, Try-cases,
}
use go_cfc.Client.Link.{
  LinkConnReq, LinkClient, close, wait_link, link_local_addr, link_remote_addr, copy_local_addr,
  copy_remote_addr,
}
use go_cfc.Client.Link.Joining.{
  set_log_error, new_link, linked, on_vpn_a1, link_handshake_check, proxy_conn, direct_conn,
  link_other_conn,
}

-- A client over the proxy server: it is open, has its task and its addresses.
record IsProxied (lc : LinkClient) : Type 0 where
  pub is_open : lc.disable ≡ false
  pub task : lc.has_task ≡ true
  pub empty : lc.stop ≡ none
  pub told : (i : VpnInfo) × (lc.addr ≡ some i)

record IsDirect (lc : LinkClient) : Type 0 where
  pub is_open : lc.disable ≡ false
  pub no_task : lc.has_task ≡ false
  pub untold : lc.addr ≡ none

abbrev closed : Option ClientError → LinkClient → LinkClient
closed e lc = record lc {
  disable = true;
  task_disable = true;
  copy_closed = true;
  link_closed = true;
  stop = some e;
}

-- What holds of a result that is a client.
abbrev Whenever : (LinkClient → Type 0) → Option (Try LinkClient) → Type 0
Whenever P none = Unit {0}
Whenever P (some (fault e)) = Unit {0}
Whenever P (some (fine lc)) = P lc

module _ (r : Replies) (w : World) (l : Logger) (a : Answer r.D) where
  link_handshake_check-Proxied :
      (lc : LinkClient)
      → lc.disable ≡ false
      → lc.has_task ≡ true
      → lc.stop ≡ none
      → Whenever IsProxied (linked (some (link_handshake_check r a lc)))
  unfolding link_handshake_check linked
  link_handshake_check-Proxied lc h k e = elim (Try-cases (wait_answer a (on_vpn_a1 r))) [
    | inl (x, f) ↦ rw (f, link_handshake_check) tt
    | inr (i, f) ↦
        rw (f, link_handshake_check) (record { is_open = h; task = k; empty = e; told = (i, refl) })
  ]

  proxy_conn-Proxied :
      (lc : LinkClient)
      → lc.disable ≡ false
      → lc.stop ≡ none
      → Whenever IsProxied (linked (proxy_conn r w l a lc))
  unfolding proxy_conn linked
  proxy_conn-Proxied lc h e =
      let known = str_eq lc.conn_type "LinkConnTypeTCP" || str_eq lc.conn_type "LinkConnTypeUDP" in
      if_case (λ o. Whenever IsProxied (linked o)) (not known && set_log_error l) (λ _. tt)
        (λ _.
          if_case (λ o. Whenever IsProxied (linked o)) (not (w.resolve_tcp lc.proxy_addr)) (λ _. tt)
            (λ _. elim (Option-cases (w.dial_tcp lc.proxy_addr)) [
              | inl d ↦ rw d tt
              | inr ((far, near), d) ↦ rw d (
                  link_handshake_check-Proxied
                    (record lc { link_addrs = some (near, far); has_task = true }) h refl e)
            ]))

  dialled-Direct :
      (resolved : Bool) (dialled : Option (String × String)) (e1 e2 : ClientError) (lc : LinkClient)
      → IsDirect lc
      → Whenever IsDirect (
          linked (
            if not resolved
            then some (some e1, lc)
            else elim dialled as (λ _. Option (Option ClientError × LinkClient)) [
              | none ↦ some (some e2, lc)
              | some x ↦ some (none, record lc { link_addrs = some (x.1, x.0) })
            ]))
  unfolding linked
  dialled-Direct false dialled e1 e2 lc v = tt
  dialled-Direct true none e1 e2 lc v = tt
  dialled-Direct true (some x) e1 e2 lc v = record {
    is_open = v.is_open;
    no_task = v.no_task;
    untold = v.untold;
  }

  direct_conn-Direct :
      (lc : LinkClient) → IsDirect lc → Whenever IsDirect (linked (direct_conn r w l lc))
  unfolding direct_conn linked
  direct_conn-Direct lc v =
      if_case (λ o. Whenever IsDirect (linked o)) (str_eq lc.conn_type "LinkConnTypeTCP")
        (λ _.
          dialled-Direct (w.resolve_tcp lc.conn_addr) (w.dial_tcp lc.conn_addr) resolve_failed
            dial_failed lc v)
        (λ _.
          if_case (λ o. Whenever IsDirect (linked o)) (str_eq lc.conn_type "LinkConnTypeUDP")
            (λ _.
              dialled-Direct (w.resolve_udp lc.conn_addr) (w.dial_udp lc.conn_addr) resolve_failed
                dial_failed lc v)
            (λ _. if_case (λ o. Whenever IsDirect (linked o)) (set_log_error l) (λ _. tt) (λ _. v)))

  start-Proxied :
      (req : LinkConnReq)
      → str_eq req.proxy_addr "" ≡ false
      → Whenever IsProxied (link_other_conn r w l a req)
  unfolding link_other_conn new_link
  start-Proxied req h = rw h (
      if_case (Whenever IsProxied) (not (length req.proxy_key == 32) && set_log_error l) (λ _. tt)
        (λ _.
          proxy_conn-Proxied
            (record (new_link req) {
              proxy_key = new_key req.proxy_key;
              proxy_addr = req.proxy_addr;
              proxy_switch = true;
            })
            refl refl))

  start-Direct :
      (req : LinkConnReq)
      → str_eq req.proxy_addr "" ≡ true
      → Whenever IsDirect (link_other_conn r w l a req)
  unfolding link_other_conn new_link
  start-Direct req h =
      rw h (
        direct_conn-Direct (new_link req)
          (record { is_open = refl; no_task = refl; untold = refl }))

  -- A client that LinkOtherConn returns. Over a proxy server, its first Close returns nil, leaves the
  -- error for one Wait, and closes both connections, and a later Close returns an error; and
  -- LinkLocalAddr does not panic. Without a proxy server, its Close panics, and so do LinkLocalAddr,
  -- LinkRemoteAddr, CopyLocalAddr and CopyRemoteAddr.
  pub link_client_ends :
      (req : LinkConnReq) (lc : LinkClient) (e later : Option ClientError)
      → link_other_conn r w l a req ≡ some (fine lc)
      → (str_eq req.proxy_addr "" ≡ false
          → (lc1 : LinkClient) × ((lc2 : LinkClient) × (close e lc ≡ some (none, lc1))
              × (lc1.link_closed ≡ true)
              × (lc1.copy_closed ≡ true)
              × (wait_link lc1 ≡ some (e, lc2))
              × (wait_link lc2 ≡ none)
              × (close later lc1 ≡ some (some link_client_is_closed, lc1))
              × (link_local_addr lc ≢ none)))
        × (str_eq req.proxy_addr "" ≡ true
            → (close e lc ≡ none)
              × (link_local_addr lc ≡ none)
              × (link_remote_addr lc ≡ none)
              × (copy_local_addr lc ≡ none)
              × (copy_remote_addr lc ≡ none))
  unfolding close wait_link link_local_addr link_remote_addr copy_local_addr copy_remote_addr
  link_client_ends req lc e later k = (
    λ h.
        let v = subst (Whenever IsProxied) k (start-Proxied req h) in
        let (i, told) = v.told in
        (
          closed e lc,
          (
            record (closed e lc) { stop = none },
            rw (v.is_open, v.task) refl,
            refl,
            refl,
            refl,
            refl,
            refl,
            rw told (λ x. cc),
          ),
        ),
    λ h.
        let v = subst (Whenever IsDirect) k (start-Direct req h) in
        (
          rw (v.is_open, v.no_task) refl,
          rw v.untold refl,
          rw v.untold refl,
          rw v.untold refl,
          rw v.untold refl,
        ),
  )

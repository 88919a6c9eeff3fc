-- ===== src/Server/Piping/Ties.antt =====
-- What closing leaves of the links between connections.
use go_cfc.Base.{
  ℕ, zero, suc, ◌≡◌, ◌⊎◌, inl, inr, refl, ◌∙◌, Bool, true, false, List, [], ◌∷◌, Bytes, length,
  String, arith, Bool-cases, if_case, str_eq, not,
}
use go_cfc.Base.Assoc.{delete}
use go_cfc.Server.State.{ProxyServer, ProxyClient, World, LinkConn, no_conn, peer, dialled, modify}
use go_cfc.Server.Closing.{
  shut, del_proxy_client, del_proxy_sub_client, close_link, close_subs, forget_name, close_within,
  close,
}
use go_cfc.Server.Closing.Table.{close_within_done, close_within_open}
use go_cfc.Server.Sending.{count_packet}
use go_cfc.Server.Piping.{count_pieces}

-- From `s` to `t`, connections may be closed, but what is linked stays linked.
pub record Keeps (s t : ProxyServer) : Type 0 where
  pub switches : (q : ℕ) → (t.clients q).link_switch ≡ (s.clients q).link_switch
  pub peers : (q p : ℕ) → (s.clients q).link_conn ≡ peer p → (t.clients q).link_conn ≡ peer p
  pub closed : (q : ℕ) → (s.clients q).disable ≡ true → (t.clients q).disable ≡ true
  pub flags :
      (q : ℕ)
      → (s.clients q).once ≡ (s.clients q).disable
      → (t.clients q).once ≡ (t.clients q).disable

pub Keeps-refl : (s : ProxyServer) → Keeps s s
Keeps-refl s = record {
  switches = λ q. refl;
  peers = λ q p h. h;
  closed = λ q h. h;
  flags = λ q h. h;
}

pub Keeps-trans : {s t u : ProxyServer} → Keeps s t → Keeps t u → Keeps s u
Keeps-trans a b = record {
  switches = λ q. b.switches q ∙ a.switches q;
  peers = λ q p h. b.peers q p (a.peers q p h);
  closed = λ q h. b.closed q (a.closed q h);
  flags = λ q h. b.flags q (a.flags q h);
}

-- Changes of one object that leave its link and its flags alone.
record Still (f : ProxyClient → ProxyClient) : Type 0 where
  switch : (c : ProxyClient) → (f c).link_switch ≡ c.link_switch
  conn : (c : ProxyClient) → (f c).link_conn ≡ c.link_conn
  disable : (c : ProxyClient) → (f c).disable ≡ c.disable
  once : (c : ProxyClient) → (f c).once ≡ c.once

modify-Keeps :
    (r : ℕ) (f : ProxyClient → ProxyClient) (s : ProxyServer) → Still f → Keeps s (modify r f s)
unfolding modify
modify-Keeps r f s h = record {
  switches = λ q. ground (arith, h.switch (s.clients q));
  peers = λ q p e. ground (arith, h.conn (s.clients q));
  closed = λ q e. ground (arith, h.disable (s.clients q));
  flags = λ q e. ground (arith, h.disable (s.clients q), h.once (s.clients q));
}

shut-Keeps : (r : ℕ) (s : ProxyServer) → Keeps s (modify r shut s)
unfolding modify shut
shut-Keeps r s = record {
  switches = λ q. ground arith;
  peers = λ q p e. ground arith;
  closed = λ q e. ground arith;
  flags = λ q e. ground arith;
}

dialled-Keeps :
    (r : ℕ) (b : Bool) (s : ProxyServer)
    → (s.clients r).link_conn ≡ dialled b
    → Keeps s (modify r (λ c. record c { link_conn = dialled true }) s)
unfolding modify
dialled-Keeps r b s e = record {
  switches = λ q. ground arith;
  peers = λ q p h. ground arith;
  closed = λ q h. ground arith;
  flags = λ q h. ground arith;
}

abbrev Mild : (ℕ → ProxyServer → ProxyServer) → Type 0
Mild f = (x : ℕ) (s : ProxyServer) → Keeps s (f x s)

close_link-Keeps :
    (f : ℕ → ProxyServer → ProxyServer) (r : ℕ) (s : ProxyServer)
    → Mild f
    → Keeps s (close_link f r s)
unfolding close_link
close_link-Keeps f r s mild = by_conn (s.clients r).link_conn refl
  where
    by_conn : (l : LinkConn) → (s.clients r).link_conn ≡ l → Keeps s (close_link f r s)
    by_conn no_conn e = rw (e, close_link) (Keeps-refl s)
    by_conn (peer p) e = elim (Bool-cases (s.clients p).disable) [
      | inl h ↦ rw (e, close_link, h) (Keeps-refl s)
      | inr h ↦ rw (e, close_link, h) (mild p s)
    ]
    by_conn (dialled b) e = rw (e, close_link) (dialled-Keeps r b s e)

close_subs-Keeps :
    (f : ℕ → ProxyServer → ProxyServer) (r : ℕ) (subs : List (String × ℕ)) (s : ProxyServer)
    → Mild f
    → Keeps s (close_subs f r subs s)
unfolding close_subs del_proxy_sub_client
close_subs-Keeps f r [] s mild = Keeps-refl s
close_subs-Keeps f r ((key, sub) ∷ subs) s mild = Keeps-trans (mild sub s) (
    Keeps-trans
      (modify-Keeps r (λ c. record c { sub_map = delete key c.sub_map }) (f sub s)
        (record { switch = λ c. refl; conn = λ c. refl; disable = λ c. refl; once = λ c. refl }))
      (close_subs-Keeps f r subs (del_proxy_sub_client r key (f sub s)) mild))

forget_name-Keeps : (r : ℕ) (s : ProxyServer) → Keeps s (forget_name r s)
unfolding forget_name del_proxy_client
forget_name-Keeps r s =
    if_case (Keeps s) (not (str_eq (s.clients r).name ""))
      (λ _. record {
        switches = λ q. refl;
        peers = λ q p h. h;
        closed = λ q h. h;
        flags = λ q h. h;
      })
      (λ _. Keeps-refl s)

shut-disable : (r : ℕ) (s : ProxyServer) → ((modify r shut s).clients r).disable ≡ true
unfolding modify shut
shut-disable r s = ground arith

-- What close does after the flags are set.
rest-Keeps :
    (f : ℕ → ProxyServer → ProxyServer) (r : ℕ) (s : ProxyServer)
    → Mild f
    → let s2 = close_link f r s in
      Keeps s (forget_name r (close_subs f r (s2.clients r).sub_map s2))
rest-Keeps f r s mild =
    let s2 = close_link f r s in
    Keeps-trans (close_link-Keeps f r s mild) (
      Keeps-trans (close_subs-Keeps f r (s2.clients r).sub_map s2 mild)
        (forget_name-Keeps r (close_subs f r (s2.clients r).sub_map s2)))

hang-Keeps : (s : ProxyServer) → Keeps s (record s { hung = true })
hang-Keeps s = record {
  switches = λ q. refl;
  peers = λ q p h. h;
  closed = λ q h. h;
  flags = λ q h. h;
}

close_within-Keeps : (fuel : ℕ) (running : List ℕ) → Mild (close_within fuel running)
close_within-Keeps zero running r s = unfold close_within in Keeps-refl s
close_within-Keeps (suc fuel) running r s =
    by_once (close_within-Keeps fuel (r ∷ running)) (Bool-cases (s.clients r).once)
  where
    by_once :
        Mild (close_within fuel (r ∷ running))
        → ((s.clients r).once ≡ true) ⊎ ((s.clients r).once ≡ false)
        → Keeps s (close_within (suc fuel) running r s)
    by_once mild (inl h) =
        close_within_done (Keeps s) (suc fuel) running r s h (Keeps-refl s) (hang-Keeps s)
    by_once mild (inr h) = rw (close_within_open fuel running r s h) (
        Keeps-trans (shut-Keeps r s)
          (rest-Keeps (close_within fuel (r ∷ running)) r (modify r shut s) mild))

pub close-Keeps : (r : ℕ) (s : ProxyServer) → Keeps s (close r s)
unfolding close
close-Keeps r s = close_within-Keeps (suc s.next) [] r s

-- A connection that is closed is disabled.
pub close-disable :
    (r : ℕ) (s : ProxyServer)
    → (s.clients r).once ≡ (s.clients r).disable
    → ((close r s).clients r).disable ≡ true
unfolding close
close-disable r s flag = elim (Bool-cases (s.clients r).once) [
  | inl h ↦ (close-Keeps r s).closed r (let e : (s.clients r).disable ≡ true = ground arith in e)
  | inr h ↦ rw (close_within_open s.next [] r s h) (
      (rest-Keeps (close_within s.next (r ∷ [])) r (modify r shut s)
          (close_within-Keeps s.next (r ∷ []))).closed
        r (shut-disable r s))
]

pub count_pieces-Keeps :
    (w : World) (q : ℕ) (bs : List Bytes) (s : ProxyServer) → Keeps s (count_pieces w q bs s)
unfolding count_pieces count_packet
count_pieces-Keeps w q [] s = Keeps-refl s
count_pieces-Keeps w q (b ∷ bs) s =
    Keeps-trans
      (modify-Keeps q (count_packet w (length b)) s
        (record { switch = λ c. refl; conn = λ c. refl; disable = λ c. refl; once = λ c. refl }))
      (count_pieces-Keeps w q bs (modify q (count_packet w (length b)) s))

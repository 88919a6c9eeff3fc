-- ===== src/Server/Closing/Returning.antt =====
-- Where sub connections have no sub connections and are linked only with each other, close returns.
use go_cfc.Base.{
  ℕ, zero, suc, ◌≡◌, ◌⊎◌, inl, inr, refl, ap, ◌∙◌, Bool, true, false, List, [], ◌∷◌, String, arith,
  Bool-cases, if_case, str_eq, not, ◌==◌,
}
use go_cfc.Base.Assoc.{delete}
use go_cfc.Server.State.{ProxyServer, ProxyClient, LinkConn, no_conn, peer, dialled, modify}
use go_cfc.Server.Closing.{
  shut, del_proxy_client, del_proxy_sub_client, close_link, close_subs, forget_name, is_running,
  closed_before, close_within, close,
}
use go_cfc.Server.Closing.Relation.{Flags}
use go_cfc.Server.Closing.Table.{close_within_open}

module _ (leaf : ℕ → Bool) where
  abbrev pub AllLeaf : List (String × ℕ) → Type 0
  AllLeaf [] = Unit {0}
  AllLeaf ((key, q) ∷ l) = (leaf q ≡ true) × AllLeaf l

  -- No call hangs, all sub connections are leaves, and a leaf has no sub connections and is linked
  -- only with leaves.
  pub record Layered (s : ProxyServer) : Type 0 where
    pub calm : s.hung ≡ false
    pub subs : (q : ℕ) → AllLeaf (s.clients q).sub_map
    pub bare : (q : ℕ) → leaf q ≡ true → (s.clients q).sub_map ≡ []
    pub linked : (q p : ℕ) → leaf q ≡ true → (s.clients q).link_conn ≡ peer p → leaf p ≡ true

  pub record Ok (s : ProxyServer) : Type 0 where
    pub flags : Flags s
    pub layers : Layered s

  -- A change of one connection that keeps this up.
  record Keeping (f : ProxyClient → ProxyClient) : Type 0 where
    flag : (c : ProxyClient) → c.once ≡ c.disable → (f c).once ≡ (f c).disable
    subs : (c : ProxyClient) → AllLeaf c.sub_map → AllLeaf (f c).sub_map
    bare : (c : ProxyClient) → c.sub_map ≡ [] → (f c).sub_map ≡ []
    linked : (c : ProxyClient) (p : ℕ) → (f c).link_conn ≡ peer p → c.link_conn ≡ peer p

  modify-Ok :
      (r : ℕ) (f : ProxyClient → ProxyClient) (s : ProxyServer)
      → Keeping f
      → Ok s
      → Ok (modify r f s)
  unfolding modify
  modify-Ok r f s k ok = record {
    flags = λ q.
        if_case {A = ProxyClient} (λ c. c.once ≡ c.disable) (r == q)
          (λ _. k.flag (s.clients q) (ok.flags q)) (λ _. ok.flags q);
    layers = record {
      calm = ok.layers.calm;
      subs = λ q.
          if_case {A = ProxyClient} (λ c. AllLeaf c.sub_map) (r == q)
            (λ _. k.subs (s.clients q) (ok.layers.subs q)) (λ _. ok.layers.subs q);
      bare = λ q h.
          if_case {A = ProxyClient} (λ c. c.sub_map ≡ []) (r == q)
            (λ _. k.bare (s.clients q) (ok.layers.bare q h)) (λ _. ok.layers.bare q h);
      linked = λ q p h.
          if_case {A = ProxyClient} (λ c. c.link_conn ≡ peer p → leaf p ≡ true) (r == q)
            (λ _ e. ok.layers.linked q p h (k.linked (s.clients q) p e))
            (λ _. ok.layers.linked q p h);
    };
  }

  delete-AllLeaf : (key : String) (l : List (String × ℕ)) → AllLeaf l → AllLeaf (delete key l)
  unfolding delete
  delete-AllLeaf key [] h = tt
  delete-AllLeaf key ((k, q) ∷ l) (h, hs) =
      if_case AllLeaf (str_eq k key) (λ _. delete-AllLeaf key l hs)
        (λ _. (h, delete-AllLeaf key l hs))

  shut-Ok : (r : ℕ) (s : ProxyServer) → Ok s → Ok (modify r shut s)
  unfolding shut
  shut-Ok r s ok =
      modify-Ok r shut s
        (record { flag = λ c h. refl; subs = λ c h. h; bare = λ c h. h; linked = λ c p h. h }) ok

  forget_name-Ok : (r : ℕ) (s : ProxyServer) → Ok s → Ok (forget_name r s)
  unfolding forget_name del_proxy_client
  forget_name-Ok r s ok =
      if_case Ok (not (str_eq (s.clients r).name ""))
        (λ _. record {
          flags = ok.flags;
          layers = record {
            calm = ok.layers.calm;
            subs = ok.layers.subs;
            bare = ok.layers.bare;
            linked = ok.layers.linked;
          };
        })
        (λ _. ok)

  -- None of the running ones is a leaf.
  abbrev NoLeaf : List ℕ → Type 0
  NoLeaf running = (q : ℕ) → is_running q running ≡ true → leaf q ≡ false

  NoLeaf-more : (x : ℕ) (running : List ℕ) → leaf x ≡ false → NoLeaf running → NoLeaf (x ∷ running)
  NoLeaf-more x running h none_of q e = elim (Bool-cases (q == x)) [
    | inl k ↦ let same : q ≡ x = ground arith in ap leaf same ∙ h
    | inr k ↦ none_of q (ground arith)
  ]

  -- A call on `x`, within the running ones.
  abbrev Good : List ℕ → (ℕ → ProxyServer → ProxyServer) → Type 0
  Good running f =
      (x : ℕ) (s : ProxyServer)
      → ((s.clients x).once ≡ true → is_running x running ≡ false)
      → (leaf x ≡ true) ⊎ NoLeaf running
      → Ok s
      → Ok (f x s)

  close_link-Ok :
      (running : List ℕ) (f : ℕ → ProxyServer → ProxyServer) (r : ℕ) (s : ProxyServer)
      → Good (r ∷ running) f
      → (leaf r ≡ true) ⊎ NoLeaf running
      → Ok s
      → Ok (close_link f r s)
  unfolding close_link
  close_link-Ok running f r s good where_r ok = by_conn (s.clients r).link_conn refl
    where
      by_conn : (l : LinkConn) → (s.clients r).link_conn ≡ l → Ok (close_link f r s)
      by_conn no_conn e = rw (e, close_link) ok
      by_conn (dialled b) e =
          rw (e, close_link)
            (modify-Ok r (λ c. record c { link_conn = dialled true }) s
              (record {
                flag = λ c h. h;
                subs = λ c h. h;
                bare = λ c h. h;
                linked = λ c p h. absurd (let no : ⊥ = cc in no);
              })
              ok)
      by_conn (peer p) e = elim (Bool-cases (s.clients p).disable) [
        | inl h ↦ rw (e, close_link, h) ok
        | inr h ↦
            let opened : (s.clients p).once ≡ false = ok.flags p ∙ h in
            rw (e, close_link, h)
              (good p s (λ o. absurd (let no : ⊥ = cc in no)) (kind (Bool-cases (leaf r)) p e) ok)
      ]
        where
          kind :
              ((leaf r ≡ true) ⊎ (leaf r ≡ false))
              → (p : ℕ) → (s.clients r).link_conn ≡ peer p
              → (leaf p ≡ true) ⊎ NoLeaf (r ∷ running)
          kind (inl h) p e = inl (ok.layers.linked r p h e)
          kind (inr h) p e = elim where_r [
            | inl k ↦ absurd (let no : ⊥ = cc in no)
            | inr k ↦ inr (NoLeaf-more r running h k)
          ]

  del_proxy_sub_client-Ok :
      (r : ℕ) (key : String) (s : ProxyServer) → Ok s → Ok (del_proxy_sub_client r key s)
  unfolding del_proxy_sub_client delete
  del_proxy_sub_client-Ok r key s ok =
      modify-Ok r (λ c. record c { sub_map = delete key c.sub_map }) s
        (record {
          flag = λ c h. h;
          subs = λ c h. delete-AllLeaf key c.sub_map h;
          bare = λ c h. ap (delete key) h;
          linked = λ c p h. h;
        })
        ok

  -- A leaf is not running, where none of the running ones is one.
  not_running :
      (running : List ℕ) (q : ℕ) → NoLeaf running → leaf q ≡ true → is_running q running ≡ false
  not_running running q none_of h = elim (Bool-cases (is_running q running)) [
    | inl k ↦ let e = none_of q k in absurd (let no : ⊥ = cc in no)
    | inr k ↦ k
  ]

  close_subs-Ok :
      (running : List ℕ) (f : ℕ → ProxyServer → ProxyServer) (r : ℕ) (l : List (String × ℕ))
      (s : ProxyServer)
      → Good running f
      → NoLeaf running
      → AllLeaf l
      → Ok s
      → Ok (close_subs f r l s)
  unfolding close_subs
  close_subs-Ok running f r [] s good none_of all ok = ok
  close_subs-Ok running f r ((key, sub) ∷ l) s good none_of (h, hs) ok =
      close_subs-Ok running f r l (del_proxy_sub_client r key (f sub s)) good none_of hs (
        del_proxy_sub_client-Ok r key (f sub s)
          (good sub s (λ _. not_running running sub none_of h) (inl h) ok))

  -- The loop of a connection over its own sub connections.
  own_subs-Ok :
      (running : List ℕ) (f : ℕ → ProxyServer → ProxyServer) (r : ℕ) (s : ProxyServer)
      → Good (r ∷ running) f
      → (leaf r ≡ true) ⊎ NoLeaf running
      → Ok s
      → Ok (close_subs f r (s.clients r).sub_map s)
  unfolding close_subs
  own_subs-Ok running f r s good where_r ok = elim (Bool-cases (leaf r)) [
    | inl h ↦ let bare = ok.layers.bare r h in rw (bare, close_subs) ok
    | inr h ↦ elim where_r [
      | inl k ↦ absurd (let no : ⊥ = cc in no)
      | inr k ↦
          close_subs-Ok (r ∷ running) f r (s.clients r).sub_map s good (NoLeaf-more r running h k)
            (ok.layers.subs r) ok
    ]
  ]

  done-Ok :
      (fuel : ℕ) (running : List ℕ) (x : ℕ) (s : ProxyServer)
      → (s.clients x).once ≡ true
      → is_running x running ≡ false
      → Ok s
      → Ok (close_within (suc fuel) running x s)
  unfolding close_within closed_before
  done-Ok fuel running x s h free ok = rw (h, close_within, free) ok

  close_within-Ok : (fuel : ℕ) (running : List ℕ) → Good running (close_within fuel running)
  close_within-Ok zero running x s free where_x ok = unfold close_within in ok
  close_within-Ok (suc fuel) running x s free where_x ok =
      by_once (close_within-Ok fuel (x ∷ running)) (Bool-cases (s.clients x).once)
    where
      by_once :
          Good (x ∷ running) (close_within fuel (x ∷ running))
          → ((s.clients x).once ≡ true) ⊎ ((s.clients x).once ≡ false)
          → Ok (close_within (suc fuel) running x s)
      by_once good (inl h) = done-Ok fuel running x s h (free h) ok
      by_once good (inr h) =
          let s1 = modify x shut s in
          let s2 = close_link (close_within fuel (x ∷ running)) x s1 in
          let linked = close_link-Ok running _ x s1 good where_x (shut-Ok x s ok) in
          rw (close_within_open fuel running x s h)
            (forget_name-Ok x _ (own_subs-Ok running _ x s2 good where_x linked))

  -- A call from outside returns.
  pub close-Ok : (r : ℕ) (s : ProxyServer) → Ok s → Ok (close r s)
  unfolding close
  close-Ok r s ok =
      close_within-Ok (suc s.next) [] r s (λ _. refl) (inr (λ q h. absurd (let no : ⊥ = cc in no)))
        ok

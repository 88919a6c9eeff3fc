-- ===== src/Server/Closing/Table.antt =====
-- close, with all the calls that it makes of itself, keeps to that relation.
use go_cfc.Base.{
  ℕ, zero, suc, ◌≡◌, ◌⊎◌, inl, inr, refl, sym, ap, subst, ◌∙◌, true, false, some, List, [], ◌∷◌,
  String, arith, eq_iff, str_eq, Bool-cases, if_case,
}
use go_cfc.Base.Assoc.{delete, lookup-delete}
use go_cfc.Server.State.{ProxyServer, LinkConn, no_conn, peer, dialled, modify}
use go_cfc.Server.Closing.{
  shut, del_proxy_client, del_proxy_sub_client, close_link, close_subs, forget_name, close_within,
  closed_before, is_running, close,
}
use go_cfc.Server.Closing.Relation.{
  Closes, Closes-refl, Closes-trans, modify-Closes, shut-Closes, IsOpen, entry, Unshared, Own,
  Flags, Closes-Flags, Closes-Unshared,
}

-- What is asked of the calls that close makes of itself.
abbrev Calm : (ℕ → ProxyServer → ProxyServer) → Type 0
Calm f = (x : ℕ) (s : ProxyServer) → Flags s → Unshared s → Closes s (f x s)

del_proxy_sub_client-Closes :
    (r : ℕ) (key : String) (s : ProxyServer) → Closes s (del_proxy_sub_client r key s)
unfolding del_proxy_sub_client
del_proxy_sub_client-Closes r key s =
    modify-Closes r (λ c. record c { sub_map = delete key c.sub_map }) s
      (record { name = λ c. refl; step = λ c. refl; disable = λ c. refl; once = λ c. refl })

close_link-Closes :
    (f : ℕ → ProxyServer → ProxyServer) (r : ℕ) (s : ProxyServer)
    → Calm f
    → Flags s
    → Unshared s
    → Closes s (close_link f r s)
unfolding close_link
close_link-Closes f r s calm fl u = by_conn (s.clients r).link_conn refl
  where
    by_conn : (l : LinkConn) → (s.clients r).link_conn ≡ l → Closes s (close_link f r s)
    by_conn no_conn e = rw (e, close_link) (Closes-refl s)
    by_conn (peer p) e = elim (Bool-cases (s.clients p).disable) [
      | inl h ↦ rw (e, close_link, h) (Closes-refl s)
      | inr h ↦ rw (e, close_link, h) (calm p s fl u)
    ]
    by_conn (dialled b) e =
        rw (e, close_link)
          (modify-Closes r (λ c. record c { link_conn = dialled true }) s
            (record { name = λ c. refl; step = λ c. refl; disable = λ c. refl; once = λ c. refl }))

close_subs-Closes :
    (f : ℕ → ProxyServer → ProxyServer) (r : ℕ) (subs : List (String × ℕ)) (s : ProxyServer)
    → Calm f
    → Flags s
    → Unshared s
    → Closes s (close_subs f r subs s)
unfolding close_subs
close_subs-Closes f r [] s calm fl u = Closes-refl s
close_subs-Closes f r ((key, sub) ∷ subs) s calm fl u =
    let a = Closes-trans (calm sub s fl u) (del_proxy_sub_client-Closes r key (f sub s)) in
    Closes-trans a (
      close_subs-Closes f r subs (del_proxy_sub_client r key (f sub s)) calm (Closes-Flags a fl)
        (Closes-Unshared a u))

forget_name-Closes :
    (r : ℕ) (s : ProxyServer)
    → ((q : ℕ) → entry s (s.clients r).name ≡ some q → ¬ IsOpen s q)
    → Closes s (forget_name r s)
unfolding forget_name del_proxy_client
forget_name-Closes r s gone = elim (Bool-cases (str_eq (s.clients r).name "")) [
  | inl h ↦ rw h (Closes-refl s)
  | inr h ↦ rw h (record {
    names = λ q. refl;
    steps = λ q. refl;
    kept = λ q h. h;
    flags = λ q h. h;
    fewer = λ k q e. ground (arith, lookup-delete (s.clients r).name k s.proxy_client_map);
    lost = λ k q o e. ground (
      arith,
      gone q,
      eq_iff (s.clients r).name k,
      lookup-delete (s.clients r).name k s.proxy_client_map,
    );
    same_next = refl;
    same_rooms = refl;
    same_up2ps = refl;
    same_ids = refl;
  })
]

shut-closed : (r : ℕ) (s : ProxyServer) → ¬ IsOpen (modify r shut s) r
unfolding modify shut
shut-closed r s h = ground arith

-- The body of close, whose nested calls are calm.
close_body :
    (f : ℕ → ProxyServer → ProxyServer) (r : ℕ) (s : ProxyServer)
    → Calm f
    → Flags s
    → Unshared (modify r shut s)
    → Own r s
    → let s1 = modify r shut s in
      let s2 = close_link f r s1 in
      let s3 = close_subs f r (s2.clients r).sub_map s2 in
      Closes s (forget_name r s3) × (¬ IsOpen (forget_name r s3) r)
close_body f r s calm fl u own =
    let s1 = modify r shut s in
    let s2 = close_link f r s1 in
    let s3 = close_subs f r (s2.clients r).sub_map s2 in
    let a = shut-Closes r s in
    let b = close_link-Closes f r s1 calm (Closes-Flags a fl) u in
    let ab = Closes-trans a b in
    let c =
      close_subs-Closes f r (s2.clients r).sub_map s2 calm (Closes-Flags ab fl)
        (Closes-Unshared b u) in
    let bc = Closes-trans b c in
    let abc = Closes-trans a bc in
    let shut_down : (¬ IsOpen s3 r) = λ h. shut-closed r s (bc.kept r h) in
    let d = forget_name-Closes r s3 λ q e h. shut_down (
      subst (IsOpen s3) (own q (ap (entry s) (sym (abc.names r)) ∙ abc.fewer _ q e) (abc.kept q h))
        h) in
    (Closes-trans abc d, λ h. shut_down (d.kept r h))

IsOpen-of_once : (s : ProxyServer) (x : ℕ) → Flags s → (s.clients x).once ≡ false → IsOpen s x
IsOpen-of_once s x fl h = sym (fl x) ∙ h

-- A second call does nothing, or hangs.
pub close_within_done :
    (P : ProxyServer → Type 0) (fuel : ℕ) (running : List ℕ) (r : ℕ) (s : ProxyServer)
    → (s.clients r).once ≡ true
    → P s
    → P (record s { hung = true })
    → P (close_within fuel running r s)
unfolding close_within closed_before
close_within_done P zero running r s h a b = a
close_within_done P (suc fuel) running r s h a b =
    rw (h, close_within) (if_case P (is_running r running) (λ _. b) (λ _. a))

pub close_within_open :
    (fuel : ℕ) (running : List ℕ) (r : ℕ) (s : ProxyServer)
    → (s.clients r).once ≡ false
    → close_within (suc fuel) running r s ≡ (
        let s1 = modify r shut s in
        let s2 = close_link (close_within fuel (r ∷ running)) r s1 in
        forget_name r (close_subs (close_within fuel (r ∷ running)) r (s2.clients r).sub_map s2))
unfolding close_within
close_within_open fuel running r s h = rw (h, close_within)

hang-Closes : (s : ProxyServer) → Closes s (record s { hung = true })
hang-Closes s = record {
  names = λ q. refl;
  steps = λ q. refl;
  kept = λ q h. h;
  flags = λ q h. h;
  fewer = λ k q h. h;
  lost = λ k q h e. e;
  same_next = refl;
  same_rooms = refl;
  same_up2ps = refl;
  same_ids = refl;
}

close_within-Calm : (fuel : ℕ) (running : List ℕ) → Calm (close_within fuel running)
close_within-Calm zero running x s fl u = unfold close_within in Closes-refl s
close_within-Calm (suc fuel) running x s fl u =
    by_once (close_within-Calm fuel (x ∷ running)) (Bool-cases (s.clients x).once)
  where
    by_once :
        Calm (close_within fuel (x ∷ running))
        → ((s.clients x).once ≡ true) ⊎ ((s.clients x).once ≡ false)
        → Closes s (close_within (suc fuel) running x s)
    by_once ih (inl h) =
        close_within_done (Closes s) (suc fuel) running x s h (Closes-refl s) (hang-Closes s)
    by_once ih (inr h) =
        rw (close_within_open fuel running x s h)
          (close_body (close_within fuel (x ∷ running)) x s ih fl
            (Closes-Unshared (shut-Closes x s) u)
            (λ q e hq. u x q (IsOpen-of_once s x fl h) e hq)).0

-- close, called on a connection whose name may be shared only until it is shut.
pub close-Closes :
    (r : ℕ) (s : ProxyServer)
    → Flags s
    → Unshared (modify r shut s)
    → Own r s
    → Closes s (close r s) × (¬ IsOpen (close r s) r)
unfolding close
close-Closes r s fl u own = elim (Bool-cases (s.clients r).once) [
  | inl h ↦
      close_within_done (λ t. Closes s t × (¬ IsOpen t r)) (suc s.next) [] r s h
        (Closes-refl s, λ o. cc (fl r)) (hang-Closes s, λ o. cc (fl r))
  | inr h ↦
      rw (close_within_open s.next [] r s h)
        (close_body (close_within s.next (r ∷ [])) r s (close_within-Calm s.next (r ∷ [])) fl u own)
]

-- The usual case: no two open connections share a name.
pub close-Closes-Unshared : (r : ℕ) (s : ProxyServer) → Flags s → Unshared s → Closes s (close r s)
unfolding close
close-Closes-Unshared r s fl u = close_within-Calm (suc s.next) [] r s fl u

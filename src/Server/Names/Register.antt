-- ===== src/Server/Names/Register.antt =====
-- Registering a name keeps the table exact: whoever had the name is closed.
use go_cfc.Base.{
  ℕ, suc, ◌≤◌, ◌<◌, ◌≡◌, ◌≢◌, inl, inr, subst, Bool, none, some, String, arith, eq_iff,
  Option-cases,
}
use go_cfc.Base.Assoc.{insert, lookup-insert}
use go_cfc.Base.Int.{pos}
use go_cfc.Server.State.{ProxyServer, World, OdjClientInfo, Config, Incoming, client_info, modify}
use go_cfc.Server.Closing.{shut, close, get_proxy_client, set_proxy_client}
use go_cfc.Server.Closing.Relation.{Closes, Closes-refl, IsOpen, entry, Unshared, Own, Flags}
use go_cfc.Server.Closing.Table.{close-Closes}
use go_cfc.Server.Handlers.Business.{register}
use go_cfc.Server.Names.Invariant.{Exact, Table, Table-Closes, Table-Unshared, next_step-Table}
use go_cfc.Server.Names.Sending.{write_c_msg_and_check-Keeps}

abbrev name_it : String → ℕ → ProxyServer → ProxyServer
name_it n r s = modify r (λ c. record c { name = n }) s

-- The connection `r`, which has not registered, is to get the name `n`.
module _ (n : String) (named : n ≢ "") (r : ℕ) (s : ProxyServer) (v : Exact s) where
  module _ (below : r < s.next) (early : (s.clients r).step ≤ 1) where
    abbrev s1 : ProxyServer
    s1 = name_it n r s

    named_Flags : Flags s1
    unfolding modify
    named_Flags q = ground (arith, v.flags q)

    -- In the table as it was, `n` may stand for another connection, which is the only one then.
    insert-Table :
        (t : ProxyServer)
        → Closes s1 t
        → ((q : ℕ) → entry s n ≡ some q → ¬ IsOpen t q)
        → Table (record t { proxy_client_map = insert n r t.proxy_client_map })
    unfolding modify
    insert-Table t c alone = record {
      owned = λ k q e. ground (
        arith,
        lookup-insert n k r t.proxy_client_map,
        eq_iff n k,
        c.fewer k q,
        c.names q,
        c.same_next,
        v.owned k q,
        v.nameless q,
      );
      listed = λ q h some_name. ground (
        arith,
        lookup-insert n (t.clients q).name r t.proxy_client_map,
        eq_iff n (t.clients q).name,
        c.names q,
        c.kept q,
        c.lost (t.clients q).name q,
        v.listed q,
        alone q,
      );
      flags = λ q. c.flags q (named_Flags q);
    }

    old_Unshared : (old : ℕ) → entry s n ≡ some old → Unshared (modify old shut s1)
    unfolding modify shut
    old_Unshared old e x q hx found hq =
        ground (arith, Table-Unshared v.table x q, v.owned n old, v.nameless r)

    old_Own : (old : ℕ) → entry s n ≡ some old → Own old s1
    unfolding modify
    old_Own old e q found hq = ground (arith, v.owned n old, v.nameless r)

    -- setProxyClient at a name that somebody has, and at one that nobody has.
    taken :
        (old : ℕ)
        → entry s n ≡ some old
        → set_proxy_client n r s1
          ≡ (let t = close old s1 in record t { proxy_client_map = insert n r t.proxy_client_map })
    unfolding set_proxy_client get_proxy_client modify
    taken old e = ground (arith, eq_iff n "")

    vacant :
        entry s n ≡ none
        → set_proxy_client n r s1 ≡ record s1 { proxy_client_map = insert n r s1.proxy_client_map }
    unfolding set_proxy_client get_proxy_client modify
    vacant e = ground (arith, eq_iff n "")

    -- Whoever had the name is closed, and `r` gets it.
    pub set_proxy_client_inv :
        (t : ProxyServer) × Closes s1 t
        × ((q : ℕ) → entry s n ≡ some q → ¬ IsOpen t q)
        × (set_proxy_client n r s1 ≡ record t { proxy_client_map = insert n r t.proxy_client_map })
    set_proxy_client_inv = elim (Option-cases (entry s n)) [
      | inl e ↦ (s1, Closes-refl s1, (λ q found. absurd (nobody q found e)), vacant e)
      | inr (old, e) ↦
          let (c, shut_down) =
            close-Closes old s1 named_Flags (old_Unshared old e) (old_Own old e) in
          (close old s1, c, (λ q found h. shut_down (moved old q e found h)), taken old e)
    ]
      where
        nobody : (q : ℕ) → entry s n ≡ some q → entry s n ≡ none → ⊥
        nobody q a b = cc

        moved :
            (old q : ℕ)
            → entry s n ≡ some old
            → entry s n ≡ some q
            → IsOpen (close old s1) q
            → IsOpen (close old s1) old
        moved old q a b h = let same : q ≡ old = cc in subst (IsOpen (close old s1)) same h

    -- The end of the registration: the answer may close connections, then the step is counted.
    finish-Exact :
        (t u : ProxyServer)
        → (s.clients r).step ≡ 1
        → Closes s1 t
        → Table (record t { proxy_client_map = insert n r t.proxy_client_map })
        → Closes (record t { proxy_client_map = insert n r t.proxy_client_map }) u
        → Exact (modify r (λ c. record c { step = suc c.step }) u)
    unfolding modify
    finish-Exact t u here c table d = record {
      table = next_step-Table r u (Table-Closes d table);
      nameless = λ q h.
          ground
            (arith, d.steps q, d.names q, c.steps q, c.names q, d.steps r, c.steps r, v.nameless q);
    }

    -- A registration under the name `n` keeps the table exact.
    pub register-Exact :
        (config : Config) (w : World) (inc : Incoming) (id : String) (anonymity : Bool)
        → (s.clients r).step ≡ 1
        → Exact (register config w inc id (record { name = n; anonymity = anonymity }) r s)
    unfolding register
    register-Exact config w inc id anonymity here =
        let info : OdjClientInfo = record { name = n; anonymity = anonymity } in
        let (t, c, alone, shape) = set_proxy_client_inv in
        let table = insert-Table t c alone in
        rw shape (
          finish-Exact t _ here c table (
            write_c_msg_and_check-Keeps w "OK! Happy handshake" id (pos 200) (client_info info) r _
              table))

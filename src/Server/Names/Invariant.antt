-- ===== src/Server/Names/Invariant.antt =====
-- The invariant of the table of names, and the changes that keep it whatever their reason.
use go_cfc.Base.{ℕ, suc, ◌≤◌, ◌<◌, ◌≡◌, ◌≢◌, ap, ◌∙◌, some, List, String, arith}
use go_cfc.Server.State.{ProxyServer, ProxyTaskRoom, ProxyUp2P, Sent, modify}
use go_cfc.Server.Closing.{close}
use go_cfc.Server.Closing.Relation.{
  Closes, Closes-trans, IsOpen, entry, Unshared, Flags, Closes-Flags,
}
use go_cfc.Server.Closing.Table.{close-Closes-Unshared}

-- An entry of the table is an existing connection of that name, and an open connection with a name
-- is in the table under it.
pub record Table (s : ProxyServer) : Type 0 where
  pub owned :
      (k : String) (q : ℕ) → entry s k ≡ some q → ((s.clients q).name ≡ k) × (k ≢ "") × (q < s.next)
  pub listed : (q : ℕ) → IsOpen s q → (s.clients q).name ≢ "" → entry s (s.clients q).name ≡ some q
  pub flags : Flags s

-- Besides, a connection that has not registered has no name.
pub record Exact (s : ProxyServer) : Type 0 where
  pub table : Table s
  pub open table use *
  pub nameless : (q : ℕ) → (s.clients q).step ≤ 1 → (s.clients q).name ≡ ""

pub Table-Unshared : {s : ProxyServer} → Table s → Unshared s
Table-Unshared {s} v x q hx e hq =
    let (_, named, _) = v.owned (s.clients x).name q e in cc (v.listed x hx named)

pub Table-Closes : {s t : ProxyServer} → Closes s t → Table s → Table t
Table-Closes {s} {t} c v = record {
  owned = λ k q e.
      let (named, some_name, below) = v.owned k q (c.fewer k q e) in
      (c.names q ∙ named, some_name, rw c.same_next below);
  listed = λ q h named.
      let named' : (s.clients q).name ≢ "" = λ e. named (c.names q ∙ e) in
      c.lost (t.clients q).name q h (ap (entry s) (c.names q) ∙ v.listed q (c.kept q h) named');
  flags = Closes-Flags c v.flags;
}

pub Exact-Closes : {s t : ProxyServer} → Closes s t → Exact s → Exact t
Exact-Closes {s} {t} c v = record {
  table = Table-Closes c v.table;
  nameless = λ q h. c.names q ∙ v.nameless q (rw (← c.steps q) h);
}

-- A change that at most closes connections, from any state with such a table.
abbrev pub Keeps : (ProxyServer → ProxyServer) → Type 0
Keeps f = (s : ProxyServer) → Table s → Closes s (f s)

pub Exact-Keeps :
    {f : ProxyServer → ProxyServer} (s : ProxyServer) → Keeps f → Exact s → Exact (f s)
Exact-Keeps s k v = Exact-Closes (k s v.table) v

pub close-Keeps : (r : ℕ) → Keeps (close r)
close-Keeps r s v = close-Closes-Unshared r s v.flags (Table-Unshared v)

pub Keeps-then :
    {f g : ProxyServer → ProxyServer}
    → Keeps f
    → Keeps g
    → (s : ProxyServer) → Table s
    → Closes s (g (f s))
Keeps-then {f} {g} a b s v = Closes-trans (a s v) (b (f s) (Table-Closes (a s v) v))

-- `pc.step += 1`
pub next_step-Table :
    (r : ℕ) (s : ProxyServer) → Table s → Table (modify r (λ c. record c { step = suc c.step }) s)
unfolding modify
next_step-Table r s v = record {
  owned = λ k q e. ground (arith, v.owned k q);
  listed = λ q h named. ground (arith, v.listed q);
  flags = λ q. ground (arith, v.flags q);
}

pub next_step-Exact :
    (r : ℕ) (s : ProxyServer) → Exact s → Exact (modify r (λ c. record c { step = suc c.step }) s)
unfolding modify
next_step-Exact r s v = record {
  table = next_step-Table r s v.table;
  nameless = λ q h. ground (arith, v.nameless q);
}

-- The rooms, the hole punching entries, the counter and the log do not matter.
pub elsewhere-Exact :
    (s : ProxyServer) (rooms : List (String × ProxyTaskRoom)) (ups : List (String × ProxyUp2P))
    (ids : ℕ) (log : List Sent)
    → Exact s
    → Exact (record s { proxy_task_room_map = rooms; proxy_up2p_map = ups; ids = ids; sent = log })
elsewhere-Exact s rooms ups ids log v = record {
  table = record { owned = v.owned; listed = v.listed; flags = v.flags };
  nameless = v.nameless;
}

-- ===== src/Server/Closing/Relation.antt =====
-- What closing changes, as a relation between the states before and after.
use go_cfc.Base.{ℕ, ◌≡◌, refl, sym, ap, ◌∙◌, false, Option, some, String, arith}
use go_cfc.Base.Assoc.{lookup}
use go_cfc.Server.State.{ProxyClient, ProxyServer, modify}
use go_cfc.Server.Closing.{shut}

-- Whom a name belongs to, and whether a connection is closed.
abbrev pub entry : ProxyServer → String → Option ℕ
entry s k = lookup k s.proxy_client_map

abbrev pub IsOpen : ProxyServer → ℕ → Type 0
IsOpen s q = (s.clients q).disable ≡ false

-- The change from `s` to `t` at most closes some connections: no name or step changes, closed
-- connections stay closed, the table loses entries, but none of a connection that is still open,
-- and the rooms stay as they are. What was sent may grow.
pub record Closes (s t : ProxyServer) : Type 0 where
  pub names : (q : ℕ) → (t.clients q).name ≡ (s.clients q).name
  pub steps : (q : ℕ) → (t.clients q).step ≡ (s.clients q).step
  pub kept : (q : ℕ) → IsOpen t q → IsOpen s q
  pub flags :
      (q : ℕ)
      → (s.clients q).once ≡ (s.clients q).disable
      → (t.clients q).once ≡ (t.clients q).disable
  pub fewer : (k : String) (q : ℕ) → entry t k ≡ some q → entry s k ≡ some q
  pub lost : (k : String) (q : ℕ) → IsOpen t q → entry s k ≡ some q → entry t k ≡ some q
  pub same_next : t.next ≡ s.next
  pub same_rooms : t.proxy_task_room_map ≡ s.proxy_task_room_map
  pub same_up2ps : t.proxy_up2p_map ≡ s.proxy_up2p_map
  pub same_ids : t.ids ≡ s.ids

pub Closes-refl : (s : ProxyServer) → Closes s s
Closes-refl s = record {
  names = λ q. refl;
  steps = λ q. refl;
  kept = λ q h. h;
  flags = λ q h. h;
  fewer = λ k q h. h;
  lost = λ k q h e. e;
  same_next = refl;
  same_rooms = refl;
  same_up2ps = refl;
  same_ids = refl;
}

pub Closes-trans : {s t u : ProxyServer} → Closes s t → Closes t u → Closes s u
Closes-trans a b = record {
  names = λ q. b.names q ∙ a.names q;
  steps = λ q. b.steps q ∙ a.steps q;
  kept = λ q h. a.kept q (b.kept q h);
  flags = λ q h. b.flags q (a.flags q h);
  fewer = λ k q h. a.fewer k q (b.fewer k q h);
  lost = λ k q h e. b.lost k q h (a.lost k q (b.kept q h) e);
  same_next = b.same_next ∙ a.same_next;
  same_rooms = b.same_rooms ∙ a.same_rooms;
  same_up2ps = b.same_up2ps ∙ a.same_up2ps;
  same_ids = b.same_ids ∙ a.same_ids;
}

-- A change of one object that leaves its name, its step and its flags alone.
pub record Quiet (f : ProxyClient → ProxyClient) : Type 0 where
  pub name : (c : ProxyClient) → (f c).name ≡ c.name
  pub step : (c : ProxyClient) → (f c).step ≡ c.step
  pub disable : (c : ProxyClient) → (f c).disable ≡ c.disable
  pub once : (c : ProxyClient) → (f c).once ≡ c.once

pub modify-Closes :
    (r : ℕ) (f : ProxyClient → ProxyClient) (s : ProxyServer) → Quiet f → Closes s (modify r f s)
unfolding modify
modify-Closes r f s quiet = record {
  names = λ q. ground (arith, quiet.name (s.clients q));
  steps = λ q. ground (arith, quiet.step (s.clients q));
  kept = λ q h. ground (arith, quiet.disable (s.clients q));
  flags = λ q h. ground (arith, quiet.disable (s.clients q), quiet.once (s.clients q));
  fewer = λ k q h. h;
  lost = λ k q h e. e;
  same_next = refl;
  same_rooms = refl;
  same_up2ps = refl;
  same_ids = refl;
}

pub shut-Closes : (r : ℕ) (s : ProxyServer) → Closes s (modify r shut s)
unfolding modify shut
shut-Closes r s = record {
  names = λ q. ground arith;
  steps = λ q. ground arith;
  kept = λ q h. ground arith;
  flags = λ q h. ground arith;
  fewer = λ k q h. h;
  lost = λ k q h e. e;
  same_next = refl;
  same_rooms = refl;
  same_up2ps = refl;
  same_ids = refl;
}

-- No open connection's name stands for another open connection.
abbrev pub Unshared : ProxyServer → Type 0
Unshared s = (x q : ℕ) → IsOpen s x → entry s (s.clients x).name ≡ some q → IsOpen s q → q ≡ x

-- The name of `r` stands for no other open connection.
abbrev pub Own : ℕ → ProxyServer → Type 0
Own r s = (q : ℕ) → entry s (s.clients r).name ≡ some q → IsOpen s q → q ≡ r

abbrev pub Flags : ProxyServer → Type 0
Flags s = (q : ℕ) → (s.clients q).once ≡ (s.clients q).disable

pub Closes-Unshared : {s t : ProxyServer} → Closes s t → Unshared s → Unshared t
Closes-Unshared {s} {t} c u x q hx e hq =
    u x q (c.kept x hx) (ap (entry s) (sym (c.names x)) ∙ c.fewer _ q e) (c.kept q hq)

pub Closes-Flags : {s t : ProxyServer} → Closes s t → Flags s → Flags t
Closes-Flags c f q = c.flags q (f q)

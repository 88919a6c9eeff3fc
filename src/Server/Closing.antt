-- ===== src/Server/Closing.antt =====
-- Closing a connection: ProxyClient.close and Close (server/proxy_client.go), and the table of names
-- (server/proxy_server.go).
pub mod Relation
pub mod Table
pub mod Returning
use go_cfc.Base.{
  ℕ, zero, suc, ◌+◌, Bool, true, false, Option, none, some, List, [], ◌∷◌, String, ◌==◌,
  if◌then◌else◌, str_eq, not,
}
use go_cfc.Base.Assoc.{lookup, delete, insert}
use go_cfc.Server.State.{ProxyClient, ProxyServer, LinkConn, no_conn, peer, dialled, modify}

unfoldable pub del_proxy_client : String → ProxyServer → ProxyServer
del_proxy_client key s = record s { proxy_client_map = delete key s.proxy_client_map }

unfoldable pub get_proxy_client : String → ProxyServer → Option ℕ
get_proxy_client key s = if str_eq key "" then none else lookup key s.proxy_client_map

-- The flags that close sets, and rawConn.Close().
unfoldable pub shut : ProxyClient → ProxyClient
shut c = record c { disable = true; raw_closed = true; once = true }

unfoldable pub del_proxy_sub_client : ℕ → String → ProxyServer → ProxyServer
unfolding modify
del_proxy_sub_client r key = modify r λ c. record c { sub_map = delete key c.sub_map }

-- `if pc.linkConn != nil { pc.linkConn.Close() }`, where `close_sub` is `close`; Close of a
-- ProxyClient returns an error if it is disabled.
unfoldable pub close_link : (ℕ → ProxyServer → ProxyServer) → ℕ → ProxyServer → ProxyServer
unfolding modify
close_link close_sub r s = elim (s.clients r).link_conn [
  | no_conn ↦ s
  | peer p ↦ if (s.clients p).disable then s else close_sub p s
  | dialled _ ↦ modify r (λ c. record c { link_conn = dialled true }) s
]

-- The loop over the sub connections: each is closed, and taken off the map.
unfoldable pub close_subs :
    (ℕ → ProxyServer → ProxyServer) → ℕ → List (String × ℕ) → ProxyServer → ProxyServer
close_subs close_sub r [] s = s
close_subs close_sub r ((key, sub) ∷ subs) s =
    close_subs close_sub r subs (del_proxy_sub_client r key (close_sub sub s))

-- `if pc.name != "" { pc.ps.delProxyClient(pc.name) }`
unfoldable pub forget_name : ℕ → ProxyServer → ProxyServer
forget_name r s =
    if not (str_eq (s.clients r).name "") then del_proxy_client (s.clients r).name s else s

abbrev pub is_running : ℕ → List ℕ → Bool
is_running r [] = false
is_running r (q ∷ qs) = if r == q then true else is_running r qs

-- What becomes of close(), when closerOnce has been entered before. If that call is still running,
-- further out, the two wait for each other for ever: `hung` says so, and the rest of a state in
-- which it holds says nothing about the program.
unfoldable pub closed_before : List ℕ → ℕ → ProxyServer → ProxyServer
closed_before running r s = if is_running r running then record s { hung = true } else s

-- close(), called within the calls of it on the connections `running`, with fuel for the depth of
-- the nested calls. Each nested call that does anything sets one more `once`, so the number of
-- connections is enough.
unfoldable pub close_within : ℕ → (running : List ℕ) → ℕ → ProxyServer → ProxyServer
unfolding closed_before
close_within zero running r s = s
close_within (suc fuel) running r s = elim (s.clients r).once [
  | true ↦ closed_before running r s
  | false ↦
      let s1 = modify r shut s in
      let s2 = close_link (close_within fuel (r ∷ running)) r s1 in
      let s3 = close_subs (close_within fuel (r ∷ running)) r (s2.clients r).sub_map s2 in
      forget_name r s3
]

unfoldable pub close : ℕ → ProxyServer → ProxyServer
unfolding close_within
close r s = close_within (suc s.next) [] r s

-- Registering a name: whoever had it is closed first.
unfoldable pub set_proxy_client : String → ℕ → ProxyServer → ProxyServer
set_proxy_client key r s =
    let s' : ProxyServer = elim (get_proxy_client key s) [ none ↦ s | some old ↦ close old s ] in
    record s' { proxy_client_map = insert key r s'.proxy_client_map }

-- Attaching a sub connection, unless the parent is closed already.
unfoldable pub set_proxy_sub_client : ℕ → String → ℕ → ProxyServer → ProxyServer
set_proxy_sub_client r key sub s =
    if (s.clients r).disable
    then close sub s
    else modify r (λ c. record c { sub_map = insert key sub c.sub_map }) s

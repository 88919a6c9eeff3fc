-- ===== src/Server/Handlers/Reports.antt =====
-- The answers to DelayQ and SpeedQ0 to SpeedQ3: server/proxy_server.go and the end of
-- server/proxy_client.go. Reading a ticker changes it.
use go_cfc.Base.{ℕ, zero, suc, true, false, none, some, List, [], ◌∷◌, ◌++◌, map, String}
use go_cfc.Speed.{NetworkSpeedView, to_view, count_all_network_speed_view}
use go_cfc.Server.State.{ProxyServer, World, OdjPing, modify}
use go_cfc.Server.Closing.{get_proxy_client}

-- getProxyClientDelay: with no names, everybody in the table.
unfoldable pub delay_of : ProxyServer → String → OdjPing
delay_of s one = elim (get_proxy_client one s) [
  | some r ↦ record { name = (s.clients r).name; ping = (s.clients r).ping; active = true }
  | none ↦ record { name = one; ping = 0; active = false }
]

unfoldable pub get_proxy_client_delay : List String → ProxyServer → List OdjPing
unfolding delay_of
get_proxy_client_delay [] s =
    map
      (λ entry. record {
        name = (s.clients entry.1).name;
        ping = (s.clients entry.1).ping;
        active = true;
      })
      s.proxy_client_map
get_proxy_client_delay (key ∷ keys) s = map (delay_of s) (key ∷ keys)

unfoldable pub get_network_speed : World → ℕ → ProxyServer → NetworkSpeedView × ProxyServer
get_network_speed w r s =
    let (view, ticker) = to_view w.now (s.clients r).network_speed in
    (view, modify r (λ c. record c { network_speed = ticker }) s)

-- A loop that reads one view after the other.
unfoldable pub views :
    (ℕ → ProxyServer → NetworkSpeedView × ProxyServer)
    → List ℕ
    → ProxyServer
    → List NetworkSpeedView × ProxyServer
views one [] s = ([], s)
views one (r ∷ rs) s =
    let (view, s1) = one r s in let (list, s2) = views one rs s1 in (view ∷ list, s2)

-- getAllNetworkSpeed: the sub connections' views and the connection's own, with fuel for the depth.
unfoldable pub all_speed_within : World → ℕ → ℕ → ProxyServer → NetworkSpeedView × ProxyServer
all_speed_within w zero r s = get_network_speed w r s
all_speed_within w (suc fuel) r s =
    let (list, s1) = views (all_speed_within w fuel) (map (λ e. e.1) (s.clients r).sub_map) s in
    let (own, s2) = get_network_speed w r s1 in
    (count_all_network_speed_view (list ++ own ∷ []), s2)

unfoldable pub get_all_network_speed : World → ℕ → ProxyServer → NetworkSpeedView × ProxyServer
get_all_network_speed w r s = all_speed_within w s.next r s

unfoldable pub speed_of : World → String → ProxyServer → NetworkSpeedView × ProxyServer
speed_of w one s = elim (get_proxy_client one s) [
  | none ↦ (count_all_network_speed_view [], s)
  | some r ↦ get_all_network_speed w r s
]

unfoldable pub named_views : World → List String → ProxyServer → List NetworkSpeedView × ProxyServer
unfolding speed_of
named_views w [] s = ([], s)
named_views w (key ∷ keys) s =
    let (view, s1) = speed_of w key s in let (list, s2) = named_views w keys s1 in (view ∷ list, s2)

unfoldable pub get_proxy_client_network_speed :
    World → List String → ProxyServer → List NetworkSpeedView × ProxyServer
get_proxy_client_network_speed w [] s =
    views (get_all_network_speed w) (map (λ e. e.1) s.proxy_client_map) s
get_proxy_client_network_speed w (key ∷ keys) s = named_views w (key ∷ keys) s

unfoldable pub get_all_proxy_client_network_speed :
    World → ProxyServer → NetworkSpeedView × ProxyServer
get_all_proxy_client_network_speed w s =
    let (list, s1) = views (get_all_network_speed w) (map (λ e. e.1) s.proxy_client_map) s in
    (count_all_network_speed_view list, s1)

-- ===== src/Server/Names/Reports.antt =====
-- Reading the speeds, which changes the tickers, keeps the table of names exact.
use go_cfc.Base.{ℕ, zero, suc, ◌≡◌, inl, inr, refl, List, [], ◌∷◌, String, Option-cases}
use go_cfc.Speed.{NetworkSpeedView, to_view}
use go_cfc.Server.State.{ProxyClient, ProxyServer, World, modify}
use go_cfc.Server.Closing.{get_proxy_client}
use go_cfc.Server.Closing.Relation.{modify-Closes}
use go_cfc.Server.Handlers.Reports.{
  get_network_speed, views, all_speed_within, get_all_network_speed, speed_of, named_views,
  get_proxy_client_network_speed, get_all_proxy_client_network_speed,
}
use go_cfc.Server.Names.Invariant.{Exact-Closes}
use go_cfc.Server.Names.Rooms.{Safe}

module _ (w : World) where
  pub quiet-Safe :
      (r : ℕ) (f : ProxyClient → ProxyClient)
      → ((c : ProxyClient) → (f c).name ≡ c.name)
      → ((c : ProxyClient) → (f c).step ≡ c.step)
      → ((c : ProxyClient) → (f c).disable ≡ c.disable)
      → ((c : ProxyClient) → (f c).once ≡ c.once)
      → Safe (modify r f)
  quiet-Safe r f a b c d s =
      Exact-Closes (modify-Closes r f s (record { name = a; step = b; disable = c; once = d }))

  pub get_network_speed-Safe : (r : ℕ) → Safe (λ s. (get_network_speed w r s).1)
  unfolding get_network_speed
  get_network_speed-Safe r s v =
      quiet-Safe r (λ c. record c { network_speed = (to_view w.now (s.clients r).network_speed).1 })
        (λ c. refl) (λ c. refl) (λ c. refl) (λ c. refl) s v

  views-Safe :
      (one : ℕ → ProxyServer → NetworkSpeedView × ProxyServer) (rs : List ℕ)
      → ((r : ℕ) → Safe (λ s. (one r s).1))
      → Safe (λ s. (views one rs s).1)
  unfolding views
  views-Safe one [] safe s v = v
  views-Safe one (r ∷ rs) safe s v = views-Safe one rs safe (one r s).1 (safe r s v)

  all_speed_within-Safe : (fuel r : ℕ) → Safe (λ s. (all_speed_within w fuel r s).1)
  unfolding all_speed_within
  all_speed_within-Safe zero r s v = get_network_speed-Safe r s v
  all_speed_within-Safe (suc fuel) r s v =
      get_network_speed-Safe r _
        (views-Safe (all_speed_within w fuel) _ (all_speed_within-Safe fuel) s v)

  pub get_all_network_speed-Safe : (r : ℕ) → Safe (λ s. (get_all_network_speed w r s).1)
  unfolding get_all_network_speed
  get_all_network_speed-Safe r s v = all_speed_within-Safe s.next r s v

  speed_of-Safe : (key : String) → Safe (λ s. (speed_of w key s).1)
  unfolding speed_of
  speed_of-Safe key s v = elim (Option-cases (get_proxy_client key s)) [
    | inl e ↦ rw (e, speed_of) v
    | inr (r, e) ↦ rw (e, speed_of) (get_all_network_speed-Safe r s v)
  ]

  named_views-Safe : (keys : List String) → Safe (λ s. (named_views w keys s).1)
  unfolding named_views
  named_views-Safe [] s v = v
  named_views-Safe (key ∷ keys) s v =
      named_views-Safe keys (speed_of w key s).1 (speed_of-Safe key s v)

  pub get_proxy_client_network_speed-Safe :
      (keys : List String) → Safe (λ s. (get_proxy_client_network_speed w keys s).1)
  unfolding get_proxy_client_network_speed
  get_proxy_client_network_speed-Safe [] s v =
      views-Safe (get_all_network_speed w) _ get_all_network_speed-Safe s v
  get_proxy_client_network_speed-Safe (key ∷ keys) s v = named_views-Safe (key ∷ keys) s v

  pub get_all_proxy_client_network_speed-Safe :
      Safe (λ s. (get_all_proxy_client_network_speed w s).1)
  unfolding get_all_proxy_client_network_speed
  get_all_proxy_client_network_speed-Safe s v =
      views-Safe (get_all_network_speed w) _ get_all_network_speed-Safe s v

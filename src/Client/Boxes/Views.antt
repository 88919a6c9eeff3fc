-- ===== src/Client/Boxes/Views.antt =====
-- What boxes and sub boxes tell: names, addresses and speeds (client/client_box.go and
-- client/client_sub.go).
use go_cfc.Base.{ℕ, zero, suc, Option, none, some, List, [], ◌∷◌, ◌++◌, String}
use go_cfc.Speed.{NetworkSpeedView, to_view, count_all_network_speed_view}
use go_cfc.Client.State.{DeviceBox, SubBox, update}

-- The names and addresses that the server told, the TCP address before the UDP one.
unfoldable pub get_local_name : SubBox → String
get_local_name c = elim c.addr [ none ↦ "" | some i ↦ i.local_name ]

unfoldable pub get_remote_name : SubBox → String
get_remote_name c = elim c.addr [ none ↦ "" | some i ↦ i.remote_name ]

abbrev first_of : Option String → Option String → Option String
first_of (some a) b = some a
first_of none b = b

unfoldable pub get_local_intranet_addr : SubBox → Option String
get_local_intranet_addr c = elim c.addr [
  | none ↦ none
  | some i ↦ first_of i.local_intranet_addr i.u_local_intranet_addr
]

unfoldable pub get_remote_intranet_addr : SubBox → Option String
get_remote_intranet_addr c = elim c.addr [
  | none ↦ none
  | some i ↦ first_of i.remote_intranet_addr i.u_remote_intranet_addr
]

unfoldable pub get_local_public_addr : SubBox → Option String
get_local_public_addr c = elim c.addr [
  | none ↦ none
  | some i ↦ first_of i.local_public_addr i.u_local_public_addr
]

unfoldable pub get_remote_public_addr : SubBox → Option String
get_remote_public_addr c = elim c.addr [
  | none ↦ none
  | some i ↦ first_of i.remote_public_addr i.u_remote_public_addr
]

-- GetNetworkSpeedView and GetAllNetworkSpeedView, at `now`: a view changes the tickers. The fuel is
-- for the depth of the nested sub boxes.
unfoldable pub sub_speed_view : ℕ → ℕ → DeviceBox → NetworkSpeedView × DeviceBox
unfolding to_view update
sub_speed_view now q box =
    let (v, n) = to_view now (box.subs q).network_speed in
    (v, update q (λ c. record c { network_speed = n }) box)

unfoldable pub speed_views :
    (ℕ → DeviceBox → NetworkSpeedView × DeviceBox)
    → List (String × ℕ)
    → DeviceBox
    → List NetworkSpeedView × DeviceBox
speed_views view [] box = ([], box)
speed_views view ((key, q) ∷ subs) box =
    let (v, box1) = view q box in let (vs, box2) = speed_views view subs box1 in (v ∷ vs, box2)

unfoldable pub all_sub_speed_within : ℕ → ℕ → ℕ → DeviceBox → NetworkSpeedView × DeviceBox
unfolding speed_views sub_speed_view count_all_network_speed_view
all_sub_speed_within now zero q box = sub_speed_view now q box
all_sub_speed_within now (suc fuel) q box =
    let (vs, box1) = speed_views (all_sub_speed_within now fuel) (box.subs q).sub_map box in
    let (v, box2) = sub_speed_view now q box1 in (count_all_network_speed_view (vs ++ v ∷ []), box2)

unfoldable pub all_speed_view : ℕ → DeviceBox → NetworkSpeedView × DeviceBox
unfolding all_sub_speed_within speed_views to_view count_all_network_speed_view
all_speed_view now box =
    let (vs, box1) = speed_views (all_sub_speed_within now box.next) box.sub_map box in
    let (v, n) = to_view now box1.network_speed in
    (count_all_network_speed_view (vs ++ v ∷ []), record box1 { network_speed = n })

-- ===== src/Client/Sockets.antt =====
-- The small calls of a box and of a sub box: addresses, names, deadlines, and the maps of sub boxes
-- (client/client_box.go and client/client_sub.go).
use go_cfc.Base.{ℕ, Bool, true, false, Option, none, some, List, [], ◌∷◌, String, if◌then◌else◌}
use go_cfc.Base.Assoc.{lookup, delete}
use go_cfc.Client.State.{DeviceBox, SubBox}

-- ProxyAddr and LocalAddr of a box; without a connection they panic. `near` is the local address.
unfoldable pub proxy_addr : DeviceBox → Option String
proxy_addr box = if box.has_conn then some box.addr else none

unfoldable pub box_local_addr : (near : String) → DeviceBox → Option String
box_local_addr near box = if box.has_conn then some near else none

unfoldable pub box_name : DeviceBox → String
box_name box = box.name

unfoldable pub box_is_anonymity : DeviceBox → Bool
box_is_anonymity box = box.is_anonymity

-- getSubBox and rangeProxySubClient, whose values are all sub boxes: `fn` may change the box.
unfoldable pub box_get_sub : String → DeviceBox → Option ℕ
box_get_sub key box = lookup key box.sub_map

unfoldable pub range_subs : {A : Type 0} → (fn : String → ℕ → A → A) → List (String × ℕ) → A → A
range_subs fn [] a = a
range_subs fn ((key, q) ∷ subs) a = range_subs fn subs (fn key q a)

unfoldable pub sub_get_sub : String → SubBox → Option ℕ
sub_get_sub key c = lookup key c.sub_map

unfoldable pub sub_del_sub : String → SubBox → SubBox
sub_del_sub key c = record c { sub_map = delete key c.sub_map }

-- LocalAddr and RemoteAddr of a sub box, which has a connection from the start.
unfoldable pub sub_local_addr : SubBox → String
sub_local_addr c = c.local_addr

unfoldable pub sub_remote_addr : SubBox → String
sub_remote_addr c = c.remote_addr

-- SetDeadline, where `none` lifts the deadline: whether there is an error, which a connection that
-- is closed gives.
unfoldable pub sub_set_deadline : Option ℕ → SubBox → Bool × SubBox
sub_set_deadline t c = if c.conn_closed then (true, c) else (false, record c { deadline = t })

unfoldable pub sub_type_text : SubBox → String
sub_type_text c = c.sub_type

unfoldable pub sub_id : SubBox → String
sub_id c = c.id

-- ===== src/Api.antt =====
-- api.go: the client and the server behind the interfaces of net. A pointer to a sub box that
-- becomes a net.Conn is not the nil interface, also if the pointer is nil.
use go_cfc.Base.{ℕ, Bool, Option, none, some, List, String, Bytes}
use go_cfc.Server.State.{World}
use go_cfc.Server.Setup.{RawConfig, new_proxy_server, check}
use go_cfc.Loger.{Logger}
use go_cfc.Client.Errors.{ClientError, Answer, Try, fine, fault, Replies}
use go_cfc.Client.State.{DeviceBox, SubBox, Listening}
use go_cfc.Client.Boxes.{close_box}
use go_cfc.Client.Opening.{get_sub_box, listen_sub_box_once, receive_once}
use go_cfc.Client.Up2p.{Punching, get_sub_box_by_up2p}
use go_cfc.Client.Events.{link_proxy_server}
use go_cfc.Client.Sockets.{box_local_addr}
use go_cfc.Client.Mixing.{Around, ways}
use go_cfc.Client.SubTypes.{SubError, failed, got, get_sub_box_by_sub_type_mix}

-- A net.Conn: the nil interface, or a pointer to a sub box, which may be nil.
pub data Conn : Type 0 where
  nil_conn : Conn
  sub_conn : Option ℕ → Conn

-- `return sub, err` with a *SubBox as a net.Conn.
unfoldable pub as_conn : Try ℕ → Conn × Option ClientError
as_conn (fault e) = (sub_conn none, some e)
as_conn (fine q) = (sub_conn (some q), none)

-- Both pointer types, Listener and Dialer, hold a box.
pub record Holder : Type 0 where
  pub box : DeviceBox

-- Accept: it begins to listen, and when there is a value in a channel, it returns.
unfoldable pub accept_begin : Holder → Holder
unfolding listen_sub_box_once
accept_begin ln = record { box = listen_sub_box_once ln.box }

unfoldable pub accept_end :
    (stopped : Bool) → Listening → Holder → Option ((Conn × Option ClientError) × Holder)
unfolding receive_once as_conn
accept_end stopped l ln = elim (receive_once stopped l) [
  | none ↦ none
  | some (res, l') ↦ some (as_conn res, record { box = record ln.box { listening = some l' } })
]

-- Close of a Listener and of a Dialer; `none` waits for a receiver, as the Close of a box.
unfoldable pub close_holder : Holder → Option (Option ClientError × Holder)
close_holder h = elim (close_box h.box) [
  | none ↦ none
  | some (e, box) ↦ some (e, record { box = box })
]

-- Addr of a Listener.
unfoldable pub addr : (near : String) → Holder → Option String
unfolding box_local_addr
addr near ln = box_local_addr near ln.box

module _ (r : Replies) where
  -- Listen and Dial: an error with the nil interface, or a holder.
  unfoldable pub listen :
      World → (ℕ → SubBox) → (lname proxy_addr : String) → Bytes → (a b : Answer r.D) → Try Holder
  unfolding link_proxy_server
  listen w subs lname proxy_addr key a b =
      elim (link_proxy_server r w subs lname proxy_addr key a b).0 [
        | fault e ↦ fault e
        | fine box ↦ fine (record { box = box })
      ]

  unfoldable pub dial :
      World → (ℕ → SubBox) → (lname proxy_addr : String) → Bytes → (a b : Answer r.D) → Try Holder
  unfolding link_proxy_server
  dial w subs lname proxy_addr key a b =
      elim (link_proxy_server r w subs lname proxy_addr key a b).0 [
        | fault e ↦ fault e
        | fine box ↦ fine (record { box = box })
      ]

  unfoldable pub call : World → (a b : Answer r.D) → Holder → (Conn × Option ClientError) × Holder
  unfolding get_sub_box as_conn
  call w a b dl = let (res, box) = get_sub_box r w a b dl.box in (as_conn res, record { box = box })

  unfoldable pub call_up2p :
      World
      → (String → Bytes)
      → (a b : Answer r.D) → Punching
      → Holder
      → Option ((Conn × Option ClientError) × Holder)
  unfolding get_sub_box_by_up2p as_conn
  call_up2p w bytes_of a b p dl = elim (get_sub_box_by_up2p r w bytes_of a b p dl.box) [
    | none ↦ none
    | some (res, box) ↦ some (as_conn res, record { box = box })
  ]

  -- CallMix, which drops the errors of the single ways.
  unfoldable pub call_mix :
      (String → Bytes)
      → (String → DeviceBox → Around r)
      → (rname : String) → List String
      → Holder
      → Option ((Conn × Option (SubError ClientError)) × Holder)
  unfolding ways get_sub_box_by_sub_type_mix
  call_mix bytes_of around rname sub_types dl =
      elim (get_sub_box_by_sub_type_mix (ways r bytes_of around) rname sub_types dl.box) [
        | none ↦ none
        | some (failed e, errs, box) ↦ some ((sub_conn none, some e), record { box = box })
        | some (got q, errs, box) ↦ some ((sub_conn (some q), none), record { box = box })
      ]

-- Proxy and ProxyConfig, as far as the check of the config.
unfoldable pub proxy :
    Logger → (String → Option String) → (proxy_addr : String) → Bytes → Option RawConfig
unfolding new_proxy_server check
proxy l resolve proxy_addr key = check l resolve (new_proxy_server proxy_addr key)

unfoldable pub proxy_config : Logger → (String → Option String) → RawConfig → Option RawConfig
unfolding check
proxy_config l resolve config = check l resolve config

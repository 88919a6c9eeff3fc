-- ===== src/Client/Boxes.antt =====
-- Boxes and sub boxes: reading and writing, the maps of sub boxes, and closing
-- (client/client_box.go, client/client_sub.go, and Close and Wait of client/client.go).
pub mod Closed
pub mod Messages
pub mod Talking
pub mod Views
use go_cfc.Base.{
  ℕ, zero, suc, ◌+◌, ◌-◌, Bool, true, false, not, Option, none, some, List, [], ◌∷◌, ◌++◌, String,
  Bytes, length, ltb, ◌==◌, if◌then◌else◌,
}
use go_cfc.Base.Int.{ℤ}
use go_cfc.Base.Assoc.{lookup, insert, delete}
use go_cfc.Speed.{set, NetworkSpeedView, to_view, count_all_network_speed_view}
use go_cfc.Wire.Errors.{ok, err, panic, stuck}
use go_cfc.Wire.Cipher.{Gcm}
use go_cfc.Wire.Message.{Json, Data, Key, new_key, get_raw_key, set_msg}
use go_cfc.Server.State.{SubInfo}
use go_cfc.Client.Errors.{
  ClientError, conn_is_nil, close_failed, is_disabled, sub_is_disable, write_failed, read_failed,
  box_is_closed, checked,
}
use go_cfc.Client.State.{DeviceBox, SubBox, Listening, update}

unfoldable pub del_sub_box : String → DeviceBox → DeviceBox
del_sub_box key box = record box { sub_map = delete key box.sub_map }

unfoldable pub get_sub_box_from_sid : String → DeviceBox → Option ℕ
get_sub_box_from_sid sid box = lookup sid box.sub_map

-- The first two lines of (*SubBox).Close.
unfoldable pub close_conn : SubBox → Option ClientError × SubBox
close_conn c =
    ((if c.conn_closed then some close_failed else none), record c { conn_closed = true })

-- The loop of (*SubBox).Close over its own sub boxes, whose errors only add to a text.
unfoldable pub close_all_subs :
    (ℕ → DeviceBox → DeviceBox) → List (String × ℕ) → DeviceBox → DeviceBox
close_all_subs close_sub [] box = box
close_all_subs close_sub ((key, sub) ∷ subs) box = close_all_subs close_sub subs (close_sub sub box)

-- (*SubBox).Close, with fuel for the depth of the nested calls. Each nested call that does more
-- than closing a connection again sets one more `once`, so the number of sub boxes is enough.
unfoldable pub close_sub_within : ℕ → ℕ → DeviceBox → DeviceBox
unfolding close_conn update
close_sub_within zero q box = box
close_sub_within (suc fuel) q box = elim (box.subs q).once [
  | true ↦ update q (λ c. (close_conn c).1) box
  | false ↦
      let box1 = update q (λ c. record (close_conn c).1 { once = true; disable = true }) box in
      let box2 = close_all_subs (close_sub_within fuel) (box.subs q).sub_map box1 in
      del_sub_box (box.subs q).id box2
]

-- Whether the call returns an error: ErrAppend of the error of conn.Close().
unfoldable pub close_sub : ℕ → DeviceBox → Option ClientError × DeviceBox
unfolding close_sub_within close_conn
close_sub q box = ((close_conn (box.subs q)).0, close_sub_within (suc box.next) q box)

-- setSubBox: a box that is closed closes the sub box instead.
unfoldable pub set_sub_box : String → ℕ → DeviceBox → DeviceBox
unfolding close_sub
set_sub_box key q box =
    if box.disable then (close_sub q box).1 else record box { sub_map = insert key q box.sub_map }

-- (*SubBox).setProxySubClient, which closes the sub box itself.
unfoldable pub set_inner_sub : ℕ → String → ℕ → DeviceBox → DeviceBox
unfolding close_sub update
set_inner_sub q key sub box =
    if (box.subs q).disable
    then (close_sub q box).1
    else update q (λ c. record c { sub_map = insert key sub c.sub_map }) box

-- The loop of (*DeviceBox).Close.
unfoldable pub close_range : List (String × ℕ) → DeviceBox → DeviceBox
unfolding close_sub
close_range [] box = box
close_range ((key, q) ∷ subs) box = close_range subs (close_sub q box).1

-- Whether a send on a channel goes on, with `n` values in a buffer of `cap`: a call that waits on
-- both channels takes one value.
unfoldable pub has_room : ℕ → ℕ → Listening → Bool
has_room n cap l =
    if ltb n cap then true else ltb (length l.sub_listen + length l.sub_listen_stop) l.receivers

-- `box.subListenStop <- ErrBoxIsClosed`: `none` waits for a receiver.
unfoldable pub stop_listening : Listening → Option Listening
unfolding has_room
stop_listening l =
    if has_room (length l.sub_listen_stop) l.stop_cap l
    then some (record l { sub_listen_stop = l.sub_listen_stop ++ box_is_closed ∷ [] })
    else none

-- (*DeviceBox).Close; `none` waits until a call receives from subListenStop, with the flags set and
-- the lock of the map held, so that the rest is done only then, if ever. What comes of it is not
-- modelled.
unfoldable pub close_box : DeviceBox → Option (Option ClientError × DeviceBox)
unfolding close_range stop_listening
close_box box =
    if not box.has_conn
    then some (some conn_is_nil, box)
    else let e = if box.conn_closed then some close_failed else none in
      let box1 = record box { conn_closed = true } in
      if box.once
      then some (e, box1)
      else let box2 = record box1 { once = true; stop = true; disable = true } in
        elim (if box.is_listen then box.listening else none) [
          | none ↦ some (e, close_range box2.sub_map box2)
          | some l ↦ elim (stop_listening l) [
            | none ↦ none
            | some l' ↦ some (e, close_range box2.sub_map (record box2 { listening = some l' }))
          ]
        ]

-- Wait returns when `stop` has a value.
unfoldable pub wait_box : DeviceBox → Option DeviceBox
wait_box box = if box.stop then some box else none

unfoldable pub sub_numbers : DeviceBox → ℕ
sub_numbers box = length box.sub_map

unfoldable pub switch_listen : Bool → DeviceBox → DeviceBox
switch_listen r box = record box { switch_listen_up2p = r }

-- Write of a box and of a sub box: `accepts` says whether conn.Write succeeds, at `now`.
unfoldable pub write_box : Bool → ℕ → Bytes → DeviceBox → Option ClientError × DeviceBox
write_box accepts now b box =
    if box.disable
    then (some is_disabled, box)
    else if not accepts
    then (some write_failed, box)
    else (
      none,
      record box {
        writes = suc box.writes;
        written = box.written ++ b ∷ [];
        network_speed = record box.network_speed {
          upload = set now (length b) box.network_speed.upload;
        };
      },
    )

-- Read gives the bytes that conn.Read gives; `none` is its error.
unfoldable pub read_box : Option Bytes → ℕ → DeviceBox → Option ClientError × DeviceBox
read_box got now box = if box.disable then (some is_disabled, box) else elim got [
  | none ↦ (some read_failed, box)
  | some b ↦ (
    none,
    record box {
      network_speed = record box.network_speed {
        download = set now (length b) box.network_speed.download;
      };
    },
  )
]

unfoldable pub write_sub : Bool → ℕ → Bytes → SubBox → Option ClientError × SubBox
write_sub accepts now b c =
    if c.disable
    then (some sub_is_disable, c)
    else if not accepts
    then (some write_failed, c)
    else (
      none,
      record c {
        writes = suc c.writes;
        written = c.written ++ b ∷ [];
        network_speed = record c.network_speed {
          upload = set now (length b) c.network_speed.upload;
        };
      },
    )

unfoldable pub read_sub : Option Bytes → ℕ → SubBox → Option ClientError × SubBox
read_sub got now c = if c.disable then (some sub_is_disable, c) else elim got [
  | none ↦ (some read_failed, c)
  | some b ↦ (
    none,
    record c {
      network_speed = record c.network_speed {
        download = set now (length b) c.network_speed.download;
      };
    },
  )
]

-- WriteQueueBytes; the outcome of a Write is by the number of the writes so far.
unfoldable pub write_queue_bytes :
    (ℕ → Bool) → ℕ → List Bytes → SubBox → Option ClientError × SubBox
unfolding write_sub
write_queue_bytes accepts now [] c = (none, c)
write_queue_bytes accepts now (one ∷ b) c =
    let (failed, c') = write_sub (accepts c.writes) now one c in
    elim failed [ none ↦ write_queue_bytes accepts now b c' | some e ↦ (some e, c') ]

-- (*SubBox).WriteCMsg; `none` is a panic of SetMsg.
unfoldable pub write_sub_c_msg :
    (g : Gcm) (json : Json)
    → (ℕ → Bool)
    → (now draw : ℕ) → (header id : String) → ℤ
    → Data json.J
    → SubBox
    → Option (Option ClientError × SubBox)
write_sub_c_msg g json accepts now draw header id code d c =
    elim (set_msg g json c.key draw header id code d) [
      | ok parts ↦ some (write_queue_bytes accepts now parts c)
      | err _ ↦ none
      | panic ↦ none
      | stuck ↦ none
    ]

-- SetDeadlineDuration, where 0 lifts the deadline.
unfoldable pub set_deadline_duration : (now timeout : ℕ) → SubBox → SubBox
set_deadline_duration now timeout c = record c {
  deadline = if timeout == 0 then none else some (now + timeout);
}

unfoldable pub sub_new_key : Bytes → SubBox → SubBox
sub_new_key key c = record c { key = new_key key }

unfoldable pub sub_raw_key : SubBox → Bytes
sub_raw_key c = get_raw_key c.key

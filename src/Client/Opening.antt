-- ===== src/Client/Opening.antt =====
-- Opening sub boxes over the proxy server: client/client.go, client/client_p2p.go, and the
-- handshakes and listenSub of client/client_box.go and client/client_sub.go.
-- What comes back to a request is an Answer; the network is the outside World of the server.
pub mod Handshake
pub mod Lives
pub mod Login
pub mod Reach
pub mod Shutdown
pub mod Steps
pub mod Ways
use go_cfc.Base.{
  ℕ, zero, suc, ◌+◌, ◌-◌, ◌*◌, Bool, true, false, not, Option, none, some, List, [], ◌∷◌, ◌++◌,
  String, Bytes, length, ltb, ◌==◌, ◌||◌, if◌then◌else◌, str_eq,
}
use go_cfc.Base.Int.{ℤ, pos, int_eq}
use go_cfc.Speed.{second}
use go_cfc.Wire.Message.{ConnMsg}
use go_cfc.Task.{TaskError}
use go_cfc.Server.State.{SubInfo, World, OdjSubReq, OdjSubOpenReq, OdjClientInfo, OdjPing}
use go_cfc.Client.Errors.{
  ClientError, Answer, no_answer, answer, Try, fine, fault, ◌>>=◌, wait_answer, check, decoded,
  Replies, dial_failed, open_sub_unexpected_odj, open_sub_box_bad, handshake_is_bad,
  unexpected_sub_open_type, listen_failed, p2p_open_bad, box_stop_listen, req_bad, task,
}
use go_cfc.Client.State.{DeviceBox, SubBox, Listening, update, new_sub, new_box}
use go_cfc.Client.Boxes.{has_room, close_sub, set_sub_box, close_box, set_deadline_duration}
use go_cfc.Client.Boxes.Views.{get_remote_public_addr}

-- The OdjSubReq of fastHandshake.
unfoldable pub task_req : (id tid : String) → ℕ → DeviceBox → OdjSubReq
task_req id tid q box = record {
  id = id;
  src_name = box.name;
  dst_key = tid;
  addr = some (box.subs q).local_addr;
}

abbrev is_some : Option String → Bool
is_some none = false
is_some (some a) = true

-- The names and the TCP addresses are all there.
unfoldable pub is_whole : SubInfo → Bool
is_whole info =
    if str_eq info.local_name ""
      || (str_eq info.remote_name "" || not (is_some info.local_intranet_addr))
    then false
    else if not (is_some info.remote_intranet_addr)
        || (not (is_some info.local_public_addr) || not (is_some info.remote_public_addr))
    then false
    else true

module _ (r : Replies) where
  -- The callback of fastHandshake.
  unfoldable pub on_task_a : ConnMsg r.D → Try SubInfo
  unfolding is_whole
  on_task_a m = do
    _ ← check m "TaskA"
    info ← decoded (r.to_sub_info m.payload)
    if is_whole info then fine info else fault open_sub_unexpected_odj

  -- fastHandshake, whose request is `task_req`: the error, and the box after it.
  unfoldable pub fast_handshake :
      World → Answer r.D → ℕ → DeviceBox → Option ClientError × DeviceBox
  unfolding update on_task_a
  fast_handshake w a q box =
      let box1 = update q (set_deadline_duration w.now (10 * second)) box in
      elim (wait_answer a on_task_a) [
        | fine info ↦ (none, update q (λ c. record c { addr = some info }) box1)
        | fault e ↦ (some e, box1)
      ]

  -- The callback of the request for a room, SOpenQ, whose data names the other client.
  unfoldable pub on_open_a : ConnMsg r.D → Try (String × String)
  on_open_a m = do _ ← check m "sOpenA"; decoded (r.to_sub_open_resp m.payload)

  unfoldable pub open_req : (sub_open_type name : String) → OdjSubOpenReq
  open_req sub_open_type name = record { open_type = sub_open_type; odj_name = name }

  -- From the new sub box on: the handshake, and what follows an error of it.
  unfoldable pub shake : World → Answer r.D → ℕ → DeviceBox → Try ℕ × DeviceBox
  unfolding fast_handshake update
  shake w a q box =
      let (e, box1) = fast_handshake w a q box in
      elim e [
        | some x ↦ (fault (open_sub_box_bad x), (close_sub q box1).1)
        | none ↦ (fine q, update q (set_deadline_duration w.now 0) box1)
      ]

  -- GetSubBox. `a` answers the request for a room, `b` the handshake.
  unfoldable pub get_sub_box : World → (a b : Answer r.D) → DeviceBox → Try ℕ × DeviceBox
  unfolding on_open_a shake
  get_sub_box w a b box = elim (wait_answer a on_open_a) [
    | fault e ↦ (fault e, box)
    | fine _ ↦ elim (w.dial_tcp box.addr) [
      | none ↦ (fault dial_failed, box)
      | some (remote, local) ↦
          let (res, box1) = shake w b box.next (new_sub w "SubTypeProxy" none local remote box) in
          elim res [
            | fault e ↦ (fault e, box1)
            | fine q ↦ (fine q, set_sub_box (box1.subs q).id q box1)
          ]
    ]
  ]

  -- GetSubBoxByP2P, which listens on the local address of its connection after the handshake: what
  -- comes of the Listen and of the Accept is given, the latter with the remote address.
  unfoldable pub get_sub_box_by_p2p :
      World → (a b : Answer r.D) → (listens : Bool) → Option String → DeviceBox → Try ℕ × DeviceBox
  unfolding on_open_a shake update
  get_sub_box_by_p2p w a b listens accepted box = elim (wait_answer a on_open_a) [
    | fault e ↦ (fault e, box)
    | fine _ ↦ elim (w.dial_tcp box.addr) [
      | none ↦ (fault dial_failed, box)
      | some (remote, local) ↦
          let (res, box1) = shake w b box.next (new_sub w "SubTypeP2P" none local remote box) in
          elim res [
            | fault e ↦ (fault e, box1)
            | fine q ↦ elim (if listens then accepted else none) [
              | none ↦ (fault listen_failed, (close_sub q box1).1)
              | some far ↦
                  let box2 =
                    update q (λ c. record c { conn_closed = false; remote_addr = far }) box1 in
                  (fine q, set_sub_box (box2.subs q).id q box2)
            ]
          ]
    ]
  ]

  -- The loop of listenSub over its three tries to dial; `dials i` is the remote address of the one
  -- that succeeds.
  unfoldable pub dial_loop : ℕ → (ℕ → Option String) → ℕ → Option String
  dial_loop zero dials i = none
  dial_loop (suc tries) dials i = elim (dials i) [
    | none ↦ dial_loop tries dials (suc i)
    | some far ↦ some far
  ]

  -- The select of listenSub that a sub box ends in.
  unfoldable pub offer : (stopped : Bool) → ℕ → Listening → DeviceBox → Option DeviceBox
  offer stopped q l box =
      if stopped
      then elim l.sub_listen_stop [ [] ↦ none | _ ∷ _ ↦ some (close_sub q box).1 ]
      else if has_room (length l.sub_listen) l.cap l
      then some (
          set_sub_box (box.subs q).id q
            (record box { listening = some (record l { sub_listen = l.sub_listen ++ q ∷ [] }) }))
      else none

  -- The second switch of listenSub, on the type of the sub box.
  unfoldable pub punch_through :
      String → (listens : Bool) → (ℕ → Option String) → ℕ → DeviceBox → Bool × DeviceBox
  unfolding dial_loop update
  punch_through sub_open_type listens dials q box =
      if str_eq sub_open_type "SubOpenTypeDefault"
      then (true, box)
      else if not listens
      then (false, (close_sub q box).1)
      else elim (dial_loop 3 dials 0) [
        -- the sub box is left open over a connection that is closed on return
        | none ↦ (false, update q (λ c. record c { conn_closed = true }) box)
        | some far ↦ (true, update q (λ c. record c { conn_closed = false; remote_addr = far }) box)
      ]

  -- listenSub; `none` waits forever.
  unfoldable pub listen_sub :
      World
      → ConnMsg r.D
      → (b : Answer r.D) → (listens : Bool) → (ℕ → Option String)
      → (stopped : Bool) → DeviceBox
      → Option DeviceBox
  unfolding shake punch_through offer
  listen_sub w m b listens dials stopped box =
      if not (str_eq m.id "") then some box else elim box.listening [
        | none ↦ some box
        | some l ↦ elim (r.to_sub_open_resp m.payload) [
          | none ↦ some box
          | some (tid, sub_open_type) ↦
              if str_eq sub_open_type "SubOpenTypeTCPP2P"
                || str_eq sub_open_type "SubOpenTypeDefault"
              then elim (w.dial_tcp box.addr) [
                | none ↦ some box
                | some (remote, local) ↦
                    let (res, box1) = shake w b box.next (new_sub w "" none local remote box) in
                    elim res [
                      | fault e ↦ some box1
                      | fine q ↦
                          let (go, box2) = punch_through sub_open_type listens dials q box1 in
                          if go then offer stopped q l box2 else some box2
                    ]
              ]
              else some box
        ]
      ]

-- The beginning of ListenSubBox and of ListenSubBoxOnce. A box that is listening already keeps its
-- channels, if the log of an error in the first one does not panic (`none`).
unfoldable pub listen_sub_box : (panics : Bool) → DeviceBox → Option DeviceBox
listen_sub_box panics box =
    if box.is_listen
    then if panics then none else some box
    else some (record box {
      is_listen = true;
      listening = some (record {
        cap = 100;
        sub_listen = [];
        stop_cap = 1;
        sub_listen_stop = [];
        receivers = 0;
      });
    })

unfoldable pub listen_sub_box_once : DeviceBox → DeviceBox
listen_sub_box_once box =
    let l = elim (if box.is_listen then box.listening else none) as (λ _. Listening) [
      | none ↦ record {
        cap = 0;
        sub_listen = [];
        stop_cap = 0;
        sub_listen_stop = [];
        receivers = 0;
      }
      | some l ↦ l
    ] in
    record box { is_listen = true; listening = some (record l { receivers = suc l.receivers }) }

-- A round of the loop of ListenSubBox: a sub box for `fn`, or the error that it returns.
unfoldable pub listen_round : (stopped : Bool) → Listening → Option (Try ℕ × Listening)
listen_round true l = elim l.sub_listen_stop [
  | [] ↦ none
  | e ∷ es ↦ some (fault (box_stop_listen e), record l { sub_listen_stop = es ++ e ∷ [] })
]
listen_round false l = elim l.sub_listen [
  | [] ↦ none
  | q ∷ qs ↦ some (fine q, record l { sub_listen = qs })
]

-- The end of ListenSubBoxOnce, which does not put the error back.
unfoldable pub receive_once : (stopped : Bool) → Listening → Option (Try ℕ × Listening)
receive_once true l = elim l.sub_listen_stop [
  | [] ↦ none
  | e ∷ es ↦
      some
        (fault (box_stop_listen e), record l { sub_listen_stop = es; receivers = l.receivers - 1 })
]
receive_once false l = elim l.sub_listen [
  | [] ↦ none
  | q ∷ qs ↦ some (fine q, record l { sub_listen = qs; receivers = l.receivers - 1 })
]

-- ===== src/Client/Up2p.antt =====
-- Sub boxes over UDP hole punching: client/client_up2p.go. What happens at a socket is a list of
-- events, in their order; an address is its text.
pub mod Handshake
use go_cfc.Base.{
  ℕ, zero, suc, ◌+◌, Bool, true, false, not, Option, none, some, List, [], ◌∷◌, ◌++◌, String, Bytes,
  ◌==◌, ◌&&◌, if◌then◌else◌, str_eq,
}
use go_cfc.Wire.Cipher.{same_bytes}
use go_cfc.Wire.Message.{ConnMsg}
use go_cfc.Task.{timed_out}
use go_cfc.Server.State.{World, SubInfo}
use go_cfc.Client.Errors.{
  ClientError, Answer, Try, fine, fault, ◌>>=◌, wait_answer, check, decoded, Replies, task,
  write_failed, listen_failed, dial_failed,
}
use go_cfc.Client.State.{DeviceBox, new_sub}
use go_cfc.Client.Boxes.{set_sub_box}
use go_cfc.Client.Opening.{offer}

-- At the socket of handshakeUP2P: a packet comes, or the second is over and the packet of this side
-- is written, with success or not.
pub data Event : Type 0 where
  packet : (from : String) → Bytes → Event
  tick : (written : Bool) → Event

-- The variables of handshakeUP2P: the rounds that are left of its loop, `timeout`, and how many
-- packets it has written.
pub record Shaking : Type 0 where
  pub left : ℕ
  pub timeout : Bool
  pub wrote : ℕ

-- The call goes on, or it has returned an error or nil.
pub data Shook : Type 0 where
  shaking : Shaking → Shook
  over : Option ClientError → ℕ → Shook

-- What follows a round.
unfoldable pub next_round : Shaking → Shook
next_round s = elim s.left [
  | zero ↦ over (if s.timeout then some (task timed_out) else none) s.wrote
  | suc _ ↦ shaking s
]

-- One event. The reader stops at the first packet that holds `kid` and comes from `addr`, and the
-- `break` that follows `<-stop` ends the select and not the loop.
unfoldable pub on_event : (addr : String) (kid : Bytes) → Event → Shaking → Shook
unfolding next_round
on_event addr kid (packet from b) s =
    if s.timeout && (str_eq from addr && same_bytes b kid)
    then elim s.left [
      | zero ↦ shaking s
      | suc left ↦ next_round (record s { left = left; timeout = false })
    ]
    else shaking s
on_event addr kid (tick written) s = elim s.left [
  | zero ↦ shaking s
  | suc left ↦
      if written
      then next_round (record s { left = left; wrote = suc s.wrote })
      else over (some write_failed) s.wrote
]

unfoldable pub shake_loop : (addr : String) (kid : Bytes) → List Event → Shook → Shook
unfolding on_event
shake_loop addr kid [] s = s
shake_loop addr kid (e ∷ es) (over x n) = over x n
shake_loop addr kid (e ∷ es) (shaking s) = shake_loop addr kid es (on_event addr kid e s)

unfoldable pub handshake_up2p : (addr : String) (kid : Bytes) → List Event → Shook
unfolding shake_loop
handshake_up2p addr kid es =
    shake_loop addr kid es (shaking (record { left = 3; timeout = true; wrote = 0 }))

-- The goroutine of handleUP2P that tells the server the address: whether it still receives from
-- `stop` after the writes `oks`, of which the first that fails ends it.
unfoldable pub still_telling : (left : ℕ) → List Bool → Bool
still_telling zero oks = false
still_telling (suc left) [] = true
still_telling (suc left) (false ∷ oks) = false
still_telling (suc left) (true ∷ oks) = still_telling left oks

-- ln.AcceptKCP() until the other side is accepted.
unfoldable pub accept_kcp : (addr : String) → List String → Bool
accept_kcp addr [] = false
accept_kcp addr (far ∷ others) = if str_eq far addr then true else accept_kcp addr others

-- What the outside does during a call of handleUP2P: whether the first Listen works and its
-- writes to the server before the answer, the events of the handshake, the local address of the
-- second Listen, and whether the kcp session is made, or the sessions that are accepted.
pub record Punching : Type 0 where
  pub listens : Bool
  pub tells : List Bool
  pub events : List Event
  pub second : Option String
  pub kcp_made : Bool
  pub kcp_served : Bool
  pub accepted : List String

-- A nil address has the text "<nil>".
abbrev addr_text : Option String → String
addr_text none = "<nil>"
addr_text (some a) = a

module _ (r : Replies) where
  unfoldable pub on_up2p_a1 : ConnMsg r.D → Try (Option String × SubInfo)
  on_up2p_a1 m = do _ ← check m "P2PUdpA1"; decoded (r.to_up2p_resp m.payload)

  -- handleUP2P after the answer: the local and the remote address of the new session.
  unfoldable pub punch :
      (is_client : Bool) → Punching → Option String → Bytes → Option (Try (String × String))
  unfolding handshake_up2p accept_kcp
  punch is_client p addr kid = elim (handshake_up2p (addr_text addr) kid p.events) [
    | shaking _ ↦ none
    | over (some e) _ ↦ some (fault e)
    | over none _ ↦ elim p.second [
      | none ↦ some (fault listen_failed)
      | some near ↦ some (
          if (if is_client
            then p.kcp_made
            else p.kcp_served && accept_kcp (addr_text addr) p.accepted)
          then fine (near, addr_text addr)
          else fault dial_failed)
    ]
  ]

  -- handleUP2P; `none` never returns: the callback sends to `stop`, and nobody receives any more.
  unfoldable pub handle_up2p :
      (is_client : Bool)
      → Punching
      → (kid : Bytes) → Answer r.D
      → Option (Try ((String × String) × SubInfo))
  unfolding on_up2p_a1 still_telling punch
  handle_up2p is_client p kid a =
      if not p.listens then some (fault listen_failed) else elim (wait_answer a on_up2p_a1) [
        | fault e ↦ some (fault e)
        | fine (addr, info) ↦
            if not (still_telling 3 p.tells) then none else elim (punch is_client p addr kid) [
              | none ↦ none
              | some (fault e) ↦ some (fault e)
              | some (fine addrs) ↦ some (fine (addrs, info))
            ]
      ]

  -- The callback of GetSubBoxByUP2P, which expects the header of its own request.
  unfoldable pub on_up2p_q1 : ConnMsg r.D → Try String
  on_up2p_q1 m = do _ ← check m "P2PUdpQ1"; decoded (r.to_up2p_id m.payload)

  -- GetSubBoxByUP2P; `bytes_of` gives the bytes of a text.
  unfoldable pub get_sub_box_by_up2p :
      World
      → (String → Bytes)
      → (a b : Answer r.D) → Punching
      → DeviceBox
      → Option (Try ℕ × DeviceBox)
  unfolding on_up2p_q1 handle_up2p
  get_sub_box_by_up2p w bytes_of a b p box = elim (wait_answer a on_up2p_q1) [
    | fault e ↦ some (fault e, box)
    | fine kid ↦ elim (handle_up2p true p (bytes_of kid) b) [
      | none ↦ none
      | some (fault e) ↦ some (fault e, box)
      | some (fine ((near, far), info)) ↦
          let box1 = new_sub w "SubTypeUP2P" (some info) near far box in
          some (fine box.next, set_sub_box (box1.subs box.next).id box.next box1)
    ]
  ]

  -- listenUP2P; on a nil channel it waits forever.
  unfoldable pub listen_up2p :
      World
      → (String → Bytes)
      → ConnMsg r.D
      → (b : Answer r.D) → Punching
      → (stopped : Bool) → DeviceBox
      → Option DeviceBox
  unfolding handle_up2p
  listen_up2p w bytes_of m b p stopped box = elim (r.to_up2p_id m.payload) [
    | none ↦ some box
    | some kid ↦ elim (handle_up2p false p (bytes_of kid) b) [
      | none ↦ none
      | some (fault e) ↦ some box
      | some (fine ((near, far), info)) ↦ elim box.listening [
        | none ↦ none
        | some l ↦ offer r stopped box.next l (new_sub w "" (some info) near far box)
      ]
    ]
  ]

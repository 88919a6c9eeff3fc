-- ===== src/Server/Piping.antt =====
-- A connection and the bytes at its sockets: the rounds of tcpHandler (server/proxy.go), and Read,
-- Write, writeLinkConn and readLinkConn of server/proxy_client.go.
pub mod Ties
pub mod Pipes
pub mod Ends
pub mod Order
pub mod Refinement
pub mod Meeting
pub mod Progress
use go_cfc.Base.{
  ℕ, zero, suc, ◌+◌, Bool, true, false, not, Option, none, some, List, [], ◌∷◌, Bytes, length, drop,
  String, ◌==◌, if◌then◌else◌, ◌&&◌, str_eq,
}
use go_cfc.Base.Assoc.{lookup}
use go_cfc.Speed.{set}
use go_cfc.Wire.Errors.{ok, err, panic, stuck, read_c_skip_to_fast_conn}
use go_cfc.Wire.Cipher.{Gcm}
use go_cfc.Wire.Packet.{buffer_size}
use go_cfc.Wire.Message.{ConnMsg, Json, Data, Key, read_c_msg}
use go_cfc.LinkBox.{
  LinkBox, LinkBoxRwFn, new_link_box, Copied, done, failed, crashed, read_link_box_to_writer,
  write_link_box_from_reader,
}
use go_cfc.Server.State.{
  ProxyServer, ProxyClient, Config, World, Incoming, no_conn, peer, dialled, modify,
}
use go_cfc.Server.Closing.{close}
use go_cfc.Server.Sending.{count_packet}
use go_cfc.Server.Tunnel.{vpn_read_fn, vpn_write_fn}
use go_cfc.Server.Handlers.Dispatch.{accept, c_msg_handler}

-- Of each connection: the bytes that its reader has not read, its link box, and whether its
-- tcpHandler is in the loop.
pub record Wires : Type 0 where
  pub incoming : ℕ → Bytes
  pub boxes : ℕ → LinkBox
  pub serving : ℕ → Bool

unfoldable pub arrive : ℕ → Bytes → Wires → Wires
arrive r s v = record v { incoming = λ p. if r == p then s else v.incoming p }

unfoldable pub put_box : ℕ → LinkBox → Wires → Wires
put_box r lb v = record v { boxes = λ p. if r == p then lb else v.boxes p }

unfoldable pub stop_serving : ℕ → Wires → Wires
stop_serving r v = record v { serving = λ p. if r == p then false else v.serving p }

-- SetDeadline of a connection, to an instant or to none.
unfoldable pub set_pc_deadline : Option ℕ → ℕ → ProxyServer → ProxyServer
set_pc_deadline t r = modify r λ c. record c { deadline = t }

unfoldable pub pc_remote_addr : ℕ → ProxyServer → String
pc_remote_addr r s = (s.clients r).remote_addr

unfoldable pub get_proxy_sub_client : ℕ → String → ProxyServer → Option ℕ
get_proxy_sub_client r key s = lookup key (s.clients r).sub_map

-- The loop of listenTcp over what its Accepts give, each from an address: whether it still runs. An
-- error of Accept (`none`) ends it, and nobody is accepted any more.
unfoldable pub accept_loop :
    Config → List (Option (World × String)) → ProxyServer → Wires → Bool × ProxyServer × Wires
unfolding accept arrive
accept_loop config [] s v = (true, s, v)
accept_loop config (none ∷ accepted) s v = (false, s, v)
accept_loop config (some (w, addr) ∷ accepted) s v =
    accept_loop config accepted (accept config w addr s)
      (record (arrive s.next [] v) { serving = λ p. if s.next == p then true else v.serving p })

module _ (w : World) where
  -- Whether the Write number `n` from now on succeeds.
  unfoldable pub pc_accepts : ProxyServer → ℕ → ℕ → Bool
  pc_accepts s q n =
      if (s.clients q).disable then false else w.write_ok q ((s.clients q).writes + n)

  -- Write: the number of bytes, or an error.
  unfoldable pub write_pc : Bytes → ℕ → ProxyServer → Option ℕ × ProxyServer
  unfolding pc_accepts count_packet
  write_pc b r s =
      if pc_accepts s r 0
      then (some (length b), modify r (count_packet w (length b)) s)
      else (none, s)

  -- Read, where reader.Read gives `got` or an error: that one is lost, and no bytes are read.
  unfoldable pub read_pc : Option Bytes → ℕ → ProxyServer → Option Bytes × ProxyServer
  read_pc none r s = (some [], s)
  read_pc (some b) r s = (
    some b,
    modify r
        (λ c. record c {
          network_speed = record c.network_speed {
            upload = set w.now (length b) c.network_speed.upload;
          };
        })
        s,
  )

  -- The effect of one Write after the other on the connection `q`.
  unfoldable pub count_pieces : ℕ → List Bytes → ProxyServer → ProxyServer
  unfolding count_packet
  count_pieces q [] s = s
  count_pieces q (b ∷ bs) s = count_pieces q bs (modify q (count_packet w (length b)) s)

  -- writeLinkConn. `got` is what the Read gives, and `dial_ok` is for a link that was dialled.
  unfoldable pub write_link_conn :
      Option ℕ → (ℕ → Bool) → ℕ → ProxyServer → Wires → Copied × ProxyServer × Wires
  unfolding pc_accepts count_pieces put_box arrive write_link_box_from_reader
  write_link_conn got dial_ok r s v = elim (s.clients r).link_conn [
    | no_conn ↦ (crashed, s, v)
    | peer q ↦
        let (c, lb, rest) =
          write_link_box_from_reader got (pc_accepts s q) buffer_size (v.incoming r) (v.boxes r) in
        let pieces = drop (length (v.boxes r).link_written) lb.link_written in
        (c, count_pieces q pieces s, put_box r lb (arrive r rest v))
    | dialled closed ↦
        let (c, lb, rest) =
          write_link_box_from_reader got (λ n. not closed && dial_ok n) buffer_size (v.incoming r)
            (v.boxes r) in
        (c, s, put_box r lb (arrive r rest v))
  ]

-- readLinkConn, over what its rounds meet; the connection has got `out`. After the last round that
-- is given, the loop waits.
unfoldable pub read_link_conn :
    List (Option ℕ × (ℕ → Bool))
    → ℕ
    → ProxyServer
    → LinkBox
    → List Bytes
    → Copied × ProxyServer × LinkBox × List Bytes
unfolding read_link_box_to_writer
read_link_conn [] r s lb out = (done, s, lb, out)
read_link_conn ((got, accepts) ∷ rounds) r s lb out =
    let (c, lb', out') = read_link_box_to_writer got accepts lb out in
    elim c [
      | done ↦ read_link_conn rounds r s lb' out'
      | failed ↦ (failed, close r s, lb', out')
      | crashed ↦ (crashed, s, lb', out')
    ]

module _ (g : Gcm) (json : Json) (k : Key) (config : Config) (u : Incoming)
    (decode : ConnMsg (Data json.J) → ConnMsg u.D) (to_bytes : Data json.J → Option Bytes) where
  -- The link box that initLinkConn makes of a connection, over a link that has nothing to read yet.
  -- What the Reads of the second function of a VPN link give, and where it begins to draw, is the
  -- same at each of its calls.
  unfoldable pub link_box_of : (skip : ℕ → Bool) → Option ℕ → ℕ → ProxyClient → LinkBox
  unfolding new_link_box vpn_read_fn vpn_write_fn
  link_box_of skip got draw c =
      if str_eq c.link_type "LinkTypeVPN"
      then new_link_box buffer_size [] (some (vpn_read_fn g json k to_bytes skip))
          (some (vpn_write_fn g json k got buffer_size draw))
      else new_link_box buffer_size [] none none

  -- The boxes after a message: the connections that are linked now have one.
  unfoldable pub link_boxes : (skip : ℕ → Bool) → Option ℕ → ℕ → (s t : ProxyServer) → Wires → Wires
  unfolding link_box_of
  link_boxes skip got draw s t v = record v {
    boxes = λ p.
        if (t.clients p).link_switch && not (s.clients p).link_switch
        then link_box_of skip got draw (t.clients p)
        else v.boxes p;
  }

  unfoldable pub count_upload : World → List ℕ → ℕ → ProxyServer → ProxyServer
  unfolding set
  count_upload w [] r s = s
  count_upload w (n ∷ ns) r s = count_upload w ns r (
      modify r
        (λ c. record c {
          network_speed = record c.network_speed { upload = set w.now n c.network_speed.upload };
        })
        s)

  -- A round of tcpHandler, with the close on return; `none` is a panic.
  unfoldable pub tcp_round :
      World
      → (skip : ℕ → Bool) → Option ℕ
      → (dial_ok : ℕ → Bool) → (draw r : ℕ) → ProxyServer
      → Wires
      → Option (ProxyServer × Wires)
  unfolding write_link_conn read_c_msg arrive stop_serving link_boxes count_upload
  tcp_round w skip got dial_ok draw r s v =
      if not (v.serving r)
      then some (s, v)
      else if (s.clients r).link_switch
      then (let (c, s', v') = write_link_conn w got dial_ok r s v in
          elim c as (λ _. Option (ProxyServer × Wires)) [
            | done ↦ some (s', v')
            | failed ↦ some (close r s', stop_serving r v')
            | crashed ↦ none
          ])
      else (let m = read_c_msg g json k skip (v.incoming r) in
          let s' = count_upload w m.speed r s in
          let v' = arrive r m.rest v in
          elim m.result as (λ _. Option (ProxyServer × Wires)) [
            | ok msg ↦ elim (c_msg_handler config w u (decode msg) r s') [
              | none ↦ none
              | some t ↦ some (t, link_boxes skip got draw s' t v')
            ]
            | err read_c_skip_to_fast_conn ↦ some (s', v')
            | err _ ↦ some (close r s', stop_serving r v')
            | panic ↦ none
            | stuck ↦ none
          ])

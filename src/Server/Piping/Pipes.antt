-- ===== src/Server/Piping/Pipes.antt =====
-- Two connections that are linked with each other, as a pair of pipes.
use go_cfc.Base.{
  ℕ, ◌≡◌, ◌⊎◌, inl, inr, refl, ap, ◌∙◌, Bool, true, false, Option, none, some, List, [], ◌∷◌, ◌++◌,
  Bytes, take, drop, arith, Bool-cases, length,
}
use Prim.Native.Nat.{min}
use go_cfc.Wire.Cipher.{Gcm}
use go_cfc.Wire.Packet.{buffer_size}
use go_cfc.Wire.Message.{ConnMsg, Json, Data, Key}
use go_cfc.LinkBox.{
  LinkBox, Copied, done, failed, crashed, write_link_box_from_reader, writes, write_list, read_some,
}
use go_cfc.Server.State.{ProxyServer, Config, World, Incoming, peer}
use go_cfc.Server.Closing.{close}
use go_cfc.Server.Piping.{
  Wires, arrive, put_box, stop_serving, pc_accepts, count_pieces, write_link_conn, tcp_round,
}
use go_cfc.Server.Piping.Ties.{Keeps}

-- The specification: a pipe has what it has delivered and what is in flight, and the two
-- directions of a link are alive together.
pub record Pipe : Type 0 where
  pub delivered : Bytes
  pub flight : Bytes

pub record Duplex : Type 0 where
  pub there : Pipe
  pub back : Pipe
  pub alive : Bool

abbrev pub put : Bytes → Pipe → Pipe
put b p = record p { flight = p.flight ++ b }

abbrev pub deliver : ℕ → Pipe → Pipe
deliver n p = record { delivered = p.delivered ++ take n p.flight; flight = drop n p.flight }

abbrev pub lose : ℕ → Pipe → Pipe
lose n p = record p { flight = drop n p.flight }

-- The runs of the specification, with what is put into either pipe: the first bytes in flight are
-- delivered while the link is alive; it may be cut, with bytes in flight lost, for good.
pub data Spec : Duplex → Bytes → Bytes → Duplex → Type 0 where
  ends : (d : Duplex) → Spec d [] [] d
  puts :
      (b x y : Bytes) (d e : Duplex)
      → Spec (record d { there = put b d.there }) x y e
      → Spec d (b ++ x) y e
  puts_back :
      (b x y : Bytes) (d e : Duplex)
      → Spec (record d { back = put b d.back }) x y e
      → Spec d x (b ++ y) e
  delivers :
      (n : ℕ) (x y : Bytes) (d e : Duplex)
      → d.alive ≡ true
      → Spec (record d { there = deliver n d.there }) x y e
      → Spec d x y e
  delivers_back :
      (n : ℕ) (x y : Bytes) (d e : Duplex)
      → d.alive ≡ true
      → Spec (record d { back = deliver n d.back }) x y e
      → Spec d x y e
  cuts :
      (n m : ℕ) (x y : Bytes) (d e : Duplex)
      → Spec (record { there = lose n d.there; back = lose m d.back; alive = false }) x y e
      → Spec d x y e

-- One round of a link box without functions: a piece is passed on, or nothing is.
pub raw_round :
    (got : Option ℕ) (accepts : ℕ → Bool) (size : ℕ) (s : Bytes) (lb : LinkBox)
    → lb.link_read_fn ≡ none
    → ((n : ℕ) × (accepts 0 ≡ true)
        × (write_link_box_from_reader got accepts size s lb
            ≡ (done, record lb { link_written = lb.link_written ++ take n s ∷ [] }, drop n s)))
      ⊎ ((n : ℕ) × (write_link_box_from_reader got accepts size s lb
            ≡ (failed, record lb { link_written = lb.link_written }, drop n s)))
unfolding write_link_box_from_reader writes write_list read_some drop
raw_round none accepts size s lb raw = inr (0, rw raw refl)
raw_round (some n) accepts size s lb raw = elim (Bool-cases (accepts 0)) [
  | inl h ↦ inl (min n size, h, rw (raw, write_list, h) refl)
  | inr h ↦ inr (min n size, rw (raw, write_list, h) refl)
]

module _ (g : Gcm) (json : Json) (k : Key) (config : Config) (u : Incoming)
    (decode : ConnMsg (Data json.J) → ConnMsg u.D) (to_bytes : Data json.J → Option Bytes)
    (r q : ℕ) where
  -- What happens to the two connections: their clients send bytes, their tcpHandlers go round, and
  -- connections are closed.
  pub data Runs : ProxyServer → Wires → Bytes → Bytes → ProxyServer → Wires → Type 0 where
    rests : (s : ProxyServer) (v : Wires) → Runs s v [] [] s v
    sends :
        (b x y : Bytes) (s t : ProxyServer) (v v' : Wires)
        → Runs s (arrive r (v.incoming r ++ b) v) x y t v'
        → Runs s v (b ++ x) y t v'
    sends_back :
        (b x y : Bytes) (s t : ProxyServer) (v v' : Wires)
        → Runs s (arrive q (v.incoming q ++ b) v) x y t v'
        → Runs s v x (b ++ y) t v'
    serves :
        (w : World) (skip : ℕ → Bool) (got : Option ℕ) (dial_ok : ℕ → Bool) (draw : ℕ) (x y : Bytes)
        (s s1 t : ProxyServer) (v v1 v' : Wires)
        → tcp_round g json k config u decode to_bytes w skip got dial_ok draw r s v ≡ some (s1, v1)
        → Runs s1 v1 x y t v'
        → Runs s v x y t v'
    serves_back :
        (w : World) (skip : ℕ → Bool) (got : Option ℕ) (dial_ok : ℕ → Bool) (draw : ℕ) (x y : Bytes)
        (s s1 t : ProxyServer) (v v1 v' : Wires)
        → tcp_round g json k config u decode to_bytes w skip got dial_ok draw q s v ≡ some (s1, v1)
        → Runs s1 v1 x y t v'
        → Runs s v x y t v'
    closes :
        (p : ℕ) (x y : Bytes) (s t : ProxyServer) (v v' : Wires)
        → Runs (close p s) v x y t v'
        → Runs s v x y t v'

-- One end of a link: connection `x`, whose peer is `y`. One that is no longer served is closed.
pub record End (x y : ℕ) (s : ProxyServer) (v : Wires) : Type 0 where
  pub switch : (s.clients x).link_switch ≡ true
  pub conn : (s.clients x).link_conn ≡ peer y
  pub raw : (v.boxes x).link_read_fn ≡ none
  pub flag : (s.clients x).once ≡ (s.clients x).disable
  pub gone : v.serving x ≡ false → (s.clients x).disable ≡ true

-- The wires after a round of `x`, which takes `n` bytes and passes on `piece`.
abbrev pub passed : ℕ → ℕ → List Bytes → Wires → Wires
passed x n piece v =
    put_box x (record (v.boxes x) { link_written = (v.boxes x).link_written ++ piece })
      (arrive x (drop n (v.incoming x)) v)

-- What a round of one end may come to.
pub data Outcome (x y : ℕ) (s : ProxyServer) (v : Wires) (s1 : ProxyServer) (v1 : Wires)
    : Type 0 where
  idle : s1 ≡ s → v1 ≡ v → Outcome x y s v s1 v1
  passes :
      (n : ℕ)
      → v.serving x ≡ true
      → (s.clients y).disable ≡ false
      → Keeps s s1
      → v1 ≡ passed x n (take n (v.incoming x) ∷ []) v
      → Outcome x y s v s1 v1
  stops :
      (n : ℕ)
      → Keeps s s1
      → (s1.clients x).disable ≡ true
      → v1 ≡ stop_serving x (passed x n [] v)
      → Outcome x y s v s1 v1

-- writeLinkConn after what the link box has done, and tcpHandler after that.
abbrev pub after_box :
    World → ℕ → ℕ → ProxyServer → Wires → Copied × LinkBox × Bytes → Copied × ProxyServer × Wires
after_box w x y s v p = (
  p.0,
  count_pieces w y (drop (length (v.boxes x).link_written) p.1.link_written) s,
  put_box x p.1 (arrive x p.2 v),
)

abbrev pub after_write : ℕ → Copied × ProxyServer × Wires → Option (ProxyServer × Wires)
after_write x p = elim p.0 as (λ _. Option (ProxyServer × Wires)) [
  | done ↦ some (p.1, p.2)
  | failed ↦ some (close x p.1, stop_serving x p.2)
  | crashed ↦ none
]

pub some_pair :
    {s s1 : ProxyServer} {v v1 : Wires} {o : Option (ProxyServer × Wires)}
    → o ≡ some (s1, v1)
    → o ≡ some (s, v)
    → (s1 ≡ s) × (v1 ≡ v)
some_pair e h = (cc, cc)

pub pc_accepts_open :
    (w : World) (s : ProxyServer) (q n : ℕ)
    → pc_accepts w s q n ≡ true
    → (s.clients q).disable ≡ false
unfolding pc_accepts
pc_accepts_open w s q n h = ground arith

module _ (g : Gcm) (json : Json) (k : Key) (config : Config) (u : Incoming)
    (decode : ConnMsg (Data json.J) → ConnMsg u.D) (to_bytes : Data json.J → Option Bytes) where
  pub idle_round :
      (w : World) (skip : ℕ → Bool) (got : Option ℕ) (dial_ok : ℕ → Bool) (draw x : ℕ)
      (s : ProxyServer) (v : Wires)
      → v.serving x ≡ false
      → tcp_round g json k config u decode to_bytes w skip got dial_ok draw x s v ≡ some (s, v)
  unfolding tcp_round
  idle_round w skip got dial_ok draw x s v h = rw (h, tcp_round)

  linked_write :
      (w : World) (got : Option ℕ) (dial_ok : ℕ → Bool) (x y : ℕ) (s : ProxyServer) (v : Wires)
      → End x y s v
      → write_link_conn w got dial_ok x s v
        ≡ after_box w x y s v (
            write_link_box_from_reader got
              (pc_accepts w s y)
              buffer_size
              (v.incoming x)
              (v.boxes x))
  unfolding write_link_conn
  linked_write w got dial_ok x y s v e = rw (write_link_conn, e.conn) refl

  pub linked_round :
      (w : World) (skip : ℕ → Bool) (got : Option ℕ) (dial_ok : ℕ → Bool) (draw x y : ℕ)
      (s : ProxyServer) (v : Wires)
      → v.serving x ≡ true
      → End x y s v
      → tcp_round g json k config u decode to_bytes w skip got dial_ok draw x s v
        ≡ after_write x (
            after_box w x y s v (
              write_link_box_from_reader got
                (pc_accepts w s y)
                buffer_size
                (v.incoming x)
                (v.boxes x)))
  linked_round w skip got dial_ok draw x y s v h e =
      switched ∙ ap (after_write x) (linked_write w got dial_ok x y s v e)
    where
      switched :
          tcp_round g json k config u decode to_bytes w skip got dial_ok draw x s v
          ≡ after_write x (write_link_conn w got dial_ok x s v)
      switched = unfold tcp_round in rw (h, e.switch) refl

-- ===== src/Server/Piping/Progress.antt =====
-- What is in flight between two linked connections is delivered.
use go_cfc.Base.{
  ℕ, zero, suc, ◌+◌, ◌≡◌, ◌≢◌, refl, sym, ap, ◌∙◌, Bool, true, false, Option, none, some, List, [],
  ◌∷◌, ◌++◌, Bytes, length, take, drop, arith, map, concat,
}
use go_cfc.Base.Lists.{sum, drop-drop}
use Prim.Native.Nat.{min}
use mathlib.Core.List.{append-nil, append_assoc}
use go_cfc.Wire.Cipher.{Gcm}
use go_cfc.Wire.Packet.{buffer_size}
use go_cfc.Wire.Message.{ConnMsg, Json, Data, Key}
use go_cfc.LinkBox.{LinkBox, done, write_link_box_from_reader, writes, write_list, read_some}
use go_cfc.Server.State.{ProxyServer, Config, World, Incoming, modify}
use go_cfc.Server.Sending.{count_packet}
use go_cfc.Server.Piping.{Wires, pc_accepts, count_pieces, tcp_round}
use go_cfc.Server.Piping.Ties.{count_pieces-Keeps}
use go_cfc.Server.Piping.Pipes.{End, passes, passed, after_box, after_write, linked_round}
use go_cfc.Server.Piping.Ends.{view, Outcome-End, passed-Looks, concat-piece}

-- How much a round takes that could read `n` bytes.
abbrev pub piece_size : ℕ → ℕ
piece_size n = min n buffer_size

-- A round passes on what it has read.
one_piece :
    (n : ℕ) (accepts : ℕ → Bool) (s : Bytes) (lb : LinkBox)
    → lb.link_read_fn ≡ none
    → accepts 0 ≡ true
    → write_link_box_from_reader (some n) accepts buffer_size s lb ≡ (
      done,
      record lb { link_written = lb.link_written ++ take (piece_size n) s ∷ [] },
      drop (piece_size n) s,
    )
unfolding write_link_box_from_reader writes write_list read_some
one_piece n accepts s lb raw taken = rw (raw, write_list, taken) refl

at_first : (xs : Bytes) → (take 0 xs ≡ []) × (drop 0 xs ≡ xs)
unfolding take drop
at_first xs = (refl, refl)

take_more : (m n : ℕ) (xs : Bytes) → take m xs ++ take n (drop m xs) ≡ take (m + n) xs
unfolding take drop
take_more zero n xs = ap (λ k. take k xs) (omega arith)
take_more (suc m) n [] = nothing n ∙ sym (nothing (suc m + n))
  where
    nothing : (k : ℕ) → take {A = ℕ} k [] ≡ []
    nothing zero = refl
    nothing (suc k) = refl
take_more (suc m) n (x ∷ xs) =
    ap (λ z. x ∷ z) (take_more m n xs)
    ∙ ap (λ k. take k (x ∷ xs)) (let e : suc (m + n) ≡ suc m + n = omega arith in e)

count_pieces-disable :
    (w : World) (q p : ℕ) (bs : List Bytes) (s : ProxyServer)
    → ((count_pieces w q bs s).clients p).disable ≡ (s.clients p).disable
unfolding count_pieces modify count_packet
count_pieces-disable w q p [] s = refl
count_pieces-disable w q p (b ∷ bs) s =
    count_pieces-disable w q p bs (modify q (count_packet w (length b)) s) ∙ ground arith

accepts_now :
    (w : World) (s : ProxyServer) (q : ℕ)
    → ((n : ℕ) → w.write_ok q n ≡ true)
    → (s.clients q).disable ≡ false
    → pc_accepts w s q 0 ≡ true
unfolding pc_accepts
accepts_now w s q works up = rw (up, works _) refl

module _ (g : Gcm) (json : Json) (k : Key) (config : Config) (u : Incoming)
    (decode : ConnMsg (Data json.J) → ConnMsg u.D) (to_bytes : Data json.J → Option Bytes)
    (w : World) (skip dial_ok : ℕ → Bool) (draw : ℕ) where
  -- Rounds of the tcpHandler of `r`, one after the other, whose reads could give so many bytes each.
  abbrev pub rounds : ℕ → List ℕ → ProxyServer → Wires → Option (ProxyServer × Wires)
  rounds r [] s v = some (s, v)
  rounds r (n ∷ ns) s v =
      elim (tcp_round g json k config u decode to_bytes w skip (some n) dial_ok draw r s v)
        as (λ _. Option (ProxyServer × Wires)) [ none ↦ none | some (s', v') ↦ rounds r ns s' v' ]

  round_first :
      (r n : ℕ) (ns : List ℕ) (s s' : ProxyServer) (v v' : Wires)
      → tcp_round g json k config u decode to_bytes w skip (some n) dial_ok draw r s v
        ≡ some (s', v')
      → rounds r (n ∷ ns) s v ≡ rounds r ns s' v'
  round_first r n ns s s' v v' e = rw (rounds, e) refl

module _ (g : Gcm) (json : Json) (k : Key) (config : Config) (u : Incoming)
    (decode : ConnMsg (Data json.J) → ConnMsg u.D) (to_bytes : Data json.J → Option Bytes)
    (w : World) (skip dial_ok : ℕ → Bool) (draw r q : ℕ) (ne : r ≢ q)
    (works : (n : ℕ) → w.write_ok q n ≡ true) where
  -- The state after such a round.
  abbrev after_one : ℕ → ProxyServer → Wires → ProxyServer
  after_one n s v =
      count_pieces w q
        (drop (length (v.boxes r).link_written)
          ((v.boxes r).link_written ++ take (piece_size n) (v.incoming r) ∷ []))
        s

  one_round :
      (n : ℕ) (s : ProxyServer) (v : Wires)
      → v.serving r ≡ true
      → End r q s v
      → (s.clients q).disable ≡ false
      → tcp_round g json k config u decode to_bytes w skip (some n) dial_ok draw r s v
        ≡ some
            (after_one n s v, passed r (piece_size n) (take (piece_size n) (v.incoming r) ∷ []) v)
  one_round n s v on e up =
      linked_round g json k config u decode to_bytes w skip (some n) dial_ok draw r q s v on e
      ∙ ap (λ p. after_write r (after_box w r q s v p))
          (one_piece n (pc_accepts w s q) (v.incoming r) (v.boxes r) e.raw
            (accepts_now w s q works up))

  -- Two different connections that the server has linked with each other by boxes without
  -- functions; the first one is served, the second one is open, and writes to it succeed. Then any
  -- number of rounds of the first one's tcpHandler, one after the other, do not fail, whatever
  -- numbers of bytes their reads give: each delivers all that it reads, at most a buffer, so that the
  -- second one has got, after what it had got, as many bytes of those that were in flight, in their
  -- order, as the rounds have read together; the rest is still in flight. So it has got them all,
  -- when that number is not less than theirs.
  pub link_drains :
      (ns : List ℕ) (s : ProxyServer) (v : Wires)
      → v.serving r ≡ true
      → (s.clients q).disable ≡ false
      → End r q s v
      → End q r s v
      → let total = sum (map piece_size ns) in
        (t : ProxyServer) × ((v' : Wires) × (rounds g json k config u decode to_bytes w skip dial_ok
              draw r ns s v
            ≡ some (t, v'))
          × ((view r q v').there.delivered
              ≡ (view r q v).there.delivered ++ take total (view r q v).there.flight)
          × ((view r q v').there.flight ≡ drop total (view r q v).there.flight)
          × (v'.serving r ≡ true))
  link_drains [] s v on up e f =
      let out = concat (v.boxes r).link_written in
      let (took, left) = at_first (v.incoming r) in
      (s, (v, refl, sym (append-nil out) ∙ ap (λ x. out ++ x) (sym took), sym left, on))
  link_drains (n ∷ ns) s v on up e f =
      let m = piece_size n in
      let piece = take m (v.incoming r) ∷ [] in
      let s1 = after_one n s v in
      let v1 = passed r m piece v in
      let looks = passed-Looks r q m piece v ne in
      let (e1, f1) = Outcome-End ne e f (passes m on up (count_pieces-Keeps w q _ s) refl) in
      let (t, (v', run, got, left, on')) =
        link_drains ns s1 v1 (looks.on_x ∙ on) (count_pieces-disable w q q _ s ∙ up) e1 f1 in
      let total = sum (map piece_size ns) in
      let out = concat (v.boxes r).link_written in
      (
        t,
        (
          v',
          round_first g json k config u decode to_bytes w skip dial_ok draw r n ns s s1 v v1
                (one_round n s v on e up)
              ∙ run,
          got
              ∙ ap (λ x. x ++ take total (v1.incoming r))
                  (looks.out_x ∙ concat-piece (v.boxes r).link_written (take m (v.incoming r)))
              ∙ ap (λ x. (out ++ take m (v.incoming r)) ++ take total x) looks.inc_x
              ∙ append_assoc out (take m (v.incoming r)) (take total (drop m (v.incoming r)))
              ∙ ap (λ x. out ++ x) (take_more m total (v.incoming r)),
          left ∙ ap (drop total) looks.inc_x ∙ drop-drop m total (v.incoming r),
          on',
        ),
      )

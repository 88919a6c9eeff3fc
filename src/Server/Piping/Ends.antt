-- ===== src/Server/Piping/Ends.antt =====
-- The two ends of a link after a round, and how their wires look as a pair of pipes.
use go_cfc.Base.{
  ℕ, ◌≡◌, ◌≢◌, ◌⊎◌, inl, inr, refl, sym, ap, ◌∙◌, subst, Bool, true, false, Option, some, List, [],
  ◌∷◌, ◌++◌, Bytes, concat, take, drop, arith, Bool-cases, ◌&&◌, ◌==◌, if◌then◌else◌,
}
use mathlib.Core.List.{append-nil}
use go_cfc.Base.Lists.{concat-append}
use go_cfc.Wire.Cipher.{Gcm}
use go_cfc.Wire.Packet.{buffer_size}
use go_cfc.Wire.Message.{ConnMsg, Json, Data, Key}
use go_cfc.LinkBox.{LinkBox}
use go_cfc.Server.State.{ProxyServer, Config, World, Incoming}
use go_cfc.Server.Piping.{Wires, arrive, put_box, stop_serving, pc_accepts, count_pieces, tcp_round}
use go_cfc.Server.Piping.Ties.{Keeps, Keeps-trans, close-Keeps, close-disable, count_pieces-Keeps}
use go_cfc.Server.Piping.Pipes.{
  Duplex, End, Outcome, idle, passes, stops, passed, after_box, after_write, raw_round, some_pair,
  pc_accepts_open, idle_round, linked_round,
}

module _ (g : Gcm) (json : Json) (k : Key) (config : Config) (u : Incoming)
    (decode : ConnMsg (Data json.J) → ConnMsg u.D) (to_bytes : Data json.J → Option Bytes) where
  pub round_lem :
      (w : World) (skip : ℕ → Bool) (got : Option ℕ) (dial_ok : ℕ → Bool) (draw x y : ℕ)
      (s s1 : ProxyServer) (v v1 : Wires)
      → End x y s v
      → tcp_round g json k config u decode to_bytes w skip got dial_ok draw x s v ≡ some (s1, v1)
      → Outcome x y s v s1 v1
  unfolding put_box arrive
  round_lem w skip got dial_ok draw x y s s1 v v1 e h = elim (Bool-cases (v.serving x)) [
    | inr off ↦
        let (a, b) =
          some_pair h
            (idle_round g json k config u decode to_bytes w skip got dial_ok draw x s v off) in
        idle a b
    | inl on ↦
        let turn =
          linked_round g json k config u decode to_bytes w skip got dial_ok draw x y s v on e in
        elim (raw_round got (pc_accepts w s y) buffer_size (v.incoming x) (v.boxes x) e.raw) [
          | inl (n, taken, made) ↦
              let (a, b) =
                some_pair h (turn ∙ ap (λ p. after_write x (after_box w x y s v p)) made) in
              passes n on (pc_accepts_open w s y 0 taken)
                (subst (Keeps s) (sym a) (count_pieces-Keeps w y _ s)) b
          | inr (n, made) ↦
              let (a, b) =
                some_pair h (turn ∙ ap (λ p. after_write x (after_box w x y s v p)) made) in
              let s2 = count_pieces w y _ s in
              let kept = count_pieces-Keeps w y _ s in
              stops n (subst (Keeps s) (sym a) (Keeps-trans kept (close-Keeps x s2)))
                (subst (λ t. (t.clients x).disable ≡ true) (sym a)
                  (close-disable x s2 (kept.flags x e.flag)))
                (b
                  ∙ ap
                      (λ z. stop_serving x (
                        put_box x (record (v.boxes x) { link_written = z })
                          (arrive x (drop n (v.incoming x)) v)))
                      (sym (append-nil (v.boxes x).link_written)))
        ]
  ]

-- The pipes of a link between `r` and `q`: what the link box of one end has written to the other
-- is delivered, and what its reader has not read is in flight.
abbrev pub duplex : (a b c d : Bytes) → Bool → Duplex
duplex a b c d alive = record {
  there = record { delivered = a; flight = b };
  back = record { delivered = c; flight = d };
  alive = alive;
}

abbrev pub view : ℕ → ℕ → Wires → Duplex
view r q v =
    duplex (concat (v.boxes r).link_written) (v.incoming r) (concat (v.boxes q).link_written)
      (v.incoming q) (v.serving r && v.serving q)

pub here {ℓ} : {A : Type ℓ} (r : ℕ) (x y : A) → (if r == r then x else y) ≡ x
here r x y = ap (λ b. if b then x else y) (let e : (r == r) ≡ true = ground arith in e)

pub there_not {ℓ} : {A : Type ℓ} {r q : ℕ} (x y : A) → r ≢ q → (if r == q then x else y) ≡ y
there_not {r = r} {q} x y ne =
    ap (λ b. if b then x else y) (let e : (r == q) ≡ false = ground (arith, ne) in e)

pub concat-piece : (out : List Bytes) (b : Bytes) → concat (out ++ b ∷ []) ≡ concat out ++ b
concat-piece out b = concat-append out (b ∷ []) ∙ ap (λ x. concat out ++ x) (append-nil b)

pub duplex_eq :
    {a a' b b' c c' d d' : Bytes} {e e' : Bool}
    → a ≡ a'
    → b ≡ b'
    → c ≡ c'
    → d ≡ d'
    → e ≡ e'
    → duplex a b c d e ≡ duplex a' b' c' d' e'
duplex_eq {a} {a'} {b} {b'} {c} {c'} {d} {d'} {e} {e'} h1 h2 h3 h4 h5 =
    ap (λ x. duplex x b c d e) h1
    ∙ ap (λ x. duplex a' x c d e) h2
    ∙ ap (λ x. duplex a' b' x d e) h3
    ∙ ap (λ x. duplex a' b' c' x e) h4
    ∙ ap (λ x. duplex a' b' c' d' x) h5

-- How the wires of both ends look after each change, for the two ends `x` and `y`.
pub record Looks (x y : ℕ) (v : Wires) (out inc out' inc' : Bytes) (on on' : Bool) : Type 0 where
  pub out_x : concat (v.boxes x).link_written ≡ out
  pub inc_x : v.incoming x ≡ inc
  pub out_y : concat (v.boxes y).link_written ≡ out'
  pub inc_y : v.incoming y ≡ inc'
  pub on_x : v.serving x ≡ on
  pub on_y : v.serving y ≡ on'

pub arrive-Looks :
    (x y : ℕ) (b : Bytes) (v : Wires)
    → x ≢ y
    → Looks x y
        (arrive x b v)
        (concat (v.boxes x).link_written)
        b
        (concat (v.boxes y).link_written)
        (v.incoming y)
        (v.serving x)
        (v.serving y)
unfolding arrive
arrive-Looks x y b v ne = record {
  out_x = refl;
  inc_x = here x b (v.incoming x);
  out_y = refl;
  inc_y = there_not b (v.incoming y) ne;
  on_x = refl;
  on_y = refl;
}

pub passed-Looks :
    (x y n : ℕ) (piece : List Bytes) (v : Wires)
    → x ≢ y
    → Looks x y
        (passed x n piece v)
        (concat ((v.boxes x).link_written ++ piece))
        (drop n (v.incoming x))
        (concat (v.boxes y).link_written)
        (v.incoming y)
        (v.serving x)
        (v.serving y)
unfolding arrive put_box
passed-Looks x y n piece v ne =
    let rest = drop n (v.incoming x) in
    let lb : LinkBox = record (v.boxes x) { link_written = (v.boxes x).link_written ++ piece } in
    record {
      out_x = ap (λ (b : LinkBox). concat b.link_written) (here x lb (v.boxes x));
      inc_x = here x rest (v.incoming x);
      out_y = ap (λ (b : LinkBox). concat b.link_written) (there_not lb (v.boxes y) ne);
      inc_y = there_not rest (v.incoming y) ne;
      on_x = refl;
      on_y = refl;
    }

stopped-Looks :
    (x y : ℕ) (v : Wires)
    → x ≢ y
    → Looks x y
        (stop_serving x v)
        (concat (v.boxes x).link_written)
        (v.incoming x)
        (concat (v.boxes y).link_written)
        (v.incoming y)
        false
        (v.serving y)
unfolding stop_serving
stopped-Looks x y v ne = record {
  out_x = refl;
  inc_x = refl;
  out_y = refl;
  inc_y = refl;
  on_x = here x false (v.serving x);
  on_y = there_not false (v.serving y) ne;
}

-- After a round that fails.
pub cut-Looks :
    (x y n : ℕ) (v : Wires)
    → x ≢ y
    → Looks x y
        (stop_serving x (passed x n [] v))
        (concat (v.boxes x).link_written)
        (drop n (v.incoming x))
        (concat (v.boxes y).link_written)
        (v.incoming y)
        false
        (v.serving y)
cut-Looks x y n v ne =
    let a = passed-Looks x y n [] v ne in
    let b = stopped-Looks x y (passed x n [] v) ne in
    record {
      out_x = b.out_x ∙ a.out_x ∙ ap concat (append-nil (v.boxes x).link_written);
      inc_x = b.inc_x ∙ a.inc_x;
      out_y = b.out_y ∙ a.out_y;
      inc_y = b.inc_y ∙ a.inc_y;
      on_x = b.on_x;
      on_y = b.on_y ∙ a.on_y;
    }

pub view_there :
    {x y : ℕ} {v : Wires} {out inc out' inc' : Bytes} {on on' : Bool}
    → Looks x y v out inc out' inc' on on'
    → view x y v ≡ duplex out inc out' inc' (on && on')
view_there {on = on} {on'} l = duplex_eq l.out_x l.inc_x l.out_y l.inc_y (rw (l.on_x, l.on_y) refl)

pub view_back :
    {x y : ℕ} {v : Wires} {out inc out' inc' : Bytes} {on on' : Bool}
    → Looks x y v out inc out' inc' on on'
    → view y x v ≡ duplex out' inc' out inc (on' && on)
view_back l = duplex_eq l.out_y l.inc_y l.out_x l.inc_x (rw (l.on_x, l.on_y) refl)

pub and_true : {a b : Bool} → a ≡ true → b ≡ true → (a && b) ≡ true
and_true e h = rw (e, h) refl

pub and_false : (b : Bool) → (b && false) ≡ false
and_false true = refl
and_false false = refl

passed-read_fn :
    (x n : ℕ) (piece : List Bytes) (v : Wires) (p : ℕ)
    → ((passed x n piece v).boxes p).link_read_fn ≡ (v.boxes p).link_read_fn
unfolding put_box arrive
passed-read_fn x n piece v p = ground arith

-- An end stays one when what is linked stays linked, and when it is closed once it is not served.
pub End-Keeps :
    {x y : ℕ} {s s1 : ProxyServer} {v v1 : Wires}
    → End x y s v
    → Keeps s s1
    → (v1.boxes x).link_read_fn ≡ (v.boxes x).link_read_fn
    → (v1.serving x ≡ false → (v.serving x ≡ false) ⊎ ((s1.clients x).disable ≡ true))
    → End x y s1 v1
End-Keeps {x} {y} {s} {s1} e k same stay = record {
  switch = k.switches x ∙ e.switch;
  conn = k.peers x y e.conn;
  raw = same ∙ e.raw;
  flag = k.flags x e.flag;
  gone = λ h. elim (stay h) [ inl off ↦ k.closed x (e.gone off) | inr shut ↦ shut ];
}

-- Both ends after a round of one of them.
pub Outcome-End :
    {x y : ℕ} {s s1 : ProxyServer} {v v1 : Wires}
    → x ≢ y
    → End x y s v
    → End y x s v
    → Outcome x y s v s1 v1
    → End x y s1 v1 × End y x s1 v1
unfolding stop_serving put_box arrive
Outcome-End {x} {y} {s} {s1} {v} {v1} ne e f (idle a b) = (
  subst (λ z. End x y z v1) (sym a) (subst (End x y s) (sym b) e),
  subst (λ z. End y x z v1) (sym a) (subst (End y x s) (sym b) f),
)
Outcome-End {x} {y} {s} {s1} {v} {v1} ne e f (passes n on up kept b) =
    subst (λ z. End x y s1 z × End y x s1 z) (sym b)
      (
        End-Keeps e kept (passed-read_fn x n (take n (v.incoming x) ∷ []) v x) (λ h. inl h),
        End-Keeps f kept (passed-read_fn x n (take n (v.incoming x) ∷ []) v y) (λ h. inl h),
      )
Outcome-End {x} {y} {s} {s1} {v} {v1} ne e f (stops n kept shut b) =
    subst (λ z. End x y s1 z × End y x s1 z) (sym b)
      (
        End-Keeps e kept (passed-read_fn x n [] v x) (λ h. inr shut),
        End-Keeps f kept (passed-read_fn x n [] v y)
            (λ h. inl (sym (there_not false (v.serving y) ne) ∙ h)),
      )

-- The other end is served, if it is not closed.
pub served :
    {x y : ℕ} {s : ProxyServer} {v : Wires}
    → End x y s v
    → (s.clients x).disable ≡ false
    → v.serving x ≡ true
served {x} {v = v} e up = elim (Bool-cases (v.serving x)) [
  | inl on ↦ on
  | inr off ↦ let no = e.gone off in cc
]

-- ===== src/Server/Piping/Refinement.antt =====
-- The rounds of two linked connections implement a pair of pipes.
use go_cfc.Base.{ℕ, ◌≢◌, inl, refl, sym, ap, ◌∙◌, subst, Option, [], ◌∷◌, ◌++◌, Bytes, take, drop}
use go_cfc.Wire.Cipher.{Gcm}
use go_cfc.Wire.Message.{ConnMsg, Json, Data, Key}
use go_cfc.Server.State.{ProxyServer, Config, Incoming}
use go_cfc.Server.Closing.{close}
use go_cfc.Server.Piping.{Wires, arrive}
use go_cfc.Server.Piping.Ties.{Keeps-refl, close-Keeps}
use go_cfc.Server.Piping.Pipes.{
  Duplex, Spec, ends, puts, puts_back, delivers, delivers_back, cuts, Runs, rests, sends,
  sends_back, serves, serves_back, closes, End, Outcome, idle, passes, stops,
}
use go_cfc.Server.Piping.Order.{InOrder, Spec-InOrder}
use go_cfc.Server.Piping.Ends.{
  round_lem, view, concat-piece, duplex_eq, arrive-Looks, passed-Looks, cut-Looks, view_there,
  view_back, and_true, and_false, Outcome-End, served, End-Keeps,
}

-- A round of one end, as steps of the pipes, whatever comes after it.
serve_there :
    {r q : ℕ} {s s1 : ProxyServer} {v v1 : Wires} {x y : Bytes} {d : Duplex}
    → r ≢ q
    → End q r s v
    → Outcome r q s v s1 v1
    → Spec (view r q v1) x y d
    → Spec (view r q v) x y d
unfolding drop
serve_there {r} {q} {v = v} {v1} {x} {y} {d} ne f (idle a b) later =
    subst (λ z. Spec (view r q z) x y d) b later
serve_there {r} {q} {v = v} {v1} {x} {y} {d} ne f (passes n on up kept b) later =
    delivers n x y (view r q v) d (and_true on (served f up)) (
      subst (λ z. Spec z x y d)
        (ap (view r q) b
          ∙ view_there (passed-Looks r q n (take n (v.incoming r) ∷ []) v ne)
          ∙ duplex_eq (concat-piece (v.boxes r).link_written (take n (v.incoming r))) refl refl refl
              refl)
        later)
serve_there {r} {q} {v = v} {v1} {x} {y} {d} ne f (stops n kept shut b) later =
    cuts n 0 x y (view r q v) d
      (subst (λ z. Spec z x y d) (ap (view r q) b ∙ view_there (cut-Looks r q n v ne)) later)

serve_back :
    {r q : ℕ} {s s1 : ProxyServer} {v v1 : Wires} {x y : Bytes} {d : Duplex}
    → r ≢ q
    → End r q s v
    → Outcome q r s v s1 v1
    → Spec (view r q v1) x y d
    → Spec (view r q v) x y d
unfolding drop
serve_back {r} {q} {v = v} {v1} {x} {y} {d} ne e (idle a b) later =
    subst (λ z. Spec (view r q z) x y d) b later
serve_back {r} {q} {v = v} {v1} {x} {y} {d} ne e (passes n on up kept b) later =
    delivers_back n x y (view r q v) d (and_true (served e up) on) (
      subst (λ z. Spec z x y d)
        (ap (view r q) b
          ∙ view_back (passed-Looks q r n (take n (v.incoming q) ∷ []) v (λ h. ne (sym h)))
          ∙ duplex_eq refl refl (concat-piece (v.boxes q).link_written (take n (v.incoming q))) refl
              refl)
        later)
serve_back {r} {q} {v = v} {v1} {x} {y} {d} ne e (stops n kept shut b) later =
    cuts 0 n x y (view r q v) d (
      subst (λ z. Spec z x y d)
        (ap (view r q) b
          ∙ view_back (cut-Looks q r n v (λ h. ne (sym h)))
          ∙ duplex_eq refl refl refl refl (and_false (v.serving r)))
        later)

module _ (g : Gcm) (json : Json) (k : Key) (config : Config) (u : Incoming)
    (decode : ConnMsg (Data json.J) → ConnMsg u.D) (to_bytes : Data json.J → Option Bytes) where
  -- Two different connections that the server has linked with each other by boxes without
  -- functions. Whatever bytes their clients send, in whatever order and with whatever outcomes their
  -- tcpHandlers go round, and whatever connections are closed, what the two have got and have still
  -- to get is a run of a pair of pipes: each delivers what was put into it, in its order, while both
  -- tcpHandlers are served, and nothing any more after a round of either has failed.
  pub linked_clients_refine_pipes :
      (r q : ℕ) (s t : ProxyServer) (v v' : Wires) (x y : Bytes)
      → r ≢ q
      → End r q s v
      → End q r s v
      → Runs g json k config u decode to_bytes r q s v x y t v'
      → Spec (view r q v) x y (view r q v')
  unfolding arrive
  linked_clients_refine_pipes r q s _ v _ _ _ ne e f (rests _ _) = ends (view r q v)
  linked_clients_refine_pipes r q s t v v' _ y ne e f (sends b x _ _ _ _ _ run) =
      let v1 = arrive r (v.incoming r ++ b) v in
      puts b x y (view r q v) (view r q v') (
        subst (λ z. Spec z x y (view r q v'))
          (view_there (arrive-Looks r q (v.incoming r ++ b) v ne))
          (linked_clients_refine_pipes r q s t v1 v' x y ne
            (End-Keeps e (Keeps-refl s) refl (λ h. inl h))
            (End-Keeps f (Keeps-refl s) refl (λ h. inl h)) run))
  linked_clients_refine_pipes r q s t v v' x _ ne e f (sends_back b _ y _ _ _ _ run) =
      let v1 = arrive q (v.incoming q ++ b) v in
      puts_back b x y (view r q v) (view r q v') (
        subst (λ z. Spec z x y (view r q v'))
          (view_back (arrive-Looks q r (v.incoming q ++ b) v (λ h. ne (sym h))))
          (linked_clients_refine_pipes r q s t v1 v' x y ne
            (End-Keeps e (Keeps-refl s) refl (λ h. inl h))
            (End-Keeps f (Keeps-refl s) refl (λ h. inl h)) run))
  linked_clients_refine_pipes r q s t v v' x y ne e f
        (serves w skip got dial_ok draw _ _ _ s1 _ _ v1 _ h run) =
      let turn =
        round_lem g json k config u decode to_bytes w skip got dial_ok draw r q s s1 v v1 e h in
      let (e1, f1) = Outcome-End ne e f turn in
      serve_there ne f turn (linked_clients_refine_pipes r q s1 t v1 v' x y ne e1 f1 run)
  linked_clients_refine_pipes r q s t v v' x y ne e f
        (serves_back w skip got dial_ok draw _ _ _ s1 _ _ v1 _ h run) =
      let turn =
        round_lem g json k config u decode to_bytes w skip got dial_ok draw q r s s1 v v1 f h in
      let (f1, e1) = Outcome-End (λ h. ne (sym h)) f e turn in
      serve_back ne e turn (linked_clients_refine_pipes r q s1 t v1 v' x y ne e1 f1 run)
  linked_clients_refine_pipes r q s t v v' x y ne e f (closes p _ _ _ _ _ _ run) =
      linked_clients_refine_pipes r q (close p s) t v v' x y ne
        (End-Keeps e (close-Keeps p s) refl (λ h. inl h))
        (End-Keeps f (close-Keeps p s) refl (λ h. inl h)) run

  -- Two different connections that the server has linked with each other by boxes without
  -- functions, and a run in which their clients send bytes, their tcpHandlers go round with any
  -- outcomes, and connections are closed. What either connection has got at its end begins what it
  -- had got, followed by what was on its way and by what the other client has sent, without a gap.
  -- While both tcpHandlers are served, the rest is still on its way.
  pub linked_clients-InOrder :
      (r q : ℕ) (s t : ProxyServer) (v v' : Wires) (x y : Bytes)
      → r ≢ q
      → End r q s v
      → End q r s v
      → Runs g json k config u decode to_bytes r q s v x y t v'
      → InOrder (view r q v).there x (view r q v').there (view r q v').alive
        × InOrder (view r q v).back y (view r q v').back (view r q v').alive
  linked_clients-InOrder r q s t v v' x y ne e f run =
      Spec-InOrder (view r q v) (view r q v') x y
        (linked_clients_refine_pipes r q s t v v' x y ne e f run)

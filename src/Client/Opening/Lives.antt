-- ===== src/Client/Opening/Lives.antt =====
-- The life of a box as steps: opening sub boxes in each of the three ways, listening for them, writing, and closing.
use go_cfc.Base.{
  ℕ, ◌<◌, inl, inr, Option-cases, ◌≡◌, refl, subst, Bool, true, false, not, Option, some, String,
  Bytes, length, ◌==◌, ◌&&◌, arith, str_eq, if_case,
}
use go_cfc.Base.Assoc.{lookup, insert}
use go_cfc.Wire.Message.{ConnMsg}
use go_cfc.Server.State.{World, SubInfo}
use go_cfc.Client.Errors.{ClientError, Answer, Try, fine, fault, Replies, Try-cases}
use go_cfc.Client.State.{DeviceBox, SubBox, Listening, update, new_box, new_sub}
use go_cfc.Client.Boxes.{close_sub, set_inner_sub, close_box, write_sub, write_box}
use go_cfc.Client.Boxes.Closed.{close_sub-Shuts}
use go_cfc.Client.Opening.{
  get_sub_box, get_sub_box_by_p2p, listen_sub, listen_sub_box, listen_sub_box_once,
}
use go_cfc.Client.Up2p.{Punching, handle_up2p, get_sub_box_by_up2p, listen_up2p}
use go_cfc.Client.Opening.Ways.{LeavesLate, get_sub_box_by_up2p-Late}
use go_cfc.Client.Opening.Login.{handshake_check}
use go_cfc.Client.Opening.Steps.{
  Sound, Sound-Shuts, quiet-Shuts, new_sub-Sound, get_sub_box-Sound, get_sub_box_by_p2p-Sound,
}
use go_cfc.Client.Opening.Reach.{
  same-Shuts, Leaves, offer-Sound, listen_sub-Sound, handshake_check-Sound, LeavesClosed,
  close_box-Sound,
}

-- A call on the box or on one of its sub boxes, from start to end: the three ways to open a sub
-- box, what a message of the server makes of a listening box, and the rest.
pub data Step (r : Replies) : DeviceBox → DeviceBox → Type 0 where
  shakes : (a b : Answer r.D) (s : DeviceBox) → Step r s (handshake_check r a b s).1
  opens : (w : World) (a b : Answer r.D) (s : DeviceBox) → Step r s (get_sub_box r w a b s).1
  opens_p2p :
      (w : World) (a b : Answer r.D) (listens : Bool) (accepted : Option String) (s : DeviceBox)
      → Step r s (get_sub_box_by_p2p r w a b listens accepted s).1
  opens_up2p :
      (w : World) (bytes_of : String → Bytes) (a b : Answer r.D) (p : Punching) (res : Try ℕ)
      (s t : DeviceBox)
      → get_sub_box_by_up2p r w bytes_of a b p s ≡ some (res, t)
      → Step r s t
  offers_up2p :
      (w : World) (bytes_of : String → Bytes) (m : ConnMsg r.D) (b : Answer r.D) (p : Punching)
      (stopped : Bool) (s t : DeviceBox)
      → listen_up2p r w bytes_of m b p stopped s ≡ some t
      → Step r s t
  offers :
      (w : World) (m : ConnMsg r.D) (b : Answer r.D) (listens : Bool) (dials : ℕ → Option String)
      (stopped : Bool) (s t : DeviceBox)
      → listen_sub r w m b listens dials stopped s ≡ some t
      → Step r s t
  starts : (panics : Bool) (s t : DeviceBox) → listen_sub_box panics s ≡ some t → Step r s t
  starts_once : (s : DeviceBox) → Step r s (listen_sub_box_once s)
  -- a round of ListenSubBox or the end of ListenSubBoxOnce, on the channels alone
  receives : (l : Listening) (s : DeviceBox) → Step r s (record s { listening = some l })
  links : (q : ℕ) (key : String) (sub : ℕ) (s : DeviceBox) → Step r s (set_inner_sub q key sub s)
  writes_sub :
      (q : ℕ) (accepts : Bool) (now : ℕ) (b : Bytes) (s : DeviceBox)
      → Step r s (update q (λ c. (write_sub accepts now b c).1) s)
  writes :
      (accepts : Bool) (now : ℕ) (b : Bytes) (s : DeviceBox)
      → Step r s (write_box accepts now b s).1
  closes_sub : (q : ℕ) (s : DeviceBox) → Step r s (close_sub q s).1
  closes : (e : Option ClientError) (s t : DeviceBox) → close_box s ≡ some (e, t) → Step r s t

-- The boxes that come of a new one, in whose heap nothing is closed.
pub data Lives (r : Replies) : DeviceBox → Type 0 where
  born :
      (w : World) (subs : ℕ → SubBox) (name addr : String) (key : Bytes) (is_anonymity : Bool)
      (box : DeviceBox)
      → ((q : ℕ) → (subs q).once ≡ false)
      → new_box w subs name addr key is_anonymity ≡ fine box
      → Lives r (record box { has_conn = true })
  after : (s t : DeviceBox) → Lives r s → Step r s t → Lives r t

abbrev LeavesNew : Try DeviceBox → Type 0
LeavesNew (fault e) = Unit {0}
LeavesNew (fine box) = Sound box

new_box-Sound :
    (w : World) (subs : ℕ → SubBox) (name addr : String) (key : Bytes) (is_anonymity : Bool)
    → ((q : ℕ) → (subs q).once ≡ false)
    → LeavesNew (new_box w subs name addr key is_anonymity)
unfolding new_box lookup
new_box-Sound w subs name addr key is_anonymity h =
    if_case LeavesNew (str_eq name "" && not is_anonymity) (λ _. tt)
      (λ _.
        if_case LeavesNew (not (length key == 32)) (λ _. tt)
          (λ _.
            if_case LeavesNew (not (w.resolve_tcp addr)) (λ _. tt)
              (λ _. record {
                flags = λ q e. ground (arith, h q);
                below = λ k q e. ground arith;
                gone = λ k q d e. ground arith;
              })))

write_sub_quiet :
    (accepts : Bool) (now : ℕ) (b : Bytes) (c : SubBox)
    → ((write_sub accepts now b c).1.disable ≡ c.disable)
      × ((write_sub accepts now b c).1.once ≡ c.once)
unfolding write_sub
write_sub_quiet accepts now b c = (ground arith, ground arith)

write_box-Sound :
    (accepts : Bool) (now : ℕ) (b : Bytes) (s : DeviceBox)
    → Sound s
    → Sound (write_box accepts now b s).1
unfolding write_box
write_box-Sound accepts now b s v =
    if_case {A = Option ClientError × DeviceBox} (λ p. Sound p.1) s.disable (λ _. v)
      (λ _.
        if_case {A = Option ClientError × DeviceBox} (λ p. Sound p.1) (not accepts) (λ _. v)
          (λ _. Sound-Shuts (same-Shuts refl refl refl refl) v))

set_inner_sub-Sound :
    (q : ℕ) (key : String) (sub : ℕ) (s : DeviceBox) → Sound s → Sound (set_inner_sub q key sub s)
unfolding set_inner_sub
set_inner_sub-Sound q key sub s v =
    if_case Sound (s.subs q).disable (λ _. Sound-Shuts (close_sub-Shuts q s) v)
      (λ _.
        Sound-Shuts
          (quiet-Shuts q (λ c. record c { sub_map = insert key sub c.sub_map }) s (λ c. refl)
            (λ c. refl))
          v)

listen_sub_box-Sound :
    (panics : Bool) (s : DeviceBox) → Sound s → Leaves Sound (listen_sub_box panics s)
unfolding listen_sub_box
listen_sub_box-Sound panics s v =
    if_case (Leaves Sound) s.is_listen (λ _. if_case (Leaves Sound) panics (λ _. tt) (λ _. v))
      (λ _. Sound-Shuts (same-Shuts refl refl refl refl) v)

below_new :
    (w : World) (info : SubInfo) (near far : String) (s : DeviceBox)
    → s.next < (new_sub w "" (some info) near far s).next
unfolding new_sub
below_new w info near far s = omega arith

listen_up2p-Sound :
    (r : Replies) (w : World) (bytes_of : String → Bytes) (m : ConnMsg r.D) (b : Answer r.D)
    (p : Punching) (stopped : Bool) (s : DeviceBox)
    → Sound s
    → Leaves Sound (listen_up2p r w bytes_of m b p stopped s)
unfolding listen_up2p
listen_up2p-Sound r w bytes_of m b p stopped s v = elim (Option-cases (r.to_up2p_id m.payload)) [
  | inl h ↦ rw (h, listen_up2p) v
  | inr (kid, h) ↦ elim (Option-cases (handle_up2p r false p (bytes_of kid) b)) [
    | inl k ↦ rw (h, listen_up2p, k) tt
    | inr (res, k) ↦ elim (Try-cases res) [
      | inl (e, f) ↦ rw (h, listen_up2p, k, f) v
      | inr (((near, far), info), f) ↦ elim (Option-cases s.listening) [
        | inl i ↦ rw (h, listen_up2p, k, f, i) tt
        | inr (l, i) ↦
            let n = new_sub w "" (some info) near far s in
            rw (h, listen_up2p, k, f, i)
              (offer-Sound r stopped s.next l n (below_new w info near far s)
                (new_sub-Sound w "" (some info) near far s v))
      ]
    ]
  ]
]

step-Sound : (r : Replies) (s t : DeviceBox) → Sound s → Step r s t → Sound t
unfolding listen_sub_box_once
step-Sound r _ _ v (shakes a b s) = handshake_check-Sound r a b s v
step-Sound r _ _ v (opens w a b s) = get_sub_box-Sound r w a b s v
step-Sound r _ _ v (opens_p2p w a b listens accepted s) =
    get_sub_box_by_p2p-Sound r w a b listens accepted s v
step-Sound r _ _ v (opens_up2p w bytes_of a b p res s t e) =
    (subst (LeavesLate s) e (get_sub_box_by_up2p-Late r w bytes_of a b p s v)).sound
step-Sound r _ _ v (offers_up2p w bytes_of m b p stopped s t e) =
    subst (Leaves Sound) e (listen_up2p-Sound r w bytes_of m b p stopped s v)
step-Sound r _ _ v (offers w m b listens dials stopped s t e) =
    subst (Leaves Sound) e (listen_sub-Sound r w m b listens dials stopped s v)
step-Sound r _ _ v (starts panics s t e) = subst (Leaves Sound) e (listen_sub_box-Sound panics s v)
step-Sound r _ _ v (starts_once s) = Sound-Shuts (same-Shuts refl refl refl refl) v
step-Sound r _ _ v (receives l s) = Sound-Shuts (same-Shuts refl refl refl refl) v
step-Sound r _ _ v (links q key sub s) = set_inner_sub-Sound q key sub s v
step-Sound r _ _ v (writes_sub q accepts now b s) =
    Sound-Shuts
      (quiet-Shuts q (λ c. (write_sub accepts now b c).1) s
        (λ c. (write_sub_quiet accepts now b c).0) (λ c. (write_sub_quiet accepts now b c).1))
      v
step-Sound r _ _ v (writes accepts now b s) = write_box-Sound accepts now b s v
step-Sound r _ _ v (closes_sub q s) = Sound-Shuts (close_sub-Shuts q s) v
step-Sound r _ _ v (closes e s t k) = subst LeavesClosed k (close_box-Sound s v)

pub Lives-Sound : (r : Replies) (s : DeviceBox) → Lives r s → Sound s
Lives-Sound r _ (born w subs name addr key is_anonymity box h e) =
    Sound-Shuts (same-Shuts refl refl refl refl)
      (subst LeavesNew e (new_box-Sound w subs name addr key is_anonymity h))
Lives-Sound r _ (after s t l step) = step-Sound r s t (Lives-Sound r s l) step
